-- ===== src/ScVal/Struct.antt =====
-- bindings/scval/scval.go: `BuildStructScVal`, the Soroban map of a struct's fields, whose keys are
-- sorted. A Go map is an association list in the order of its iteration.
use mathlib.Core.List.{map}
use chainlink_stellar.Prelude.{
  Bool, true, false, some, none, List, [], ◌∷◌, ltb, nat_eq, ◌&&◌, ◌||◌, if◌then◌else◌,
}
use chainlink_stellar.Prelude.Map.{Map, get}
use chainlink_stellar.Config.{Bytes, Bytes_equality}
use chainlink_stellar.ScVal.{ScVal, scv_symbol, scv_map, scv_bool, entries, Entries, entry, end}

-- The order of Go strings.
unfoldable pub bytes_ltb : Bytes → Bytes → Bool
bytes_ltb [] [] = false
bytes_ltb [] (b ∷ bs) = true
bytes_ltb (a ∷ as') [] = false
bytes_ltb (a ∷ as') (b ∷ bs) = ltb a b || nat_eq a b && bytes_ltb as' bs

unfoldable pub insert_key : Bytes → List Bytes → List Bytes
unfolding bytes_ltb
insert_key k [] = k ∷ []
insert_key k (j ∷ js) = if bytes_ltb j k then j ∷ insert_key k js else k ∷ j ∷ js

-- `sort.Strings`.
unfoldable pub sort_keys : List Bytes → List Bytes
unfolding insert_key
sort_keys [] = []
sort_keys (k ∷ ks) = insert_key k (sort_keys ks)

-- `fields[k]`, which is the zero `ScVal` if there is none.
abbrev pub field_at : Map Bytes ScVal → Bytes → ScVal
field_at fields k = elim (get k fields) [ none ↦ scv_bool none | some v ↦ v ]

abbrev pub keys : Map Bytes ScVal → List Bytes
keys = map λ e. e.0

abbrev pub entries_at : Map Bytes ScVal → List Bytes → Entries
entries_at fields [] = end
entries_at fields (k ∷ ks) = entry (scv_symbol (some k)) (field_at fields k) (entries_at fields ks)

unfoldable pub build_struct_scval : Map Bytes ScVal → ScVal
unfolding sort_keys
build_struct_scval fields = scv_map (entries (entries_at fields (sort_keys (keys fields))))
