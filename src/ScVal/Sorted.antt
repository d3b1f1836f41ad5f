-- ===== src/ScVal/Sorted.antt =====
-- bindings/scval/scval.go, `BuildStructScVal`: the entries of the value, which do not depend on the
-- order in which Go iterates over the fields.
use mathlib.Core.List.{map}
use chainlink_stellar.Prelude.{
  ◌≡◌, refl, sym, ap, ◌∙◌, List, [], ◌∷◌, ◌==◌, arith, Bool-cases, inl, inr, is_some, Option, some,
  none, if◌then◌else◌,
}
use chainlink_stellar.Prelude.Map.{Map, Unique, get}
use chainlink_stellar.Config.{Bytes, Bytes_equality, contains_hint}
use chainlink_stellar.ScVal.{ScVal, scv_map, entries, Entries, entry, end}
use chainlink_stellar.ScVal.Codec.{symbol_from_scval}
use chainlink_stellar.ScVal.Struct.{sort_keys, keys, field_at, entries_at, build_struct_scval}
use chainlink_stellar.ScVal.Increasing.{
  IsIncreasing, IsIncreasing-ext, contains_hint-sort_keys, insert_key-IsIncreasing,
}

contains_hint-keys :
    (j : Bytes) (m : Map Bytes ScVal) → contains_hint (keys m) j ≡ is_some (get j m)
unfolding contains_hint get
contains_hint-keys j [] = refl
contains_hint-keys j ((k, v) ∷ m) = ground (arith, contains_hint-keys j m)

sort_keys-IsIncreasing : (m : Map Bytes ScVal) → Unique m → IsIncreasing (sort_keys (keys m))
unfolding sort_keys
sort_keys-IsIncreasing [] u = tt
sort_keys-IsIncreasing ((k, v) ∷ m) u =
    insert_key-IsIncreasing k (sort_keys (keys m))
      (contains_hint-sort_keys k (keys m) ∙ contains_hint-keys k m ∙ rw u.0 refl)
      (sort_keys-IsIncreasing m u.1)

entries_at_ext :
    (m m' : Map Bytes ScVal) (ks : List Bytes)
    → ((k : Bytes) → get k m ≡ get k m')
    → entries_at m ks ≡ entries_at m' ks
entries_at_ext m m' [] h = refl
entries_at_ext m m' (k ∷ ks) h = ground (arith, h k, entries_at_ext m m' ks h)

sort_keys_ext :
    (m m' : Map Bytes ScVal)
    → Unique m
    → Unique m'
    → ((k : Bytes) → get k m ≡ get k m')
    → sort_keys (keys m) ≡ sort_keys (keys m')
sort_keys_ext m m' u u' h =
    IsIncreasing-ext _ _ (sort_keys-IsIncreasing m u) (sort_keys-IsIncreasing m' u') λ k.
      contains_hint-sort_keys k (keys m)
      ∙ contains_hint-keys k m
      ∙ ap is_some (h k)
      ∙ sym (contains_hint-keys k m')
      ∙ sym (contains_hint-sort_keys k (keys m'))

-- The symbols that the keys of a map's entries are.
abbrev entry_keys : Entries → List (Option Bytes)
entry_keys end = []
entry_keys (entry key val es) = symbol_from_scval key ∷ entry_keys es

-- The value of the first entry whose key is the symbol.
abbrev value_at : Bytes → Entries → Option ScVal
value_at k end = none
value_at k (entry key val es) = elim (symbol_from_scval key) [
  | none ↦ value_at k es
  | some j ↦ if j == k then some val else value_at k es
]

-- The value is a map whose keys are symbols in strictly increasing order and that has exactly the
-- fields, each with its own value.
pub record IsCanonical (fields : Map Bytes ScVal) (v : ScVal) : Type 0 where
  pub es : Entries
  pub ks : List Bytes
  pub is_map : v ≡ scv_map (entries es)
  pub symbols : entry_keys es ≡ map some ks
  pub increasing : IsIncreasing ks
  pub values : (k : Bytes) → value_at k es ≡ get k fields

entry_keys-entries_at :
    (m : Map Bytes ScVal) (ks : List Bytes) → entry_keys (entries_at m ks) ≡ map some ks
unfolding symbol_from_scval
entry_keys-entries_at m [] = refl
entry_keys-entries_at m (k ∷ ks) = ap (λ t. some k ∷ t) (entry_keys-entries_at m ks)

value_at-entries_at :
    (m : Map Bytes ScVal) (k : Bytes) (ks : List Bytes)
    → value_at k (entries_at m ks) ≡ (if contains_hint ks k then some (field_at m k) else none)
unfolding contains_hint symbol_from_scval
value_at-entries_at m k [] = refl
value_at-entries_at m k (j ∷ ks) = elim (Bool-cases (j == k)) [
  | inl e ↦ let same = (Bytes_equality.test_iff j k).0 e in rw e (rw same refl)
  | inr e ↦ rw e (value_at-entries_at m k ks)
]

value_at-sort_keys :
    (m : Map Bytes ScVal) (k : Bytes) → value_at k (entries_at m (sort_keys (keys m))) ≡ get k m
value_at-sort_keys m k =
    value_at-entries_at m k (sort_keys (keys m))
    ∙ ap (λ b. if b then some (field_at m k) else none)
        (contains_hint-sort_keys k (keys m) ∙ contains_hint-keys k m)
    ∙ present (get k m) refl
  where
    present :
        (o : Option ScVal)
        → get k m ≡ o
        → (if is_some (get k m) then some (field_at m k) else none) ≡ get k m
    present none e = rw e refl
    present (some v) e = rw (e, field_at) refl

-- The value of a struct with distinct field names is canonical: it is a map whose keys are symbols
-- in strictly increasing order and in which each field, and nothing else, has its value; and two
-- orders in which Go may iterate over the same fields give the same value.
pub build_struct_scval-IsCanonical :
    (fields fields' : Map Bytes ScVal)
    → Unique fields
    → Unique fields'
    → ((k : Bytes) → get k fields ≡ get k fields')
    → IsCanonical fields (build_struct_scval fields)
      × (build_struct_scval fields ≡ build_struct_scval fields')
unfolding build_struct_scval
build_struct_scval-IsCanonical m m' u u' h = (
  record {
    es = entries_at m (sort_keys (keys m));
    ks = sort_keys (keys m);
    is_map = refl;
    symbols = entry_keys-entries_at m (sort_keys (keys m));
    increasing = sort_keys-IsIncreasing m u;
    values = value_at-sort_keys m;
  },
  ap (λ es. scv_map (entries es))
      (ap (entries_at m) (sort_keys_ext m m' u u' h) ∙ entries_at_ext m m' _ h),
)
