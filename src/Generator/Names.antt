-- ===== src/Generator/Names.antt =====
-- bindings/generator/codegen.go and client_codegen.go: the names and types of the Go code, and what is
-- read of a Rust type. `knownEnumNames` is an argument.
use chainlink_stellar.Prelude.{
  ℕ, zero, suc, Bool, true, false, none, some, List, [], ◌∷◌, ◌++◌, map, length, is_some,
  if◌then◌else◌, ◌==◌,
}
use chainlink_stellar.Prelude.Int64.{Int64, int64}
use chainlink_stellar.Prelude.Map.{Map, get, put}
use chainlink_stellar.Config.{Bytes, bytes, Bytes_equality, is_prefix, to_lower}
use chainlink_stellar.Generator.{Enum, is_unit}
use chainlink_stellar.Generator.Text.{
  trim_space, trim_prefix, trim_last, split_from, concat, last_part, decimal, sprintf, sscanf_d,
  upper, is_upper,
}

abbrev pub Known : Type 0
Known = Map Bytes Bool

unfoldable pub enum_names : Known → List Enum → Known
unfolding is_unit put
enum_names known [] = known
enum_names known (e ∷ es) = enum_names (put e.name (is_unit e) known) es

unfoldable pub extract_struct_name : Bytes → Bytes
unfolding last_part
extract_struct_name t = last_part t t

unfoldable pub is_enum_type : Known → Bytes → Bool
unfolding get extract_struct_name
is_enum_type known t = is_some (get (extract_struct_name t) known)

unfoldable pub is_unit_enum_type : Known → Bytes → Bool
unfolding get extract_struct_name
is_unit_enum_type known t = elim (get (extract_struct_name t) known) [ none ↦ false | some u ↦ u ]

unfoldable pub extract_vec_inner_type : Bytes → Bytes
unfolding trim_space trim_last trim_prefix
extract_vec_inner_type t = trim_space (trim_last (trim_prefix t (bytes "soroban_sdk::Vec<")) 62)

unfoldable pub extract_option_inner_type : Bytes → Bytes
unfolding trim_space trim_last trim_prefix
extract_option_inner_type t = trim_space (trim_last (trim_prefix t (bytes "Option<")) 62)

unfoldable pub bytes_n_text : Bytes → Bytes
unfolding trim_last trim_prefix
bytes_n_text t = trim_last (trim_prefix t (bytes "soroban_sdk::BytesN<")) 62

unfoldable pub extract_bytes_n_size : Bytes → Int64
unfolding is_prefix bytes_n_text trim_space sscanf_d
extract_bytes_n_size t =
    if is_prefix (bytes "soroban_sdk::BytesN<") t
    then sscanf_d (trim_space (bytes_n_text t))
    else int64 0

-- The types that a `switch` of `rustTypeToGo` names.
abbrev pub scalar_types : Map Bytes Bytes
scalar_types =
    (bytes "u64", bytes "uint64")
    ∷ (bytes "u32", bytes "uint32")
    ∷ (bytes "u128", bytes "scval.U128")
    ∷ (bytes "i128", bytes "int64")
    ∷ (bytes "bool", bytes "bool")
    ∷ (bytes "soroban_sdk::Address", bytes "string")
    ∷ (bytes "soroban_sdk::Bytes", bytes "[]byte")
    ∷ (bytes "soroban_sdk::Symbol", bytes "string")
    ∷ (bytes "soroban_sdk::String", bytes "string")
    ∷ []

-- `rustTypeToGo` on fuel, the length of the type: an inner type is shorter.
unfoldable pub go_type_on : ℕ → Bytes → Bytes
unfolding sprintf get is_prefix bytes_n_text extract_vec_inner_type extract_option_inner_type
    extract_struct_name
go_type_on zero t = extract_struct_name t
go_type_on (suc f) t = elim (get t scalar_types) [
  | some go ↦ go
  | none ↦ elim (is_prefix (bytes "Option<") t) [
    | true ↦ elim (extract_option_inner_type t == bytes "soroban_sdk::Address") [
      | true ↦ bytes "*string"
      | false ↦ bytes "*" ++ go_type_on f (extract_option_inner_type t)
    ]
    | false ↦ elim (is_prefix (bytes "soroban_sdk::BytesN<") t) [
      | true ↦ sprintf (bytes "[%s]byte") (bytes_n_text t ∷ [])
      | false ↦ elim (is_prefix (bytes "soroban_sdk::Vec<") t) [
        | true ↦ bytes "[]" ++ go_type_on f (extract_vec_inner_type t)
        | false ↦ extract_struct_name t
      ]
    ]
  ]
]

unfoldable pub rust_type_to_go : Bytes → Bytes
unfolding go_type_on
rust_type_to_go t = go_type_on (length t) t

abbrev pub first_upper : Bytes → Bytes
first_upper [] = []
first_upper (b ∷ bs) = upper b ∷ bs

unfoldable pub snake_to_pascal : Bytes → Bytes
unfolding split_from concat
snake_to_pascal s = concat (map first_upper (split_from [] 95 s))

abbrev pub camel_parts : List Bytes → List Bytes
camel_parts [] = []
camel_parts (p ∷ ps) = p ∷ map first_upper ps

unfoldable pub snake_to_camel : Bytes → Bytes
unfolding split_from concat
snake_to_camel s = concat (camel_parts (split_from [] 95 s))

-- A blank before each capital but the first byte.
abbrev pub spaced : Bytes → Bytes
spaced [] = []
spaced (b ∷ bs) = if is_upper b then 32 ∷ b ∷ spaced bs else b ∷ spaced bs

unfoldable pub camel_to_spaces : Bytes → Bytes
unfolding to_lower
camel_to_spaces [] = []
camel_to_spaces (b ∷ bs) = to_lower (b ∷ spaced bs)

unfoldable pub tuple_field_name : ℕ → Bytes
unfolding decimal
tuple_field_name i = bytes "Field" ++ decimal i
