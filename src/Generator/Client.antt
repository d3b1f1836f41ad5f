-- ===== src/Generator/Client.antt =====
-- bindings/generator/client_codegen.go: what is read of a function's types; the children write the
-- client.
mod Tuples
mod Returns
mod Events
mod Methods
pub mod File
use chainlink_stellar.Prelude.{
  ℕ, zero, suc, Bool, true, false, not, ◌&&◌, ◌||◌, Option, none, some, List, [], ◌∷◌, ◌++◌, map,
  length, is_some, if◌then◌else◌, ◌==◌,
}
use chainlink_stellar.Prelude.Map.{Map, get}
use chainlink_stellar.Config.{Bytes, bytes, Bytes_equality, is_prefix, contains, to_lower}
use chainlink_stellar.Generator.{Function}
use chainlink_stellar.Generator.Text.{
  trim_space, trim_prefix, trim_last, ends_with, join, sprintf, decimal_int,
}
use chainlink_stellar.Generator.Split.{split_return_type}
use chainlink_stellar.Generator.Names.{
  Known, is_enum_type, is_unit_enum_type, extract_struct_name, extract_bytes_n_size,
  extract_option_inner_type, extract_vec_inner_type, scalar_types,
}
use chainlink_stellar.Generator.Encoders.{is_optional_address, slice_converter, scalar_converters}

unfoldable pub is_read_only_function : Function → Bool
unfolding to_lower is_prefix
is_read_only_function fn =
    let name = to_lower fn.name in
    is_prefix (bytes "get_") name
    || (is_prefix (bytes "is_") name || (name == bytes "owner" || name == bytes "balance"))

-- `none` is a function that returns no value.
abbrev pub first_type : Bytes → List Bytes → Option Bytes
first_type whole [] = some whole
first_type whole (p ∷ ps) = if trim_space p == bytes "()" then none else some (trim_space p)

unfoldable pub parse_return_type : Bytes → Option Bytes
unfolding trim_space trim_last trim_prefix is_prefix split_return_type
parse_return_type s =
    let t = trim_space s in
    if t == []
    then none
    else if is_prefix (bytes "Option<") t
    then some t
    else if is_prefix (bytes "Result<") t
    then first_type t (split_return_type (trim_last (trim_prefix t (bytes "Result<")) 62))
    else some t

-- `isStructType` on fuel, the length of the type.
unfoldable pub is_struct_type_on : ℕ → Known → Bytes → Bool
unfolding is_enum_type get is_prefix extract_option_inner_type
is_struct_type_on zero known t = not (is_enum_type known t)
is_struct_type_on (suc f) known t =
    let inner = is_struct_type_on f known (extract_option_inner_type t) in
    if is_enum_type known t
    then false
    else if is_some (get t scalar_types)
    then false
    else if is_prefix (bytes "soroban_sdk::") t
    then false
    else if is_prefix (bytes "Option<") t
    then inner
    else true

unfoldable pub is_struct_type : Known → Bytes → Bool
unfolding is_struct_type_on
is_struct_type known t = is_struct_type_on (length t) known t

unfoldable pub is_tuple_type : Bytes → Bool
unfolding is_prefix ends_with
is_tuple_type t = is_prefix (bytes "(") t && ends_with t 41

unfoldable pub parse_tuple_types : Bytes → List Bytes
unfolding trim_last trim_prefix split_return_type
parse_tuple_types t = split_return_type (trim_last (trim_prefix t (bytes "(")) 41)

abbrev pub zero_values : Map Bytes Bytes
zero_values =
    (bytes "u64", bytes "0")
    ∷ (bytes "u32", bytes "0")
    ∷ (bytes "i128", bytes "0")
    ∷ (bytes "u128", bytes "scval.U128{}")
    ∷ (bytes "bool", bytes "false")
    ∷ (bytes "soroban_sdk::Address", bytes "\"\"")
    ∷ (bytes "soroban_sdk::String", bytes "\"\"")
    ∷ (bytes "soroban_sdk::Symbol", bytes "\"\"")
    ∷ []

-- `zeroValue` of a type that is no tuple.
unfoldable pub single_zero_value : Known → Bytes → Bytes
unfolding get is_prefix sprintf decimal_int extract_bytes_n_size is_enum_type is_unit_enum_type
    extract_struct_name
single_zero_value known t = elim (get t zero_values) [
  | some z ↦ z
  | none ↦
      if is_prefix (bytes "Option<") t
      then bytes "nil"
      else if is_prefix (bytes "soroban_sdk::BytesN<") t
      then sprintf (bytes "[%d]byte{}") (decimal_int (extract_bytes_n_size t) ∷ [])
      else if is_enum_type known t
      then (if is_unit_enum_type known t then bytes "0" else extract_struct_name t ++ bytes "{}")
      else bytes "nil"
]

-- On fuel, the length of the type: the parts of a tuple are shorter.
unfoldable pub zero_value_on : ℕ → Known → Bytes → Bytes
unfolding is_tuple_type parse_tuple_types single_zero_value join
zero_value_on zero known t = single_zero_value known t
zero_value_on (suc f) known t = elim (is_tuple_type t) [
  | true ↦ join (bytes ", ") (map (zero_value_on f known) (parse_tuple_types t))
  | false ↦ single_zero_value known t
]

unfoldable pub zero_value : Known → Bytes → Bytes
unfolding zero_value_on
zero_value known t = zero_value_on (length t) known t

-- The scalars of `getArgConverter`: the ones of `getToScValConverter` but for a string.
abbrev pub arg_scalar : Bytes → Option Bytes
arg_scalar t = if t == bytes "soroban_sdk::String" then none else get t scalar_converters

unfoldable pub get_arg_converter : Bytes → Bytes → Bytes
unfolding get sprintf is_prefix contains extract_bytes_n_size decimal_int slice_converter
    extract_vec_inner_type
get_arg_converter t var_name = elim (arg_scalar t) [
  | some format ↦ sprintf format (var_name ∷ [])
  | none ↦
      if is_optional_address t
      then sprintf (bytes "scval.OptionalAddressToScVal(%s)") (var_name ∷ [])
      else if is_prefix (bytes "soroban_sdk::BytesN<") t
      then sprintf (bytes "scval.Bytes%dToScVal(%s)")
          (decimal_int (extract_bytes_n_size t) ∷ var_name ∷ [])
      else if is_prefix (bytes "soroban_sdk::Vec<") t
      then slice_converter (extract_vec_inner_type t) var_name
      else sprintf (bytes "scval.MustToScVal(%s.ToScVal())") (var_name ∷ [])
]
