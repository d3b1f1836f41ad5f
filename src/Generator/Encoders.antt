-- ===== src/Generator/Encoders.antt =====
-- bindings/generator/codegen.go: `getToScValConverter`.
use chainlink_stellar.Prelude.{Bool, ◌&&◌, none, some, [], ◌∷◌, ltb, if◌then◌else◌, ◌==◌}
use chainlink_stellar.Prelude.Int64.{int64}
use chainlink_stellar.Prelude.Map.{Map, get}
use chainlink_stellar.Config.{Bytes, bytes, Bytes_equality, is_prefix, contains}
use chainlink_stellar.Generator.Text.{sprintf, decimal_int}
use chainlink_stellar.Generator.Names.{extract_vec_inner_type, extract_bytes_n_size}

-- The formats that the `switch` names.
abbrev pub scalar_converters : Map Bytes Bytes
scalar_converters =
    (bytes "u64", bytes "scval.Uint64ToScVal(%s)")
    ∷ (bytes "u32", bytes "scval.Uint32ToScVal(%s)")
    ∷ (bytes "u128", bytes "scval.MustToScVal((%s).ToScVal())")
    ∷ (bytes "i128", bytes "scval.I128ToScVal(%s)")
    ∷ (bytes "bool", bytes "scval.BoolToScVal(%s)")
    ∷ (bytes "soroban_sdk::Address", bytes "scval.AddressToScVal(%s)")
    ∷ (bytes "soroban_sdk::Bytes", bytes "scval.BytesToScVal(%s)")
    ∷ (bytes "soroban_sdk::String", bytes "scval.StringToScVal(%s)")
    ∷ (bytes "soroban_sdk::Symbol", bytes "scval.SymbolToScVal(%s)")
    ∷ []

abbrev pub is_optional_address : Bytes → Bool
is_optional_address t = is_prefix (bytes "Option<") t && contains t (bytes "soroban_sdk::Address")

unfoldable pub slice_converter : Bytes → Bytes → Bytes
unfolding sprintf extract_bytes_n_size decimal_int
slice_converter inner expr =
    if inner == bytes "u64"
    then sprintf (bytes "scval.Uint64SliceToScVal(%s)") (expr ∷ [])
    else if inner == bytes "u32"
    then sprintf (bytes "scval.Uint32SliceToScVal(%s)") (expr ∷ [])
    else if inner == bytes "soroban_sdk::Address"
    then sprintf (bytes "scval.AddressSliceToScVal(%s)") (expr ∷ [])
    else if inner == bytes "soroban_sdk::Bytes"
    then sprintf (bytes "scval.BytesSliceToScVal(%s)") (expr ∷ [])
    else if ltb (int64 0) (extract_bytes_n_size inner)
    then sprintf (bytes "scval.Bytes%dSliceToScVal(%s)")
        (decimal_int (extract_bytes_n_size inner) ∷ expr ∷ [])
    else sprintf (bytes "scval.StructSliceToScVal(%s)") (expr ∷ [])

unfoldable pub get_to_scval_converter : Bytes → Bytes → Bytes
unfolding get sprintf is_prefix contains extract_bytes_n_size extract_vec_inner_type decimal_int
    slice_converter
get_to_scval_converter t expr = elim (get t scalar_converters) [
  | some format ↦ sprintf format (expr ∷ [])
  | none ↦
      if is_optional_address t
      then sprintf (bytes "scval.OptionalAddressToScVal(%s)") (expr ∷ [])
      else if is_prefix (bytes "soroban_sdk::BytesN<") t
      then sprintf (bytes "scval.Bytes%dToScVal(%s)")
          (decimal_int (extract_bytes_n_size t) ∷ expr ∷ [])
      else if is_prefix (bytes "soroban_sdk::Vec<") t
      then slice_converter (extract_vec_inner_type t) expr
      else sprintf (bytes "scval.MustToScVal((%s).ToScVal())") (expr ∷ [])
]
