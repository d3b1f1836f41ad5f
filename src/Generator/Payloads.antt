-- ===== src/Generator/Payloads.antt =====
-- bindings/generator/codegen.go: `generatePayloadFromScVal`.
use chainlink_stellar.Prelude.{[], ◌∷◌, ◌++◌, if◌then◌else◌, ◌==◌}
use chainlink_stellar.Config.{Bytes, bytes, Bytes_equality, is_prefix}
use chainlink_stellar.Generator.Text.{decimal_int}
use chainlink_stellar.Generator.Names.{
  Known, is_enum_type, extract_struct_name, extract_bytes_n_size,
}
use chainlink_stellar.Generator.Write.{Writes, printf}

unfoldable pub generate_other_payload : Known → Bytes → Bytes → Bytes → Bytes → Bytes → Writes
unfolding is_enum_type extract_struct_name extract_bytes_n_size
generate_other_payload known rust_type src assign err_ctx enum_name =
    let zero = enum_name ++ bytes "{}" in
    let n = extract_bytes_n_size rust_type in
    let enum_inner = extract_struct_name rust_type in
    let struct_name = extract_struct_name rust_type in
    if is_prefix (bytes "soroban_sdk::BytesN<") rust_type
    then (printf
          "\t\tif v, err := scval.Bytes%dFromScVal(%s); err != nil { return %s, fmt.Errorf(\"%s: %%w\", err) } else { %s = v }\n"
          (decimal_int n ∷ src ∷ zero ∷ err_ctx ∷ assign ∷ [])
        ∷ [])
    else if is_enum_type known rust_type
    then (printf
          "\t\tif v, err := %sFromScVal(%s); err != nil { return %s, fmt.Errorf(\"%s: %%w\", err) } else { %s = v }\n"
          (enum_inner ∷ src ∷ zero ∷ err_ctx ∷ assign ∷ [])
        ∷ [])
    else (printf
          "\t\tif v, err := %sFromScVal(%s); err != nil { return %s, fmt.Errorf(\"%s: %%w\", err) } else { %s = *v }\n"
          (struct_name ∷ src ∷ zero ∷ err_ctx ∷ assign ∷ [])
        ∷ [])

unfoldable pub generate_payload_from_scval : Known → Bytes → Bytes → Bytes → Bytes → Bytes → Writes
unfolding generate_other_payload
generate_payload_from_scval known rust_type src assign err_ctx enum_name =
    let zero = enum_name ++ bytes "{}" in
    if rust_type == bytes "u32"
    then (printf
          "\t\tif v, ok := %s.GetU32(); ok { %s = uint32(v) } else { return %s, fmt.Errorf(\"%s: expected u32\") }\n"
          (src ∷ assign ∷ zero ∷ err_ctx ∷ [])
        ∷ [])
    else if rust_type == bytes "u64"
    then (printf
          "\t\tif v, err := scval.Uint64FromScVal(%s); err != nil { return %s, fmt.Errorf(\"%s: %%w\", err) } else { %s = v }\n"
          (src ∷ zero ∷ err_ctx ∷ assign ∷ [])
        ∷ [])
    else if rust_type == bytes "i128"
    then (printf
          "\t\tif v, err := scval.I128FromScVal(%s); err != nil { return %s, fmt.Errorf(\"%s: %%w\", err) } else { %s = v }\n"
          (src ∷ zero ∷ err_ctx ∷ assign ∷ [])
        ∷ [])
    else if rust_type == bytes "u128"
    then (printf
          "\t\tif v, err := scval.U128FromScVal(%s); err != nil { return %s, fmt.Errorf(\"%s: %%w\", err) } else { %s = v }\n"
          (src ∷ zero ∷ err_ctx ∷ assign ∷ [])
        ∷ [])
    else if rust_type == bytes "bool"
    then (printf
          "\t\tif v, ok := %s.GetB(); ok { %s = v } else { return %s, fmt.Errorf(\"%s: expected bool\") }\n"
          (src ∷ assign ∷ zero ∷ err_ctx ∷ [])
        ∷ [])
    else if rust_type == bytes "soroban_sdk::Address"
    then (printf
          "\t\tif v, err := scval.AddressFromScVal(%s); err != nil { return %s, fmt.Errorf(\"%s: %%w\", err) } else { %s = v }\n"
          (src ∷ zero ∷ err_ctx ∷ assign ∷ [])
        ∷ [])
    else if rust_type == bytes "soroban_sdk::Bytes"
    then (printf
          "\t\tif v, ok := %s.GetBytes(); ok { %s = []byte(v) } else { return %s, fmt.Errorf(\"%s: expected bytes\") }\n"
          (src ∷ assign ∷ zero ∷ err_ctx ∷ [])
        ∷ [])
    else if rust_type == bytes "soroban_sdk::String"
    then (printf
          "\t\tif v, err := scval.StringFromScVal(%s); err != nil { return %s, fmt.Errorf(\"%s: %%w\", err) } else { %s = v }\n"
          (src ∷ zero ∷ err_ctx ∷ assign ∷ [])
        ∷ [])
    else if rust_type == bytes "soroban_sdk::Symbol"
    then (printf
          "\t\tif v, err := scval.SymbolFromScVal(%s); err != nil { return %s, fmt.Errorf(\"%s: %%w\", err) } else { %s = v }\n"
          (src ∷ zero ∷ err_ctx ∷ assign ∷ [])
        ∷ [])
    else generate_other_payload known rust_type src assign err_ctx enum_name
