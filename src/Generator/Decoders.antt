-- ===== src/Generator/Decoders.antt =====
-- bindings/generator/codegen.go: `generateFromScValField` and `generateVecItemParse`.
use chainlink_stellar.Prelude.{[], ◌∷◌, ◌++◌, ltb, if◌then◌else◌, ◌==◌}
use chainlink_stellar.Prelude.Int64.{int64}
use chainlink_stellar.Config.{Bytes, bytes, Bytes_equality, is_prefix}
use chainlink_stellar.Generator.{Field}
use chainlink_stellar.Generator.Text.{decimal_int}
use chainlink_stellar.Generator.Names.{
  Known, is_enum_type, extract_struct_name, extract_vec_inner_type, extract_bytes_n_size,
  rust_type_to_go,
}
use chainlink_stellar.Generator.Encoders.{is_optional_address}
use chainlink_stellar.Generator.Write.{Writes, text, printf}

-- The last case of `generateVecItemParse`.
unfoldable pub generate_other_item : Known → Bytes → Bytes → Writes
unfolding is_enum_type extract_struct_name extract_bytes_n_size
generate_other_item known inner_type target =
    let n = extract_bytes_n_size inner_type in
    let enum_name = extract_struct_name inner_type in
    let struct_name = extract_struct_name inner_type in
    if is_optional_address inner_type
    then (text "\t\t\t\tv, err := scval.OptionalAddressFromScVal(item)\n"
        ∷ text "\t\t\t\tif err != nil {\n"
        ∷ text "\t\t\t\t\treturn nil, err\n"
        ∷ text "\t\t\t\t}\n"
        ∷ printf "\t\t\t\t%s = v\n" (target ∷ [])
        ∷ [])
    else if ltb (int64 0) n
    then (printf "\t\t\t\tv, err := scval.Bytes%dFromScVal(item)\n" (decimal_int n ∷ [])
        ∷ text "\t\t\t\tif err != nil {\n"
        ∷ text "\t\t\t\t\treturn nil, err\n"
        ∷ text "\t\t\t\t}\n"
        ∷ printf "\t\t\t\t%s = v\n" (target ∷ [])
        ∷ [])
    else if is_enum_type known inner_type
    then (printf "\t\t\t\tv, err := %sFromScVal(item)\n" (enum_name ∷ [])
        ∷ text "\t\t\t\tif err != nil {\n"
        ∷ text "\t\t\t\t\treturn nil, err\n"
        ∷ text "\t\t\t\t}\n"
        ∷ printf "\t\t\t\t%s = v\n" (target ∷ [])
        ∷ [])
    else (printf "\t\t\t\tv, err := %sFromScVal(item)\n" (struct_name ∷ [])
        ∷ text "\t\t\t\tif err != nil {\n"
        ∷ text "\t\t\t\t\treturn nil, err\n"
        ∷ text "\t\t\t\t}\n"
        ∷ printf "\t\t\t\t%s = *v\n" (target ∷ [])
        ∷ [])

unfoldable pub generate_vec_item_parse : Known → Bytes → Bytes → Writes
unfolding generate_other_item
generate_vec_item_parse known inner_type target =
    if inner_type == bytes "u64"
    then (text "\t\t\t\tv, err := scval.Uint64FromScVal(item)\n"
        ∷ text "\t\t\t\tif err != nil {\n"
        ∷ text "\t\t\t\t\treturn nil, err\n"
        ∷ text "\t\t\t\t}\n"
        ∷ printf "\t\t\t\t%s = v\n" (target ∷ [])
        ∷ [])
    else if inner_type == bytes "u32"
    then (text "\t\t\t\tv, err := scval.Uint32FromScVal(item)\n"
        ∷ text "\t\t\t\tif err != nil {\n"
        ∷ text "\t\t\t\t\treturn nil, err\n"
        ∷ text "\t\t\t\t}\n"
        ∷ printf "\t\t\t\t%s = v\n" (target ∷ [])
        ∷ [])
    else if inner_type == bytes "soroban_sdk::Address"
    then (text "\t\t\t\tv, err := scval.AddressFromScVal(item)\n"
        ∷ text "\t\t\t\tif err != nil {\n"
        ∷ text "\t\t\t\t\treturn nil, err\n"
        ∷ text "\t\t\t\t}\n"
        ∷ printf "\t\t\t\t%s = v\n" (target ∷ [])
        ∷ [])
    else if inner_type == bytes "soroban_sdk::Bytes"
    then (text "\t\t\t\tv, ok := item.GetBytes()\n"
        ∷ text "\t\t\t\tif !ok {\n"
        ∷ text "\t\t\t\t\treturn nil, fmt.Errorf(\"vec item is not bytes\")\n"
        ∷ text "\t\t\t\t}\n"
        ∷ printf "\t\t\t\t%s = []byte(v)\n" (target ∷ [])
        ∷ [])
    else if inner_type == bytes "soroban_sdk::String"
    then (text "\t\t\t\tv, err := scval.StringFromScVal(item)\n"
        ∷ text "\t\t\t\tif err != nil {\n"
        ∷ text "\t\t\t\t\treturn nil, err\n"
        ∷ text "\t\t\t\t}\n"
        ∷ printf "\t\t\t\t%s = v\n" (target ∷ [])
        ∷ [])
    else if inner_type == bytes "u128"
    then (text "\t\t\t\tv, err := scval.U128FromScVal(item)\n"
        ∷ text "\t\t\t\tif err != nil {\n"
        ∷ text "\t\t\t\t\treturn nil, err\n"
        ∷ text "\t\t\t\t}\n"
        ∷ printf "\t\t\t\t%s = v\n" (target ∷ [])
        ∷ [])
    else generate_other_item known inner_type target

abbrev pub vec_field_head : Field → Bytes → Writes
vec_field_head f target =
    (text "\t\t\tvec, ok := entry.Val.GetVec()\n"
      ∷ text "\t\t\tif !ok || vec == nil {\n"
      ∷ printf "\t\t\t\treturn nil, fmt.Errorf(\"%s is not a vec\")\n" (f.name ∷ [])
      ∷ text "\t\t\t}\n"
      ∷ printf "\t\t\t%s = make(%s, len(*vec))\n" (target ∷ (rust_type_to_go f.type_name) ∷ [])
      ∷ text "\t\t\tfor i, item := range *vec {\n"
      ∷ [])

-- The cases of `generateFromScValField` after those of a single scalar.
unfoldable pub generate_composite_field : Known → Field → Bytes → Writes
unfolding rust_type_to_go is_enum_type extract_struct_name extract_bytes_n_size
    generate_vec_item_parse extract_vec_inner_type
generate_composite_field known f target =
    let n = extract_bytes_n_size f.type_name in
    let enum_name = extract_struct_name f.type_name in
    let struct_name = extract_struct_name f.type_name in
    if is_optional_address f.type_name
    then (text "\t\t\tv, err := scval.OptionalAddressFromScVal(entry.Val)\n"
        ∷ text "\t\t\tif err != nil {\n"
        ∷ printf "\t\t\t\treturn nil, fmt.Errorf(\"%s: %%w\", err)\n" (f.name ∷ [])
        ∷ text "\t\t\t}\n"
        ∷ printf "\t\t\t%s = v\n" (target ∷ [])
        ∷ [])
    else if is_prefix (bytes "soroban_sdk::BytesN<") f.type_name
    then (printf "\t\t\tv, err := scval.Bytes%dFromScVal(entry.Val)\n" (decimal_int n ∷ [])
        ∷ text "\t\t\tif err != nil {\n"
        ∷ printf "\t\t\t\treturn nil, fmt.Errorf(\"%s: %%w\", err)\n" (f.name ∷ [])
        ∷ text "\t\t\t}\n"
        ∷ printf "\t\t\t%s = v\n" (target ∷ [])
        ∷ [])
    else if is_prefix (bytes "soroban_sdk::Vec<") f.type_name
    then (vec_field_head f target
        ++ (generate_vec_item_parse known (extract_vec_inner_type f.type_name)
              (target ++ bytes "[i]")
            ++ (text "\t\t\t}\n" ∷ [])))
    else if is_enum_type known f.type_name
    then (printf "\t\t\tv, err := %sFromScVal(entry.Val)\n" (enum_name ∷ [])
        ∷ text "\t\t\tif err != nil {\n"
        ∷ printf "\t\t\t\treturn nil, fmt.Errorf(\"%s: %%w\", err)\n" (f.name ∷ [])
        ∷ text "\t\t\t}\n"
        ∷ printf "\t\t\t%s = v\n" (target ∷ [])
        ∷ [])
    else (printf "\t\t\tv, err := %sFromScVal(entry.Val)\n" (struct_name ∷ [])
        ∷ text "\t\t\tif err != nil {\n"
        ∷ printf "\t\t\t\treturn nil, fmt.Errorf(\"%s: %%w\", err)\n" (f.name ∷ [])
        ∷ text "\t\t\t}\n"
        ∷ printf "\t\t\t%s = *v\n" (target ∷ [])
        ∷ [])

unfoldable pub generate_from_scval_field : Known → Field → Bytes → Writes
unfolding generate_composite_field
generate_from_scval_field known f target =
    if f.type_name == bytes "u64"
    then (printf "\t\t\tv, err := scval.Uint64FromScVal(entry.Val)\n" []
        ∷ text "\t\t\tif err != nil {\n"
        ∷ printf "\t\t\t\treturn nil, fmt.Errorf(\"%s: %%w\", err)\n" (f.name ∷ [])
        ∷ text "\t\t\t}\n"
        ∷ printf "\t\t\t%s = v\n" (target ∷ [])
        ∷ [])
    else if f.type_name == bytes "u32"
    then (text "\t\t\tv, ok := entry.Val.GetU32()\n"
        ∷ text "\t\t\tif !ok {\n"
        ∷ printf "\t\t\t\treturn nil, fmt.Errorf(\"%s is not u32\")\n" (f.name ∷ [])
        ∷ text "\t\t\t}\n"
        ∷ printf "\t\t\t%s = uint32(v)\n" (target ∷ [])
        ∷ [])
    else if f.type_name == bytes "i128"
    then (text "\t\t\tv, err := scval.I128FromScVal(entry.Val)\n"
        ∷ text "\t\t\tif err != nil {\n"
        ∷ printf "\t\t\t\treturn nil, fmt.Errorf(\"%s: %%w\", err)\n" (f.name ∷ [])
        ∷ text "\t\t\t}\n"
        ∷ printf "\t\t\t%s = v\n" (target ∷ [])
        ∷ [])
    else if f.type_name == bytes "bool"
    then (text "\t\t\tv, ok := entry.Val.GetB()\n"
        ∷ text "\t\t\tif !ok {\n"
        ∷ printf "\t\t\t\treturn nil, fmt.Errorf(\"%s is not bool\")\n" (f.name ∷ [])
        ∷ text "\t\t\t}\n"
        ∷ printf "\t\t\t%s = v\n" (target ∷ [])
        ∷ [])
    else if f.type_name == bytes "soroban_sdk::Address"
    then (text "\t\t\tv, err := scval.AddressFromScVal(entry.Val)\n"
        ∷ text "\t\t\tif err != nil {\n"
        ∷ printf "\t\t\t\treturn nil, fmt.Errorf(\"%s: %%w\", err)\n" (f.name ∷ [])
        ∷ text "\t\t\t}\n"
        ∷ printf "\t\t\t%s = v\n" (target ∷ [])
        ∷ [])
    else if f.type_name == bytes "soroban_sdk::Bytes"
    then (text "\t\t\tv, ok := entry.Val.GetBytes()\n"
        ∷ text "\t\t\tif !ok {\n"
        ∷ printf "\t\t\t\treturn nil, fmt.Errorf(\"%s is not bytes\")\n" (f.name ∷ [])
        ∷ text "\t\t\t}\n"
        ∷ printf "\t\t\t%s = []byte(v)\n" (target ∷ [])
        ∷ [])
    else if f.type_name == bytes "soroban_sdk::String"
    then (text "\t\t\tv, err := scval.StringFromScVal(entry.Val)\n"
        ∷ text "\t\t\tif err != nil {\n"
        ∷ printf "\t\t\t\treturn nil, fmt.Errorf(\"%s: %%w\", err)\n" (f.name ∷ [])
        ∷ text "\t\t\t}\n"
        ∷ printf "\t\t\t%s = v\n" (target ∷ [])
        ∷ [])
    else if f.type_name == bytes "soroban_sdk::Symbol"
    then (text "\t\t\tv, err := scval.SymbolFromScVal(entry.Val)\n"
        ∷ text "\t\t\tif err != nil {\n"
        ∷ printf "\t\t\t\treturn nil, fmt.Errorf(\"%s: %%w\", err)\n" (f.name ∷ [])
        ∷ text "\t\t\t}\n"
        ∷ printf "\t\t\t%s = v\n" (target ∷ [])
        ∷ [])
    else if f.type_name == bytes "u128"
    then (text "\t\t\tv, err := scval.U128FromScVal(entry.Val)\n"
        ∷ text "\t\t\tif err != nil {\n"
        ∷ printf "\t\t\t\treturn nil, fmt.Errorf(\"%s: %%w\", err)\n" (f.name ∷ [])
        ∷ text "\t\t\t}\n"
        ∷ printf "\t\t\t%s = v\n" (target ∷ [])
        ∷ [])
    else generate_composite_field known f target
