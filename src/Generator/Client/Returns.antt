-- ===== src/Generator/Client/Returns.antt =====
-- bindings/generator/client_codegen.go: `generateReturnValueParsing`.
use chainlink_stellar.Prelude.{ℕ, suc, List, [], ◌∷◌, ◌++◌, length, ltb, if◌then◌else◌, ◌==◌}
use chainlink_stellar.Prelude.Int64.{int64}
use chainlink_stellar.Config.{Bytes, bytes, Bytes_equality, is_prefix}
use chainlink_stellar.Generator.Text.{sprintf, decimal, decimal_int, join}
use chainlink_stellar.Generator.Names.{
  Known, is_enum_type, extract_struct_name, extract_bytes_n_size, extract_vec_inner_type,
  extract_option_inner_type, rust_type_to_go,
}
use chainlink_stellar.Generator.Encoders.{is_optional_address}
use chainlink_stellar.Generator.Client.{is_tuple_type, parse_tuple_types, zero_value}
use chainlink_stellar.Generator.Client.Tuples.{generate_tuple_element_parsing}
use chainlink_stellar.Generator.Write.{Writes, text, printf}

unfoldable pub generate_vec_return : Known → Bytes → Writes
unfolding is_enum_type extract_struct_name extract_bytes_n_size rust_type_to_go decimal_int
generate_vec_return known inner_type =
    let n = extract_bytes_n_size inner_type in
    let go_type = rust_type_to_go inner_type in
    let enum_name = extract_struct_name inner_type in
    let struct_name = extract_struct_name inner_type in
    if is_optional_address inner_type
    then (text "\tvec, ok := result.GetVec()\n"
        ∷ text "\tif !ok || vec == nil {\n"
        ∷ text "\t\treturn nil, fmt.Errorf(\"expected vec return type\")\n"
        ∷ text "\t}\n"
        ∷ text "\tout := make([]*string, len(*vec))\n"
        ∷ text "\tfor i, item := range *vec {\n"
        ∷ text "\t\tv, err := scval.OptionalAddressFromScVal(item)\n"
        ∷ text "\t\tif err != nil {\n"
        ∷ text "\t\t\treturn nil, err\n"
        ∷ text "\t\t}\n"
        ∷ text "\t\tout[i] = v\n"
        ∷ text "\t}\n"
        ∷ text "\treturn out, nil\n"
        ∷ [])
    else if inner_type == bytes "soroban_sdk::Address"
    then (text "\tvec, ok := result.GetVec()\n"
        ∷ text "\tif !ok || vec == nil {\n"
        ∷ text "\t\treturn nil, fmt.Errorf(\"expected vec return type\")\n"
        ∷ text "\t}\n"
        ∷ text "\tout := make([]string, len(*vec))\n"
        ∷ text "\tfor i, item := range *vec {\n"
        ∷ text "\t\tv, err := scval.AddressFromScVal(item)\n"
        ∷ text "\t\tif err != nil {\n"
        ∷ text "\t\t\treturn nil, err\n"
        ∷ text "\t\t}\n"
        ∷ text "\t\tout[i] = v\n"
        ∷ text "\t}\n"
        ∷ text "\treturn out, nil\n"
        ∷ [])
    else if inner_type == bytes "soroban_sdk::Bytes"
    then (text "\tvec, ok := result.GetVec()\n"
        ∷ text "\tif !ok || vec == nil {\n"
        ∷ text "\t\treturn nil, fmt.Errorf(\"expected vec return type\")\n"
        ∷ text "\t}\n"
        ∷ text "\tout := make([][]byte, len(*vec))\n"
        ∷ text "\tfor i, item := range *vec {\n"
        ∷ text "\t\tv, ok := item.GetBytes()\n"
        ∷ text "\t\tif !ok {\n"
        ∷ text "\t\t\treturn nil, fmt.Errorf(\"vec item is not bytes\")\n"
        ∷ text "\t\t}\n"
        ∷ text "\t\tout[i] = []byte(v)\n"
        ∷ text "\t}\n"
        ∷ text "\treturn out, nil\n"
        ∷ [])
    else if inner_type == bytes "u64"
    then (text "\tvec, ok := result.GetVec()\n"
        ∷ text "\tif !ok || vec == nil {\n"
        ∷ text "\t\treturn nil, fmt.Errorf(\"expected vec return type\")\n"
        ∷ text "\t}\n"
        ∷ text "\tout := make([]uint64, len(*vec))\n"
        ∷ text "\tfor i, item := range *vec {\n"
        ∷ text "\t\tv, err := scval.Uint64FromScVal(item)\n"
        ∷ text "\t\tif err != nil {\n"
        ∷ text "\t\t\treturn nil, err\n"
        ∷ text "\t\t}\n"
        ∷ text "\t\tout[i] = v\n"
        ∷ text "\t}\n"
        ∷ text "\treturn out, nil\n"
        ∷ [])
    else if ltb (int64 0) n
    then (text "\tvec, ok := result.GetVec()\n"
        ∷ text "\tif !ok || vec == nil {\n"
        ∷ text "\t\treturn nil, fmt.Errorf(\"expected vec return type\")\n"
        ∷ text "\t}\n"
        ∷ printf "\tout := make([]%s, len(*vec))\n" (go_type ∷ [])
        ∷ text "\tfor i, item := range *vec {\n"
        ∷ printf "\t\tv, err := scval.Bytes%dFromScVal(item)\n" (decimal_int n ∷ [])
        ∷ text "\t\tif err != nil {\n"
        ∷ text "\t\t\treturn nil, err\n"
        ∷ text "\t\t}\n"
        ∷ text "\t\tout[i] = v\n"
        ∷ text "\t}\n"
        ∷ text "\treturn out, nil\n"
        ∷ [])
    else if is_enum_type known inner_type
    then (text "\tvec, ok := result.GetVec()\n"
        ∷ text "\tif !ok || vec == nil {\n"
        ∷ text "\t\treturn nil, fmt.Errorf(\"expected vec return type\")\n"
        ∷ text "\t}\n"
        ∷ printf "\tout := make([]%s, len(*vec))\n" (enum_name ∷ [])
        ∷ text "\tfor i, item := range *vec {\n"
        ∷ printf "\t\tv, err := %sFromScVal(item)\n" (enum_name ∷ [])
        ∷ text "\t\tif err != nil {\n"
        ∷ text "\t\t\treturn nil, err\n"
        ∷ text "\t\t}\n"
        ∷ text "\t\tout[i] = v\n"
        ∷ text "\t}\n"
        ∷ text "\treturn out, nil\n"
        ∷ [])
    else (text "\tvec, ok := result.GetVec()\n"
        ∷ text "\tif !ok || vec == nil {\n"
        ∷ text "\t\treturn nil, fmt.Errorf(\"expected vec return type\")\n"
        ∷ text "\t}\n"
        ∷ printf "\tout := make([]%s, len(*vec))\n" (struct_name ∷ [])
        ∷ text "\tfor i, item := range *vec {\n"
        ∷ printf "\t\tv, err := %sFromScVal(item)\n" (struct_name ∷ [])
        ∷ text "\t\tif err != nil {\n"
        ∷ text "\t\t\treturn nil, err\n"
        ∷ text "\t\t}\n"
        ∷ text "\t\tout[i] = *v\n"
        ∷ text "\t}\n"
        ∷ text "\treturn out, nil\n"
        ∷ [])

abbrev pub tuple_elements : Known → Bytes → ℕ → List Bytes → Writes
tuple_elements known zeros i [] = []
tuple_elements known zeros i (t ∷ ts) =
    generate_tuple_element_parsing known t i zeros ++ tuple_elements known zeros (suc i) ts

abbrev pub ret_vars_from : ℕ → List Bytes → List Bytes
ret_vars_from i [] = []
ret_vars_from i (t ∷ ts) = sprintf (bytes "v%d") (decimal i ∷ []) ∷ ret_vars_from (suc i) ts

unfoldable pub generate_tuple_return : Known → Bytes → Writes
unfolding parse_tuple_types zero_value decimal join sprintf generate_tuple_element_parsing
generate_tuple_return known return_type =
    let types = parse_tuple_types return_type in
    let zeros = zero_value known return_type in
    let ret_vars = ret_vars_from 0 types in
    (text "\tvec, ok := result.GetVec()\n"
      ∷ text "\tif !ok || vec == nil {\n"
      ∷ printf "\t\treturn %s, fmt.Errorf(\"expected vec for tuple return\")\n" (zeros ∷ [])
      ∷ text "\t}\n"
      ∷ printf "\tif len(*vec) != %d {\n" (decimal ((length types)) ∷ [])
      ∷ printf "\t\treturn %s, fmt.Errorf(\"expected %d elements, got %%d\", len(*vec))\n"
          (zeros ∷ decimal ((length types)) ∷ [])
      ∷ text "\t}\n\n"
      ∷ [])
    ++ (tuple_elements known zeros 0 types
        ++ (printf "\treturn %s, nil\n" ((join (bytes ", ") ret_vars) ∷ []) ∷ []))

-- The cases after those of a single scalar.
unfoldable pub generate_composite_return : Known → Bytes → Writes
unfolding is_enum_type extract_struct_name extract_bytes_n_size extract_vec_inner_type
    extract_option_inner_type decimal_int is_prefix is_tuple_type generate_vec_return
    generate_tuple_return
generate_composite_return known return_type =
    let n = extract_bytes_n_size return_type in
    let enum_name = extract_struct_name return_type in
    if is_optional_address return_type
    then (text "\tv, err := scval.OptionalAddressFromScVal(*result)\n"
        ∷ text "\tif err != nil {\n"
        ∷ text "\t\treturn nil, err\n"
        ∷ text "\t}\n"
        ∷ text "\treturn v, nil\n"
        ∷ [])
    else if is_prefix (bytes "Option<") return_type
    then (let struct_name = extract_struct_name (extract_option_inner_type return_type) in
        (text "\tif result.Type == xdr.ScValTypeScvVoid {\n"
          ∷ text "\t\treturn nil, nil\n"
          ∷ text "\t}\n"
          ∷ printf "\tv, err := %sFromScVal(*result)\n" (struct_name ∷ [])
          ∷ text "\tif err != nil {\n"
          ∷ text "\t\treturn nil, err\n"
          ∷ text "\t}\n"
          ∷ text "\treturn v, nil\n"
          ∷ []))
    else if return_type == bytes "u128"
    then (text "\tv, err := scval.U128FromScVal(*result)\n"
        ∷ text "\tif err != nil {\n"
        ∷ text "\t\treturn scval.U128{}, err\n"
        ∷ text "\t}\n"
        ∷ text "\treturn v, nil\n"
        ∷ [])
    else if is_prefix (bytes "soroban_sdk::BytesN<") return_type
    then (printf "\tv, err := scval.Bytes%dFromScVal(*result)\n" (decimal_int n ∷ [])
        ∷ text "\tif err != nil {\n"
        ∷ printf "\t\treturn [%d]byte{}, err\n" (decimal_int n ∷ [])
        ∷ text "\t}\n"
        ∷ text "\treturn v, nil\n"
        ∷ [])
    else if is_prefix (bytes "soroban_sdk::Vec<") return_type
    then generate_vec_return known (extract_vec_inner_type return_type)
    else if is_tuple_type return_type
    then generate_tuple_return known return_type
    else if is_enum_type known return_type
    then (printf "\treturn %sFromScVal(*result)\n" (enum_name ∷ []) ∷ [])
    else (let struct_name = extract_struct_name return_type in
        (printf "\treturn %sFromScVal(*result)\n" (struct_name ∷ []) ∷ []))

unfoldable pub generate_return_value_parsing : Known → Bytes → Writes
unfolding generate_composite_return
generate_return_value_parsing known return_type =
    if return_type == bytes "u64"
    then (text "\tv, err := scval.Uint64FromScVal(*result)\n"
        ∷ text "\tif err != nil {\n"
        ∷ text "\t\treturn 0, err\n"
        ∷ text "\t}\n"
        ∷ text "\treturn v, nil\n"
        ∷ [])
    else if return_type == bytes "u32"
    then (text "\tv, ok := result.GetU32()\n"
        ∷ text "\tif !ok {\n"
        ∷ text "\t\treturn 0, fmt.Errorf(\"expected u32 return type\")\n"
        ∷ text "\t}\n"
        ∷ text "\treturn uint32(v), nil\n"
        ∷ [])
    else if return_type == bytes "i128"
    then (text "\tv, err := scval.I128FromScVal(*result)\n"
        ∷ text "\tif err != nil {\n"
        ∷ text "\t\treturn 0, err\n"
        ∷ text "\t}\n"
        ∷ text "\treturn v, nil\n"
        ∷ [])
    else if return_type == bytes "bool"
    then (text "\tv, ok := result.GetB()\n"
        ∷ text "\tif !ok {\n"
        ∷ text "\t\treturn false, fmt.Errorf(\"expected bool return type\")\n"
        ∷ text "\t}\n"
        ∷ text "\treturn v, nil\n"
        ∷ [])
    else if return_type == bytes "soroban_sdk::Address"
    then (text "\tv, err := scval.AddressFromScVal(*result)\n"
        ∷ text "\tif err != nil {\n"
        ∷ text "\t\treturn \"\", err\n"
        ∷ text "\t}\n"
        ∷ text "\treturn v, nil\n"
        ∷ [])
    else if return_type == bytes "soroban_sdk::Bytes"
    then (text "\tv, ok := result.GetBytes()\n"
        ∷ text "\tif !ok {\n"
        ∷ text "\t\treturn nil, fmt.Errorf(\"expected bytes return type\")\n"
        ∷ text "\t}\n"
        ∷ text "\treturn []byte(v), nil\n"
        ∷ [])
    else if return_type == bytes "soroban_sdk::String"
    then (text "\treturn scval.StringFromScVal(*result)\n" ∷ [])
    else if return_type == bytes "soroban_sdk::Symbol"
    then (text "\treturn scval.SymbolFromScVal(*result)\n" ∷ [])
    else generate_composite_return known return_type
