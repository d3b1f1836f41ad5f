-- ===== src/Generator/Client/Tuples.antt =====
-- bindings/generator/client_codegen.go: `generateTupleElementParsing`.
use chainlink_stellar.Prelude.{ℕ, [], ◌∷◌, ◌++◌, if◌then◌else◌, ◌==◌}
use chainlink_stellar.Config.{Bytes, bytes, Bytes_equality, is_prefix}
use chainlink_stellar.Generator.Text.{sprintf, decimal, decimal_int}
use chainlink_stellar.Generator.Names.{
  Known, is_enum_type, extract_struct_name, extract_bytes_n_size, extract_vec_inner_type,
  rust_type_to_go,
}
use chainlink_stellar.Generator.Write.{Writes, text, printf}

-- The inner `switch`, for an item of a vector.
unfoldable pub generate_tuple_item : Known → Bytes → ℕ → Bytes → Bytes → Writes
unfolding is_enum_type extract_struct_name decimal
generate_tuple_item known inner_type idx v zeros =
    let enum_name = extract_struct_name inner_type in
    let struct_name = extract_struct_name inner_type in
    if inner_type == bytes "u64"
    then (text "\t\tval, err := scval.Uint64FromScVal(item)\n"
        ∷ text "\t\tif err != nil {\n"
        ∷ printf "\t\t\treturn %s, fmt.Errorf(\"tuple[%d][%%d]: %%w\", i, err)\n"
            (zeros ∷ decimal (idx) ∷ [])
        ∷ text "\t\t}\n"
        ∷ printf "\t\t%s[i] = val\n" (v ∷ [])
        ∷ [])
    else if inner_type == bytes "u32"
    then (text "\t\tval, ok := item.GetU32()\n"
        ∷ text "\t\tif !ok {\n"
        ∷ printf "\t\t\treturn %s, fmt.Errorf(\"tuple[%d][%%d]: expected u32\", i)\n"
            (zeros ∷ decimal (idx) ∷ [])
        ∷ text "\t\t}\n"
        ∷ printf "\t\t%s[i] = uint32(val)\n" (v ∷ [])
        ∷ [])
    else if inner_type == bytes "soroban_sdk::Address"
    then (text "\t\tval, err := scval.AddressFromScVal(item)\n"
        ∷ text "\t\tif err != nil {\n"
        ∷ printf "\t\t\treturn %s, fmt.Errorf(\"tuple[%d][%%d]: %%w\", i, err)\n"
            (zeros ∷ decimal (idx) ∷ [])
        ∷ text "\t\t}\n"
        ∷ printf "\t\t%s[i] = val\n" (v ∷ [])
        ∷ [])
    else if inner_type == bytes "soroban_sdk::Bytes"
    then (text "\t\tval, ok := item.GetBytes()\n"
        ∷ text "\t\tif !ok {\n"
        ∷ printf "\t\t\treturn %s, fmt.Errorf(\"tuple[%d][%%d]: expected bytes\", i)\n"
            (zeros ∷ decimal (idx) ∷ [])
        ∷ text "\t\t}\n"
        ∷ printf "\t\t%s[i] = []byte(val)\n" (v ∷ [])
        ∷ [])
    else if is_enum_type known inner_type
    then (printf "\t\tval, err := %sFromScVal(item)\n" (enum_name ∷ [])
        ∷ text "\t\tif err != nil {\n"
        ∷ printf "\t\t\treturn %s, fmt.Errorf(\"tuple[%d][%%d]: %%w\", i, err)\n"
            (zeros ∷ decimal (idx) ∷ [])
        ∷ text "\t\t}\n"
        ∷ printf "\t\t%s[i] = val\n" (v ∷ [])
        ∷ [])
    else (printf "\t\tval, err := %sFromScVal(item)\n" (struct_name ∷ [])
        ∷ text "\t\tif err != nil {\n"
        ∷ printf "\t\t\treturn %s, fmt.Errorf(\"tuple[%d][%%d]: %%w\", i, err)\n"
            (zeros ∷ decimal (idx) ∷ [])
        ∷ text "\t\t}\n"
        ∷ printf "\t\t%s[i] = *val\n" (v ∷ [])
        ∷ [])

unfoldable pub generate_tuple_element_parsing : Known → Bytes → ℕ → Bytes → Writes
unfolding sprintf decimal decimal_int is_prefix is_enum_type extract_struct_name
    extract_bytes_n_size extract_vec_inner_type rust_type_to_go generate_tuple_item
generate_tuple_element_parsing known rust_type idx zeros =
    let elem = sprintf (bytes "(*vec)[%d]") (decimal idx ∷ []) in
    let v = sprintf (bytes "v%d") (decimal idx ∷ []) in
    let n = extract_bytes_n_size rust_type in
    let go_elem_type = rust_type_to_go (extract_vec_inner_type rust_type) in
    let enum_name = extract_struct_name rust_type in
    let struct_name = extract_struct_name rust_type in
    if rust_type == bytes "u32"
    then (printf "\t%sRaw, ok := %s.GetU32()\n" (v ∷ elem ∷ [])
        ∷ text "\tif !ok {\n"
        ∷ printf "\t\treturn %s, fmt.Errorf(\"tuple[%d]: expected u32\")\n"
            (zeros ∷ decimal (idx) ∷ [])
        ∷ text "\t}\n"
        ∷ printf "\t%s := uint32(%sRaw)\n\n" (v ∷ v ∷ [])
        ∷ [])
    else if rust_type == bytes "u64"
    then (printf "\t%s, err := scval.Uint64FromScVal(%s)\n" (v ∷ elem ∷ [])
        ∷ text "\tif err != nil {\n"
        ∷ printf "\t\treturn %s, fmt.Errorf(\"tuple[%d]: %%w\", err)\n" (zeros ∷ decimal (idx) ∷ [])
        ∷ text "\t}\n\n"
        ∷ [])
    else if rust_type == bytes "i128"
    then (printf "\t%s, err := scval.I128FromScVal(%s)\n" (v ∷ elem ∷ [])
        ∷ text "\tif err != nil {\n"
        ∷ printf "\t\treturn %s, fmt.Errorf(\"tuple[%d]: %%w\", err)\n" (zeros ∷ decimal (idx) ∷ [])
        ∷ text "\t}\n\n"
        ∷ [])
    else if rust_type == bytes "bool"
    then (printf "\t%s, ok := %s.GetB()\n" (v ∷ elem ∷ [])
        ∷ text "\tif !ok {\n"
        ∷ printf "\t\treturn %s, fmt.Errorf(\"tuple[%d]: expected bool\")\n"
            (zeros ∷ decimal (idx) ∷ [])
        ∷ text "\t}\n\n"
        ∷ [])
    else if rust_type == bytes "soroban_sdk::Address"
    then (printf "\t%s, err := scval.AddressFromScVal(%s)\n" (v ∷ elem ∷ [])
        ∷ text "\tif err != nil {\n"
        ∷ printf "\t\treturn %s, fmt.Errorf(\"tuple[%d]: %%w\", err)\n" (zeros ∷ decimal (idx) ∷ [])
        ∷ text "\t}\n\n"
        ∷ [])
    else if rust_type == bytes "soroban_sdk::Bytes"
    then (printf "\t%sBytes, ok := %s.GetBytes()\n" (v ∷ elem ∷ [])
        ∷ text "\tif !ok {\n"
        ∷ printf "\t\treturn %s, fmt.Errorf(\"tuple[%d]: expected bytes\")\n"
            (zeros ∷ decimal (idx) ∷ [])
        ∷ text "\t}\n"
        ∷ printf "\t%s := []byte(%sBytes)\n\n" (v ∷ v ∷ [])
        ∷ [])
    else if is_prefix (bytes "soroban_sdk::BytesN<") rust_type
    then (printf "\t%s, err := scval.Bytes%dFromScVal(%s)\n" (v ∷ decimal_int n ∷ elem ∷ [])
        ∷ text "\tif err != nil {\n"
        ∷ printf "\t\treturn %s, fmt.Errorf(\"tuple[%d]: %%w\", err)\n" (zeros ∷ decimal (idx) ∷ [])
        ∷ text "\t}\n\n"
        ∷ [])
    else if is_prefix (bytes "soroban_sdk::Vec<") rust_type
    then ((printf "\t%sVec, ok := %s.GetVec()\n" (v ∷ elem ∷ [])
          ∷ printf "\tif !ok || %sVec == nil {\n" (v ∷ [])
          ∷ printf "\t\treturn %s, fmt.Errorf(\"tuple[%d]: expected vec\")\n"
              (zeros ∷ decimal (idx) ∷ [])
          ∷ text "\t}\n"
          ∷ printf "\t%s := make([]%s, len(*%sVec))\n" (v ∷ go_elem_type ∷ v ∷ [])
          ∷ printf "\tfor i, item := range *%sVec {\n" (v ∷ [])
          ∷ [])
        ++ (generate_tuple_item known (extract_vec_inner_type rust_type) idx v zeros
            ++ (text "\t}\n\n" ∷ [])))
    else if is_enum_type known rust_type
    then (printf "\t%s, err := %sFromScVal(%s)\n" (v ∷ enum_name ∷ elem ∷ [])
        ∷ text "\tif err != nil {\n"
        ∷ printf "\t\treturn %s, fmt.Errorf(\"tuple[%d]: %%w\", err)\n" (zeros ∷ decimal (idx) ∷ [])
        ∷ text "\t}\n\n"
        ∷ [])
    else (printf "\t%s, err := %sFromScVal(%s)\n" (v ∷ struct_name ∷ elem ∷ [])
        ∷ text "\tif err != nil {\n"
        ∷ printf "\t\treturn %s, fmt.Errorf(\"tuple[%d]: %%w\", err)\n" (zeros ∷ decimal (idx) ∷ [])
        ∷ text "\t}\n\n"
        ∷ [])
