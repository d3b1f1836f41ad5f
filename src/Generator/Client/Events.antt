-- ===== src/Generator/Client/Events.antt =====
-- bindings/generator/client_codegen.go: `generateEventHelpers`, `generateEventParser` and
-- `generateEventFieldParsing`.
use chainlink_stellar.Prelude.{[], ◌∷◌, ◌++◌, ltb, if◌then◌else◌, ◌==◌}
use chainlink_stellar.Prelude.Int64.{int64}
use chainlink_stellar.Config.{Bytes, bytes, Bytes_equality, is_prefix}
use chainlink_stellar.Generator.{Field, Event, Contract}
use chainlink_stellar.Generator.Text.{decimal_int}
use chainlink_stellar.Generator.Names.{
  Known, is_enum_type, extract_struct_name, extract_bytes_n_size, extract_vec_inner_type,
  rust_type_to_go, snake_to_pascal,
}
use chainlink_stellar.Generator.Encoders.{is_optional_address}
use chainlink_stellar.Generator.Write.{Writes, text, printf, each}

unfoldable pub generate_event_vec : Known → Bytes → Writes
unfolding is_enum_type extract_struct_name extract_bytes_n_size rust_type_to_go decimal_int
generate_event_vec known inner_type =
    let n = extract_bytes_n_size inner_type in
    let go_type = rust_type_to_go inner_type in
    let enum_name = extract_struct_name inner_type in
    let struct_name = extract_struct_name inner_type in
    if is_optional_address inner_type
    then (text "\t\t\t\tparsed := make([]*string, len(*vec))\n"
        ∷ text "\t\t\t\tfor i, item := range *vec {\n"
        ∷ text "\t\t\t\t\tv, err := scval.OptionalAddressFromScVal(item)\n"
        ∷ text "\t\t\t\t\tif err == nil {\n"
        ∷ text "\t\t\t\t\t\tparsed[i] = v\n"
        ∷ text "\t\t\t\t\t}\n"
        ∷ text "\t\t\t\t}\n"
        ∷ [])
    else if inner_type == bytes "soroban_sdk::Address"
    then (printf "\t\t\t\tparsed := make([]string, len(*vec))\n" []
        ∷ text "\t\t\t\tfor i, item := range *vec {\n"
        ∷ text "\t\t\t\t\tv, err := scval.AddressFromScVal(item)\n"
        ∷ text "\t\t\t\t\tif err == nil {\n"
        ∷ text "\t\t\t\t\t\tparsed[i] = v\n"
        ∷ text "\t\t\t\t\t}\n"
        ∷ text "\t\t\t\t}\n"
        ∷ [])
    else if inner_type == bytes "soroban_sdk::Bytes"
    then (text "\t\t\t\tparsed := make([][]byte, len(*vec))\n"
        ∷ text "\t\t\t\tfor i, item := range *vec {\n"
        ∷ text "\t\t\t\t\tv, ok := item.GetBytes()\n"
        ∷ text "\t\t\t\t\tif ok {\n"
        ∷ text "\t\t\t\t\t\tparsed[i] = []byte(v)\n"
        ∷ text "\t\t\t\t\t}\n"
        ∷ text "\t\t\t\t}\n"
        ∷ [])
    else if ltb (int64 0) n
    then (printf "\t\t\t\tparsed := make([]%s, len(*vec))\n" (go_type ∷ [])
        ∷ text "\t\t\t\tfor i, item := range *vec {\n"
        ∷ printf "\t\t\t\t\tv, err := scval.Bytes%dFromScVal(item)\n" (decimal_int n ∷ [])
        ∷ text "\t\t\t\t\tif err == nil {\n"
        ∷ text "\t\t\t\t\t\tparsed[i] = v\n"
        ∷ text "\t\t\t\t\t}\n"
        ∷ text "\t\t\t\t}\n"
        ∷ [])
    else if is_enum_type known inner_type
    then (printf "\t\t\t\tparsed := make([]%s, len(*vec))\n" (enum_name ∷ [])
        ∷ text "\t\t\t\tfor i, item := range *vec {\n"
        ∷ printf "\t\t\t\t\tv, err := %sFromScVal(item)\n" (enum_name ∷ [])
        ∷ text "\t\t\t\t\tif err == nil {\n"
        ∷ text "\t\t\t\t\t\tparsed[i] = v\n"
        ∷ text "\t\t\t\t\t}\n"
        ∷ text "\t\t\t\t}\n"
        ∷ [])
    else ((printf "\t\t\t\tparsed := make([]%s, 0, len(*vec))\n" (go_type ∷ [])
          ∷ text "\t\t\t\tfor _, item := range *vec {\n"
          ∷ [])
        ++ (printf "\t\t\t\t\tv, err := %sFromScVal(item)\n" (struct_name ∷ [])
            ∷ text "\t\t\t\t\tif err == nil {\n"
            ∷ text "\t\t\t\t\t\tparsed = append(parsed, *v)\n"
            ∷ text "\t\t\t\t\t}\n"
            ∷ text "\t\t\t\t}\n"
            ∷ []))

unfoldable pub generate_event_composite : Known → Field → Bytes → Writes
unfolding is_enum_type extract_struct_name extract_bytes_n_size extract_vec_inner_type decimal_int
    generate_event_vec
generate_event_composite known f target =
    let n = extract_bytes_n_size f.type_name in
    let enum_name = extract_struct_name f.type_name in
    let struct_name = extract_struct_name f.type_name in
    if is_prefix (bytes "soroban_sdk::BytesN<") f.type_name
    then (printf "\t\t\tv, err := scval.Bytes%dFromScVal(entry.Val)\n" (decimal_int n ∷ [])
        ∷ text "\t\t\tif err == nil {\n"
        ∷ printf "\t\t\t\t%s = v\n" (target ∷ [])
        ∷ text "\t\t\t}\n"
        ∷ [])
    else if is_prefix (bytes "soroban_sdk::Vec<") f.type_name
    then ((text "\t\t\tvec, ok := entry.Val.GetVec()\n" ∷ text "\t\t\tif ok && vec != nil {\n" ∷ [])
        ++ (generate_event_vec known (extract_vec_inner_type f.type_name)
            ++ (printf "\t\t\t\t%s = parsed\n" (target ∷ []) ∷ text "\t\t\t}\n" ∷ [])))
    else if is_enum_type known f.type_name
    then (printf "\t\t\tv, err := %sFromScVal(entry.Val)\n" (enum_name ∷ [])
        ∷ text "\t\t\tif err == nil {\n"
        ∷ printf "\t\t\t\t%s = v\n" (target ∷ [])
        ∷ text "\t\t\t}\n"
        ∷ [])
    else (printf "\t\t\tv, err := %sFromScVal(entry.Val)\n" (struct_name ∷ [])
        ∷ text "\t\t\tif err == nil {\n"
        ∷ printf "\t\t\t\t%s = *v\n" (target ∷ [])
        ∷ text "\t\t\t}\n"
        ∷ [])

unfoldable pub generate_event_field_parsing : Known → Field → Bytes → Writes
unfolding is_prefix generate_event_composite
generate_event_field_parsing known f target =
    if f.type_name == bytes "u64"
    then (text "\t\t\tv, err := scval.Uint64FromScVal(entry.Val)\n"
        ∷ text "\t\t\tif err == nil {\n"
        ∷ printf "\t\t\t\t%s = v\n" (target ∷ [])
        ∷ text "\t\t\t}\n"
        ∷ [])
    else if f.type_name == bytes "u32"
    then (text "\t\t\tv, ok := entry.Val.GetU32()\n"
        ∷ text "\t\t\tif ok {\n"
        ∷ printf "\t\t\t\t%s = uint32(v)\n" (target ∷ [])
        ∷ text "\t\t\t}\n"
        ∷ [])
    else if f.type_name == bytes "u128"
    then (text "\t\t\tv, err := scval.U128FromScVal(entry.Val)\n"
        ∷ text "\t\t\tif err == nil {\n"
        ∷ printf "\t\t\t\t%s = v\n" (target ∷ [])
        ∷ text "\t\t\t}\n"
        ∷ [])
    else if f.type_name == bytes "i128"
    then (text "\t\t\tv, err := scval.I128FromScVal(entry.Val)\n"
        ∷ text "\t\t\tif err == nil {\n"
        ∷ printf "\t\t\t\t%s = v\n" (target ∷ [])
        ∷ text "\t\t\t}\n"
        ∷ [])
    else if f.type_name == bytes "bool"
    then (text "\t\t\tv, ok := entry.Val.GetB()\n"
        ∷ text "\t\t\tif ok {\n"
        ∷ printf "\t\t\t\t%s = v\n" (target ∷ [])
        ∷ text "\t\t\t}\n"
        ∷ [])
    else if f.type_name == bytes "soroban_sdk::Address"
    then (text "\t\t\tv, err := scval.AddressFromScVal(entry.Val)\n"
        ∷ text "\t\t\tif err == nil {\n"
        ∷ printf "\t\t\t\t%s = v\n" (target ∷ [])
        ∷ text "\t\t\t}\n"
        ∷ [])
    else if is_optional_address f.type_name
    then (text "\t\t\tv, err := scval.OptionalAddressFromScVal(entry.Val)\n"
        ∷ text "\t\t\tif err == nil {\n"
        ∷ printf "\t\t\t\t%s = v\n" (target ∷ [])
        ∷ text "\t\t\t}\n"
        ∷ [])
    else if f.type_name == bytes "soroban_sdk::Symbol"
    then (text "\t\t\tv, err := scval.SymbolFromScVal(entry.Val)\n"
        ∷ text "\t\t\tif err == nil {\n"
        ∷ printf "\t\t\t\t%s = v\n" (target ∷ [])
        ∷ text "\t\t\t}\n"
        ∷ [])
    else if f.type_name == bytes "soroban_sdk::Bytes"
    then (text "\t\t\tv, ok := entry.Val.GetBytes()\n"
        ∷ text "\t\t\tif ok {\n"
        ∷ printf "\t\t\t\t%s = []byte(v)\n" (target ∷ [])
        ∷ text "\t\t\t}\n"
        ∷ [])
    else generate_event_composite known f target

abbrev pub parsed_event_field : Known → Field → Writes
parsed_event_field known f =
    (printf "\t\tcase \"%s\":\n" (f.name ∷ []) ∷ [])
    ++ generate_event_field_parsing known f (bytes "result." ++ snake_to_pascal f.name)

unfoldable pub generate_event_parser : Known → Event → Writes
unfolding snake_to_pascal generate_event_field_parsing
generate_event_parser known event =
    (printf "func Parse%s(e protocolrpc.EventInfo) (*%s, error) {\n" (event.name ∷ event.name ∷ [])
      ∷ text "\tvar eventVal xdr.ScVal\n"
      ∷ text "\tif err := xdr.SafeUnmarshalBase64(e.ValueXDR, &eventVal); err != nil {\n"
      ∷ text "\t\treturn nil, fmt.Errorf(\"failed to decode event: %w\", err)\n"
      ∷ text "\t}\n\n"
      ∷ text "\tscMap, ok := eventVal.GetMap()\n"
      ∷ text "\tif !ok || scMap == nil {\n"
      ∷ text "\t\treturn nil, fmt.Errorf(\"event is not a map\")\n"
      ∷ text "\t}\n\n"
      ∷ printf "\tresult := &%s{\n" (event.name ∷ [])
      ∷ text "\t\tLedger: uint32(e.Ledger),\n"
      ∷ text "\t\tTxHash: e.TransactionHash,\n"
      ∷ text "\t}\n\n"
      ∷ text "\tfor _, entry := range *scMap {\n"
      ∷ text "\t\tkey, ok := entry.Key.GetSym()\n"
      ∷ text "\t\tif !ok {\n"
      ∷ text "\t\t\tcontinue\n"
      ∷ text "\t\t}\n\n"
      ∷ text "\t\tswitch string(key) {\n"
      ∷ [])
    ++ (each (parsed_event_field known) event.fields
        ++ (text "\t\t}\n" ∷ text "\t}\n\n" ∷ text "\treturn result, nil\n" ∷ text "}\n\n" ∷ []))

abbrev pub generate_event_helper : Known → Contract → Event → Writes
generate_event_helper known contract event =
    (printf "// WaitFor%s waits for a %s event.\n" (event.name ∷ event.name ∷ [])
      ∷ printf
          "func (c *%sClient) WaitFor%s(ctx context.Context, startLedger uint32, timeout time.Duration, filter func(*%s) bool) (*%s, error) {\n"
          (contract.name ∷ event.name ∷ event.name ∷ event.name ∷ [])
      ∷ text "\tstartTime := time.Now()\n"
      ∷ text "\tticker := time.NewTicker(2 * time.Second)\n"
      ∷ text "\tdefer ticker.Stop()\n\n"
      ∷ text "\tfor {\n"
      ∷ text "\t\tselect {\n"
      ∷ text "\t\tcase <-ctx.Done():\n"
      ∷ text "\t\t\treturn nil, ctx.Err()\n"
      ∷ text "\t\tcase <-ticker.C:\n"
      ∷ text "\t\t\tif time.Since(startTime) > timeout {\n"
      ∷ text "\t\t\t\treturn nil, fmt.Errorf(\"timeout waiting for event\")\n"
      ∷ text "\t\t\t}\n\n"
      ∷ printf
          "\t\t\tevents, err := c.invoker.GetEvents(ctx, c.contractID, startLedger, []string{%sTopic})\n"
          (event.name ∷ [])
      ∷ text "\t\t\tif err != nil {\n"
      ∷ text "\t\t\t\tcontinue\n"
      ∷ text "\t\t\t}\n\n"
      ∷ text "\t\t\tfor _, e := range events {\n"
      ∷ printf "\t\t\t\tparsed, err := Parse%s(e)\n" (event.name ∷ [])
      ∷ text "\t\t\t\tif err != nil {\n"
      ∷ text "\t\t\t\t\tcontinue\n"
      ∷ text "\t\t\t\t}\n"
      ∷ text "\t\t\t\tif filter == nil || filter(parsed) {\n"
      ∷ text "\t\t\t\t\treturn parsed, nil\n"
      ∷ text "\t\t\t\t}\n"
      ∷ text "\t\t\t}\n"
      ∷ text "\t\t}\n"
      ∷ text "\t}\n"
      ∷ text "}\n\n"
      ∷ [])
    ++ generate_event_parser known event

unfoldable pub generate_event_helpers : Known → Contract → Writes
unfolding generate_event_parser
generate_event_helpers known contract = each (generate_event_helper known contract) contract.events
