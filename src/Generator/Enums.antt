-- ===== src/Generator/Enums.antt =====
-- bindings/generator/codegen.go: `generateEnum`: the Go newtype of an enum of unit variants, the Go
-- union of any other.
use chainlink_stellar.Prelude.{ℕ, ◌+◌, [], ◌∷◌, ◌++◌, length, if◌then◌else◌}
use chainlink_stellar.Config.{Bytes, bytes}
use chainlink_stellar.Generator.{
  Field, Enum, EnumVariant, unit_kind, tuple_kind, struct_kind, is_unit,
}
use chainlink_stellar.Generator.Text.{decimal, decimal_int, quoted, sprintf}
use chainlink_stellar.Generator.Names.{Known, rust_type_to_go, snake_to_pascal, tuple_field_name}
use chainlink_stellar.Generator.Encoders.{get_to_scval_converter}
use chainlink_stellar.Generator.Structs.{field_line}
use chainlink_stellar.Generator.Payloads.{generate_payload_from_scval}
use chainlink_stellar.Generator.Write.{Writes, text, printf, each, each_at}

abbrev pub unit_constant : Enum → EnumVariant → Writes
unit_constant e v =
    (printf "\t%s%s %s = %d\n" (e.name ∷ v.name ∷ e.name ∷ decimal_int v.value ∷ []) ∷ [])

abbrev pub unit_enum_head : Enum → Writes
unit_enum_head e =
    (printf
        "// %s represents the %s enum (unit-only Soroban contracttype, encoded as ScVal::U32).\n"
        (e.name ∷ e.name ∷ [])
      ∷ printf "type %s uint32\n\n" (e.name ∷ [])
      ∷ text "const (\n"
      ∷ [])

abbrev pub unit_enum_end : Enum → Writes
unit_enum_end e =
    (text ")\n\n"
      ∷ printf "// ToScVal converts %s to an xdr.ScVal.\n" (e.name ∷ [])
      ∷ printf "func (e %s) ToScVal() (xdr.ScVal, error) {\n" (e.name ∷ [])
      ∷ text "\treturn scval.Uint32ToScVal(uint32(e)), nil\n"
      ∷ text "}\n\n"
      ∷ printf "// %sFromScVal parses an xdr.ScVal into %s.\n" (e.name ∷ e.name ∷ [])
      ∷ printf "func %sFromScVal(val xdr.ScVal) (%s, error) {\n" (e.name ∷ e.name ∷ [])
      ∷ text "\tv, ok := val.GetU32()\n"
      ∷ text "\tif !ok {\n"
      ∷ printf "\t\treturn 0, fmt.Errorf(\"expected u32 for %s enum\")\n" (e.name ∷ [])
      ∷ text "\t}\n"
      ∷ printf "\treturn %s(v), nil\n" (e.name ∷ [])
      ∷ text "}\n\n"
      ∷ [])

unfoldable pub generate_unit_enum : Enum → Writes
unfolding decimal_int
generate_unit_enum e = unit_enum_head e ++ (each (unit_constant e) e.variants ++ unit_enum_end e)

abbrev pub positional_line : ℕ → Field → Writes
positional_line i f =
    printf "\t%s %s\n" (tuple_field_name i ∷ rust_type_to_go f.type_name ∷ []) ∷ []

abbrev pub tuple_struct_head : Enum → EnumVariant → Bytes → Writes
tuple_struct_head e v type_name =
    (printf "// %s is the tuple variant %s::%s.\n" (type_name ∷ e.name ∷ v.name ∷ [])
      ∷ printf "type %s struct {\n" (type_name ∷ [])
      ∷ [])

abbrev pub named_struct_head : Enum → EnumVariant → Bytes → Writes
named_struct_head e v type_name =
    (printf "// %s is the struct variant %s::%s.\n" (type_name ∷ e.name ∷ v.name ∷ [])
      ∷ printf "type %s struct {\n" (type_name ∷ [])
      ∷ [])

unfoldable pub generate_union_variant_struct : Enum → EnumVariant → Writes
unfolding tuple_field_name rust_type_to_go snake_to_pascal
generate_union_variant_struct e v =
    let type_name = e.name ++ v.name in
    elim v.kind [
      | unit_kind ↦
          (printf "// %s is the unit variant %s::%s.\n" (type_name ∷ e.name ∷ v.name ∷ [])
            ∷ printf "type %s struct{}\n\n" (type_name ∷ [])
            ∷ [])
      | tuple_kind ↦
          tuple_struct_head e v type_name
          ++ (each_at 0 positional_line v.payload ++ (text "}\n\n" ∷ []))
      | struct_kind ↦
          named_struct_head e v type_name ++ (each field_line v.payload ++ (text "}\n\n" ∷ []))
    ]

abbrev pub count_variant : EnumVariant → Writes
count_variant v = (printf "\tif e.%s != nil { set++ }\n" (v.name ∷ []) ∷ [])

unfoldable pub payload_to_scval_expr : Bytes → Bytes → Bytes
unfolding get_to_scval_converter
payload_to_scval_expr rust_type expr = get_to_scval_converter rust_type expr

abbrev pub positional_item : EnumVariant → ℕ → Field → Writes
positional_item v i f =
    let expr = sprintf (bytes "e.%s.%s") (v.name ∷ tuple_field_name i ∷ []) in
    (printf "\t\t\t%s,\n" ((payload_to_scval_expr f.type_name expr) ∷ []) ∷ [])

abbrev pub named_item : EnumVariant → Field → Writes
named_item v f =
    let expr = sprintf (bytes "e.%s.%s") (v.name ∷ snake_to_pascal f.name ∷ []) in
    (printf "\t\t\t%s,\n" ((payload_to_scval_expr f.type_name expr) ∷ []) ∷ [])

abbrev pub payload_items : EnumVariant → Writes
payload_items v = elim v.kind [
  | unit_kind ↦ []
  | tuple_kind ↦ each_at 0 (positional_item v) v.payload
  | struct_kind ↦ each (named_item v) v.payload
]

abbrev pub variant_items_head : EnumVariant → Writes
variant_items_head v =
    (printf "\tif e.%s != nil {\n" (v.name ∷ [])
      ∷ text "\t\titems := []xdr.ScVal{\n"
      ∷ printf "\t\t\tscval.SymbolToScVal(%q),\n" (quoted v.name ∷ [])
      ∷ [])

abbrev pub encoded_variant : EnumVariant → Writes
encoded_variant v =
    variant_items_head v
    ++ (payload_items v
        ++ (text "\t\t}\n" ∷ text "\t\treturn scval.VecToScVal(items), nil\n" ∷ text "\t}\n" ∷ []))

abbrev pub union_to_scval_head : Enum → Writes
union_to_scval_head e =
    (printf "// ToScVal converts %s to its Soroban discriminated-union encoding.\n" (e.name ∷ [])
      ∷ printf "// Returns an error if zero or multiple variant pointers are set.\n" []
      ∷ printf "func (e %s) ToScVal() (xdr.ScVal, error) {\n" (e.name ∷ [])
      ∷ text "\tset := 0\n"
      ∷ [])

abbrev pub one_variant_check : Enum → Writes
one_variant_check e =
    (text "\tif set != 1 {\n"
      ∷ printf
          "\t\treturn xdr.ScVal{}, fmt.Errorf(\"%s: expected exactly one variant set, got %%d\", set)\n"
          (e.name ∷ [])
      ∷ text "\t}\n"
      ∷ [])

unfoldable pub generate_union_to_scval : Enum → Writes
unfolding quoted sprintf tuple_field_name snake_to_pascal payload_to_scval_expr
generate_union_to_scval e =
    union_to_scval_head e
    ++ (each count_variant e.variants
        ++ (one_variant_check e
            ++ (each encoded_variant e.variants
                ++ (printf "\treturn xdr.ScVal{}, fmt.Errorf(\"%s: unreachable\")\n" (e.name ∷ [])
                    ∷ text "}\n\n"
                    ∷ []))))

abbrev pub positional_payload : Known → Enum → EnumVariant → ℕ → Field → Writes
positional_payload known e v i f =
    let assign = sprintf (bytes "payload.%s") (tuple_field_name i ∷ []) in
    generate_payload_from_scval known f.type_name (sprintf (bytes "vec[%d]") (decimal (i + 1) ∷ []))
      assign (sprintf (bytes "%s::%s[%d]") (e.name ∷ v.name ∷ decimal i ∷ [])) e.name

abbrev pub named_payload : Known → Enum → EnumVariant → ℕ → Field → Writes
named_payload known e v i f =
    let assign = sprintf (bytes "payload.%s") (snake_to_pascal f.name ∷ []) in
    generate_payload_from_scval known f.type_name (sprintf (bytes "vec[%d]") (decimal (i + 1) ∷ []))
      assign (sprintf (bytes "%s::%s.%s") (e.name ∷ v.name ∷ f.name ∷ [])) e.name

abbrev pub tuple_payload_head : Bytes → Writes
tuple_payload_head type_name = (printf "\t\tpayload := &%s{}\n" (type_name ∷ []) ∷ [])

abbrev pub named_payload_head : Bytes → Writes
named_payload_head type_name = (printf "\t\tpayload := &%s{}\n" (type_name ∷ []) ∷ [])

abbrev pub payload_body : Known → Enum → EnumVariant → Writes
payload_body known e v =
    let type_name = e.name ++ v.name in
    elim v.kind [
      | unit_kind ↦
          (printf "\t\treturn %s{%s: &%s{}}, nil\n" (e.name ∷ v.name ∷ type_name ∷ []) ∷ [])
      | tuple_kind ↦
          tuple_payload_head type_name
          ++ (each_at 0 (positional_payload known e v) v.payload
              ++ (printf "\t\treturn %s{%s: payload}, nil\n" (e.name ∷ v.name ∷ []) ∷ []))
      | struct_kind ↦
          named_payload_head type_name
          ++ (each_at 0 (named_payload known e v) v.payload
              ++ (printf "\t\treturn %s{%s: payload}, nil\n" (e.name ∷ v.name ∷ []) ∷ []))
    ]

abbrev pub variant_case_head : Enum → EnumVariant → ℕ → Writes
variant_case_head e v expected_len =
    (printf "\tcase %q:\n" (quoted v.name ∷ []) ∷ [])
    ++ (printf "\t\tif len(vec) != %d {\n" (decimal (expected_len) ∷ [])
        ∷ printf
            "\t\t\treturn %s{}, fmt.Errorf(\"%s::%s: expected %d elements, got %%d\", len(vec))\n"
            (e.name ∷ e.name ∷ v.name ∷ decimal (expected_len) ∷ [])
        ∷ text "\t\t}\n"
        ∷ [])

abbrev pub decoded_variant : Known → Enum → EnumVariant → Writes
decoded_variant known e v =
    let expected_len = 1 + length v.payload in
    variant_case_head e v expected_len ++ payload_body known e v

abbrev pub union_from_scval_head : Enum → Writes
union_from_scval_head e =
    (printf "// %sFromScVal parses an xdr.ScVal into %s.\n" (e.name ∷ e.name ∷ [])
      ∷ printf "func %sFromScVal(val xdr.ScVal) (%s, error) {\n" (e.name ∷ e.name ∷ [])
      ∷ printf "\tvecPtr, ok := val.GetVec()\n" []
      ∷ printf "\tif !ok || vecPtr == nil || *vecPtr == nil {\n" []
      ∷ printf "\t\treturn %s{}, fmt.Errorf(\"expected vec for %s enum\")\n" (e.name ∷ e.name ∷ [])
      ∷ text "\t}\n"
      ∷ text "\tvec := *vecPtr\n"
      ∷ text "\tif len(vec) < 1 {\n"
      ∷ printf "\t\treturn %s{}, fmt.Errorf(\"%s: empty vec\")\n" (e.name ∷ e.name ∷ [])
      ∷ text "\t}\n"
      ∷ text "\ttag, err := scval.SymbolFromScVal(vec[0])\n"
      ∷ text "\tif err != nil {\n"
      ∷ printf "\t\treturn %s{}, fmt.Errorf(\"%s: variant tag: %%w\", err)\n" (e.name ∷ e.name ∷ [])
      ∷ text "\t}\n"
      ∷ text "\tswitch tag {\n"
      ∷ [])

unfoldable pub generate_union_from_scval : Known → Enum → Writes
unfolding quoted sprintf decimal tuple_field_name snake_to_pascal generate_payload_from_scval
generate_union_from_scval known e =
    union_from_scval_head e
    ++ (each (decoded_variant known e) e.variants
        ++ (text "\tdefault:\n"
            ∷ printf "\t\treturn %s{}, fmt.Errorf(\"%s: unknown variant %%q\", tag)\n"
                (e.name ∷ e.name ∷ [])
            ∷ text "\t}\n"
            ∷ text "}\n\n"
            ∷ []))

abbrev pub variant_pointer : Enum → EnumVariant → Writes
variant_pointer e v = (printf "\t%s *%s%s\n" (v.name ∷ e.name ∷ v.name ∷ []) ∷ [])

abbrev pub union_head : Enum → Writes
union_head e =
    (printf "// %s is a Soroban discriminated-union (#[contracttype] enum with payload(s)).\n"
        (e.name ∷ [])
      ∷ text "// Wire format: ScVal::Vec([ScVal::Symbol(<VariantName>), <payload fields...>]).\n"
      ∷ text "// Construct by setting exactly one variant pointer to a non-nil value.\n"
      ∷ printf "type %s struct {\n" (e.name ∷ [])
      ∷ [])

unfoldable pub generate_union_enum : Known → Enum → Writes
unfolding generate_union_variant_struct generate_union_to_scval generate_union_from_scval
generate_union_enum known e =
    union_head e
    ++ (each (variant_pointer e) e.variants
        ++ ((text "}\n\n" ∷ [])
            ++ (each (generate_union_variant_struct e) e.variants
                ++ (generate_union_to_scval e ++ generate_union_from_scval known e))))

unfoldable pub generate_enum : Known → Enum → Writes
unfolding is_unit generate_unit_enum generate_union_enum
generate_enum known e = if is_unit e then generate_unit_enum e else generate_union_enum known e
