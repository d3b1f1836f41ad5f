-- ===== src/Generator/Structs.antt =====
-- bindings/generator/codegen.go: `generateStruct`, `generateErrorEnum` and `generateEventStruct`.
use chainlink_stellar.Prelude.{List, [], ◌∷◌, ◌++◌}
use chainlink_stellar.Config.{Bytes, bytes}
use chainlink_stellar.Generator.{Field, Struct, ErrorVariant, ErrorEnum, Event}
use chainlink_stellar.Generator.Text.{decimal_int, join, sprintf}
use chainlink_stellar.Generator.Names.{Known, rust_type_to_go, snake_to_pascal, camel_to_spaces}
use chainlink_stellar.Generator.Encoders.{get_to_scval_converter}
use chainlink_stellar.Generator.Decoders.{generate_from_scval_field}
use chainlink_stellar.Generator.Write.{Writes, text, printf, each}

-- A field of a Go struct.
abbrev pub field_line : Field → Writes
field_line f = printf "\t%s %s\n" (snake_to_pascal f.name ∷ rust_type_to_go f.type_name ∷ []) ∷ []

abbrev pub encoded_field : Field → Writes
encoded_field f =
    let converter = get_to_scval_converter f.type_name (bytes "s." ++ snake_to_pascal f.name) in
    (printf "\t\t\"%s\": %s,\n" (f.name ∷ converter ∷ []) ∷ [])

abbrev pub case_line : Field → Writes
case_line f = (printf "\t\tcase \"%s\":\n" (f.name ∷ []) ∷ [])

abbrev pub decoded_field : Known → Field → Writes
decoded_field known f =
    case_line f ++ generate_from_scval_field known f (bytes "result." ++ snake_to_pascal f.name)

abbrev pub struct_head : Struct → Writes
struct_head s =
    (printf "// %s represents the %s struct from the contract.\n" (s.name ∷ s.name ∷ [])
      ∷ printf "type %s struct {\n" (s.name ∷ [])
      ∷ [])

abbrev pub to_scval_head : Struct → Writes
to_scval_head s =
    (text "}\n\n"
      ∷ printf "// ToScVal converts %s to an xdr.ScVal for contract calls.\n" (s.name ∷ [])
      ∷ printf "func (s %s) ToScVal() (xdr.ScVal, error) {\n" (s.name ∷ [])
      ∷ text "\treturn scval.BuildStructScVal(map[string]xdr.ScVal{\n"
      ∷ [])

abbrev pub from_scval_head : Struct → Writes
from_scval_head s =
    (text "\t})\n"
      ∷ text "}\n\n"
      ∷ printf "// %sFromScVal parses an xdr.ScVal into %s.\n" (s.name ∷ s.name ∷ [])
      ∷ printf "func %sFromScVal(val xdr.ScVal) (*%s, error) {\n" (s.name ∷ s.name ∷ [])
      ∷ text "\tscMap, ok := val.GetMap()\n"
      ∷ text "\tif !ok || scMap == nil {\n"
      ∷ text "\t\treturn nil, fmt.Errorf(\"not a map type\")\n"
      ∷ text "\t}\n\n"
      ∷ printf "\tresult := &%s{}\n" (s.name ∷ [])
      ∷ text "\tfor _, entry := range *scMap {\n"
      ∷ text "\t\tkey, ok := entry.Key.GetSym()\n"
      ∷ text "\t\tif !ok {\n"
      ∷ text "\t\t\tcontinue\n"
      ∷ text "\t\t}\n\n"
      ∷ text "\t\tswitch string(key) {\n"
      ∷ [])

abbrev pub from_scval_end : Writes
from_scval_end =
    (text "\t\t}\n" ∷ text "\t}\n\n" ∷ text "\treturn result, nil\n" ∷ text "}\n\n" ∷ [])

unfoldable pub generate_struct : Known → Struct → Writes
unfolding rust_type_to_go snake_to_pascal get_to_scval_converter generate_from_scval_field
generate_struct known s =
    struct_head s
    ++ (each field_line s.fields
        ++ (to_scval_head s
            ++ (each encoded_field s.fields
                ++ (from_scval_head s ++ (each (decoded_field known) s.fields ++ from_scval_end)))))

abbrev pub error_constant : ErrorEnum → ErrorVariant → Writes
error_constant e v = (printf "\t%s%s = %d\n" (e.name ∷ v.name ∷ decimal_int v.value ∷ []) ∷ [])

abbrev pub error_message : ErrorVariant → Writes
error_message v =
    (printf "\t%d: \"%s\",\n" (decimal_int v.value ∷ (camel_to_spaces v.name) ∷ []) ∷ [])

abbrev pub error_head : ErrorEnum → Writes
error_head e =
    (printf "// %s represents the contract error codes.\n" (e.name ∷ []) ∷ text "const (\n" ∷ [])

abbrev pub message_head : ErrorEnum → Writes
message_head e =
    (text ")\n\n"
      ∷ printf "// %sMessage returns a human-readable message for error codes.\n" (e.name ∷ [])
      ∷ printf "var %sMessage = map[int]string{\n" (e.name ∷ [])
      ∷ [])

unfoldable pub generate_error_enum : ErrorEnum → Writes
unfolding decimal_int camel_to_spaces
generate_error_enum e =
    error_head e
    ++ (each (error_constant e) e.variants
        ++ (message_head e ++ (each error_message e.variants ++ (text "}\n\n" ∷ []))))

-- `%v` of a list of texts.
abbrev pub shown : List Bytes → Bytes
shown ts = sprintf (bytes "[%s]") (join (bytes " ") ts ∷ [])

abbrev pub topic_constant : Bytes → List Bytes → Writes
topic_constant name [] = []
topic_constant name (topic ∷ topics) =
    printf "// %sTopic is the event topic identifier.\n" (name ∷ [])
    ∷ printf "const %sTopic = \"%s\"\n\n" (name ∷ topic ∷ [])
    ∷ []

abbrev pub event_head : Event → Writes
event_head e =
    (printf "// %s represents the %s event.\n" (e.name ∷ e.name ∷ [])
      ∷ printf "// Topics: %v\n" (shown e.topics ∷ [])
      ∷ printf "type %s struct {\n" (e.name ∷ [])
      ∷ [])

abbrev pub event_end : Writes
event_end =
    (text "\t// Event metadata\n"
      ∷ text "\tLedger uint32\n"
      ∷ text "\tTxHash string\n"
      ∷ text "}\n\n"
      ∷ [])

unfoldable pub generate_event_struct : Event → Writes
unfolding sprintf join rust_type_to_go snake_to_pascal
generate_event_struct e =
    event_head e ++ (each field_line e.fields ++ (event_end ++ topic_constant e.name e.topics))
