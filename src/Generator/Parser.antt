-- ===== src/Generator/Parser.antt =====
-- bindings/generator/parser.go: `ParseRustBindings` and its parsers.
use chainlink_stellar.Prelude.{true, false, none, some, List, [], ◌∷◌, ◌++◌, map, nat_eq}
use chainlink_stellar.Config.{Bytes}
use chainlink_stellar.Generator.{
  Field, Struct, Function, ErrorVariant, ErrorEnum, Enum, Event, Contract,
}
use chainlink_stellar.Generator.Text.{trim_space, sscanf_d}
use chainlink_stellar.Generator.Regex.{Match, find_all, submatch}
use chainlink_stellar.Generator.Split.{extract_balanced_body, split_params}
use chainlink_stellar.Generator.Patterns.{
  enum_header, struct_declaration, pub_field, trait_block, trait_function, error_declaration,
  error_variant, event_declaration, topic,
}
use chainlink_stellar.Generator.Variants.{qualify_soroban_type, parse_enum_variants}

-- An enum whose body is not balanced is left out.
unfoldable pub parse_enums_from : List Match → List Enum
unfolding submatch extract_balanced_body parse_enum_variants
parse_enums_from [] = []
parse_enums_from (m ∷ ms) = elim (extract_balanced_body 0 m.0) [
  | none ↦ parse_enums_from ms
  | some body ↦
      record { name = submatch 3 m.1; variants = parse_enum_variants body } ∷ parse_enums_from ms
]

unfoldable pub parse_enums : Bytes → List Enum
unfolding parse_enums_from find_all
parse_enums input = parse_enums_from (find_all enum_header input)

abbrev plain_field : Match → Field
plain_field m = record { name = submatch 1 m.1; type_name = trim_space (submatch 2 m.1) }

abbrev qualified_field : Match → Field
qualified_field m = record {
  name = submatch 1 m.1;
  type_name = qualify_soroban_type (trim_space (submatch 2 m.1));
}

abbrev struct_of : Match → Struct
struct_of m = record {
  name = submatch 1 m.1;
  fields = map plain_field (find_all pub_field (submatch 2 m.1));
}

unfoldable pub parse_structs : Bytes → List Struct
unfolding find_all submatch trim_space
parse_structs input = map struct_of (find_all struct_declaration input)

-- `strings.SplitN(p, ":", 2)`; `name` is read. Without a colon there is no parameter.
unfoldable pub parse_parameter : Bytes → Bytes → List Field
unfolding trim_space
parse_parameter name [] = []
parse_parameter name (b ∷ bs) = elim (nat_eq b 58) [
  | true ↦ record { name = trim_space name; type_name = trim_space bs } ∷ []
  | false ↦ parse_parameter (name ++ b ∷ []) bs
]

unfoldable pub parse_parameters : List Bytes → List Field
unfolding parse_parameter
parse_parameters [] = []
parse_parameters (p ∷ ps) = parse_parameter [] p ++ parse_parameters ps

abbrev function_of : Match → Function
function_of m = record {
  name = submatch 1 m.1;
  inputs = elim (trim_space (submatch 2 m.1)) [
    | [] ↦ []
    | b ∷ bs ↦ parse_parameters (split_params (b ∷ bs))
  ];
  returns = trim_space (submatch 3 m.1);
}

unfoldable pub parse_functions : Bytes → List Function
unfolding find_all submatch trim_space split_params parse_parameters
parse_functions input = elim (find_all trait_block input) [
  | [] ↦ []
  | m ∷ _ ↦ map function_of (find_all trait_function (submatch 1 m.1))
]

abbrev error_variant_of : Match → ErrorVariant
error_variant_of m = record { name = submatch 1 m.1; value = sscanf_d (submatch 2 m.1) }

abbrev error_enum_of : Match → ErrorEnum
error_enum_of m = record {
  name = submatch 1 m.1;
  variants = map error_variant_of (find_all error_variant (submatch 2 m.1));
}

unfoldable pub parse_errors : Bytes → List ErrorEnum
unfolding find_all submatch sscanf_d
parse_errors input = map error_enum_of (find_all error_declaration input)

abbrev event_of : Match → Event
event_of m = record {
  name = submatch 1 m.1;
  topics = map (λ t. submatch 1 t.1) (find_all topic (submatch 3 m.1));
  fields = map qualified_field (find_all pub_field (submatch 2 m.1));
}

unfoldable pub parse_events : Bytes → List Event
unfolding find_all submatch trim_space qualify_soroban_type
parse_events input = map event_of (find_all event_declaration input)

-- The name is set by `main`.
unfoldable pub parse_rust_bindings : Bytes → Contract
unfolding parse_structs parse_functions parse_errors parse_events parse_enums
parse_rust_bindings input = record {
  name = [];
  structs = parse_structs input;
  functions = parse_functions input;
  errors = parse_errors input;
  events = parse_events input;
  enums = parse_enums input;
}
