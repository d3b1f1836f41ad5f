-- ===== src/Generator/TypesFile.antt =====
-- bindings/generator/codegen.go: `GenerateTypes`, the contents of types.go.
use chainlink_stellar.Prelude.{Bool, true, false, ◌||◌, not, List, [], ◌∷◌, ◌++◌, if◌then◌else◌}
use chainlink_stellar.Config.{Bytes, bytes, contains}
use chainlink_stellar.Generator.{Field, Event, Contract}
use chainlink_stellar.Generator.Names.{enum_names, rust_type_to_go}
use chainlink_stellar.Generator.Structs.{
  generate_struct, generate_error_enum, generate_event_struct,
}
use chainlink_stellar.Generator.Enums.{generate_enum}
use chainlink_stellar.Generator.Write.{Writes, text, printf, each, render}

abbrev pub is_empty {ℓ} : {A : Type ℓ} → List A → Bool
is_empty [] = true
is_empty (x ∷ xs) = false

unfoldable pub mentions_scval : List Field → Bool
unfolding rust_type_to_go contains
mentions_scval [] = false
mentions_scval (f ∷ fs) =
    contains (rust_type_to_go f.type_name) (bytes "scval.") || mentions_scval fs

unfoldable pub events_mention_scval : List Event → Bool
unfolding mentions_scval
events_mention_scval [] = false
events_mention_scval (e ∷ es) = mentions_scval e.fields || events_mention_scval es

pub record Imports : Type 0 where
  pub need_fmt : Bool
  pub need_scval : Bool
  pub need_xdr : Bool

unfoldable pub types_file_needs_imports : Contract → Imports
unfolding events_mention_scval
types_file_needs_imports c =
    if not (is_empty c.structs) || (not (is_empty c.errors) || not (is_empty c.enums))
    then record { need_fmt = true; need_scval = true; need_xdr = true }
    else record { need_fmt = false; need_scval = events_mention_scval c.events; need_xdr = false }

abbrev pub when : Bool → Writes → Writes
when b ws = if b then ws else []

unfoldable pub import_block : Imports → Writes
import_block i = when (i.need_fmt || (i.need_scval || i.need_xdr)) (
    (text "import (\n" ∷ [])
    ++ (when i.need_fmt (text "\t\"fmt\"\n" ∷ [])
        ++ (when (i.need_scval || i.need_xdr) (
              when i.need_fmt (text "\n" ∷ [])
              ++ (when i.need_scval (
                    text "\t\"github.com/smartcontractkit/chainlink-stellar/bindings/scval\"\n"
                    ∷ [])
                  ++ when i.need_xdr (text "\t\"github.com/stellar/go-stellar-sdk/xdr\"\n" ∷ [])))
            ++ (text ")\n\n" ∷ []))))

abbrev pub file_head : Bytes → Writes
file_head pkg =
    (text "// Code generated by stellar-bindings-generator. DO NOT EDIT.\n"
      ∷ printf "package %s\n\n" (pkg ∷ [])
      ∷ [])

abbrev pub type_writes : Bytes → Contract → Writes
type_writes pkg c =
    let known = enum_names [] c.enums in
    file_head pkg
    ++ (import_block (types_file_needs_imports c)
        ++ (each (generate_struct known) c.structs
            ++ (each generate_error_enum c.errors
                ++ (each generate_event_struct c.events ++ each (generate_enum known) c.enums))))

unfoldable pub generate_types : Bytes → Contract → Bytes
unfolding enum_names types_file_needs_imports import_block generate_struct generate_error_enum
    generate_event_struct generate_enum render
generate_types pkg c = render (type_writes pkg c)
