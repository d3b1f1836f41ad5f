-- ===== src/Generator/UnionsBracketed.antt =====
-- bindings/generator/codegen.go: the brackets of what decodes a union, and of all of types.go.
use chainlink_stellar.Prelude.{ℕ, ◌+◌, refl, Bool, true, false, [], ◌∷◌, ◌++◌, All, length}
use chainlink_stellar.Config.{Bytes, bytes}
use chainlink_stellar.Generator.{
  Field, EnumVariant, EnumVariantKind, Enum, Contract, unit_kind, tuple_kind, struct_kind, is_unit,
}
use chainlink_stellar.Generator.Text.{decimal, sprintf}
use chainlink_stellar.Generator.Names.{Known, enum_names, snake_to_pascal, tuple_field_name}
use chainlink_stellar.Generator.Structs.{
  generate_struct, generate_error_enum, generate_event_struct,
}
use chainlink_stellar.Generator.Enums.{
  generate_union_variant_struct, generate_union_to_scval, positional_payload, named_payload,
  tuple_payload_head, named_payload_head, payload_body, variant_case_head, decoded_variant,
  union_from_scval_head, generate_union_from_scval, variant_pointer, union_head,
  generate_union_enum, generate_enum,
}
use chainlink_stellar.Generator.TypesFile.{
  Imports, types_file_needs_imports, import_block, file_head, type_writes, generate_types,
}
use chainlink_stellar.Generator.Write.{text, each, each_at}
use chainlink_stellar.Generator.Brackets.{
  IsNeutral, IsBracketed, Moves, Keeps, even, across, both, if-Keeps, each-Keeps, each_at-Keeps,
}
use chainlink_stellar.Generator.Plain.{
  IsPlain, snake_to_pascal-IsPlain, decimal-IsPlain, quoted-IsPlain,
}
use chainlink_stellar.Generator.Neutral.{plain-IsNeutral, append-IsNeutral, sprintf-IsNeutral}
use chainlink_stellar.Generator.PayloadsDecoded.{generate_payload_from_scval-Keeps}
use chainlink_stellar.Generator.Bracketed.{
  IsPlainField, IsPlainStruct, IsPlainError, IsPlainEvent, generate_struct-Keeps,
  generate_error_enum-Keeps, generate_event_struct-Keeps,
}
use chainlink_stellar.Generator.EnumsBracketed.{
  IsPlainVariant, IsPlainEnum, field_text, generate_unit_enum-Keeps,
  generate_union_variant_struct-Keeps, generate_union_to_scval-Keeps,
}

module _ (known : Known) (e : Enum) (n : IsPlain e.name) where
  enum_name : IsNeutral e.name
  enum_name = plain-IsNeutral n

  module _ (v : EnumVariant) (p : IsPlain v.name) where
    variant_name : IsNeutral v.name
    variant_name = plain-IsNeutral p

    type_name : IsNeutral (e.name ++ v.name)
    type_name = append-IsNeutral enum_name variant_name

    item : (i : ℕ) → IsNeutral (sprintf (bytes "vec[%d]") (decimal (i + 1) ∷ []))
    item i =
        sprintf-IsNeutral (bytes "vec[%d]") (decimal (i + 1) ∷ [])
          (plain-IsNeutral (decimal-IsPlain (i + 1)), tt) (λ st. refl)

    field_of :
        (name : Bytes) → IsNeutral name → IsNeutral (sprintf (bytes "payload.%s") (name ∷ []))
    field_of name h = sprintf-IsNeutral (bytes "payload.%s") (name ∷ []) (h, tt) (λ st. refl)

    positional_payload-Keeps :
        (i : ℕ) (f : Field) → IsPlainField f → Keeps (positional_payload known e v i f)
    positional_payload-Keeps i f (_, h) =
        generate_payload_from_scval-Keeps known f.type_name h
          (sprintf (bytes "vec[%d]") (decimal (i + 1) ∷ []))
          (sprintf (bytes "payload.%s") (tuple_field_name i ∷ []))
          (sprintf (bytes "%s::%s[%d]") (e.name ∷ v.name ∷ decimal i ∷ [])) e.name (item i)
          (field_of (tuple_field_name i) (field_text i))
          (sprintf-IsNeutral (bytes "%s::%s[%d]") (e.name ∷ v.name ∷ decimal i ∷ [])
            (enum_name, (variant_name, (plain-IsNeutral (decimal-IsPlain i), tt))) (λ st. refl))
          enum_name

    named_payload-Keeps : (i : ℕ) (f : Field) → IsPlainField f → Keeps (named_payload known e v i f)
    named_payload-Keeps i f (m, h) =
        generate_payload_from_scval-Keeps known f.type_name h
          (sprintf (bytes "vec[%d]") (decimal (i + 1) ∷ []))
          (sprintf (bytes "payload.%s") (snake_to_pascal f.name ∷ []))
          (sprintf (bytes "%s::%s.%s") (e.name ∷ v.name ∷ f.name ∷ [])) e.name (item i)
          (field_of (snake_to_pascal f.name) (plain-IsNeutral (snake_to_pascal-IsPlain f.name m)))
          (sprintf-IsNeutral (bytes "%s::%s.%s") (e.name ∷ v.name ∷ f.name ∷ [])
            (enum_name, (variant_name, (plain-IsNeutral m, tt))) (λ st. refl))
          enum_name

    payload_body-Keeps :
        (k : EnumVariantKind)
        → All IsPlainField v.payload
        → Keeps (payload_body known e (record v { kind = k }))
    payload_body-Keeps unit_kind fs = even (enum_name, (variant_name, (type_name, tt))) (λ st. refl)
    payload_body-Keeps tuple_kind fs = λ st.
        both {a = tuple_payload_head (e.name ++ v.name)} (across st st (type_name, tt) refl) (
          both {a = each_at 0 (positional_payload known e v) v.payload}
            (each_at-Keeps (positional_payload known e v) positional_payload-Keeps 0 v.payload fs
              st)
            (across st st (enum_name, (variant_name, tt)) refl))
    payload_body-Keeps struct_kind fs = λ st.
        both {a = named_payload_head (e.name ++ v.name)} (across st st (type_name, tt) refl) (
          both {a = each_at 0 (named_payload known e v) v.payload}
            (each_at-Keeps (named_payload known e v) named_payload-Keeps 0 v.payload fs st)
            (across st st (enum_name, (variant_name, tt)) refl))

    decoded_variant-Keeps : All IsPlainField v.payload → Keeps (decoded_variant known e v)
    decoded_variant-Keeps fs st =
        let count = plain-IsNeutral (decimal-IsPlain (1 + length v.payload)) in
        both {a = variant_case_head e v (1 + length v.payload)}
          (across st st
            (
              plain-IsNeutral (quoted-IsPlain v.name p),
              (count, (enum_name, (enum_name, (variant_name, (count, tt))))),
            )
            refl)
          (payload_body-Keeps v.kind fs st)

  generate_union_from_scval-Keeps :
      All IsPlainVariant e.variants → Keeps (generate_union_from_scval known e)
  unfolding generate_union_from_scval
  generate_union_from_scval-Keeps vs st =
      let n = enum_name in
      both {a = union_from_scval_head e}
        (across st (125 ∷ 125 ∷ st) (n, (n, (n, (n, (n, (n, (n, (n, (n, (n, tt)))))))))) refl)
        (both {a = each (decoded_variant known e) e.variants}
          (each-Keeps (decoded_variant known e) (λ v (p, fs). decoded_variant-Keeps v p fs)
            e.variants vs (125 ∷ 125 ∷ st))
          (across (125 ∷ 125 ∷ st) st (n, (n, tt)) refl))

  generate_union_enum-Keeps : All IsPlainVariant e.variants → Keeps (generate_union_enum known e)
  unfolding generate_union_enum
  generate_union_enum-Keeps vs st =
      both {a = union_head e} (across st (125 ∷ st) (enum_name, (enum_name, tt)) refl) (
        both {a = each (variant_pointer e) e.variants}
          (each-Keeps (variant_pointer e)
            (λ v (p, _).
              even (plain-IsNeutral p, (enum_name, (plain-IsNeutral p, tt))) (λ st. refl))
            e.variants vs (125 ∷ st))
          (both {a = text "}\n\n" ∷ []} (across (125 ∷ st) st tt refl) (
            both {a = each (generate_union_variant_struct e) e.variants}
              (each-Keeps (generate_union_variant_struct e)
                (λ v h. generate_union_variant_struct-Keeps e v n h) e.variants vs st)
              (both {a = generate_union_to_scval e} (generate_union_to_scval-Keeps e (n, vs) st)
                (generate_union_from_scval-Keeps vs st)))))

generate_enum-Keeps : (known : Known) (e : Enum) → IsPlainEnum e → Keeps (generate_enum known e)
unfolding generate_enum
generate_enum-Keeps known e (n, vs) =
    if-Keeps (is_unit e) (generate_unit_enum-Keeps e (n, vs))
      (generate_union_enum-Keeps known e n vs)

-- No name and no type of a contract has a bracket.
abbrev pub IsPlainContract : Contract → Type 0
IsPlainContract c =
    All IsPlainStruct c.structs
    × (All IsPlainError c.errors × (All IsPlainEvent c.events × All IsPlainEnum c.enums))

import_block-Keeps : (i : Imports) → Keeps (import_block i)
unfolding import_block
import_block-Keeps i = by_need i.need_fmt i.need_scval i.need_xdr
  where
    by_need :
        (a b c : Bool)
        → Keeps (import_block (record { need_fmt = a; need_scval = b; need_xdr = c }))
    by_need false false false = even tt (λ st. refl)
    by_need false false true = even tt (λ st. refl)
    by_need false true false = even tt (λ st. refl)
    by_need false true true = even tt (λ st. refl)
    by_need true false false = even tt (λ st. refl)
    by_need true false true = even tt (λ st. refl)
    by_need true true false = even tt (λ st. refl)
    by_need true true true = even tt (λ st. refl)

-- For every contract of which no name and no type has a bracket, and every such package name, the
-- brackets of the generated types.go match: each closing one closes the last that is open, and none
-- stays open.
pub generate_types-IsBracketed :
    (pkg : Bytes) (c : Contract)
    → IsPlain pkg
    → IsPlainContract c
    → IsBracketed (generate_types pkg c)
unfolding generate_types
generate_types-IsBracketed pkg c p (ss, (es, (vs, us))) =
    let known = enum_names [] c.enums in
    let written : Moves [] (type_writes pkg c) [] =
      both {a = file_head pkg} (across [] [] (plain-IsNeutral p, tt) refl) (
        both {a = import_block (types_file_needs_imports c)}
          (import_block-Keeps (types_file_needs_imports c) [])
          (both {a = each (generate_struct known) c.structs}
            (each-Keeps (generate_struct known) (generate_struct-Keeps known) c.structs ss [])
            (both {a = each generate_error_enum c.errors}
              (each-Keeps generate_error_enum generate_error_enum-Keeps c.errors es [])
              (both {a = each generate_event_struct c.events}
                (each-Keeps generate_event_struct generate_event_struct-Keeps c.events vs [])
                (each-Keeps (generate_enum known) (generate_enum-Keeps known) c.enums us []))))) in
    written.moved
