-- ===== src/Generator/EnumsBracketed.antt =====
-- bindings/generator/codegen.go: the brackets of the Go types of the enums.
use chainlink_stellar.Prelude.{ℕ, refl, [], ◌∷◌, ◌++◌, All}
use chainlink_stellar.Config.{bytes}
use chainlink_stellar.Generator.{
  Field, EnumVariant, EnumVariantKind, Enum, unit_kind, tuple_kind, struct_kind,
}
use chainlink_stellar.Generator.Text.{sprintf}
use chainlink_stellar.Generator.Names.{snake_to_pascal, tuple_field_name}
use chainlink_stellar.Generator.Structs.{field_line}
use chainlink_stellar.Generator.Enums.{
  unit_constant, unit_enum_head, generate_unit_enum, positional_line, tuple_struct_head,
  named_struct_head, generate_union_variant_struct, count_variant, payload_to_scval_expr,
  positional_item, named_item, payload_items, variant_items_head, encoded_variant,
  union_to_scval_head, one_variant_check, generate_union_to_scval,
}
use chainlink_stellar.Generator.Write.{each, each_at}
use chainlink_stellar.Generator.Brackets.{
  IsNeutral, Keeps, even, across, both, each-Keeps, each_at-Keeps, nothing_written,
}
use chainlink_stellar.Generator.Plain.{
  IsPlain, snake_to_pascal-IsPlain, decimal_int-IsPlain, quoted-IsPlain, tuple_field_name-IsPlain,
}
use chainlink_stellar.Generator.Neutral.{
  plain-IsNeutral, append-IsNeutral, sprintf-IsNeutral, rust_type_to_go-IsNeutral,
  get_to_scval_converter-IsNeutral,
}
use chainlink_stellar.Generator.Bracketed.{IsPlainField, field_line-Keeps}

abbrev pub IsPlainVariant : EnumVariant → Type 0
IsPlainVariant v = IsPlain v.name × All IsPlainField v.payload

abbrev pub IsPlainEnum : Enum → Type 0
IsPlainEnum e = IsPlain e.name × All IsPlainVariant e.variants

pub generate_unit_enum-Keeps : (e : Enum) → IsPlainEnum e → Keeps (generate_unit_enum e)
unfolding generate_unit_enum
generate_unit_enum-Keeps e (n, vs) st =
    let name = plain-IsNeutral n in
    both {a = unit_enum_head e} (across st (41 ∷ st) (name, (name, (name, tt))) refl) (
      both {a = each (unit_constant e) e.variants}
        (each-Keeps (unit_constant e)
          (λ v (p, _).
            even
              (
                name,
                (plain-IsNeutral p, (name, (plain-IsNeutral (decimal_int-IsPlain v.value), tt))),
              )
              (λ st. refl))
          e.variants vs (41 ∷ st))
        (across (41 ∷ st) st (name, (name, (name, (name, (name, (name, (name, (name, tt))))))))
          refl))

pub field_text : (i : ℕ) → IsNeutral (tuple_field_name i)
field_text i = plain-IsNeutral (tuple_field_name-IsPlain i)

positional_line-Keeps : (i : ℕ) (f : Field) → IsPlainField f → Keeps (positional_line i f)
positional_line-Keeps i f (n, h) =
    even (field_text i, (rust_type_to_go-IsNeutral f.type_name h, tt)) (λ st. refl)

pub generate_union_variant_struct-Keeps :
    (e : Enum) (v : EnumVariant)
    → IsPlain e.name
    → IsPlainVariant v
    → Keeps (generate_union_variant_struct e v)
unfolding generate_union_variant_struct
generate_union_variant_struct-Keeps e v n (p, fs) = by_kind v.kind
  where
    enum_name : IsNeutral e.name
    enum_name = plain-IsNeutral n

    name : IsNeutral v.name
    name = plain-IsNeutral p

    type_name : IsNeutral (e.name ++ v.name)
    type_name = append-IsNeutral enum_name name

    by_kind :
        (k : EnumVariantKind) → Keeps (generate_union_variant_struct e (record v { kind = k }))
    by_kind unit_kind = even (type_name, (enum_name, (name, (type_name, tt)))) (λ st. refl)
    by_kind tuple_kind = λ st.
        both {a = tuple_struct_head e v (e.name ++ v.name)}
          (across st (125 ∷ st) (type_name, (enum_name, (name, (type_name, tt)))) refl)
          (both {a = each_at 0 positional_line v.payload}
            (each_at-Keeps positional_line positional_line-Keeps 0 v.payload fs (125 ∷ st))
            (across (125 ∷ st) st tt refl))
    by_kind struct_kind = λ st.
        both {a = named_struct_head e v (e.name ++ v.name)}
          (across st (125 ∷ st) (type_name, (enum_name, (name, (type_name, tt)))) refl)
          (both {a = each field_line v.payload}
            (each-Keeps field_line field_line-Keeps v.payload fs (125 ∷ st))
            (across (125 ∷ st) st tt refl))

count_variant-Keeps : (v : EnumVariant) → IsPlainVariant v → Keeps (count_variant v)
count_variant-Keeps v (p, _) = even (plain-IsNeutral p, tt) (λ st. refl)

positional_item-Keeps :
    (v : EnumVariant)
    → IsPlain v.name
    → (i : ℕ) (f : Field) → IsPlainField f
    → Keeps (positional_item v i f)
unfolding payload_to_scval_expr
positional_item-Keeps v p i f (n, h) =
    even
      (
        get_to_scval_converter-IsNeutral
            (sprintf (bytes "e.%s.%s") (v.name ∷ tuple_field_name i ∷ []))
            (sprintf-IsNeutral (bytes "e.%s.%s") (v.name ∷ tuple_field_name i ∷ [])
              (plain-IsNeutral p, (field_text i, tt)) (λ st. refl))
            f.type_name,
        tt,
      )
      (λ st. refl)

named_item-Keeps :
    (v : EnumVariant) → IsPlain v.name → (f : Field) → IsPlainField f → Keeps (named_item v f)
unfolding payload_to_scval_expr
named_item-Keeps v p f (n, h) =
    even
      (
        get_to_scval_converter-IsNeutral
            (sprintf (bytes "e.%s.%s") (v.name ∷ snake_to_pascal f.name ∷ []))
            (sprintf-IsNeutral (bytes "e.%s.%s") (v.name ∷ snake_to_pascal f.name ∷ [])
              (plain-IsNeutral p, (plain-IsNeutral (snake_to_pascal-IsPlain f.name n), tt))
              (λ st. refl))
            f.type_name,
        tt,
      )
      (λ st. refl)

payload_items-Keeps : (v : EnumVariant) → IsPlainVariant v → Keeps (payload_items v)
payload_items-Keeps v (p, fs) = by_kind v.kind
  where
    by_kind :
        (k : EnumVariantKind)
        → Keeps (elim k [
          | unit_kind ↦ []
          | tuple_kind ↦ each_at 0 (positional_item v) v.payload
          | struct_kind ↦ each (named_item v) v.payload
        ])
    by_kind unit_kind = nothing_written
    by_kind tuple_kind =
        each_at-Keeps (positional_item v) (positional_item-Keeps v p) 0 v.payload fs
    by_kind struct_kind = each-Keeps (named_item v) (named_item-Keeps v p) v.payload fs

encoded_variant-Keeps : (v : EnumVariant) → IsPlainVariant v → Keeps (encoded_variant v)
encoded_variant-Keeps v (p, fs) st =
    both {a = variant_items_head v}
      (across st (125 ∷ 125 ∷ st)
        (plain-IsNeutral p, (plain-IsNeutral (quoted-IsPlain v.name p), tt)) refl)
      (both {a = payload_items v} (payload_items-Keeps v (p, fs) (125 ∷ 125 ∷ st))
        (across (125 ∷ 125 ∷ st) st tt refl))

pub generate_union_to_scval-Keeps : (e : Enum) → IsPlainEnum e → Keeps (generate_union_to_scval e)
unfolding generate_union_to_scval
generate_union_to_scval-Keeps e (n, vs) st =
    let name = plain-IsNeutral n in
    both {a = union_to_scval_head e} (across st (125 ∷ st) (name, (name, tt)) refl) (
      both {a = each count_variant e.variants}
        (each-Keeps count_variant count_variant-Keeps e.variants vs (125 ∷ st))
        (both {a = one_variant_check e} (across (125 ∷ st) (125 ∷ st) (name, tt) refl) (
          both {a = each encoded_variant e.variants}
            (each-Keeps encoded_variant encoded_variant-Keeps e.variants vs (125 ∷ st))
            (across (125 ∷ st) st (name, tt) refl))))
