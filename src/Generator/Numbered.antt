-- ===== src/Generator/Numbered.antt =====
-- bindings/generator/parser.go: the discriminants that `parseEnumVariants` gives to unit variants.
use chainlink_stellar.Prelude.{suc, ◌+◌, ◌^◌, ◌<◌, ◌≤◌, ◌≡◌, sym, arith, List, [], ◌∷◌, map}
use mathlib.Core.Path.{subst}
use chainlink_stellar.Prelude.Int64.{Int64, int64, add}
use chainlink_stellar.Config.{Bytes}
use chainlink_stellar.Generator.{EnumVariant, EnumVariantKind, unit_kind, tuple_kind, struct_kind}
use chainlink_stellar.Generator.Split.{split_top_level}
use chainlink_stellar.Generator.Variants.{
  Shape, struct_shape, tuple_shape, explicit, bare, other, shape_of, number_variants, variant_texts,
  parse_enum_variants,
}

-- An explicit discriminant is not below the one that the variant would have without it, and the count
-- stays in the range of int.
abbrev pub IsForward : Int64 → List Shape → Type 0
IsForward next [] = Unit
IsForward next (struct_shape n fs ∷ shapes) = IsForward next shapes
IsForward next (tuple_shape n fs ∷ shapes) = IsForward next shapes
IsForward next (explicit n v ∷ shapes) = (next ≤ v) × (v + 1 < 2 ^ 64) × IsForward (suc v) shapes
IsForward next (bare n ∷ shapes) = (next + 1 < 2 ^ 64) × IsForward (suc next) shapes
IsForward next (other ∷ shapes) = IsForward next shapes

abbrev if_unit : EnumVariantKind → Int64 → List Int64 → List Int64
if_unit unit_kind v vs = v ∷ vs
if_unit tuple_kind v vs = vs
if_unit struct_kind v vs = vs

-- The values of the unit variants.
abbrev pub unit_values : List EnumVariant → List Int64
unit_values [] = []
unit_values (v ∷ vs) = if_unit v.kind v.value (unit_values vs)

-- Each is above the one before it, and the first not below `low`.
abbrev pub Rising : Int64 → List Int64 → Type 0
Rising low [] = Unit
Rising low (v ∷ vs) = (low ≤ v) × Rising (suc v) vs

next_value : (v : Int64) → v + 1 < 2 ^ 64 → add v (int64 1) ≡ suc v
next_value v h = omega arith

number_variants-Rising :
    (next : Int64) (shapes : List Shape)
    → IsForward next shapes
    → Rising next (unit_values (number_variants next shapes))
unfolding number_variants
number_variants-Rising next [] h = tt
number_variants-Rising next (struct_shape n fs ∷ shapes) h = number_variants-Rising next shapes h
number_variants-Rising next (tuple_shape n fs ∷ shapes) h = number_variants-Rising next shapes h
number_variants-Rising next (explicit n v ∷ shapes) (above, range, h) = (
  above,
  subst (λ m. Rising (suc v) (unit_values (number_variants m shapes))) (sym (next_value v range))
      (number_variants-Rising (suc v) shapes h),
)
number_variants-Rising next (bare n ∷ shapes) (range, h) = (
  omega arith,
  subst (λ m. Rising (suc next) (unit_values (number_variants m shapes)))
      (sym (next_value next range)) (number_variants-Rising (suc next) shapes h),
)
number_variants-Rising next (other ∷ shapes) h = number_variants-Rising next shapes h

-- What the loop of `parseEnumVariants` reads of a body.
abbrev pub shapes_of : Bytes → List Shape
shapes_of body = map shape_of (variant_texts (split_top_level body 44))

-- The discriminants of the unit variants of an enum rise strictly in the order of the source, from 0
-- on, so no two constants of the Go type collide: wherever an explicit discriminant is not below the
-- one that the variant would have without it.
pub parse_enum_variants-Rising :
    (body : Bytes)
    → IsForward (int64 0) (shapes_of body)
    → Rising (int64 0) (unit_values (parse_enum_variants body))
unfolding parse_enum_variants
parse_enum_variants-Rising body h = number_variants-Rising (int64 0) (shapes_of body) h
