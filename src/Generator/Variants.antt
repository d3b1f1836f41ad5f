-- ===== src/Generator/Variants.antt =====
-- bindings/generator/parser.go: `parseEnumVariants` and `qualifySorobanType`.
use chainlink_stellar.Prelude.{none, some, List, [], ◌∷◌, ◌++◌, map, if◌then◌else◌, ◌==◌}
use chainlink_stellar.Prelude.Int64.{Int64, int64, add}
use chainlink_stellar.Config.{Bytes, bytes, Bytes_equality, is_prefix}
use chainlink_stellar.Generator.{Field, EnumVariant, unit_kind, tuple_kind, struct_kind}
use chainlink_stellar.Generator.Text.{trim_space, sscanf_d}
use chainlink_stellar.Generator.Regex.{Match, match_here, find_all, submatch}
use chainlink_stellar.Generator.Split.{split_top_level}
use chainlink_stellar.Generator.Patterns.{
  unit_value, unit_bare, tuple_variant, struct_variant, variant_field,
}

unfoldable pub qualify_soroban_type : Bytes → Bytes
unfolding is_prefix
qualify_soroban_type t =
    if t == bytes "Address"
    then bytes "soroban_sdk::Address"
    else if t == bytes "Bytes"
    then bytes "soroban_sdk::Bytes"
    else if t == bytes "Symbol"
    then bytes "soroban_sdk::Symbol"
    else if is_prefix (bytes "BytesN<") t
    then bytes "soroban_sdk::" ++ t
    else if is_prefix (bytes "Vec<") t
    then bytes "soroban_sdk::" ++ t
    else t

abbrev struct_field : Match → Field
struct_field m = record {
  name = trim_space (submatch 1 m.1);
  type_name = qualify_soroban_type (trim_space (submatch 2 m.1));
}

-- The types of a tuple variant: a piece that is blank is no type.
unfoldable pub tuple_fields : List Bytes → List Field
unfolding qualify_soroban_type trim_space
tuple_fields [] = []
tuple_fields (raw ∷ raws) = elim (trim_space raw) [
  | [] ↦ tuple_fields raws
  | b ∷ bs ↦ record { name = []; type_name = qualify_soroban_type (b ∷ bs) } ∷ tuple_fields raws
]

-- What the cases of the loop of `parseEnumVariants` read of a variant, in their order.
pub data Shape : Type 0 where
  struct_shape : Bytes → List Field → Shape
  tuple_shape : Bytes → List Field → Shape
  explicit : Bytes → Int64 → Shape
  bare : Bytes → Shape
  other : Shape

unfoldable pub shape_of : Bytes → Shape
unfolding match_here find_all submatch tuple_fields split_top_level qualify_soroban_type trim_space
    sscanf_d
shape_of v = elim (match_here struct_variant v) [
  | some m ↦
      struct_shape (submatch 1 m.1) (map struct_field (find_all variant_field (submatch 2 m.1)))
  | none ↦ elim (match_here tuple_variant v) [
    | some m ↦ tuple_shape (submatch 1 m.1) (tuple_fields (split_top_level (submatch 2 m.1) 44))
    | none ↦ elim (match_here unit_value v) [
      | some m ↦ explicit (submatch 1 m.1) (sscanf_d (submatch 2 m.1))
      | none ↦ elim (match_here unit_bare v) [ some m ↦ bare (submatch 1 m.1) | none ↦ other ]
    ]
  ]
]

-- The loop over the shapes; `next` is `nextImplicit`.
unfoldable pub number_variants : Int64 → List Shape → List EnumVariant
number_variants next [] = []
number_variants next (struct_shape n fs ∷ shapes) =
    record { name = n; kind = struct_kind; value = int64 0; payload = fs }
    ∷ number_variants next shapes
number_variants next (tuple_shape n fs ∷ shapes) =
    record { name = n; kind = tuple_kind; value = int64 0; payload = fs }
    ∷ number_variants next shapes
number_variants next (explicit n v ∷ shapes) =
    record { name = n; kind = unit_kind; value = v; payload = [] }
    ∷ number_variants (add v (int64 1)) shapes
number_variants next (bare n ∷ shapes) =
    record { name = n; kind = unit_kind; value = next; payload = [] }
    ∷ number_variants (add next (int64 1)) shapes
number_variants next (other ∷ shapes) = number_variants next shapes

-- The pieces of the body that are not blank.
unfoldable pub variant_texts : List Bytes → List Bytes
unfolding trim_space
variant_texts [] = []
variant_texts (raw ∷ raws) = elim (trim_space raw) [
  | [] ↦ variant_texts raws
  | b ∷ bs ↦ (b ∷ bs) ∷ variant_texts raws
]

unfoldable pub parse_enum_variants : Bytes → List EnumVariant
unfolding number_variants variant_texts shape_of split_top_level
parse_enum_variants body =
    number_variants (int64 0) (map shape_of (variant_texts (split_top_level body 44)))
