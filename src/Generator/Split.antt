-- ===== src/Generator/Split.antt =====
-- bindings/generator/parser.go and client_codegen.go: the scanners that take a text apart at its
-- brackets: `extractBalancedBody`, `splitTopLevel`, `splitParams` and `splitReturnType`.
use chainlink_stellar.Prelude.{
  ℕ, zero, suc, ◌-◌, Bool, true, false, ◌&&◌, ◌||◌, Option, none, some, List, [], ◌∷◌, ◌++◌, nat_eq,
  if◌then◌else◌,
}
use chainlink_stellar.Prelude.Int64.{Int64, int64, add, sub}
use chainlink_stellar.Config.{Bytes}
use chainlink_stellar.Generator.Text.{trim_space}

abbrev pub put_front : ℕ → Option Bytes → Option Bytes
put_front b none = none
put_front b (some bs) = some (b ∷ bs)

-- `extractBalancedBody` from where it starts; the depth in the text is one more than `depth`.
unfoldable pub extract_balanced_body : ℕ → Bytes → Option Bytes
extract_balanced_body depth [] = none
extract_balanced_body depth (b ∷ bs) = elim (nat_eq b 123) [
  | true ↦ put_front b (extract_balanced_body (suc depth) bs)
  | false ↦ elim (nat_eq b 125) [
    | true ↦ elim depth [ zero ↦ some [] | suc d ↦ put_front b (extract_balanced_body d bs) ]
    | false ↦ put_front b (extract_balanced_body depth bs)
  ]
]

-- How deep a text is nested in `<>`, in `()` and in `{}`: a closing bracket too many is ignored.
pub record Nesting : Type 0 where
  pub angle : ℕ
  pub paren : ℕ
  pub brace : ℕ

abbrev pub flat : Nesting
flat = record { angle = 0; paren = 0; brace = 0 }

abbrev pub step : ℕ → Nesting → Nesting
step b n =
    if nat_eq b 60
    then record n { angle = suc n.angle }
    else if nat_eq b 62
    then record n { angle = n.angle - 1 }
    else if nat_eq b 40
    then record n { paren = suc n.paren }
    else if nat_eq b 41
    then record n { paren = n.paren - 1 }
    else if nat_eq b 123
    then record n { brace = suc n.brace }
    else if nat_eq b 125
    then record n { brace = n.brace - 1 }
    else n

abbrev pub is_flat : Nesting → Bool
is_flat n = nat_eq n.angle 0 && (nat_eq n.paren 0 && nat_eq n.brace 0)

-- What the builder holds after the loop is a piece unless it is empty.
abbrev pub last_piece : Bytes → List Bytes
last_piece [] = []
last_piece (b ∷ bs) = (b ∷ bs) ∷ []

-- The loop of `splitTopLevel`: `cur` is what the builder holds.
unfoldable pub split_top_level_from : ℕ → Nesting → Bytes → Bytes → List Bytes
split_top_level_from sep n cur [] = last_piece cur
split_top_level_from sep n cur (b ∷ bs) = elim (nat_eq b sep && is_flat (step b n)) [
  | true ↦ cur ∷ split_top_level_from sep (step b n) [] bs
  | false ↦ split_top_level_from sep (step b n) (cur ++ b ∷ []) bs
]

unfoldable pub split_top_level : Bytes → ℕ → List Bytes
unfolding split_top_level_from
split_top_level text sep = split_top_level_from sep flat [] text

-- `splitParams` and `splitReturnType` at a comma where the depth is 0; the depth may be negative.
unfoldable pub split_commas : (ℕ → Bool) → (ℕ → Bool) → Int64 → Bytes → Bytes → List Bytes
split_commas opens closes depth cur [] = last_piece (trim_space cur)
split_commas opens closes depth cur (b ∷ bs) = elim (opens b) [
  | true ↦ split_commas opens closes (add depth (int64 1)) (cur ++ b ∷ []) bs
  | false ↦ elim (closes b) [
    | true ↦ split_commas opens closes (sub depth (int64 1)) (cur ++ b ∷ []) bs
    | false ↦ elim (nat_eq b 44 && nat_eq depth (int64 0)) [
      | true ↦ trim_space cur ∷ split_commas opens closes depth [] bs
      | false ↦ split_commas opens closes depth (cur ++ b ∷ []) bs
    ]
  ]
]

unfoldable pub split_params : Bytes → List Bytes
unfolding split_commas
split_params text = split_commas (nat_eq 60) (nat_eq 62) (int64 0) [] text

unfoldable pub split_return_type : Bytes → List Bytes
unfolding split_commas
split_return_type text =
    split_commas (λ b. nat_eq b 60 || nat_eq b 40) (λ b. nat_eq b 62 || nat_eq b 41) (int64 0) []
      text
