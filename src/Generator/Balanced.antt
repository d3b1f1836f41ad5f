-- ===== src/Generator/Balanced.antt =====
-- bindings/generator/parser.go: what the scanners of brackets return.
use chainlink_stellar.Prelude.{
  ℕ, zero, suc, ◌≡◌, refl, ap, ◌∙◌, ◌↔◌, arith, true, false, Bool-cases, inl, inr, Option, none,
  some, [], ◌∷◌, ◌++◌, nat_eq, nat_eq_iff,
}
use chainlink_stellar.Config.{Bytes}
use chainlink_stellar.Generator.Split.{extract_balanced_body, put_front}

-- How many of the braces of a text stay open, of those and `depth` more; `none` where one closes that
-- is not open.
abbrev pub braces : ℕ → Bytes → Option ℕ
braces depth [] = some depth
braces depth (b ∷ bs) = elim (nat_eq b 123) [
  | true ↦ braces (suc depth) bs
  | false ↦ elim (nat_eq b 125) [
    | true ↦ elim depth [ zero ↦ none | suc d ↦ braces d bs ]
    | false ↦ braces depth bs
  ]
]

abbrev pub IsClosed : ℕ → Bytes → Bytes → Type 0
IsClosed depth text body =
    (rest : Bytes) × (text ≡ body ++ 125 ∷ rest) × (braces depth body ≡ some 0)

put_front-some :
    (b : ℕ) (o : Option Bytes) (body : Bytes)
    → put_front b o ≡ some body
    → (bs : Bytes) × (o ≡ some bs) × (body ≡ b ∷ bs)
put_front-some b none body h = absurd (ground arith)
put_front-some b (some bs) body h = (bs, refl, ground arith)

-- A byte that a scan goes past, where the depth after it is `d'`.
put_front-IsClosed :
    (b : ℕ) (bs : Bytes) (depth d' : ℕ) (body : Bytes)
    → ((body' : Bytes) → extract_balanced_body d' bs ≡ some body' → IsClosed d' bs body')
    → ((body' : Bytes) → braces depth (b ∷ body') ≡ braces d' body')
    → put_front b (extract_balanced_body d' bs) ≡ some body
    → IsClosed depth (b ∷ bs) body
put_front-IsClosed b bs depth d' body rec level h =
    let (bs', e, same) = put_front-some b (extract_balanced_body d' bs) body h in
    let (rest, split, l) = rec bs' e in
    (rest, rw same (ap (λ t. b ∷ t) split), rw same (level bs' ∙ l))

-- A closing brace ends the body, or closes one that the body opens.
ends_or_passes :
    (b : ℕ) (bs : Bytes) (depth : ℕ) (body : Bytes)
    → nat_eq b 123 ≡ false
    → nat_eq b 125 ≡ true
    → ((d : ℕ) (body' : Bytes) → extract_balanced_body d bs ≡ some body' → IsClosed d bs body')
    → extract_balanced_body depth (b ∷ bs) ≡ some body
    → IsClosed depth (b ∷ bs) body
unfolding extract_balanced_body
ends_or_passes b bs zero [] e e' rec h = (bs, ap (λ c. c ∷ bs) ((nat_eq_iff b 125).0 e'), refl)
ends_or_passes b bs zero (c ∷ body) e e' rec h = absurd (ground arith)
ends_or_passes b bs (suc d) body e e' rec h =
    put_front-IsClosed b bs (suc d) d body (rec d) (λ body'. ground arith) (ground arith)

extract_balanced_body-IsClosed :
    (text : Bytes) (depth : ℕ) (body : Bytes)
    → extract_balanced_body depth text ≡ some body
    → IsClosed depth text body
unfolding extract_balanced_body
extract_balanced_body-IsClosed [] depth body h = absurd (ground arith)
extract_balanced_body-IsClosed (b ∷ bs) depth body h = elim (Bool-cases (nat_eq b 123)) [
  | inl e ↦
      put_front-IsClosed b bs depth (suc depth) body (extract_balanced_body-IsClosed bs (suc depth))
        (λ body'. ground arith) (ground arith)
  | inr e ↦ elim (Bool-cases (nat_eq b 125)) [
    | inr e' ↦
        put_front-IsClosed b bs depth depth body (extract_balanced_body-IsClosed bs depth)
          (λ body'. ground arith) (ground arith)
    | inl e' ↦ ends_or_passes b bs depth body e e' (extract_balanced_body-IsClosed bs) h
  ]
]

closed_extract :
    (body rest : Bytes) (depth : ℕ)
    → braces depth body ≡ some 0
    → extract_balanced_body depth (body ++ 125 ∷ rest) ≡ some body
unfolding extract_balanced_body
closed_extract [] rest zero l = refl
closed_extract [] rest (suc d) l = absurd (ground arith)
closed_extract (b ∷ bs) rest zero l =
    ground (arith, closed_extract bs rest 1, closed_extract bs rest 0)
closed_extract (b ∷ bs) rest (suc d) l = ground (
  arith,
  closed_extract bs rest (suc (suc d)),
  closed_extract bs rest (suc d),
  closed_extract bs rest d,
)

-- `extractBalancedBody` returns a body exactly when the text is that body, a closing brace and any
-- rest, where in the body every closing brace closes one that is open in it and none stays open. It
-- fails on any other text.
pub extract_balanced_body_iff :
    (text body : Bytes) → (extract_balanced_body 0 text ≡ some body) ↔ IsClosed 0 text body
extract_balanced_body_iff text body = (
  extract_balanced_body-IsClosed text 0 body,
  λ (rest, split, l). rw split (closed_extract body rest 0 l),
)
