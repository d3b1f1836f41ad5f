-- ===== src/Generator/Pieces.antt =====
-- bindings/generator/parser.go: `splitTopLevel` on the pieces of a Rust list, as a grammar gives them.
use mathlib.Core.List.{append_assoc, append-nil}
use chainlink_stellar.Prelude.{
  ℕ, ◌≡◌, refl, ap, ◌∙◌, sym, arith, Bool, true, false, ◌||◌, ◌&&◌, List, [], ◌∷◌, ◌++◌, All, map,
  nat_eq,
}
use chainlink_stellar.Config.{Bytes}
use chainlink_stellar.Generator.Split.{
  split_top_level, split_top_level_from, last_piece, Nesting, flat, step, is_flat,
}

pub data Bracket : Type 0 where
  angle_bracket : Bracket
  paren_bracket : Bracket
  brace_bracket : Bracket

abbrev pub opening : Bracket → ℕ
opening angle_bracket = 60
opening paren_bracket = 40
opening brace_bracket = 123

abbrev pub closing : Bracket → ℕ
closing angle_bracket = 62
closing paren_bracket = 41
closing brace_bracket = 125

-- A text in which the brackets match: nothing, a byte and more, or a group in brackets and more.
pub data Piece : Type 0 where
  nothing : Piece
  byte : ℕ → Piece → Piece
  group : Bracket → Piece → Piece → Piece

abbrev pub show : Piece → Bytes
show nothing = []
show (byte b p) = b ∷ show p
show (group k inner p) = opening k ∷ (show inner ++ closing k ∷ show p)

abbrev pub is_bracket : ℕ → Bool
is_bracket b =
    nat_eq b 60 || nat_eq b 62 || nat_eq b 40 || nat_eq b 41 || nat_eq b 123 || nat_eq b 125

-- The bytes of a piece are no brackets, but those of its groups.
abbrev pub IsPiece : Piece → Type 0
IsPiece nothing = Unit
IsPiece (byte b p) = (is_bracket b ≡ false) × IsPiece p
IsPiece (group k inner p) = IsPiece inner × IsPiece p

-- The separator stands in no place but in the groups.
abbrev pub IsFree : ℕ → Piece → Type 0
IsFree sep nothing = Unit
IsFree sep (byte b p) = (nat_eq b sep ≡ false) × IsFree sep p
IsFree sep (group k inner p) = IsFree sep p

-- The pieces, with the separator after each.
abbrev pub terminated : ℕ → List Piece → Bytes
terminated sep [] = []
terminated sep (p ∷ ps) = show p ++ sep ∷ terminated sep ps

on_false : (x y : List Bytes) (b : Bool) → b ≡ false → elim b [ true ↦ x | false ↦ y ] ≡ y
on_false x y true h = absurd (ground arith)
on_false x y false h = refl

not_both {ℓ} : {A : Type ℓ} (b : Bool) → b ≡ false → b ≡ true → A
not_both true h e = absurd (ground arith)
not_both false h e = absurd (ground arith)

module _ (sep : ℕ) (plain : is_bracket sep ≡ false) where
  abbrev from : Nesting → Bytes → Bytes → List Bytes
  from = split_top_level_from sep

  plain_step : (b : ℕ) (n : Nesting) → is_bracket b ≡ false → step b n ≡ n
  plain_step b n h = ground arith

  abbrev opened : Bracket → Nesting → Nesting
  opened k n = step (opening k) n

  opened_deep : (k : Bracket) (n : Nesting) → is_flat (opened k n) ≡ false
  opened_deep angle_bracket n = ground arith
  opened_deep paren_bracket n = ground arith
  opened_deep brace_bracket n = ground arith

  closed_again : (k : Bracket) (n : Nesting) → step (closing k) (opened k n) ≡ n
  closed_again angle_bracket n = ap (λ a. record n { angle = a }) (omega arith)
  closed_again paren_bracket n = ap (λ a. record n { paren = a }) (omega arith)
  closed_again brace_bracket n = ap (λ a. record n { brace = a }) (omega arith)

  opening_free : (k : Bracket) → nat_eq (closing k) sep ≡ false
  opening_free angle_bracket = ground arith
  opening_free paren_bracket = ground arith
  opening_free brace_bracket = ground arith

  -- One byte that does not end the piece.
  past :
      (b : ℕ) (n m : Nesting) (cur rest : Bytes)
      → step b n ≡ m
      → (nat_eq b sep && is_flat m) ≡ false
      → from n cur (b ∷ rest) ≡ from m (cur ++ b ∷ []) rest
  unfolding split_top_level_from
  past b n m cur rest h s =
      on_false (cur ∷ from (step b n) [] rest) (from (step b n) (cur ++ b ∷ []) rest)
        (nat_eq b sep && is_flat (step b n)) (ap (λ m'. nat_eq b sep && is_flat m') h ∙ s)
      ∙ ap (λ m'. from m' (cur ++ b ∷ []) rest) h

  whole_group :
      (cur inner p : Bytes) (o c : ℕ)
      → (((cur ++ o ∷ []) ++ inner) ++ c ∷ []) ++ p ≡ cur ++ o ∷ (inner ++ c ∷ p)
  whole_group cur inner p o c =
      append_assoc ((cur ++ o ∷ []) ++ inner) (c ∷ []) p
      ∙ (append_assoc (cur ++ o ∷ []) inner (c ∷ p) ∙ append_assoc cur (o ∷ []) (inner ++ c ∷ p))

  not_split : (x y : Bool) → (y ≡ true → x ≡ false) → (x && y) ≡ false
  not_split x y h = ground arith

  past_piece :
      (p : Piece) (n : Nesting) (cur rest : Bytes)
      → IsPiece p
      → (is_flat n ≡ true → IsFree sep p)
      → from n cur (show p ++ rest) ≡ from n (cur ++ show p) rest
  past_piece nothing n cur rest h f = ap (λ c. from n c rest) (sym (append-nil cur))
  past_piece (byte b p) n cur rest (b-plain, h) f =
      past b n n cur (show p ++ rest) (plain_step b n b-plain)
        (not_split (nat_eq b sep) (is_flat n) (λ e. (f e).0))
      ∙ (past_piece p n (cur ++ b ∷ []) rest h (λ e. (f e).1)
          ∙ ap (λ c. from n c rest) (append_assoc cur (b ∷ []) (show p)))
  past_piece (group k inner p) n cur rest (h, h') f =
      past (opening k) n (opened k n) cur ((show inner ++ closing k ∷ show p) ++ rest) refl (
        not_split (nat_eq (opening k) sep) (is_flat (opened k n))
          (λ e. not_both (is_flat (opened k n)) (opened_deep k n) e))
      ∙ (ap (from (opened k n) (cur ++ opening k ∷ []))
            (append_assoc (show inner) (closing k ∷ show p) rest)
          ∙ (past_piece inner (opened k n) (cur ++ opening k ∷ []) (closing k ∷ (show p ++ rest)) h
                (λ e. not_both (is_flat (opened k n)) (opened_deep k n) e)
              ∙ (past (closing k) (opened k n) n ((cur ++ opening k ∷ []) ++ show inner)
                    (show p ++ rest) (closed_again k n)
                    (not_split (nat_eq (closing k) sep) (is_flat n) (λ e. opening_free k))
                  ∙ (past_piece p n (((cur ++ opening k ∷ []) ++ show inner) ++ closing k ∷ []) rest
                        h' f
                      ∙ ap (λ c. from n c rest)
                          (whole_group cur (show inner) (show p) (opening k) (closing k))))))

  past_separator : (cur rest : Bytes) → from flat cur (sep ∷ rest) ≡ cur ∷ from flat [] rest
  unfolding split_top_level_from
  past_separator cur rest = ground arith

  -- Where the separator is no bracket, `splitTopLevel` of pieces with the separator after each, and a
  -- last piece, gives these pieces back: the brackets of a piece match, the separator stands only within
  -- them, and a last piece that is empty is left out.
  pub split_top_level_pieces :
      (ps : List Piece) (last : Piece)
      → All (λ p. IsPiece p × IsFree sep p) ps
      → IsPiece last
      → IsFree sep last
      → split_top_level (terminated sep ps ++ show last) sep ≡ map show ps ++ last_piece (show last)
  unfolding split_top_level split_top_level_from
  split_top_level_pieces [] last h l f =
      ap (λ t. from flat [] t) (sym (append-nil (show last)))
      ∙ past_piece last flat [] [] l (λ e. f)
  split_top_level_pieces (p ∷ ps) last ((h, f'), hs) l f =
      ap (λ t. from flat [] t) (append_assoc (show p) (sep ∷ terminated sep ps) (show last))
      ∙ (past_piece p flat [] (sep ∷ (terminated sep ps ++ show last)) h (λ e. f')
          ∙ (past_separator (show p) (terminated sep ps ++ show last)
              ∙ ap (λ ts. show p ∷ ts) (split_top_level_pieces ps last hs l f)))
