-- ===== src/Generator/Regex.antt =====
-- Go's regexp package, as bindings/generator uses it: leftmost-first matching with submatches.
use chainlink_stellar.Prelude.{
  ℕ, zero, suc, ◌-◌, Bool, true, false, not, ◌||◌, Option, none, some, List, [], ◌∷◌, ltb, nat_eq,
  length,
}
use chainlink_stellar.Config.{Bytes}
use chainlink_stellar.Generator.Text.{is_digit, is_upper, is_lower}

pub data Regex : Type 0 where
  empty : Regex
  -- One byte of a class.
  class : (ℕ → Bool) → Regex
  -- A sequence; a part may be repeated, greedily or not, and may be captured under a number.
  then : Regex → Regex → Regex
  star : Regex → Regex
  lazy_star : Regex → Regex
  capture : ℕ → Regex → Regex
  optional : Regex → Regex
  -- The end of the text.
  end_of_text : Regex

abbrev pub Captures : Type 0
Captures = List (ℕ × Bytes)

abbrev pub Match : Type 0
Match = Bytes × Captures

abbrev pub or_else : Option Match → Option Match → Option Match
or_else none m = m
or_else (some m) _ = some m

abbrev Matcher : Type 0
Matcher = Bytes → Captures → (Bytes → Captures → Option Match) → Option Match

-- The loop of a repetition, on fuel: a turn that reads nothing ends it.
unfoldable star_loop : Matcher → ℕ → Matcher
star_loop m zero text cs k = k text cs
star_loop m (suc f) text cs k =
    or_else
      (m text cs λ rest cs'. elim (ltb (length rest) (length text)) [
        | true ↦ star_loop m f rest cs' k
        | false ↦ none
      ])
      (k text cs)

unfoldable lazy_loop : Matcher → ℕ → Matcher
lazy_loop m zero text cs k = k text cs
lazy_loop m (suc f) text cs k = or_else (k text cs) (
    m text cs λ rest cs'. elim (ltb (length rest) (length text)) [
      | true ↦ lazy_loop m f rest cs' k
      | false ↦ none
    ])

-- The bytes of `text` before its end `rest`.
unfoldable pub before : ℕ → Bytes → Bytes
before zero text = []
before (suc n) [] = []
before (suc n) (b ∷ bs) = b ∷ before n bs

unfoldable pub match_regex :
    Regex → Bytes → Captures → (Bytes → Captures → Option Match) → Option Match
unfolding star_loop lazy_loop before
match_regex empty text cs k = k text cs
match_regex (class p) [] cs k = none
match_regex (class p) (b ∷ bs) cs k = elim (p b) [ true ↦ k bs cs | false ↦ none ]
match_regex (then r q) text cs k = match_regex r text cs λ rest cs'. match_regex q rest cs' k
match_regex (star r) text cs k = star_loop (match_regex r) (length text) text cs k
match_regex (lazy_star r) text cs k = lazy_loop (match_regex r) (length text) text cs k
match_regex (capture i r) text cs k =
    match_regex r text cs λ rest cs'. k rest ((i, before (length text - length rest) text) ∷ cs')
match_regex (optional r) text cs k = or_else (match_regex r text cs k) (k text cs)
match_regex end_of_text [] cs k = k [] cs
match_regex end_of_text (b ∷ bs) cs k = none

-- A match at the start of the text: the rest and the submatches.
unfoldable pub match_here : Regex → Bytes → Option Match
unfolding match_regex
match_here r text = match_regex r text [] λ rest cs. some (rest, cs)

-- `FindAllStringSubmatch` of a pattern that matches no empty text, on fuel: the bytes of the text.
unfoldable pub find_all_from : ℕ → Regex → Bytes → List Match
unfolding match_here
find_all_from zero r text = []
find_all_from (suc f) r [] = []
find_all_from (suc f) r (b ∷ bs) = elim (match_here r (b ∷ bs)) [
  | none ↦ find_all_from f r bs
  | some m ↦ m ∷ find_all_from f r m.0
]

unfoldable pub find_all : Regex → Bytes → List Match
unfolding find_all_from
find_all r text = find_all_from (length text) r text

-- A submatch; a group that took no part in the match is the empty text.
unfoldable pub submatch : ℕ → Captures → Bytes
submatch i [] = []
submatch i ((j, text) ∷ cs) = elim (nat_eq i j) [ true ↦ text | false ↦ submatch i cs ]

abbrev pub is_word : ℕ → Bool
is_word b = is_digit b || is_upper b || is_lower b || nat_eq b 95

-- `\s` has no vertical tab.
abbrev pub is_blank : ℕ → Bool
is_blank b = nat_eq b 9 || nat_eq b 10 || nat_eq b 12 || nat_eq b 13 || nat_eq b 32

abbrev pub char : ℕ → Regex
char c = class (nat_eq c)

abbrev pub literal : Bytes → Regex
literal [] = empty
literal (c ∷ cs) = then (char c) (literal cs)

abbrev pub plus : Regex → Regex
plus r = then r (star r)

abbrev pub sequence : List Regex → Regex
sequence [] = empty
sequence (r ∷ rs) = then r (sequence rs)

abbrev pub word : Regex
word = plus (class is_word)

abbrev pub blanks : Regex
blanks = star (class is_blank)

-- `[^c]*` and `[^c]+`.
abbrev pub not_char : ℕ → Regex
not_char c = class (λ b. not (nat_eq c b))
