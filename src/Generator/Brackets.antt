-- ===== src/Generator/Brackets.antt =====
-- bindings/generator: the brackets of what is written. A text is scanned with a stack of the closing
-- brackets it has to come to.
use mathlib.Core.List.{append_assoc}
use chainlink_stellar.Prelude.{
  ℕ, suc, ◌≡◌, refl, ap, ◌∙◌, sym, Bool, true, false, ◌||◌, Option, none, some, List, [], ◌∷◌, ◌++◌,
  All, nat_eq, arith, if◌then◌else◌,
}
use chainlink_stellar.Config.{Bytes}
use chainlink_stellar.Generator.Text.{sprintf}
use chainlink_stellar.Generator.Write.{Writes, raw, formatted, written, render, each, each_at}

abbrev pub close_of : ℕ → Option ℕ
close_of b = elim (nat_eq b 40) [
  | true ↦ some 41
  | false ↦ elim (nat_eq b 91) [
    | true ↦ some 93
    | false ↦ elim (nat_eq b 123) [ true ↦ some 125 | false ↦ none ]
  ]
]

abbrev pub is_closing : ℕ → Bool
is_closing b = nat_eq b 41 || nat_eq b 93 || nat_eq b 125

abbrev pub Stack : Type 0
Stack = List ℕ

abbrev pub scan : Stack → Bytes → Option Stack
scan st [] = some st
scan st (b ∷ bs) = elim (close_of b) [
  | some c ↦ scan (c ∷ st) bs
  | none ↦ elim (is_closing b) [
    | false ↦ scan st bs
    | true ↦ elim st [
      | [] ↦ none
      | c ∷ st' ↦ elim (nat_eq b c) [ true ↦ scan st' bs | false ↦ none ]
    ]
  ]
]

-- Every bracket closes the last one that is open, and none stays open.
abbrev pub IsBracketed : Bytes → Type 0
IsBracketed text = scan [] text ≡ some []

-- A text that changes nothing for what follows it.
pub record IsNeutral (text : Bytes) : Type 0 where
  pub past : (st : Stack) (rest : Bytes) → scan st (text ++ rest) ≡ scan st rest

abbrev pub and_then : Option Stack → (Stack → Option Stack) → Option Stack
and_then none f = none
and_then (some st) f = f st

pub scan-append :
    (st : Stack) (a r : Bytes) → scan st (a ++ r) ≡ and_then (scan st a) (λ st'. scan st' r)
scan-append st [] r = refl
scan-append [] (b ∷ bs) r = ground (
  arith,
  scan-append (41 ∷ []) bs r,
  scan-append (93 ∷ []) bs r,
  scan-append (125 ∷ []) bs r,
  scan-append [] bs r,
)
scan-append (c ∷ st) (b ∷ bs) r = ground (
  arith,
  scan-append (41 ∷ c ∷ st) bs r,
  scan-append (93 ∷ c ∷ st) bs r,
  scan-append (125 ∷ c ∷ st) bs r,
  scan-append (c ∷ st) bs r,
  scan-append st bs r,
)

-- A format as `sprintf` reads it: a verb is passed.
abbrev pub scan_format : Stack → Bytes → Option Stack
scan_format st [] = some st
scan_format st (b ∷ []) = scan st (b ∷ [])
scan_format st (b ∷ verb ∷ format) = elim (nat_eq b 37) [
  | false ↦ and_then (scan st (b ∷ [])) (λ st'. scan_format st' (verb ∷ format))
  | true ↦ scan_format st format
]

and_then_ext :
    (o : Option Stack) (f g : Stack → Option Stack)
    → ((st : Stack) → f st ≡ g st)
    → and_then o f ≡ and_then o g
and_then_ext none f g h = refl
and_then_ext (some st) f g h = h st

verb_passed :
    (st : Stack) (verb : ℕ) (format : Bytes) (args : List Bytes)
    → All IsNeutral args
    → ((rest : List Bytes)
        → All IsNeutral rest
        → scan st (sprintf format rest) ≡ scan_format st format)
    → scan st (sprintf (37 ∷ verb ∷ format) args) ≡ scan_format st format
unfolding sprintf
verb_passed st verb format args h rec = percent (nat_eq verb 37) args h
  where
    percent :
        (t : Bool) (args : List Bytes)
        → All IsNeutral args
        → scan st (elim t [
          | true ↦ 37 ∷ sprintf format args
          | false ↦ elim args [ [] ↦ sprintf format [] | arg ∷ args' ↦ arg ++ sprintf format args' ]
        ])
          ≡ scan_format st format
    percent true args h = rec args h
    percent false [] h = rec [] h
    percent false (arg ∷ args) (n, h) = n.past st (sprintf format args) ∙ rec args h

-- The brackets of what `fmt.Sprintf` writes are those of its format.
pub scan-sprintf :
    (format : Bytes) (st : Stack) (args : List Bytes)
    → All IsNeutral args
    → scan st (sprintf format args) ≡ scan_format st format
unfolding sprintf
scan-sprintf [] st args h = refl
scan-sprintf (b ∷ []) st args h = refl
scan-sprintf (b ∷ verb ∷ format) st args h =
    read_byte (sprintf (37 ∷ verb ∷ format) args) (b ∷ sprintf (verb ∷ format) args) (nat_eq b 37)
      (verb_passed st verb format args h (scan-sprintf format st))
      (scan-append st (b ∷ []) (sprintf (verb ∷ format) args)
        ∙ and_then_ext (scan st (b ∷ [])) (λ st'. scan st' (sprintf (verb ∷ format) args))
            (λ st'. scan_format st' (verb ∷ format))
            (λ st'. scan-sprintf (verb ∷ format) st' args h))
  where
    read_byte :
        (x y : Bytes) {u v : Option Stack} (t : Bool)
        → scan st x ≡ u
        → scan st y ≡ v
        → scan st (elim t [ false ↦ y | true ↦ x ]) ≡ elim t [ false ↦ v | true ↦ u ]
    read_byte x y true p q = p
    read_byte x y false p q = q

abbrev pub scan_writes : Stack → Writes → Option Stack
scan_writes st [] = some st
scan_writes st (raw text ∷ ws) = and_then (scan st text) (λ st'. scan_writes st' ws)
scan_writes st (formatted format args ∷ ws) =
    and_then (scan_format st format) (λ st'. scan_writes st' ws)

abbrev pub args_of : Writes → List Bytes
args_of [] = []
args_of (raw text ∷ ws) = args_of ws
args_of (formatted format args ∷ ws) = args ++ args_of ws

-- The writes take the scan from the one stack to the other.
pub record Moves (st : Stack) (ws : Writes) (st' : Stack) : Type 0 where
  pub moved : scan st (render ws) ≡ some st'

All-append : (xs ys : List Bytes) → All IsNeutral (xs ++ ys) → All IsNeutral xs × All IsNeutral ys
All-append [] ys h = (tt, h)
All-append (x ∷ xs) ys (p, h) = let (hx, hy) = All-append xs ys h in ((p, hx), hy)

scan-render :
    (ws : Writes) (st : Stack)
    → All IsNeutral (args_of ws)
    → scan st (render ws) ≡ scan_writes st ws
unfolding render written
scan-render [] st h = refl
scan-render (raw text ∷ ws) st h =
    scan-append st text (render ws)
    ∙ and_then_ext (scan st text) (λ st'. scan st' (render ws)) (λ st'. scan_writes st' ws)
        (λ st'. scan-render ws st' h)
scan-render (formatted format args ∷ ws) st h =
    let (now, later) = All-append args (args_of ws) h in
    scan-append st (sprintf format args) (render ws)
    ∙ (ap (λ o. and_then o (λ st'. scan st' (render ws))) (scan-sprintf format st args now)
        ∙ and_then_ext (scan_format st format) (λ st'. scan st' (render ws))
            (λ st'. scan_writes st' ws) (λ st'. scan-render ws st' later))

-- A block of writes: its formats decide.
block :
    (st : Stack) (ws : Writes) (st' : Stack)
    → All IsNeutral (args_of ws)
    → scan_writes st ws ≡ some st'
    → Moves st ws st'
block st ws st' h e = record { moved = scan-render ws st h ∙ e }

render-append : (a b : Writes) → render (a ++ b) ≡ render a ++ render b
unfolding render
render-append [] b = refl
render-append (w ∷ a) b =
    ap (λ t. written w ++ t) (render-append a b)
    ∙ sym (append_assoc (written w) (render a) (render b))

pub both :
    {st st₁ st₂ : Stack} {a b : Writes} → Moves st a st₁ → Moves st₁ b st₂ → Moves st (a ++ b) st₂
both {st} {st₁} {st₂} {a} {b} m n = record {
  moved =
      ap (scan st) (render-append a b)
      ∙ (scan-append st (render a) (render b)
          ∙ (ap (λ o. and_then o (λ s. scan s (render b))) m.moved ∙ n.moved));
}

-- Writes that leave any stack as it is.
abbrev pub Keeps : Writes → Type 0
Keeps ws = (st : Stack) → Moves st ws st

pub nothing_written : Keeps []
unfolding render
nothing_written st = record { moved = refl }

pub each-Keeps {ℓ κ} :
    {A : Type ℓ} {P : A → Type κ} (f : A → Writes)
    → ((x : A) → P x → Keeps (f x))
    → (xs : List A) → All P xs
    → Keeps (each f xs)
each-Keeps f h [] all = nothing_written
each-Keeps f h (x ∷ xs) (p, all) = λ st. both (h x p st) (each-Keeps f h xs all st)

pub each_at-Keeps {ℓ κ} :
    {A : Type ℓ} {P : A → Type κ} (f : ℕ → A → Writes)
    → ((i : ℕ) (x : A) → P x → Keeps (f i x))
    → (i : ℕ) (xs : List A) → All P xs
    → Keeps (each_at i f xs)
each_at-Keeps f h i [] all = nothing_written
each_at-Keeps f h i (x ∷ xs) (p, all) =
    λ st. both (h i x p st) (each_at-Keeps f h (suc i) xs all st)

pub if-Keeps : (t : Bool) {a b : Writes} → Keeps a → Keeps b → Keeps (if t then a else b)
if-Keeps true h k = h
if-Keeps false h k = k

-- A block that opens what it closes.
pub even :
    {ws : Writes}
    → All IsNeutral (args_of ws)
    → ((st : Stack) → scan_writes st ws ≡ some st)
    → Keeps ws
even {ws} h e st = block st ws st h (e st)

-- A block that a loop goes on in, or that ends one.
pub across :
    (st st' : Stack) {ws : Writes}
    → All IsNeutral (args_of ws)
    → scan_writes st ws ≡ some st'
    → Moves st ws st'
across st st' {ws} h e = block st ws st' h e
