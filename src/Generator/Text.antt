-- ===== src/Generator/Text.antt =====
-- What bindings/generator uses of Go's strings and fmt packages, on ASCII texts.
use chainlink_stellar.Prelude.{
  ℕ, zero, suc, ◌+◌, ◌-◌, ◌*◌, ◌/◌, ◌%◌, ◌^◌, Bool, true, false, ◌&&◌, ◌||◌, List, [], ◌∷◌, ◌++◌,
  ltb, leb, nat_eq, length, if◌then◌else◌,
}
use chainlink_stellar.Prelude.Int64.{Int64, int64}
use chainlink_stellar.Config.{Bytes, is_prefix}

-- The white space of `unicode.IsSpace`: tab to carriage return, and the blank.
abbrev pub is_space : ℕ → Bool
is_space b = (leb 9 b && leb b 13) || nat_eq b 32

abbrev pub is_digit : ℕ → Bool
is_digit b = leb 48 b && leb b 57

abbrev pub is_upper : ℕ → Bool
is_upper b = leb 65 b && leb b 90

abbrev pub is_lower : ℕ → Bool
is_lower b = leb 97 b && leb b 122

abbrev pub upper : ℕ → ℕ
upper b = if is_lower b then b - 32 else b

unfoldable pub trim_left : Bytes → Bytes
trim_left [] = []
trim_left (b ∷ bs) = elim (is_space b) [ true ↦ trim_left bs | false ↦ b ∷ bs ]

unfoldable pub trim_right : Bytes → Bytes
trim_right [] = []
trim_right (b ∷ bs) = elim (trim_right bs) [
  | [] ↦ if is_space b then [] else b ∷ []
  | c ∷ rest ↦ b ∷ c ∷ rest
]

unfoldable pub trim_space : Bytes → Bytes
unfolding trim_left trim_right
trim_space bs = trim_right (trim_left bs)

-- The text after n bytes.
unfoldable pub skip : ℕ → Bytes → Bytes
skip zero bs = bs
skip (suc n) [] = []
skip (suc n) (b ∷ bs) = skip n bs

unfoldable pub trim_prefix : Bytes → Bytes → Bytes
unfolding is_prefix skip
trim_prefix bs p = if is_prefix p bs then skip (length p) bs else bs

-- `strings.TrimSuffix` and `strings.HasSuffix` with a suffix of one byte.
unfoldable pub trim_last : Bytes → ℕ → Bytes
trim_last [] c = []
trim_last (b ∷ []) c = if nat_eq b c then [] else b ∷ []
trim_last (b ∷ b' ∷ bs) c = b ∷ trim_last (b' ∷ bs) c

unfoldable pub ends_with : Bytes → ℕ → Bool
ends_with [] c = false
ends_with (b ∷ []) c = nat_eq b c
ends_with (b ∷ b' ∷ bs) c = ends_with (b' ∷ bs) c

-- `strings.Split` with a separator of one byte from a part that is read.
unfoldable pub split_from : Bytes → ℕ → Bytes → List Bytes
split_from part c [] = part ∷ []
split_from part c (b ∷ bs) = elim (nat_eq b c) [
  | true ↦ part ∷ split_from [] c bs
  | false ↦ split_from (part ++ b ∷ []) c bs
]

unfoldable pub join : Bytes → List Bytes → Bytes
join sep [] = []
join sep (p ∷ []) = p
join sep (p ∷ q ∷ ps) = p ++ (sep ++ join sep (q ∷ ps))

unfoldable pub concat : List Bytes → Bytes
concat [] = []
concat (p ∷ ps) = p ++ concat ps

-- The last part of `strings.Split(s, "::")`.
unfoldable pub last_part : Bytes → Bytes → Bytes
last_part part [] = part
last_part part (b ∷ []) = part
last_part part (b ∷ b' ∷ bs) = elim (nat_eq b 58 && nat_eq b' 58) [
  | true ↦ last_part bs bs
  | false ↦ last_part part (b' ∷ bs)
]

-- The decimal digits, on fuel: a number has fewer digits than its successor.
unfoldable pub digits : ℕ → ℕ → Bytes → Bytes
digits zero n acc = acc
digits (suc f) n acc = elim (ltb n 10) [
  | true ↦ (48 + n) ∷ acc
  | false ↦ digits f (n / 10) ((48 + n % 10) ∷ acc)
]

unfoldable pub decimal : ℕ → Bytes
unfolding digits
decimal n = digits (suc n) n []

unfoldable pub decimal_int : Int64 → Bytes
unfolding decimal
decimal_int v = if ltb v (2 ^ 63) then 45 ∷ decimal (2 ^ 63 - v) else decimal (v - 2 ^ 63)

unfoldable pub read_digits : ℕ → Bytes → ℕ
read_digits n [] = n
read_digits n (b ∷ bs) = elim (is_digit b) [ true ↦ read_digits (n * 10 + (b - 48)) bs | false ↦ n ]

-- `fmt.Sscanf(s, "%d", &v)` into a v that is 0: an error, out of range included, leaves it.
unfoldable pub sscanf_d : Bytes → Int64
unfolding read_digits
sscanf_d [] = int64 0
sscanf_d (b ∷ bs) =
    if nat_eq b 45
    then (if leb (read_digits 0 bs) (2 ^ 63) then 2 ^ 63 - read_digits 0 bs else int64 0)
    else (if ltb (read_digits 0 (b ∷ bs)) (2 ^ 63) then int64 (read_digits 0 (b ∷ bs)) else int64 0)

-- `%q` of a text that needs no escape.
unfoldable pub quoted : Bytes → Bytes
quoted bs = 34 ∷ (bs ++ 34 ∷ [])

-- `fmt.Sprintf` with the arguments as texts: a verb takes the next argument, `%%` is a percent sign.
unfoldable pub sprintf : Bytes → List Bytes → Bytes
sprintf [] args = []
sprintf (b ∷ []) args = b ∷ []
sprintf (b ∷ verb ∷ format) args = elim (nat_eq b 37) [
  | false ↦ b ∷ sprintf (verb ∷ format) args
  | true ↦ elim (nat_eq verb 37) [
    | true ↦ 37 ∷ sprintf format args
    | false ↦ elim args [ [] ↦ sprintf format [] | arg ∷ args' ↦ arg ++ sprintf format args' ]
  ]
]
