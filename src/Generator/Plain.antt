-- ===== src/Generator/Plain.antt =====
-- bindings/generator: texts without brackets, and that what is read of one and made of one has none.
use chainlink_stellar.Prelude.{
  ℕ, zero, suc, ◌+◌, ◌-◌, ◌%◌, ◌/◌, ◌^◌, ◌<◌, ◌≡◌, refl, arith, Bool, true, false, ◌||◌, ◌&&◌, not,
  List, [], ◌∷◌, ◌++◌, All, map, ltb, leb, nat_eq, length, if◌then◌else◌, Bool-cases, inl, inr,
  ltb→lt,
}
use chainlink_stellar.Prelude.Int64.{Int64}
use chainlink_stellar.Config.{Bytes, bytes, to_lower, is_prefix}
use chainlink_stellar.Generator.Text.{
  trim_left, trim_right, trim_space, skip, trim_prefix, trim_last, split_from, concat, last_part,
  digits, decimal, decimal_int, quoted, upper, is_upper, is_space,
}
use chainlink_stellar.Generator.Names.{
  extract_struct_name, extract_vec_inner_type, extract_option_inner_type, bytes_n_text, first_upper,
  snake_to_pascal, camel_to_spaces, spaced, tuple_field_name,
}

abbrev pub is_plain : ℕ → Bool
is_plain b =
    not (nat_eq b 40 || nat_eq b 41 || nat_eq b 91 || nat_eq b 93 || nat_eq b 123 || nat_eq b 125)

abbrev IsPlainByte : ℕ → Type 0
IsPlainByte b = is_plain b ≡ true

abbrev pub IsPlain : Bytes → Type 0
IsPlain text = All IsPlainByte text

pub append-IsPlain : (a b : Bytes) → IsPlain a → IsPlain b → IsPlain (a ++ b)
append-IsPlain [] b h k = k
append-IsPlain (x ∷ a) b (p, h) k = (p, append-IsPlain a b h k)

choice-IsPlain :
    (a b : Bytes) (t : Bool)
    → (t ≡ true → IsPlain a)
    → IsPlain b
    → IsPlain (elim t [ true ↦ a | false ↦ b ])
choice-IsPlain a b true h k = h refl
choice-IsPlain a b false h k = k

trim_left-IsPlain : (a : Bytes) → IsPlain a → IsPlain (trim_left a)
unfolding trim_left
trim_left-IsPlain [] h = tt
trim_left-IsPlain (b ∷ bs) (p, h) =
    choice-IsPlain (trim_left bs) (b ∷ bs) (is_space b) (λ e. trim_left-IsPlain bs h) (p, h)

trim_right-IsPlain : (a : Bytes) → IsPlain a → IsPlain (trim_right a)
unfolding trim_right
trim_right-IsPlain [] h = tt
trim_right-IsPlain (b ∷ bs) (p, h) = last_byte (trim_right bs) (trim_right-IsPlain bs h)
  where
    last_byte :
        (rest : Bytes)
        → IsPlain rest
        → IsPlain (elim rest [ [] ↦ if is_space b then [] else b ∷ [] | c ∷ rest ↦ b ∷ c ∷ rest ])
    last_byte [] r = elim (Bool-cases (is_space b)) [ inl e ↦ rw e tt | inr e ↦ rw e (p, tt) ]
    last_byte (c ∷ rest) r = (p, r)

trim_space-IsPlain : (a : Bytes) → IsPlain a → IsPlain (trim_space a)
unfolding trim_space
trim_space-IsPlain a h = trim_right-IsPlain (trim_left a) (trim_left-IsPlain a h)

skip-IsPlain : (n : ℕ) (a : Bytes) → IsPlain a → IsPlain (skip n a)
unfolding skip
skip-IsPlain zero a h = h
skip-IsPlain (suc n) [] h = tt
skip-IsPlain (suc n) (b ∷ bs) (p, h) = skip-IsPlain n bs h

trim_prefix-IsPlain : (a p : Bytes) → IsPlain a → IsPlain (trim_prefix a p)
unfolding trim_prefix
trim_prefix-IsPlain a p h = elim (Bool-cases (is_prefix p a)) [
  | inl e ↦ rw e (skip-IsPlain (length p) a h)
  | inr e ↦ rw e h
]

trim_last-IsPlain : (a : Bytes) (c : ℕ) → IsPlain a → IsPlain (trim_last a c)
unfolding trim_last
trim_last-IsPlain [] c h = tt
trim_last-IsPlain (b ∷ []) c (p, h) = elim (Bool-cases (nat_eq b c)) [
  | inl e ↦ rw e tt
  | inr e ↦ rw e (p, tt)
]
trim_last-IsPlain (b ∷ b' ∷ bs) c (p, h) = (p, trim_last-IsPlain (b' ∷ bs) c h)

last_part-IsPlain : (part a : Bytes) → IsPlain part → IsPlain a → IsPlain (last_part part a)
unfolding last_part
last_part-IsPlain part [] q h = q
last_part-IsPlain part (b ∷ []) q h = q
last_part-IsPlain part (b ∷ b' ∷ bs) q (p, (p', h)) =
    choice-IsPlain (last_part bs bs) (last_part part (b' ∷ bs)) (nat_eq b 58 && nat_eq b' 58)
      (λ e. last_part-IsPlain bs bs h h) (last_part-IsPlain part (b' ∷ bs) q (p', h))

pub extract_struct_name-IsPlain : (t : Bytes) → IsPlain t → IsPlain (extract_struct_name t)
unfolding extract_struct_name
extract_struct_name-IsPlain t h = last_part-IsPlain t t h h

inner_type-IsPlain :
    (t p : Bytes) → IsPlain t → IsPlain (trim_space (trim_last (trim_prefix t p) 62))
inner_type-IsPlain t p h =
    trim_space-IsPlain (trim_last (trim_prefix t p) 62)
      (trim_last-IsPlain (trim_prefix t p) 62 (trim_prefix-IsPlain t p h))

pub extract_vec_inner_type-IsPlain : (t : Bytes) → IsPlain t → IsPlain (extract_vec_inner_type t)
unfolding extract_vec_inner_type
extract_vec_inner_type-IsPlain t h = inner_type-IsPlain t (bytes "soroban_sdk::Vec<") h

pub extract_option_inner_type-IsPlain :
    (t : Bytes) → IsPlain t → IsPlain (extract_option_inner_type t)
unfolding extract_option_inner_type
extract_option_inner_type-IsPlain t h = inner_type-IsPlain t (bytes "Option<") h

pub bytes_n_text-IsPlain : (t : Bytes) → IsPlain t → IsPlain (bytes_n_text t)
unfolding bytes_n_text
bytes_n_text-IsPlain t h =
    let p = bytes "soroban_sdk::BytesN<" in
    trim_last-IsPlain (trim_prefix t p) 62 (trim_prefix-IsPlain t p h)

upper_plain : (b : ℕ) → IsPlainByte b → IsPlainByte (upper b)
upper_plain b h = ground arith

first_upper-IsPlain : (a : Bytes) → IsPlain a → IsPlain (first_upper a)
first_upper-IsPlain [] h = tt
first_upper-IsPlain (b ∷ bs) (p, h) = (upper_plain b p, h)

-- The parts of a text, their first bytes in upper case.
pascal_parts :
    (part : Bytes) (c : ℕ) (a : Bytes)
    → IsPlain part
    → IsPlain a
    → IsPlain (concat (map first_upper (split_from part c a)))
unfolding split_from concat
pascal_parts part c [] q h = append-IsPlain (first_upper part) [] (first_upper-IsPlain part q) tt
pascal_parts part c (b ∷ bs) q (p, h) =
    choose (part ∷ split_from [] c bs) (split_from (part ++ b ∷ []) c bs) (nat_eq b c)
      (append-IsPlain (first_upper part) (concat (map first_upper (split_from [] c bs)))
        (first_upper-IsPlain part q) (pascal_parts [] c bs tt h))
      (pascal_parts (part ++ b ∷ []) c bs (append-IsPlain part (b ∷ []) q (p, tt)) h)
  where
    choose :
        (xs ys : List Bytes) (t : Bool)
        → IsPlain (concat (map first_upper xs))
        → IsPlain (concat (map first_upper ys))
        → IsPlain (concat (map first_upper (elim t [ true ↦ xs | false ↦ ys ])))
    choose xs ys true x y = x
    choose xs ys false x y = y

pub snake_to_pascal-IsPlain : (s : Bytes) → IsPlain s → IsPlain (snake_to_pascal s)
unfolding snake_to_pascal
snake_to_pascal-IsPlain s h = pascal_parts [] 95 s tt h

spaced-IsPlain : (a : Bytes) → IsPlain a → IsPlain (spaced a)
spaced-IsPlain [] h = tt
spaced-IsPlain (b ∷ bs) (p, h) = elim (Bool-cases (is_upper b)) [
  | inl e ↦ rw e (refl, (p, spaced-IsPlain bs h))
  | inr e ↦ rw e (p, spaced-IsPlain bs h)
]

to_lower-IsPlain : (a : Bytes) → IsPlain a → IsPlain (to_lower a)
unfolding to_lower
to_lower-IsPlain [] h = tt
to_lower-IsPlain (b ∷ bs) (p, h) = (lower_plain b p, to_lower-IsPlain bs h)
  where
    lower_plain : (b : ℕ) → IsPlainByte b → IsPlainByte (if leb 65 b && leb b 90 then b + 32 else b)
    lower_plain b h = ground arith

pub camel_to_spaces-IsPlain : (a : Bytes) → IsPlain a → IsPlain (camel_to_spaces a)
unfolding camel_to_spaces
camel_to_spaces-IsPlain [] h = tt
camel_to_spaces-IsPlain (b ∷ bs) (p, h) = to_lower-IsPlain (b ∷ spaced bs) (p, spaced-IsPlain bs h)

digit_plain : (n : ℕ) → n < 10 → IsPlainByte (48 + n)
digit_plain n h = ground arith

digits-IsPlain : (f n : ℕ) (acc : Bytes) → IsPlain acc → IsPlain (digits f n acc)
unfolding digits
digits-IsPlain zero n acc h = h
digits-IsPlain (suc f) n acc h =
    choice-IsPlain ((48 + n) ∷ acc) (digits f (n / 10) ((48 + n % 10) ∷ acc)) (ltb n 10)
      (λ e. (digit_plain n (ltb→lt n 10 e), h))
      (digits-IsPlain f (n / 10) ((48 + n % 10) ∷ acc) (digit_plain (n % 10) (omega arith), h))

pub decimal-IsPlain : (n : ℕ) → IsPlain (decimal n)
unfolding decimal
decimal-IsPlain n = digits-IsPlain (suc n) n [] tt

pub decimal_int-IsPlain : (v : Int64) → IsPlain (decimal_int v)
unfolding decimal_int
decimal_int-IsPlain v = elim (Bool-cases (ltb v (2 ^ 63))) [
  | inl e ↦ rw e (refl, decimal-IsPlain (2 ^ 63 - v))
  | inr e ↦ rw e (decimal-IsPlain (v - 2 ^ 63))
]

pub quoted-IsPlain : (a : Bytes) → IsPlain a → IsPlain (quoted a)
unfolding quoted
quoted-IsPlain a h = (refl, append-IsPlain a (34 ∷ []) h (refl, tt))

pub tuple_field_name-IsPlain : (i : ℕ) → IsPlain (tuple_field_name i)
unfolding tuple_field_name
tuple_field_name-IsPlain i =
    append-IsPlain (bytes "Field") (decimal i) (refl, (refl, (refl, (refl, (refl, tt)))))
      (decimal-IsPlain i)

abbrev pub all_plain : Bytes → Bool
all_plain [] = true
all_plain (b ∷ bs) = is_plain b && all_plain bs

pub literal-IsPlain : (text : Bytes) → all_plain text ≡ true → IsPlain text
literal-IsPlain [] h = tt
literal-IsPlain (b ∷ bs) h = (ground arith, literal-IsPlain bs (ground arith))
