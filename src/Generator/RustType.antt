-- ===== src/Generator/RustType.antt =====
-- bindings/generator/codegen.go: `rustTypeToGo` on the Rust types of an interface, as a grammar gives
-- them.
use chainlink_stellar.Prelude.{
  ℕ, zero, suc, ◌≤◌, ◌≡◌, refl, ap, ◌∙◌, sym, arith, Bool, true, false, none, [], ◌∷◌, ◌++◌, All,
  length, length-append, nat_eq, Bool-cases, inl, inr, ◌==◌,
}
use chainlink_stellar.Prelude.Map.{get}
use chainlink_stellar.Config.{Bytes, bytes, bytes_eq_iff, Bytes_equality, is_prefix}
use chainlink_stellar.Generator.Text.{trim_space, trim_prefix, trim_last, skip, last_part, sprintf}
use chainlink_stellar.Generator.Regex.{is_word}
use chainlink_stellar.Generator.Names.{
  scalar_types, go_type_on, rust_type_to_go, extract_option_inner_type, extract_vec_inner_type,
  bytes_n_text, extract_struct_name,
}
use chainlink_stellar.Generator.RustText.{
  Scalar, RustType, u64, u32, u128, i128, bool, address, byte_string, symbol, string, scalar,
  option, vec, bytes_n, named, scalar_text, go_scalar, rust_text, go_type, IsRustType,
  trim_space-Solid, rust_text-Solid,
}

trim_last_after : (a : Bytes) → trim_last (a ++ 62 ∷ []) 62 ≡ a
unfolding trim_last
trim_last_after [] = refl
trim_last_after (b ∷ []) = refl
trim_last_after (b ∷ c ∷ a) = ap (λ t. b ∷ t) (trim_last_after (c ∷ a))

option_inner :
    (t : RustType) → IsRustType t → extract_option_inner_type (rust_text (option t)) ≡ rust_text t
unfolding extract_option_inner_type trim_prefix skip is_prefix
option_inner t h =
    ap trim_space (trim_last_after (rust_text t))
    ∙ trim_space-Solid (rust_text t) (rust_text-Solid t h)

vec_inner : (t : RustType) → IsRustType t → extract_vec_inner_type (rust_text (vec t)) ≡ rust_text t
unfolding extract_vec_inner_type trim_prefix skip is_prefix
vec_inner t h =
    ap trim_space (trim_last_after (rust_text t))
    ∙ trim_space-Solid (rust_text t) (rust_text-Solid t h)

bytes_n_inner : (n : Bytes) → bytes_n_text (rust_text (bytes_n n)) ≡ n
unfolding bytes_n_text trim_prefix skip is_prefix
bytes_n_inner n = trim_last_after n

abbrev Words : Bytes → Type 0
Words n = All (λ b. is_word b ≡ true) n

word_struct_name : (part n : Bytes) → Words n → last_part part n ≡ part
unfolding last_part
word_struct_name part [] h = refl
word_struct_name part (b ∷ []) h = refl
word_struct_name part (b ∷ c ∷ n) (p, h) = ground (arith, word_struct_name part (c ∷ n) h)

-- A prefix that holds the byte 60 is none of a name.
abbrev has_angle : Bytes → Bool
has_angle [] = false
has_angle (b ∷ bs) = elim (nat_eq b 60) [ true ↦ true | false ↦ has_angle bs ]

no_angle_prefix : (p n : Bytes) → has_angle p ≡ true → Words n → is_prefix p n ≡ false
unfolding is_prefix
no_angle_prefix [] n a h = absurd (ground arith)
no_angle_prefix (b ∷ p) [] a h = refl
no_angle_prefix (b ∷ p) (c ∷ n) a (w, h) = elim (Bool-cases (nat_eq b 60)) [
  | inl e ↦ ground arith
  | inr e ↦ ground (arith, no_angle_prefix p n (ground arith) h)
]

address_go : (f : ℕ) → 1 ≤ f → go_type_on f (bytes "soroban_sdk::Address") ≡ bytes "string"
unfolding go_type_on get
address_go zero h = absurd (omega arith)
address_go (suc f) h = refl

chosen :
    (x y z : Bytes) (t : Bool) → (t ≡ true → x ≡ z) → y ≡ z → elim t [ true ↦ x | false ↦ y ] ≡ z
chosen x y z true h k = h refl
chosen x y z false h k = k

-- The pointer to what an option holds, of which `inner` is the text.
pointer_go :
    (f : ℕ) (inner go : Bytes)
    → length inner ≤ f
    → go_type_on f inner ≡ go
    → elim (inner == bytes "soroban_sdk::Address") [
      | true ↦ bytes "*string"
      | false ↦ bytes "*" ++ go_type_on f inner
    ]
      ≡ bytes "*" ++ go
pointer_go f inner go bound same =
    chosen (bytes "*string") (bytes "*" ++ go_type_on f inner) (bytes "*" ++ go)
      (inner == bytes "soroban_sdk::Address")
      (λ e.
        let is_address = (bytes_eq_iff inner (bytes "soroban_sdk::Address")).0 e in
        ap (λ g. bytes "*" ++ g)
          (sym (address_go f (omega (arith, ap length is_address)))
            ∙ (ap (go_type_on f) (sym is_address) ∙ same)))
      (ap (λ g. bytes "*" ++ g) same)

scalar_length : (s : Scalar) → 1 ≤ length (scalar_text s)
scalar_length u64 = omega arith
scalar_length u32 = omega arith
scalar_length u128 = omega arith
scalar_length i128 = omega arith
scalar_length bool = omega arith
scalar_length address = omega arith
scalar_length byte_string = omega arith
scalar_length symbol = omega arith
scalar_length string = omega arith

scalar_go : (f : ℕ) (s : Scalar) → go_type_on (suc f) (scalar_text s) ≡ go_scalar s
unfolding go_type_on get
scalar_go f u64 = refl
scalar_go f u32 = refl
scalar_go f u128 = refl
scalar_go f i128 = refl
scalar_go f bool = refl
scalar_go f address = refl
scalar_go f byte_string = refl
scalar_go f symbol = refl
scalar_go f string = refl

named_go : (f : ℕ) (n : Bytes) → Words n → get n scalar_types ≡ none → go_type_on f n ≡ n
unfolding go_type_on extract_struct_name
named_go zero n h g = word_struct_name n n h
named_go (suc f) n h g = rw g (
    rw (no_angle_prefix (bytes "Option<") n refl h) (
      rw (no_angle_prefix (bytes "soroban_sdk::BytesN<") n refl h)
        (rw (no_angle_prefix (bytes "soroban_sdk::Vec<") n refl h) (word_struct_name n n h))))

go_type_of :
    (f : ℕ) (t : RustType)
    → IsRustType t
    → length (rust_text t) ≤ f
    → go_type_on f (rust_text t) ≡ go_type t
unfolding go_type_on get is_prefix sprintf
go_type_of zero (scalar s) h b = absurd (omega (arith, scalar_length s))
go_type_of zero (option t) h b = absurd (omega arith)
go_type_of zero (vec t) h b = absurd (omega arith)
go_type_of zero (bytes_n n) h b = absurd (omega arith)
go_type_of f (named n) (h, g) b = named_go f n h g
go_type_of (suc f) (scalar s) h b = scalar_go f s
go_type_of (suc f) (option t) h b =
    let inner = extract_option_inner_type (rust_text (option t)) in
    let same = option_inner t h in
    let grown = length-append (rust_text t) (62 ∷ []) in
    pointer_go f inner (go_type t) (omega (arith, ap length same, grown))
      (ap (go_type_on f) same ∙ go_type_of f t h (omega (arith, grown)))
go_type_of (suc f) (vec t) h b =
    let grown = length-append (rust_text t) (62 ∷ []) in
    ap (λ g. bytes "[]" ++ g)
      (ap (go_type_on f) (vec_inner t h) ∙ go_type_of f t h (omega (arith, grown)))
go_type_of (suc f) (bytes_n n) h b = ap (λ m. bytes "[" ++ (m ++ bytes "]byte")) (bytes_n_inner n)

-- `rustTypeToGo` of the text of a Rust type is the Go type that its structure says, at any nesting of
-- options and vectors: a pointer for an option, a slice for a vector, an array for a `BytesN`. A name
-- is one of word characters that is no scalar's, and the size of a `BytesN` is in digits.
pub rust_type_to_go-rust_text :
    (t : RustType) → IsRustType t → rust_type_to_go (rust_text t) ≡ go_type t
unfolding rust_type_to_go
rust_type_to_go-rust_text t h = go_type_of (length (rust_text t)) t h (omega arith)
