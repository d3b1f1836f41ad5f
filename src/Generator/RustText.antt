-- ===== src/Generator/RustText.antt =====
-- The Rust types of an interface, as a grammar gives them, with their texts and their Go types, which
-- bindings/generator/codegen.go reads and writes.
use chainlink_stellar.Prelude.{
  ◌≡◌, refl, ap, ◌∙◌, arith, Bool, true, false, not, ◌&&◌, none, [], ◌∷◌, ◌++◌, All,
}
use chainlink_stellar.Prelude.Map.{get}
use chainlink_stellar.Config.{Bytes, bytes, Bytes_equality}
use chainlink_stellar.Generator.Text.{is_space, is_digit, trim_left, trim_right, trim_space}
use chainlink_stellar.Generator.Regex.{is_word}
use chainlink_stellar.Generator.Names.{scalar_types}

pub data Scalar : Type 0 where
  u64 : Scalar
  u32 : Scalar
  u128 : Scalar
  i128 : Scalar
  bool : Scalar
  address : Scalar
  byte_string : Scalar
  symbol : Scalar
  string : Scalar

pub data RustType : Type 0 where
  scalar : Scalar → RustType
  option : RustType → RustType
  vec : RustType → RustType
  -- `BytesN<n>`, and a type of the contract by its name.
  bytes_n : Bytes → RustType
  named : Bytes → RustType

abbrev pub scalar_text : Scalar → Bytes
scalar_text u64 = bytes "u64"
scalar_text u32 = bytes "u32"
scalar_text u128 = bytes "u128"
scalar_text i128 = bytes "i128"
scalar_text bool = bytes "bool"
scalar_text address = bytes "soroban_sdk::Address"
scalar_text byte_string = bytes "soroban_sdk::Bytes"
scalar_text symbol = bytes "soroban_sdk::Symbol"
scalar_text string = bytes "soroban_sdk::String"

abbrev pub go_scalar : Scalar → Bytes
go_scalar u64 = bytes "uint64"
go_scalar u32 = bytes "uint32"
go_scalar u128 = bytes "scval.U128"
go_scalar i128 = bytes "int64"
go_scalar bool = bytes "bool"
go_scalar address = bytes "string"
go_scalar byte_string = bytes "[]byte"
go_scalar symbol = bytes "string"
go_scalar string = bytes "string"

-- The text of a type in the interface.
abbrev pub rust_text : RustType → Bytes
rust_text (scalar s) = scalar_text s
rust_text (option t) = bytes "Option<" ++ (rust_text t ++ 62 ∷ [])
rust_text (vec t) = bytes "soroban_sdk::Vec<" ++ (rust_text t ++ 62 ∷ [])
rust_text (bytes_n n) = bytes "soroban_sdk::BytesN<" ++ (n ++ 62 ∷ [])
rust_text (named n) = n

-- The Go type for it.
abbrev pub go_type : RustType → Bytes
go_type (scalar s) = go_scalar s
go_type (option t) = bytes "*" ++ go_type t
go_type (vec t) = bytes "[]" ++ go_type t
go_type (bytes_n n) = bytes "[" ++ (n ++ bytes "]byte")
go_type (named n) = n

-- A name is of word characters and no name of a scalar; the size of a `BytesN` is in digits.
abbrev pub IsRustType : RustType → Type 0
IsRustType (scalar s) = Unit
IsRustType (option t) = IsRustType t
IsRustType (vec t) = IsRustType t
IsRustType (bytes_n n) = All (λ b. is_digit b ≡ true) n
IsRustType (named n) = All (λ b. is_word b ≡ true) n × (get n scalar_types ≡ none)

abbrev pub Solid : Bytes → Type 0
Solid text = All (λ b. is_space b ≡ false) text

abbrev has_no_space : Bytes → Bool
has_no_space [] = true
has_no_space (b ∷ bs) = not (is_space b) && has_no_space bs

literal-Solid : (a : Bytes) → has_no_space a ≡ true → Solid a
literal-Solid [] h = tt
literal-Solid (b ∷ bs) h = (ground arith, literal-Solid bs (ground arith))

append-Solid : (a b : Bytes) → Solid a → Solid b → Solid (a ++ b)
append-Solid [] b h k = k
append-Solid (x ∷ a) b (p, h) k = (p, append-Solid a b h k)

trim_right-Solid : (a : Bytes) → Solid a → trim_right a ≡ a
unfolding trim_right
trim_right-Solid [] h = refl
trim_right-Solid (b ∷ []) (p, h) = rw p refl
trim_right-Solid (b ∷ c ∷ a) (p, h) = rw (trim_right-Solid (c ∷ a) h) refl

trim_left-Solid : (a : Bytes) → Solid a → trim_left a ≡ a
unfolding trim_left
trim_left-Solid [] h = refl
trim_left-Solid (b ∷ bs) (p, h) = ground arith

pub trim_space-Solid : (a : Bytes) → Solid a → trim_space a ≡ a
unfolding trim_space
trim_space-Solid a h = ap trim_right (trim_left-Solid a h) ∙ trim_right-Solid a h

digits-Solid : (n : Bytes) → All (λ b. is_digit b ≡ true) n → Solid n
digits-Solid [] h = tt
digits-Solid (b ∷ n) (p, h) = (ground arith, digits-Solid n h)

words-Solid : (n : Bytes) → All (λ b. is_word b ≡ true) n → Solid n
words-Solid [] h = tt
words-Solid (b ∷ n) (p, h) = (ground arith, words-Solid n h)

scalar_text-Solid : (s : Scalar) → Solid (scalar_text s)
scalar_text-Solid u64 = literal-Solid (scalar_text u64) refl
scalar_text-Solid u32 = literal-Solid (scalar_text u32) refl
scalar_text-Solid u128 = literal-Solid (scalar_text u128) refl
scalar_text-Solid i128 = literal-Solid (scalar_text i128) refl
scalar_text-Solid bool = literal-Solid (scalar_text bool) refl
scalar_text-Solid address = literal-Solid (scalar_text address) refl
scalar_text-Solid byte_string = literal-Solid (scalar_text byte_string) refl
scalar_text-Solid symbol = literal-Solid (scalar_text symbol) refl
scalar_text-Solid string = literal-Solid (scalar_text string) refl

pub rust_text-Solid : (t : RustType) → IsRustType t → Solid (rust_text t)
rust_text-Solid (scalar s) h = scalar_text-Solid s
rust_text-Solid (option t) h =
    append-Solid (bytes "Option<") (rust_text t ++ 62 ∷ []) (literal-Solid (bytes "Option<") refl)
      (append-Solid (rust_text t) (62 ∷ []) (rust_text-Solid t h) (refl, tt))
rust_text-Solid (vec t) h =
    append-Solid (bytes "soroban_sdk::Vec<") (rust_text t ++ 62 ∷ [])
      (literal-Solid (bytes "soroban_sdk::Vec<") refl)
      (append-Solid (rust_text t) (62 ∷ []) (rust_text-Solid t h) (refl, tt))
rust_text-Solid (bytes_n n) h =
    append-Solid (bytes "soroban_sdk::BytesN<") (n ++ 62 ∷ [])
      (literal-Solid (bytes "soroban_sdk::BytesN<") refl)
      (append-Solid n (62 ∷ []) (digits-Solid n h) (refl, tt))
rust_text-Solid (named n) (h, _) = words-Solid n h
