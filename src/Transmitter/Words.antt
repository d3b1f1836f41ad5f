-- ===== src/Transmitter/Words.antt =====
-- Numbers as big-endian bytes: `big.Int` and `binary.BigEndian`.
use chainlink_stellar.Prelude.{
  ℕ, zero, suc, ◌+◌, ◌*◌, ◌/◌, ◌%◌, ◌^◌, ◌<◌, ◌≡◌, ap, ◌∙◌, sym, arith, [], ◌∷◌, length,
}
use native.Mathlib.Nat.{pow-suc}
use chainlink_stellar.Config.{Bytes}

abbrev pub IsByte : ℕ → Type 0
IsByte b = b < 256

-- The number with these bytes after the ones of n.
unfoldable pub number_after : ℕ → Bytes → ℕ
number_after n [] = n
number_after n (b ∷ bs) = number_after (n * 256 + b) bs

-- `SetBytes`.
unfoldable pub number : Bytes → ℕ
unfolding number_after
number bs = number_after 0 bs

-- The last n bytes of a number, before the given ones: `Bytes` padded to n bytes.
unfoldable pub padded_before : ℕ → ℕ → Bytes → Bytes
padded_before zero x bs = bs
padded_before (suc n) x bs = padded_before n (x / 256) (x % 256 ∷ bs)

unfoldable pub padded : ℕ → ℕ → Bytes
unfolding padded_before
padded n x = padded_before n x []

digits : (m p q x : ℕ) → q ≡ p * 256 → (m * p + x / 256) * 256 + x % 256 ≡ m * q + x
digits m p q x h = rw h (omega arith)

below : (p q x : ℕ) → q ≡ p * 256 → x < q → x / 256 < p
below p q x e h = omega arith

number_after-padded_before :
    (n m x : ℕ) (bs : Bytes)
    → x < 256 ^ n
    → number_after m (padded_before n x bs) ≡ number_after (m * 256 ^ n + x) bs
unfolding number_after padded_before
number_after-padded_before zero m x bs h = ap (λ y. number_after y bs) (omega arith)
number_after-padded_before (suc n) m x bs h =
    number_after-padded_before n m (x / 256) (x % 256 ∷ bs) (below _ _ x (pow-suc 256 n) h)
    ∙ ap (λ y. number_after y bs) (digits m (256 ^ n) (256 ^ suc n) x (pow-suc 256 n))

-- Padding keeps a number that fits.
pub number-padded : (n x : ℕ) → x < 256 ^ n → number (padded n x) ≡ x
unfolding number padded number_after
number-padded n x h = number_after-padded_before n 0 x [] h ∙ omega arith

length-padded_before : (n x : ℕ) (bs : Bytes) → length (padded_before n x bs) ≡ n + length bs
unfolding padded_before
length-padded_before zero x bs = omega arith
length-padded_before (suc n) x bs = length-padded_before n (x / 256) (x % 256 ∷ bs) ∙ omega arith

pub length-padded : (n x : ℕ) → length (padded n x) ≡ n
unfolding padded
length-padded n x = length-padded_before n x [] ∙ omega arith

shift : (m b l p q : ℕ) → q ≡ p * 256 → (m * 256 + b) * p + l ≡ m * q + (b * p + l)
shift m b l p q h = rw h (omega arith)

from_zero : (b : ℕ) (bs : Bytes) → number_after (0 * 256 + b) bs ≡ number_after b bs
from_zero b bs = ap (λ y. number_after y bs) (omega arith)

number_after_lem : (m : ℕ) (bs : Bytes) → number_after m bs ≡ m * 256 ^ length bs + number bs
unfolding number number_after
number_after_lem m [] = omega arith
number_after_lem m (b ∷ bs) =
    number_after_lem (m * 256 + b) bs
    ∙ shift m b (number bs) (256 ^ length bs) (256 ^ suc (length bs)) (pow-suc 256 (length bs))
    ∙ ap (λ y. m * 256 ^ suc (length bs) + y) (sym (number_after_lem b bs) ∙ sym (from_zero b bs))

-- The first byte counts for the power of the bytes after it.
pub number_cons : (b : ℕ) (bs : Bytes) → number (b ∷ bs) ≡ b * 256 ^ length bs + number bs
unfolding number number_after
number_cons b bs = from_zero b bs ∙ number_after_lem b bs
