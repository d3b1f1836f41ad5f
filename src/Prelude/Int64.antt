-- ===== src/Prelude/Int64.antt =====
-- Go's int64 in excess-2^63 form: the integer v is the number v + 2^63, below 2^64. The order of
-- the integers is then the order of the numbers, and arithmetic wraps as `% 2 ^ 64` says.
use Prim.Native.Nat.{ℕ, ◌+◌, ◌*◌, ◌-◌, ◌%◌, ◌^◌, ◌≤◌, ◌<◌}
use mathlib.Core.Path.{◌≡◌}
use native.Mathlib.Omega.{arith}

abbrev pub Int64 : Type 0
Int64 = ℕ

-- The int64 for a non-negative integer.
abbrev pub int64 : ℕ → Int64
int64 n = n + 2 ^ 63

abbrev pub InRange : Int64 → Type 0
InRange a = a < 2 ^ 64

abbrev pub add : Int64 → Int64 → Int64
add a b = (a + b + 2 ^ 63) % 2 ^ 64

abbrev pub sub : Int64 → Int64 → Int64
sub a b = (a + 2 ^ 63 + (2 ^ 64 - b)) % 2 ^ 64

-- The product with a non-negative constant.
abbrev pub scale : Int64 → ℕ → Int64
scale a k = ((a + 2 ^ 63) * k + 2 ^ 63) % 2 ^ 64

-- `int64(u)` of a uint64.
abbrev pub of_uint64 : ℕ → Int64
of_uint64 u = (u + 2 ^ 63) % 2 ^ 64

add-int64 : (a b : ℕ) → a + b < 2 ^ 63 → add (int64 a) (int64 b) ≡ int64 (a + b)
add-int64 a b h = omega arith

sub-int64 : (a b : ℕ) → b ≤ a → a < 2 ^ 63 → sub (int64 a) (int64 b) ≡ int64 (a - b)
sub-int64 a b h k = omega arith

scale-int64 : (a : ℕ) → a < 2 ^ 30 → scale (int64 a) 1_000_000_000 ≡ int64 (a * 1_000_000_000)
scale-int64 a h = omega arith
