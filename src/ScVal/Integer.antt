-- ===== src/ScVal/Integer.antt =====
-- bindings/scval/scval.go: what the conversions between int64 and i128 do to the number. The i128
-- with the parts hi and lo stands for hi * 2^64 + lo, kept here with 2^127 added, so that it is not
-- negative.
use chainlink_stellar.Prelude.{ℕ, ◌+◌, ◌*◌, ◌-◌, ◌^◌, ◌≤◌, ◌<◌, ◌≡◌, ◌↔◌, some, Option, none, arith}
use chainlink_stellar.Prelude.Int64.{Int64, InRange}
use chainlink_stellar.ScVal.{ScVal, scv_i128, Int128Parts}
use chainlink_stellar.ScVal.Codec.{i128_to_scval, i128_from_scval}

abbrev pub number_of : Int128Parts → ℕ
number_of p = p.hi * 2 ^ 64 + p.lo

-- The number of a value, if it is an i128.
abbrev pub number : ScVal → Option ℕ
number (scv_i128 (some p)) = some (number_of p)
number _ = none

-- The i128 of an int64 is the same number.
pub number-i128_to_scval :
    (v : Int64) → InRange v → number (i128_to_scval v) ≡ some (v + (2 ^ 127 - 2 ^ 63))
unfolding i128_to_scval
number-i128_to_scval v h = ground arith

-- The int64 that is read from an i128 is the same number exactly when the number fits: otherwise
-- the high part is dropped without an error.
i128_from_scval_exact :
    (p : Int128Parts) (v : Int64)
    → InRange p.hi
    → p.lo < 2 ^ 64
    → i128_from_scval (scv_i128 (some p)) ≡ some v
    → (number_of p ≡ v + (2 ^ 127 - 2 ^ 63))
      ↔ (2 ^ 127 - 2 ^ 63 ≤ number_of p) × (number_of p < 2 ^ 127 + 2 ^ 63)
unfolding i128_from_scval
i128_from_scval_exact p v hi lo e = (λ h. ground arith, λ h. ground arith)

pub i128_from_scval-i128_to_scval :
    (v : Int64) → InRange v → i128_from_scval (i128_to_scval v) ≡ some v
unfolding i128_from_scval i128_to_scval
i128_from_scval-i128_to_scval v h = ground arith
