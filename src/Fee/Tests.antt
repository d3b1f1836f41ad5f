-- ===== src/Fee/Tests.antt =====
-- Witnesses of the fee strategy of relayer/txm/fee.go, over fractions in place of floats.
use chainlink_stellar.Prelude.{
  ℕ, ◌+◌, ◌-◌, ◌*◌, ◌/◌, ◌^◌, ◌≤◌, ◌<◌, ◌≡◌, ◌⊎◌, refl, true, false, arith,
}
use chainlink_stellar.Prelude.Int64.{int64, of_uint64}
use chainlink_stellar.Fee.{
  Floats, FeeStrategy, inclusion_fee, seed_inclusion_fee, bumped_fee, bump_inclusion_fee,
}
use chainlink_stellar.Fee.Bounds.{seed_inclusion_fee_bounds, bump_inclusion_fee_monotone}

abbrev Fraction : Type 0
Fraction = ℕ × ℕ

abbrev power : Fraction → ℕ → Fraction
power (a, b) n = (a ^ n, b ^ n)

abbrev ceiling : Fraction → Fraction
ceiling (a, b) = ((a + b - 1) / b, 1)

-- Non-negative fractions.
abbrev pub fractions : Floats
fractions = record {
  Float = Fraction;
  of_int64 = λ a. (a - 2 ^ 63, 1);
  of_nat = λ n. (n, 1);
  mul = λ x y. (x.0 * y.0, x.1 * y.1);
  pow = λ x y. power x y.0;
  ceil = ceiling;
  to_int64 = λ x. int64 x.0;
}

-- `DefaultConfigSet`: from 100 to 100000 stroops, by one half more on each attempt.
abbrev pub default_fees : FeeStrategy fractions
default_fees = record {
  base_inclusion_fee = int64 100;
  max_inclusion_fee = int64 100000;
  bump_multiplier = (3, 2);
  resource_fee_buffer = int64 15000;
}

third_attempt : inclusion_fee fractions default_fees 2 ≡ int64 225
unfolding inclusion_fee
third_attempt = refl

late_attempt : inclusion_fee fractions default_fees 60 ≡ int64 100000
unfolding inclusion_fee
late_attempt = refl

seed_inclusion_fee_bounds_example :
    let (fee, clamped) = seed_inclusion_fee fractions default_fees 2 500 in
    (fee ≤ int64 100000)
    × ((clamped ≡ true) × (fee ≡ int64 100000)
        ⊎ (clamped ≡ false)
          × (inclusion_fee fractions default_fees 2 ≤ fee)
          × (of_uint64 500 ≤ fee)
          × ((fee ≡ inclusion_fee fractions default_fees 2)
              ⊎ (inclusion_fee fractions default_fees 2 < of_uint64 500) × (fee ≡ of_uint64 500)))
seed_inclusion_fee_bounds_example = seed_inclusion_fee_bounds fractions default_fees 2 500

bump_inclusion_fee_monotone_example :
    let fee = (bump_inclusion_fee fractions default_fees (int64 150) 7).0 in
    (int64 150 ≤ fee) × (fee ≤ int64 100000)
unfolding bumped_fee
bump_inclusion_fee_monotone_example =
    bump_inclusion_fee_monotone fractions default_fees (int64 150) 7 (omega arith) (omega arith)
