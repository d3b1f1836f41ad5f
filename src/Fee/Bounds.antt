-- ===== src/Fee/Bounds.antt =====
-- Bounds of the fees of relayer/txm/fee.go.
use chainlink_stellar.Prelude.{ℕ, ◌^◌, ◌≤◌, ◌<◌, ◌≡◌, ◌⊎◌, true, false, arith}
use chainlink_stellar.Prelude.Int64.{Int64, int64, of_uint64}
use chainlink_stellar.Fee.{
  Floats, FeeStrategy, inclusion_fee, seed_inclusion_fee, bumped_fee, bump_inclusion_fee,
}

module _ (fl : Floats) (f : FeeStrategy fl) where
  -- The seeded fee never passes the maximum: either it is clamped to it, or it is at least the
  -- geometric baseline of the attempt and at least the network's percentile read as an int64, which
  -- from 2^63 on is negative; and it is the baseline, or that percentile where it is above the
  -- baseline.
  pub seed_inclusion_fee_bounds :
      (attempt network_percentile : ℕ)
      → let (fee, clamped) = seed_inclusion_fee fl f attempt network_percentile in
        (fee ≤ f.max_inclusion_fee)
        × ((clamped ≡ true) × (fee ≡ f.max_inclusion_fee)
            ⊎ (clamped ≡ false)
              × (inclusion_fee fl f attempt ≤ fee)
              × (of_uint64 network_percentile ≤ fee)
              × ((fee ≡ inclusion_fee fl f attempt)
                  ⊎ (inclusion_fee fl f attempt < of_uint64 network_percentile)
                    × (fee ≡ of_uint64 network_percentile)))
  unfolding seed_inclusion_fee
  seed_inclusion_fee_bounds attempt p = ground arith

  -- Such a percentile is then ignored: the seed is the one for a network fee of zero.
  seed_inclusion_fee_wrapped :
      (attempt network_percentile : ℕ)
      → int64 0 ≤ inclusion_fee fl f attempt
      → 2 ^ 63 ≤ network_percentile
      → network_percentile < 2 ^ 64
      → seed_inclusion_fee fl f attempt network_percentile ≡ seed_inclusion_fee fl f attempt 0
  unfolding seed_inclusion_fee
  seed_inclusion_fee_wrapped attempt p a b c = ground arith

  -- Where the multiplier does not lower a fee, a bump of a fee within the maximum neither lowers
  -- it nor takes it past the maximum, whatever the network reports.
  pub bump_inclusion_fee_monotone :
      (current : Int64) (network_percentile : ℕ)
      → current ≤ f.max_inclusion_fee
      → current ≤ bumped_fee fl f current
      → let fee = (bump_inclusion_fee fl f current network_percentile).0 in
        (current ≤ fee) × (fee ≤ f.max_inclusion_fee)
  unfolding bump_inclusion_fee
  bump_inclusion_fee_monotone current p a b = ground arith
