-- ===== src/Fee.antt =====
-- relayer/txm/fee.go: the inclusion fee of a transaction, bumped geometrically or to the fee of the
-- network. The float64 arithmetic is the platform's, and a parameter.
pub mod Bounds
pub mod Tests
use chainlink_stellar.Prelude.{ℕ, Bool, true, false, ◌^◌, ltb, nat_eq, if◌then◌else◌}
use chainlink_stellar.Prelude.Int64.{Int64, add, of_uint64}

-- float64 and the operations that the code uses.
pub record Floats : Type 1 where
  pub Float : Type 0
  pub of_int64 : Int64 → Float
  pub of_nat : ℕ → Float  -- float64 of a uint64
  pub mul : Float → Float → Float
  pub pow : Float → Float → Float
  pub ceil : Float → Float
  pub to_int64 : Float → Int64

module _ (fl : Floats) where
  open fl use {Float, of_int64, of_nat, mul, pow, ceil, to_int64}

  pub record FeeStrategy : Type 0 where
    pub base_inclusion_fee : Int64
    pub max_inclusion_fee : Int64
    pub bump_multiplier : Float
    pub resource_fee_buffer : Int64

  unfoldable pub inclusion_fee : FeeStrategy → ℕ → Int64
  inclusion_fee f attempt =
      if nat_eq attempt 0
      then f.base_inclusion_fee
      else let result =
          to_int64
            (ceil (mul (of_int64 f.base_inclusion_fee) (pow f.bump_multiplier (of_nat attempt)))) in
        if ltb f.max_inclusion_fee result then f.max_inclusion_fee else result

  unfoldable pub calculate : FeeStrategy → Int64 → ℕ → Int64
  calculate f min_resource_fee attempt =
      add (inclusion_fee f attempt) (add min_resource_fee f.resource_fee_buffer)

  unfoldable pub calculate_restore_fee : FeeStrategy → Int64 → Int64 → Int64
  calculate_restore_fee f preamble_min_resource_fee restore_fee_buffer =
      add preamble_min_resource_fee restore_fee_buffer

  -- The larger of a fee and the network's, clamped to the maximum; whether it was clamped.
  unfoldable pub clamp_fee : FeeStrategy → Int64 → ℕ → Int64 × Bool
  clamp_fee f fee network_percentile =
      let network_fee = of_uint64 network_percentile in
      let raised = if ltb fee network_fee then network_fee else fee in
      if ltb f.max_inclusion_fee raised then (f.max_inclusion_fee, true) else (raised, false)

  unfoldable pub seed_inclusion_fee : FeeStrategy → ℕ → ℕ → Int64 × Bool
  unfolding clamp_fee
  seed_inclusion_fee f attempt network_percentile =
      clamp_fee f (inclusion_fee f attempt) network_percentile

  -- The current fee times the multiplier, rounded up.
  unfoldable pub bumped_fee : FeeStrategy → Int64 → Int64
  bumped_fee f current = to_int64 (ceil (mul (of_int64 current) f.bump_multiplier))

  unfoldable pub bump_inclusion_fee : FeeStrategy → Int64 → ℕ → Int64 × Bool
  unfolding clamp_fee
  bump_inclusion_fee f current network_percentile =
      clamp_fee f (bumped_fee f current) network_percentile
