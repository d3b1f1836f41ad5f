-- ===== src/FeeTracker/Tests.antt =====
-- Witnesses of the fee tracker of relayer/txm/fee_tracker.go.
use chainlink_stellar.Prelude.{ℕ, ◌+◌, ◌≡◌, refl, true, Option, some, arith}
use chainlink_stellar.Prelude.Int64.{int64}
use chainlink_stellar.FeeTracker.{FeeTracker, is_fresh, soroban_inclusion_percentiles}
use chainlink_stellar.FeeTracker.Laws.{soroban_inclusion_percentiles_cached}

network_up : ℕ → Option (ℕ × ℕ) × ℕ
network_up w = (some (150, 900), w + 1)

abbrev five_seconds : FeeTracker
five_seconds = record {
  poll_interval = int64 5_000_000_000;
  have_data = true;
  fetched_at = 7;
  p50 = 100;
  p90 = 400;
}

soroban_inclusion_percentiles_cached_example :
    let t' = (soroban_inclusion_percentiles network_up 6_000_000_000 five_seconds 0).0.0 in
    soroban_inclusion_percentiles network_up 7_000_000_000 t' 1 ≡ ((t', 1), some (150, 900))
unfolding network_up is_fresh
soroban_inclusion_percentiles_cached_example =
    soroban_inclusion_percentiles_cached network_up 6_000_000_000 7_000_000_000 five_seconds 0 1 150
      900 refl refl (omega arith) (omega arith)
