-- ===== src/FeeTracker/Laws.antt =====
-- What the fee tracker of relayer/txm/fee_tracker.go answers.
use chainlink_stellar.Prelude.{ℕ, ◌+◌, ◌<◌, ◌≡◌, true, false, Option, some, none, arith}
use chainlink_stellar.Prelude.Int64.{int64}
use chainlink_stellar.FeeTracker.{FeeTracker, is_fresh, soroban_inclusion_percentiles}

module _ {W : Type 0} (get_fee_stats : W → Option (ℕ × ℕ) × W) where
  -- After a successful fetch every call within the poll interval answers from the cache, with the
  -- values fetched, and does not touch the network.
  pub soroban_inclusion_percentiles_cached :
      (now later : ℕ) (t : FeeTracker) (w w' : W) (p50 p90 : ℕ)
      → is_fresh now t ≡ false
      → get_fee_stats w ≡ (some (p50, p90), w')
      → int64 0 < t.poll_interval
      → int64 later < now + t.poll_interval
      → let t' = (soroban_inclusion_percentiles get_fee_stats now t w).0.0 in
        soroban_inclusion_percentiles get_fee_stats later t' w' ≡ ((t', w'), some (p50, p90))
  unfolding soroban_inclusion_percentiles
  soroban_inclusion_percentiles_cached now later t w w' p50 p90 stale fetched pos soon =
      ground arith

  -- Once there is data, a call never fails: when the network does, it answers the last values.
  soroban_inclusion_percentiles_stale :
      (now : ℕ) (t : FeeTracker) (w w' : W)
      → t.have_data ≡ true
      → get_fee_stats w ≡ (none, w')
      → (soroban_inclusion_percentiles get_fee_stats now t w).1 ≡ some (t.p50, t.p90)
  unfolding soroban_inclusion_percentiles
  soroban_inclusion_percentiles_stale now t w w' data_held failed = ground arith
