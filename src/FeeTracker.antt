-- ===== src/FeeTracker.antt =====
-- relayer/txm/fee_tracker.go: the cached fee percentiles of the network. Time is nanoseconds on the
-- monotonic clock; `GetFeeStats` is a function on the state of the outside world.
pub mod Laws
mod Tests
use chainlink_stellar.Prelude.{
  ℕ, ◌+◌, ◌^◌, Bool, true, false, Option, some, none, ltb, ◌&&◌, if◌then◌else◌,
}
use chainlink_stellar.Prelude.Int64.{Int64, int64}

pub record FeeTracker : Type 0 where
  pub poll_interval : Int64  -- a time.Duration
  pub have_data : Bool
  pub fetched_at : ℕ
  pub p50 : ℕ  -- uint64
  pub p90 : ℕ  -- uint64

unfoldable pub new_fee_tracker : Int64 → FeeTracker
new_fee_tracker poll_interval = record {
  poll_interval = poll_interval;
  have_data = false;
  fetched_at = 0;
  p50 = 0;
  p90 = 0;
}

-- `t.pollInterval > 0 && t.haveData && now.Sub(t.fetchedAt) < t.pollInterval`.
unfoldable pub is_fresh : ℕ → FeeTracker → Bool
is_fresh now t =
    ltb (int64 0) t.poll_interval && t.have_data && ltb (int64 now) (t.fetched_at + t.poll_interval)

module _ {ℓ} {W : Type ℓ} (get_fee_stats : W → Option (ℕ × ℕ) × W) where
  -- `none` is an error. The percentiles are P50 and P90.
  unfoldable pub soroban_inclusion_percentiles :
      ℕ → FeeTracker → W → (FeeTracker × W) × Option (ℕ × ℕ)
  unfolding is_fresh
  soroban_inclusion_percentiles now t w =
      if is_fresh now t
      then ((t, w), some (t.p50, t.p90))
      else let (fetched, w') = get_fee_stats w in
        elim fetched [
          | none ↦ ((t, w'), (if t.have_data then some (t.p50, t.p90) else none))
          | some (p50, p90) ↦ (
            (record t { p50 = p50; p90 = p90; fetched_at = now; have_data = true }, w'),
            some (p50, p90),
          )
        ]
