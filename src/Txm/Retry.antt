-- ===== src/Txm/Retry.antt =====
-- relayer/txm/txm.go: `maybeRetry` and `retryGetClientOrFail`, the two ways back to the queue.
use chainlink_stellar.Prelude.{ℕ, Bool, true, false, some, none, ltb, leb, if◌then◌else◌}
use chainlink_stellar.TxStore.{TxRef}
use chainlink_stellar.Txm.{
  Txm, Settings, get_transaction_attempt, increment_infra_attempts, get_infra_attempts,
  mark_tx_failed,
}
use chainlink_stellar.Txm.Queue.{try_send}

module _ (c : Settings) where
  unfoldable pub maybe_retry : TxRef → Txm → Txm × Bool
  unfolding try_send get_transaction_attempt
  maybe_retry r s =
      if leb c.max_tx_retry_attempts (get_transaction_attempt r s)
      then (s, false)
      else elim (try_send c r s) [ some t ↦ (t, true) | none ↦ (s, false) ]

  abbrev pub max_retries : ℕ
  max_retries = elim c.max_get_client_retry_attempts [ none ↦ 0 | some n ↦ n ]

  -- Whether the backoff ends by the timer (`slept`) or by the end of the context. A transaction
  -- whose second send fails is left as it is.
  unfoldable pub retry_get_client_or_fail : Bool → ℕ → TxRef → Txm → Txm
  unfolding try_send increment_infra_attempts get_infra_attempts
  retry_get_client_or_fail slept now r s =
      let t = increment_infra_attempts r s in
      if ltb (get_infra_attempts r t) max_retries
      then if slept then elim (try_send c r t) [ some u ↦ u | none ↦ t ] else t
      else mark_tx_failed c now r t
