-- ===== src/Txm/Moved.antt =====
-- relayer/txm/txm.go, `checkUnconfirmed`: a transaction that the confirm loop takes up is settled or
-- queued again.
use chainlink_stellar.Prelude.{
  ℕ, ◌<◌, ◌≡◌, ◌⊎◌, refl, ◌∙◌, Bool, true, false, List, [], ◌∷◌, ◌++◌, arith, ltb, if◌then◌else◌,
  Bool-cases, inl, inr, String_equality, ℕ_equality, leb, length,
}
use chainlink_stellar.TxStore.{TxRef}
use chainlink_stellar.Failure.{classify_failed_transaction_result}
use chainlink_stellar.Txm.{
  Txm, Settings, TransactionStatus, finalized, failed, is_terminal_status,
  update_transaction_status, update_transaction_fee, update_transaction_result_meta,
  increment_transaction_attempt, get_transaction_attempt, update_transaction_result_code,
  update_transaction_result_xdr, update_transaction_ledger_close_time,
}
use chainlink_stellar.Txm.Status.{IsSettled, update_transaction_status-IsSettled}
use chainlink_stellar.Txm.Retry.{maybe_retry}
use chainlink_stellar.Txm.Network.{Network, GetTransactionResponse}
use chainlink_stellar.Txm.Confirm.{retry_or_fail, finalize, fail_on_chain}

-- The transaction waits in the broadcast channel, within its budget of attempts.
pub data IsQueued (c : Settings) (r : TxRef) (s : Txm) : Type 0 where
  queued :
      (earlier : List TxRef)
      → s.broadcast_chan ≡ earlier ++ r ∷ []
      → get_transaction_attempt r s < c.max_tx_retry_attempts
      → IsQueued c r s

module _ (c : Settings) where
  maybe_retry_cases :
      (r : TxRef) (s : Txm)
      → ((maybe_retry c r s).1 ≡ false)
        ⊎ ((maybe_retry c r s).1 ≡ true) × IsQueued c r (maybe_retry c r s).0
  unfolding maybe_retry
  maybe_retry_cases r s =
      elim (Bool-cases (leb c.max_tx_retry_attempts (get_transaction_attempt r s))) [
        | inl spent ↦ inl (ground arith)
        | inr more ↦ elim (Bool-cases (ltb (length s.broadcast_chan) c.broadcast_chan_size)) [
          | inl room ↦ inr (ground arith, queued s.broadcast_chan (ground arith) (ground arith))
          | inr full ↦ inl (ground arith)
        ]
      ]

  -- The transaction is settled, or waits in the channel again.
  abbrev pub IsMoved : TxRef → Txm → Type 0
  IsMoved r s = IsSettled r s ⊎ IsQueued c r s

if-IsMoved :
    (c : Settings) (r : TxRef) (b : Bool) (s t : Txm)
    → IsMoved c r s
    → IsMoved c r t
    → IsMoved c r (if b then s else t)
if-IsMoved c r true s t m n = m
if-IsMoved c r false s t m n = n

maybe_retry_store :
    (c : Settings) (r : TxRef) (s : Txm) → (maybe_retry c r s).0.account_store ≡ s.account_store
unfolding maybe_retry
maybe_retry_store c r s = ground arith

update_transaction_status_store :
    (c : Settings) (now : ℕ) (r : TxRef) (status : TransactionStatus) (s : Txm)
    → (update_transaction_status c now r status s).account_store ≡ s.account_store
unfolding update_transaction_status
update_transaction_status_store c now r status s = ground arith

module _ (net : Network) (c : Settings) where
  pub retry_or_fail-IsMoved :
      (time : ℕ) (r : TxRef) (s : Txm) → IsMoved c r (retry_or_fail net c time r s)
  unfolding retry_or_fail is_terminal_status
  retry_or_fail-IsMoved time r s =
      elim (maybe_retry_cases c r (increment_transaction_attempt r s)) [
        | inl refused ↦
            rw (refused, if◌then◌else◌)
              (inl (update_transaction_status-IsSettled c time r failed _ refl))
        | inr (taken, waits) ↦ rw (taken, if◌then◌else◌) (inr waits)
      ]

  pub retry_or_fail_store :
      (time : ℕ) (r : TxRef) (s : Txm)
      → (retry_or_fail net c time r s).account_store ≡ s.account_store
  unfolding retry_or_fail increment_transaction_attempt
  retry_or_fail_store time r s = ground (
    arith,
    maybe_retry_store c r (increment_transaction_attempt r s),
    update_transaction_status_store c time r failed
        (maybe_retry c r (increment_transaction_attempt r s)).0,
  )

  pub fail_on_chain-IsMoved :
      (time : ℕ) (r : TxRef) (resp : GetTransactionResponse) (s : Txm)
      → IsMoved c r (fail_on_chain net c time r resp s)
  unfolding fail_on_chain is_terminal_status
  fail_on_chain-IsMoved time r resp s =
      if-IsMoved c r (classify_failed_transaction_result net.xdr resp.result_xdr).retryable _ _
        (retry_or_fail-IsMoved time r _)
        (inl (update_transaction_status-IsSettled c time r failed _ refl))

  pub fail_on_chain_store :
      (time : ℕ) (r : TxRef) (resp : GetTransactionResponse) (s : Txm)
      → (fail_on_chain net c time r resp s).account_store ≡ s.account_store
  unfolding fail_on_chain update_transaction_ledger_close_time update_transaction_result_code
      update_transaction_result_xdr
  fail_on_chain_store time r resp s =
      elim (Bool-cases (classify_failed_transaction_result net.xdr resp.result_xdr).retryable) [
        | inl e ↦ rw e (retry_or_fail_store time r _ ∙ ground arith)
        | inr e ↦ rw e (update_transaction_status_store c time r failed _ ∙ ground arith)
      ]

  pub finalize-IsSettled :
      (time : ℕ) (r : TxRef) (resp : GetTransactionResponse) (s : Txm)
      → IsSettled r (finalize net c time r resp s)
  unfolding finalize is_terminal_status
  finalize-IsSettled time r resp s = update_transaction_status-IsSettled c time r finalized _ refl

  pub finalize_store :
      (time : ℕ) (r : TxRef) (resp : GetTransactionResponse) (s : Txm)
      → (finalize net c time r resp s).account_store ≡ s.account_store
  unfolding finalize update_transaction_ledger_close_time update_transaction_result_code
      update_transaction_result_xdr update_transaction_result_meta update_transaction_fee
  finalize_store time r resp s = update_transaction_status_store c time r finalized _ ∙ ground arith
