-- ===== src/Txm/Confirm.antt =====
-- relayer/txm/txm.go: `checkUnconfirmed`, one pass of the confirm loop.
use chainlink_stellar.Prelude.{
  ℕ, ◌+◌, Bool, true, false, String, Option, some, none, List, [], ◌∷◌, ltb, ◌==◌, ◌||◌,
  if◌then◌else◌, String_equality, ok, err,
}
use chainlink_stellar.Prelude.Int64.{int64, scale}
use chainlink_stellar.Prelude.Map.{Map, get, put}
use chainlink_stellar.TxStore.{TxRef, UnconfirmedTx, confirm}
use chainlink_stellar.AccountStore.{get_all_unconfirmed}
use chainlink_stellar.Config.{second}
use chainlink_stellar.Failure.{classify_failed_transaction_result}
use chainlink_stellar.Txm.{
  Txm, Settings, finalized, failed, update_transaction_status, update_transaction_fee,
  update_transaction_result_xdr, update_transaction_result_code, update_transaction_result_meta,
  update_transaction_ledger_close_time, increment_transaction_attempt,
}
use chainlink_stellar.Txm.Retry.{maybe_retry}
use chainlink_stellar.Txm.Network.{
  Network, GetTransactionResponse, TransactionLedgerStatus, success, failed_on_chain, not_found,
}

-- `txStore.Confirm` on the store of an account; `none` is an error.
unfoldable pub confirm_in : String → UnconfirmedTx → Bool → Txm → Option Txm
confirm_in account u expired s = elim (get account s.account_store) [
  | none ↦ none
  | some store ↦ elim (confirm u.sequence u.hash expired store) [
    | err e ↦ none
    | ok store' ↦ some (record s { account_store = put account store' s.account_store })
  ]
]

module _ (net : Network) (c : Settings) where
  open net use {World, now, get_client, get_latest_ledger, get_transaction, xdr}

  -- `maybeRetry`, and the failure if it refuses.
  unfoldable pub retry_or_fail : ℕ → TxRef → Txm → Txm
  retry_or_fail time r s =
      let (t, retried) = maybe_retry c r (increment_transaction_attempt r s) in
      if retried then t else update_transaction_status c time r failed t

  update_fee_charged : TxRef → String → Txm → Txm
  update_fee_charged r result_xdr s = if result_xdr == "" then s else elim (xdr.decode result_xdr) [
    | none ↦ s
    | some t ↦ update_transaction_fee r t.fee_charged s
  ]

  unfoldable pub finalize : ℕ → TxRef → GetTransactionResponse → Txm → Txm
  unfolding update_fee_charged
  finalize time r resp s =
      let s₁ =
        update_transaction_result_code r "" (update_transaction_result_xdr r resp.result_xdr s) in
      let s₂ = update_fee_charged r resp.result_xdr s₁ in
      let s₃ =
        if resp.result_meta_xdr == ""
        then s₂
        else update_transaction_result_meta r resp.result_meta_xdr s₂ in
      update_transaction_status c time r finalized
        (update_transaction_ledger_close_time r resp.ledger_close_time s₃)

  unfoldable pub fail_on_chain : ℕ → TxRef → GetTransactionResponse → Txm → Txm
  fail_on_chain time r resp s =
      let class = classify_failed_transaction_result xdr resp.result_xdr in
      let s₁ = update_transaction_ledger_close_time r resp.ledger_close_time (
        update_transaction_result_code r class.result_code
          (update_transaction_result_xdr r resp.result_xdr s)) in
      if class.retryable
      then retry_or_fail time r s₁
      else update_transaction_status c time r failed s₁

  unfoldable pub expire : ℕ → String → UnconfirmedTx → Txm → Txm
  expire time account u s = elim (confirm_in account u true s) [
    | none ↦ update_transaction_status c time u.tx failed s
    | some t ↦ retry_or_fail time u.tx t
  ]

  -- `time.Since(utx.Tx.Timestamp) > txTimeout`.
  unfoldable pub wall_clock_expired : ℕ → TxRef → Txm → Bool
  wall_clock_expired time r s =
      ltb ((s.heap r).timestamp + scale c.tx_timeout_secs second) (int64 time)

  -- `ledger` is the answer of `GetLatestLedger`.
  unfoldable pub has_expired : Option ℕ → ℕ → UnconfirmedTx → Txm → Bool
  has_expired none time u s = wall_clock_expired time u.tx s
  has_expired (some ledger) time u s = ltb u.max_ledger ledger || wall_clock_expired time u.tx s

  -- The part of the loop behind a `NOT_FOUND` or an RPC error. Each round of the loop returns
  -- whether the transaction counts as pending.
  unfoldable pub check_expiry : String → UnconfirmedTx → Txm → World → Bool × Txm × World
  check_expiry account u s w =
      let (ledger, w₁) = get_latest_ledger w in
      let (time, w₂) = now w₁ in
      if has_expired ledger time u s then (false, expire time account u s, w₂) else (true, s, w₂)

  unfoldable pub confirm_success :
      String → UnconfirmedTx → GetTransactionResponse → Txm → World → Bool × Txm × World
  confirm_success account u resp s w = elim (confirm_in account u false s) [
    | none ↦ (false, s, w)
    | some t ↦ let (time, w₁) = now w in (false, finalize time u.tx resp t, w₁)
  ]

  unfoldable pub confirm_failed :
      String → UnconfirmedTx → GetTransactionResponse → Txm → World → Bool × Txm × World
  confirm_failed account u resp s w = elim (confirm_in account u false s) [
    | none ↦ (false, s, w)
    | some t ↦ let (time, w₁) = now w in (false, fail_on_chain time u.tx resp t, w₁)
  ]

  -- The `switch` on the status of the answer.
  unfoldable pub check_status :
      TransactionLedgerStatus
      → String
      → UnconfirmedTx
      → GetTransactionResponse
      → Txm
      → World
      → Bool × Txm × World
  check_status success account u resp s w = confirm_success account u resp s w
  check_status failed_on_chain account u resp s w = confirm_failed account u resp s w
  check_status not_found account u resp s w = check_expiry account u s w

  unfoldable pub check_answer :
      Option GetTransactionResponse → String → UnconfirmedTx → Txm → World → Bool × Txm × World
  check_answer none account u s w = check_expiry account u s w
  check_answer (some resp) account u s w = check_status resp.status account u resp s w

  -- One round of the inner loop.
  unfoldable pub check_one : String → UnconfirmedTx → Txm → World → Bool × Txm × World
  check_one account u s w =
      let (answer, w₁) = get_transaction u.hash w in check_answer answer account u s w₁

  unfoldable pub check_account : String → List UnconfirmedTx → ℕ → Txm → World → ℕ × Txm × World
  check_account account [] pending s w = (pending, s, w)
  check_account account (u ∷ us) pending s w =
      let (is_pending, s', w') = check_one account u s w in
      check_account account us (if is_pending then pending + 1 else pending) s' w'

  unfoldable pub check_accounts :
      Map String (List UnconfirmedTx) → ℕ → Txm → World → ℕ × Txm × World
  check_accounts [] pending s w = (pending, s, w)
  check_accounts ((account, us) ∷ m) pending s w =
      let (pending', s', w') = check_account account us pending s w in
      check_accounts m pending' s' w'

  -- One pass of the loop, with the number of pending transactions that it reports.
  unfoldable pub check_unconfirmed : Txm → World → ℕ × Txm × World
  check_unconfirmed s w =
      let (found, w₁) = get_client w in
      if found then check_accounts (get_all_unconfirmed s.account_store) 0 s w₁ else (0, s, w₁)
