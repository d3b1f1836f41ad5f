-- ===== src/Txm/Settled.antt =====
-- relayer/txm/txm.go, `checkUnconfirmed`: every transaction that the confirm loop takes out of its
-- store is settled or queued again.
use chainlink_stellar.Prelude.{
  ℕ, ◌≡◌, ◌⊎◌, refl, Bool, true, false, String, Option, some, none, Bool-cases, inl, inr,
  String_equality, ℕ_equality,
}
use chainlink_stellar.Prelude.Int64.{Int64}
use chainlink_stellar.TxStore.{UnconfirmedTx}
use chainlink_stellar.Txm.{Txm, Settings}
use chainlink_stellar.Txm.Network.{
  Network, GetTransactionResponse, TransactionLedgerStatus, success, failed_on_chain, not_found,
}
use chainlink_stellar.Txm.Confirm.{
  retry_or_fail, finalize, fail_on_chain, expire, check_expiry, confirm_success, confirm_failed,
  check_one, check_answer, check_status, has_expired,
}
use chainlink_stellar.Txm.Tracked.{IsTracked, IsUntracked, confirm_in-tracked}
use chainlink_stellar.Txm.Moved.{
  IsMoved, retry_or_fail-IsMoved, retry_or_fail_store, fail_on_chain-IsMoved, fail_on_chain_store,
  finalize-IsSettled, finalize_store,
}

module _ (net : Network) (c : Settings) where
  IsUntracked-along :
      (account : String) (seq : Int64) (s t : Txm)
      → t.account_store ≡ s.account_store
      → IsUntracked account seq s
      → IsUntracked account seq t
  IsUntracked-along account seq s t e (store, f, g) = (store, rw e f, g)

  -- What one round makes of a tracked transaction.
  abbrev pub Verdict : String → UnconfirmedTx → Txm → Bool × Txm × net.World → Type 0
  Verdict account u s (is_pending, s', w) =
      (is_pending ≡ true) × (s' ≡ s)
      ⊎ (is_pending ≡ false) × IsMoved c u.tx s' × IsUntracked account u.sequence s'

  confirm_success-Verdict :
      (account : String) (u : UnconfirmedTx) (resp : GetTransactionResponse) (s : Txm)
      (w : net.World)
      → IsTracked account u s
      → Verdict account u s (confirm_success net c account u resp s w)
  unfolding confirm_success
  confirm_success-Verdict account u resp s w h =
      let (t, e, gone) = confirm_in-tracked account u false s h in
      rw (e, confirm_success)
        (inr (
          refl,
          inl (finalize-IsSettled net c _ u.tx resp t),
          IsUntracked-along account u.sequence t (finalize net c (net.now w).0 u.tx resp t)
              (finalize_store net c _ u.tx resp t) gone,
        ))

  confirm_failed-Verdict :
      (account : String) (u : UnconfirmedTx) (resp : GetTransactionResponse) (s : Txm)
      (w : net.World)
      → IsTracked account u s
      → Verdict account u s (confirm_failed net c account u resp s w)
  unfolding confirm_failed
  confirm_failed-Verdict account u resp s w h =
      let (t, e, gone) = confirm_in-tracked account u false s h in
      rw (e, confirm_failed)
        (inr (
          refl,
          fail_on_chain-IsMoved net c _ u.tx resp t,
          IsUntracked-along account u.sequence t (fail_on_chain net c (net.now w).0 u.tx resp t)
              (fail_on_chain_store net c _ u.tx resp t) gone,
        ))

  expire-IsMoved :
      (time : ℕ) (account : String) (u : UnconfirmedTx) (s : Txm)
      → IsTracked account u s
      → IsMoved c u.tx (expire net c time account u s)
        × IsUntracked account u.sequence (expire net c time account u s)
  unfolding expire
  expire-IsMoved time account u s h =
      let (t, e, gone) = confirm_in-tracked account u true s h in
      rw (e, expire)
        (
          retry_or_fail-IsMoved net c time u.tx t,
          IsUntracked-along account u.sequence t (retry_or_fail net c time u.tx t)
              (retry_or_fail_store net c time u.tx t) gone,
        )

  check_expiry-Verdict :
      (account : String) (u : UnconfirmedTx) (s : Txm) (w : net.World)
      → IsTracked account u s
      → Verdict account u s (check_expiry net c account u s w)
  unfolding check_expiry
  check_expiry-Verdict account u s w h =
      let ledger = (net.get_latest_ledger w).0 in
      let time = (net.now (net.get_latest_ledger w).1).0 in
      elim (Bool-cases (has_expired net c ledger time u s)) [
        | inl e ↦
            let (moved, gone) = expire-IsMoved time account u s h in rw e (inr (refl, moved, gone))
        | inr e ↦ rw e (inl (refl, refl))
      ]

  check_status-Verdict :
      (st : TransactionLedgerStatus) (account : String) (u : UnconfirmedTx)
      (resp : GetTransactionResponse) (s : Txm) (w : net.World)
      → IsTracked account u s
      → Verdict account u s (check_status net c st account u resp s w)
  unfolding check_status
  check_status-Verdict success account u resp s w h = confirm_success-Verdict account u resp s w h
  check_status-Verdict failed_on_chain account u resp s w h =
      confirm_failed-Verdict account u resp s w h
  check_status-Verdict not_found account u resp s w h = check_expiry-Verdict account u s w h

  check_answer-Verdict :
      (answer : Option GetTransactionResponse) (account : String) (u : UnconfirmedTx) (s : Txm)
      (w : net.World)
      → IsTracked account u s
      → Verdict account u s (check_answer net c answer account u s w)
  unfolding check_answer
  check_answer-Verdict none account u s w h = check_expiry-Verdict account u s w h
  check_answer-Verdict (some resp) account u s w h =
      check_status-Verdict resp.status account u resp s w h

  -- One round of the confirm loop, whatever the network answers: a transaction in flight stays in
  -- flight and counts as pending, the manager unchanged; or its sequence leaves the store, and the
  -- transaction is settled (terminal, with its waiters released) or back at the end of the
  -- broadcast channel with attempts left.
  pub check_one-Verdict :
      (account : String) (u : UnconfirmedTx) (s : Txm) (w : net.World)
      → IsTracked account u s
      → Verdict account u s (check_one net c account u s w)
  unfolding check_one
  check_one-Verdict account u s w h =
      check_answer-Verdict (net.get_transaction u.hash w).0 account u s
        (net.get_transaction u.hash w).1 h
