-- ===== src/Txm/Overwrite.antt =====
-- relayer/txm/txm.go: the window between `AddUnconfirmed`, after which the confirm loop may take up
-- a transaction, and the broadcaster's `updateTransactionStatus(tx, Unconfirmed)`.
use chainlink_stellar.Prelude.{ℕ, ◌≡◌, refl, true, false, String, arith, inl, inr, ℕ_equality}
use chainlink_stellar.TxStore.{UnconfirmedTx}
use chainlink_stellar.Config.{Config}
use chainlink_stellar.Fee.{Floats, FeeStrategy}
use chainlink_stellar.Txm.{
  Txm, Settings, unconfirmed, is_terminal_status, update_transaction_status, mark_broadcast_at,
}
use chainlink_stellar.Txm.Status.{IsSettled}
use chainlink_stellar.Txm.Network.{Network}
use chainlink_stellar.Txm.Sdk.{Sdk}
use chainlink_stellar.Txm.Confirm.{check_one}
use chainlink_stellar.Txm.Tracked.{IsTracked, IsUntracked}
use chainlink_stellar.Txm.Settled.{check_one-Verdict}
use chainlink_stellar.Txm.Submission.{in_flight, Submit, Next, return, continue, after_send}

-- The transaction reads as unconfirmed, though its waiters were released and its store has let go
-- of it, so that the confirm loop does not see it again.
pub record IsOverwritten (account : String) (u : UnconfirmedTx) (s : Txm) : Type 0 where
  pub status : (s.heap u.tx).status ≡ unconfirmed
  pub done : (s.heap u.tx).done ≡ true
  pub untracked : IsUntracked account u.sequence s

overwrite_status :
    (c : Settings) (time now : ℕ) (account : String) (u : UnconfirmedTx) (s : Txm)
    → (s.heap u.tx).done ≡ true
    → IsUntracked account u.sequence s
    → IsOverwritten account u
        (update_transaction_status c time u.tx unconfirmed (mark_broadcast_at now u.tx s))
unfolding update_transaction_status mark_broadcast_at is_terminal_status
overwrite_status c time now account u s done (store, e, f) = record {
  status = ground arith;
  done = ground (arith, done);
  untracked = (store, e, f);
}

module _ (fl : Floats) (fees : FeeStrategy fl) (net : Network) (sdk : Sdk net.World) (c : Settings)
    (config : Config fl.Float) where
  abbrev pub ReturnsOverwritten : String → UnconfirmedTx → Next net.World → Type 0
  ReturnsOverwritten account u (return outcome s w) =
      (outcome ≡ in_flight) × IsOverwritten account u s
  ReturnsOverwritten account u (continue l s w) = ⊥

  -- If the confirm loop settles a transaction that the broadcaster has just recorded, before the
  -- broadcaster marks it, the broadcast then overwrites the terminal status with unconfirmed, and
  -- the store of the account no longer holds the transaction.
  pub after_send-check_one :
      (account : String) (u : UnconfirmedTx) (l : Submit) (s : Txm) (w : net.World)
      → IsTracked account u s
      → let (still_pending, t, w') = check_one net c account u s w in
        still_pending ≡ false
        → IsSettled u.tx t
        → ReturnsOverwritten account u
            (after_send fl fees net sdk c config u.tx account (true, false, "") l t w')
  unfolding after_send
  after_send-check_one account u l s w h p settled =
      elim (check_one-Verdict net c account u s w h) [
        | inl (waits, same) ↦ absurd (ground arith)
        | inr (settles, moved, gone) ↦ (refl, overwrite_status c _ _ account u _ settled.done gone)
      ]
