-- ===== src/Txm/Rounds.antt =====
-- relayer/txm/txm.go, `simulateAssembleSignAndSend`: how a round of its loop ends.
use chainlink_stellar.Prelude.{
  ℕ, ◌+◌, ◌≤◌, ◌<◌, ◌≡◌, refl, Bool, true, false, String, Option, some, none, arith, ltb, leb, ◌==◌,
  String_equality, Result, ok, err,
}
use chainlink_stellar.Prelude.Int64.{Int64}
use chainlink_stellar.TxStore.{TxRef, UnconfirmedTx}
use chainlink_stellar.Config.{Config, Bytes}
use chainlink_stellar.Failure.{ErrorReason}
use chainlink_stellar.Fee.{Floats, FeeStrategy, bump_inclusion_fee}
use chainlink_stellar.Txm.{
  Txm, Settings, unconfirmed, failed, update_transaction_status, is_terminal_status,
  release_seq_and_fail_tx, mark_broadcast_at,
}
use chainlink_stellar.Txm.Status.{IsSettled, update_transaction_status-IsSettled}
use chainlink_stellar.Txm.Network.{Network, SimulateTransactionResponse, RestorePreamble}
use chainlink_stellar.Txm.Tracked.{IsTracked, tracked}
use chainlink_stellar.Txm.Recorded.{
  IsRecorded, if_elim, if_cases, option_elim, handle_send_result-IsRecorded,
}
use chainlink_stellar.Txm.Sdk.{Sdk}
use chainlink_stellar.Txm.Assembly.{handle_send_result, assemble_transaction, sign_transaction}
use chainlink_stellar.Txm.Restore.{handle_restore}
use chainlink_stellar.Txm.Simulation.{prepare_and_simulate_with_retry}
use chainlink_stellar.Txm.Submission.{
  Outcome, in_flight, no_client, cancelled, failed_for, out_of_fuel, Submit, Next, return, continue,
  give_up, pause, retry_for, after_send, send, send_encoded, send_signed, sign_and_send,
  assemble_and_send, restore_first, restore_or_send, after_simulation, submit_round,
}
use chainlink_stellar.Txm.Broadcast.{guarded_round}

-- Whether the restore may still take a round.
abbrev pub allowance : Bool → ℕ
allowance true = 0
allowance false = 1

-- A round that goes on has used up an attempt or the one restore, and its fee stays capped.
pub record Progress (max_fee : Int64) (l l' : Submit) : Type 0 where
  pub spent : l.attempt + allowance l'.restore_handled < l'.attempt + allowance l.restore_handled
  pub once : allowance l'.restore_handled ≤ allowance l.restore_handled
  pub capped : l.inclusion_fee ≤ max_fee → l'.inclusion_fee ≤ max_fee

-- The possible ends of a broadcast: the transaction is recorded in flight and unconfirmed, or it
-- is settled; `Unit` stands for the end of the context and for a client that cannot be had.
abbrev pub Ends : String → TxRef → Outcome → Txm → Type 0
Ends account r in_flight s = IsRecorded account r s × ((s.heap r).status ≡ unconfirmed)
Ends account r no_client s = Unit
Ends account r cancelled s = Unit
Ends account r (failed_for reason) s = IsSettled r s
Ends account r out_of_fuel s = ⊥

abbrev pub Round : {W : Type 0} → String → TxRef → Int64 → Submit → Next W → Type 0
Round account r max_fee l (return outcome s w) = Ends account r outcome s
Round account r max_fee l (continue l' s w) = Progress max_fee l l'

module _ (fl : Floats) (fees : FeeStrategy fl) (net : Network) (sdk : Sdk net.World) (c : Settings)
    (config : Config fl.Float) (r : TxRef) (account : String) where
  abbrev RoundOf : Submit → Next net.World → Type 0
  RoundOf = Round account r fees.max_inclusion_fee

  give_up-Round :
      (reason : ErrorReason) (seq : Int64) (l : Submit) (s : Txm) (w : net.World)
      → RoundOf l (give_up fl fees net sdk c config r account reason seq s w)
  unfolding give_up release_seq_and_fail_tx is_terminal_status
  give_up-Round reason seq l s w = update_transaction_status-IsSettled c _ r failed _ refl

  pause-Round :
      (l l' : Submit) (s : Txm) (w : net.World)
      → Progress fees.max_inclusion_fee l l'
      → RoundOf l (pause fl fees net sdk c config r account l' s w)
  unfolding pause
  pause-Round l l' s w p = if_elim (RoundOf l) (net.sleep w).0 _ _ p tt

  retry_for-Round :
      (reason : ErrorReason) (l : Submit) (s : Txm) (w : net.World)
      → RoundOf l (retry_for fl fees net sdk c config r account reason l s w)
  unfolding retry_for bump_inclusion_fee
  retry_for-Round reason l s w =
      if_elim (RoundOf l) (reason == "bad_seq") _ _
        (record { spent = omega arith; once = omega arith; capped = λ h. h })
        (if_elim (RoundOf l) (reason == "insufficient_fee") _ _
          (pause-Round l _ _ _
            (record { spent = omega arith; once = omega arith; capped = λ h. ground arith }))
          (pause-Round l _ _ _
            (record { spent = omega arith; once = omega arith; capped = λ h. h })))

  -- The last steps of an accepted transaction leave its record.
  broadcast_status-IsRecorded :
      (time : ℕ) (s : Txm)
      → IsRecorded account r s
      → Ends account r in_flight
          (update_transaction_status c time r unconfirmed (mark_broadcast_at time r s))
  unfolding update_transaction_status mark_broadcast_at is_terminal_status
  broadcast_status-IsRecorded time s h = (
    record {
      entry = h.entry;
      held = held h.held;
      entry_tx = h.entry_tx;
      entry_hash = ground (arith, h.entry_hash);
    },
    ground arith,
  )
    where
      held :
          {u : UnconfirmedTx}
          → IsTracked account u s
          → IsTracked account u
              (update_transaction_status c time r unconfirmed (mark_broadcast_at time r s))
      held (tracked store e f) = tracked store e f

  after_send-Round :
      (verdict : Bool × Bool × ErrorReason) (l : Submit) (s : Txm) (w : net.World)
      → (verdict.0 ≡ true → IsRecorded account r s)
      → RoundOf l (after_send fl fees net sdk c config r account verdict l s w)
  unfolding after_send update_transaction_status mark_broadcast_at is_terminal_status
  after_send-Round (true, fatal, reason) l s w h = broadcast_status-IsRecorded _ s (h refl)
  after_send-Round (false, fatal, reason) l s w h =
      if_elim (RoundOf l) fatal _ _ (give_up-Round reason l.seq l s w)
        (retry_for-Round reason l s w)

  send-Round :
      (l : Submit) (signed_xdr : String) (max_ledger : ℕ) (s : Txm) (w : net.World)
      → RoundOf l (send fl fees net sdk c config r account l signed_xdr max_ledger s w)
  unfolding send
  send-Round l signed_xdr max_ledger s w =
      option_elim (RoundOf l) (net.send_transaction signed_xdr w).0 _ _
        (if_elim (RoundOf l) (leb c.max_submit_retry_attempts (l.attempt + 1)) _ _
          (record { spent = omega arith; once = omega arith; capped = λ h. h })
          (pause-Round l _ _ _
            (record { spent = omega arith; once = omega arith; capped = λ h. h })))
        (λ result.
          after_send-Round
            (handle_send_result net sdk result.status r account result l.seq max_ledger s).0 l _ _
            (handle_send_result-IsRecorded net sdk result.status r account result l.seq max_ledger
              s))

  send_encoded-Round :
      (encoded : Result Bytes String) (l : Submit) (max_ledger : ℕ) (s : Txm) (w : net.World)
      → RoundOf l (send_encoded fl fees net sdk c config r account encoded l max_ledger s w)
  unfolding send_encoded
  send_encoded-Round (err e) l max_ledger s w = give_up-Round "assembly" l.seq l s w
  send_encoded-Round (ok signed_xdr) l max_ledger s w = send-Round l signed_xdr max_ledger s w

  send_signed-Round :
      (signed : Option sdk.Transaction) (l : Submit) (max_ledger : ℕ) (s : Txm) (w : net.World)
      → RoundOf l (send_signed fl fees net sdk c config r account signed l max_ledger s w)
  unfolding send_signed
  send_signed-Round none l max_ledger s w = give_up-Round "signing" l.seq l s w
  send_signed-Round (some tx) l max_ledger s w = send_encoded-Round (sdk.base64 tx) l max_ledger s w

  sign_and_send-Round :
      (assembled : Option (sdk.Transaction × Int64)) (l : Submit) (max_ledger : ℕ) (s : Txm)
      (w : net.World)
      → RoundOf l (sign_and_send fl fees net sdk c config r account assembled l max_ledger s w)
  unfolding sign_and_send
  sign_and_send-Round none l max_ledger s w = give_up-Round "assembly" l.seq l s w
  sign_and_send-Round (some (tx, fee)) l max_ledger s w =
      send_signed-Round (sign_transaction net sdk tx account w).0 l max_ledger _ _

  restore_first-Round :
      (l : Submit) (preamble : RestorePreamble) (s : Txm) (w : net.World)
      → RoundOf l (restore_first fl fees net sdk c config r account l preamble s w)
  unfolding restore_first
  restore_first-Round l preamble s w =
      if_cases (RoundOf l) l.restore_handled _ _
        (λ again. give_up-Round "restore_failed" l.seq l s w)
        (λ first.
          if_elim (RoundOf l) (handle_restore fl fees net sdk c r preamble l.seq s w).0 _ _
            (record {
              spent = rw first (omega arith);
              once = rw first (omega arith);
              capped = λ h. h;
            })
            (give_up-Round "restore_failed" l.seq l _ _))

  restore_or_send-Round :
      (preamble : Option RestorePreamble) (l : Submit) (prelim : sdk.Transaction)
      (sim : SimulateTransactionResponse) (max_ledger : ℕ) (s : Txm) (w : net.World)
      → RoundOf l
          (restore_or_send fl fees net sdk c config r account preamble l prelim sim max_ledger s w)
  unfolding restore_or_send assemble_and_send
  restore_or_send-Round (some preamble) l prelim sim max_ledger s w =
      restore_first-Round l preamble s w
  restore_or_send-Round none l prelim sim max_ledger s w =
      sign_and_send-Round
        (assemble_transaction net sdk fees.resource_fee_buffer prelim sim l.inclusion_fee max_ledger
          w).0
        l max_ledger _ _

  after_simulation-Round :
      (prepared : Option (sdk.Transaction × SimulateTransactionResponse × ℕ)) (l : Submit) (s : Txm)
      (w : net.World)
      → RoundOf l (after_simulation fl fees net sdk c config r account prepared l s w)
  unfolding after_simulation
  after_simulation-Round none l s w = give_up-Round "simulation" l.seq l s w
  after_simulation-Round (some (prelim, sim, max_ledger)) l s w =
      restore_or_send-Round sim.restore_preamble l prelim sim max_ledger s w

  -- A round of the loop either ends the broadcast, with the transaction recorded in flight or
  -- settled, unless the context ends; or it goes on, having used up an attempt or the one restore,
  -- with an inclusion fee that is within the maximum if it was before.
  pub submit_round-Round :
      (l : Submit) (s : Txm) (w : net.World)
      → Round account r fees.max_inclusion_fee l
          (submit_round fl fees net sdk c config r account l s w)
  unfolding submit_round
  submit_round-Round l s w =
      after_simulation-Round (prepare_and_simulate_with_retry net sdk c config r l.seq s w).0 l _ _

  pub guarded_round-Round :
      (l : Submit) (s : Txm) (w : net.World)
      → RoundOf l (guarded_round fl fees net sdk c config r account l s w)
  unfolding guarded_round
  guarded_round-Round l s w =
      if_elim (RoundOf l) (ltb l.attempt c.max_submit_retry_attempts) _ _ (submit_round-Round l s w)
        (give_up-Round "max_retries" l.seq l s w)
