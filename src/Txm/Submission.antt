-- ===== src/Txm/Submission.antt =====
-- relayer/txm/txm.go, `simulateAssembleSignAndSend`: one round of its loop. The broadcaster is taken
-- alone here, without the steps of other goroutines.
use chainlink_stellar.Prelude.{
  ℕ, ◌+◌, Bool, true, String, Option, some, none, leb, ◌==◌, if◌then◌else◌, String_equality, Result,
  ok, err,
}
use chainlink_stellar.Prelude.Int64.{Int64}
use chainlink_stellar.TxStore.{TxRef, release}
use chainlink_stellar.AccountStore.{update_store}
use chainlink_stellar.Config.{Config, Bytes}
use chainlink_stellar.Failure.{ErrorReason}
use chainlink_stellar.Fee.{Floats, FeeStrategy, bump_inclusion_fee}
use chainlink_stellar.FeeTracker.{soroban_inclusion_percentiles}
use chainlink_stellar.Txm.{
  Txm, Settings, unconfirmed, modify, mark_broadcast_at, release_seq_and_fail_tx,
  update_transaction_fee, update_transaction_status,
}
use chainlink_stellar.Txm.Network.{Network, RestorePreamble, SimulateTransactionResponse}
use chainlink_stellar.Txm.Sdk.{Sdk}
use chainlink_stellar.Txm.Account.{next_sequence_in, resync_sequence}
use chainlink_stellar.Txm.Simulation.{prepare_and_simulate_with_retry}
use chainlink_stellar.Txm.Assembly.{assemble_transaction, sign_transaction, handle_send_result}
use chainlink_stellar.Txm.Restore.{handle_restore}

-- The `return` by which the broadcast ends. `cancelled` is the end of the context.
pub data Outcome : Type 0 where
  in_flight no_client cancelled : Outcome
  failed_for : ErrorReason → Outcome
  out_of_fuel : Outcome

-- The local variables of the loop.
pub record Submit : Type 0 where
  pub attempt : ℕ
  pub seq : Int64
  pub inclusion_fee : Int64
  pub restore_handled : Bool

-- How a round ends: the broadcast returns, or the next round begins.
pub data Next (W : Type 0) : Type 0 where
  return : Outcome → Txm → W → Next W
  continue : Submit → Txm → W → Next W

module _ (fl : Floats) (fees : FeeStrategy fl) (net : Network) (sdk : Sdk net.World) (c : Settings)
    (config : Config fl.Float) (r : TxRef) (account : String) where
  open net use {World, now, get_client, send_transaction, get_fee_stats, sleep}
  open sdk use {Transaction, base64}

  -- `releaseSeqAndFailTx`, and the return.
  unfoldable pub give_up : ErrorReason → Int64 → Txm → World → Next World
  give_up reason seq s w =
      let (time, w') = now w in
      return (failed_for reason) (release_seq_and_fail_tx c time account seq r s) w'

  -- The `select` on the delay and the context before the next round.
  unfoldable pub pause : Submit → Txm → World → Next World
  pause l s w =
      let (slept, w') = sleep w in
      if slept
      then continue l s w'
      else return cancelled
          (record s { account_store = update_store account (release l.seq) s.account_store }) w'

  -- The restore of archived entries, at most once in a broadcast.
  unfoldable pub restore_first : Submit → RestorePreamble → Txm → World → Next World
  unfolding give_up
  restore_first l preamble s w =
      if l.restore_handled
      then give_up "restore_failed" l.seq s w
      else (let (restored, s₁, w₁) = handle_restore fl fees net sdk c r preamble l.seq s w in
          if restored
          then continue (record l { seq = next_sequence_in account s₁; restore_handled = true }) s₁
              w₁
          else give_up "restore_failed" l.seq s₁ w₁)

  -- A percentile of the network's fees, with 0 if they cannot be had.
  unfoldable pub percentile : (ℕ × ℕ → ℕ) → Txm → World → ℕ × Txm × World
  percentile choose s w =
      let (time, w₁) = now w in
      let ((tracker, w₂), answer) =
        soroban_inclusion_percentiles get_fee_stats time s.fee_tracker w₁ in
      (
        elim answer [ none ↦ 0 | some percentiles ↦ choose percentiles ],
        record s { fee_tracker = tracker },
        w₂,
      )

  -- What follows a rejection that is not fatal.
  unfoldable pub retry_for : ErrorReason → Submit → Txm → World → Next World
  unfolding pause percentile
  retry_for reason l s w =
      if reason == "bad_seq"
      then (let (synced, s₁, w₁) = resync_sequence net sdk r s w in
          continue (record l { seq = next_sequence_in account s₁; attempt = l.attempt + 1 }) s₁ w₁)
      else if reason == "insufficient_fee"
      then (let (p90, s₁, w₁) = percentile (λ p. p.1) s w in
          pause
            (record l {
              inclusion_fee = (bump_inclusion_fee fl fees l.inclusion_fee p90).0;
              attempt = l.attempt + 1;
            })
            s₁ w₁)
      else pause (record l { attempt = l.attempt + 1 }) s w

  -- The part of a round behind `handleSendResult`.
  unfoldable pub after_send : Bool × Bool × ErrorReason → Submit → Txm → World → Next World
  unfolding retry_for give_up
  after_send (accepted, fatal, reason) l s w =
      if accepted
      then (let (time, w₁) = now w in
          return in_flight
            (update_transaction_status c time r unconfirmed (mark_broadcast_at time r s)) w₁)
      else if fatal
      then give_up reason l.seq s w
      else retry_for reason l s w

  -- From the signed transaction on.
  unfoldable pub send : Submit → String → ℕ → Txm → World → Next World
  unfolding after_send pause
  send l signed_xdr max_ledger s w =
      let (sent, w₁) = send_transaction signed_xdr w in
      elim sent [
        | none ↦
            let l' : Submit = record l { attempt = l.attempt + 1 } in
            if leb c.max_submit_retry_attempts l'.attempt then continue l' s w₁ else pause l' s w₁
        | some result ↦
            let (verdict, s₁) =
              handle_send_result net sdk result.status r account result l.seq max_ledger s in
            after_send verdict l s₁ w₁
      ]

  -- Behind `Base64` of the signed transaction.
  unfoldable pub send_encoded : Result Bytes String → Submit → ℕ → Txm → World → Next World
  unfolding send give_up
  send_encoded (err e) l max_ledger s w = give_up "assembly" l.seq s w
  send_encoded (ok signed_xdr) l max_ledger s w = send l signed_xdr max_ledger s w

  -- Behind `signTransaction`.
  unfoldable pub send_signed : Option Transaction → Submit → ℕ → Txm → World → Next World
  unfolding send_encoded give_up
  send_signed none l max_ledger s w = give_up "signing" l.seq s w
  send_signed (some signed_tx) l max_ledger s w = send_encoded (base64 signed_tx) l max_ledger s w

  -- Behind `assembleTransaction`.
  unfoldable pub sign_and_send :
      Option (Transaction × Int64) → Submit → ℕ → Txm → World → Next World
  unfolding send_signed give_up
  sign_and_send none l max_ledger s w = give_up "assembly" l.seq s w
  sign_and_send (some (tx, total_fee)) l max_ledger s w =
      let (signed, w₁) = sign_transaction net sdk tx account w in
      send_signed signed l max_ledger (update_transaction_fee r total_fee s) w₁

  -- Behind the simulation and the restore.
  unfoldable pub assemble_and_send :
      Submit → Transaction → SimulateTransactionResponse → ℕ → Txm → World → Next World
  unfolding sign_and_send
  assemble_and_send l prelim sim max_ledger s w =
      let (assembled, w₁) =
        assemble_transaction net sdk fees.resource_fee_buffer prelim sim l.inclusion_fee max_ledger
          w in
      sign_and_send assembled l max_ledger
        (modify r (λ t. record t { min_resource_fee = sim.min_resource_fee }) s) w₁

  -- `if simResult.RestorePreamble != nil`.
  unfoldable pub restore_or_send :
      Option RestorePreamble
      → Submit
      → Transaction
      → SimulateTransactionResponse
      → ℕ
      → Txm
      → World
      → Next World
  unfolding restore_first assemble_and_send
  restore_or_send (some preamble) l prelim sim max_ledger s w = restore_first l preamble s w
  restore_or_send none l prelim sim max_ledger s w = assemble_and_send l prelim sim max_ledger s w

  -- Behind the simulation.
  unfoldable pub after_simulation :
      Option (Transaction × SimulateTransactionResponse × ℕ) → Submit → Txm → World → Next World
  unfolding restore_or_send give_up
  after_simulation none l s w = give_up "simulation" l.seq s w
  after_simulation (some (prelim, sim, max_ledger)) l s w =
      restore_or_send sim.restore_preamble l prelim sim max_ledger s w

  -- One round of the loop.
  unfoldable pub submit_round : Submit → Txm → World → Next World
  unfolding after_simulation
  submit_round l s w =
      let (prepared, s₁, w₁) = prepare_and_simulate_with_retry net sdk c config r l.seq s w in
      after_simulation prepared l s₁ w₁
