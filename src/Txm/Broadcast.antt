-- ===== src/Txm/Broadcast.antt =====
-- relayer/txm/txm.go: `simulateAssembleSignAndSend`, the broadcast of one transaction, and the
-- rounds of `broadcastLoop`. `submit_loop` runs the rounds of its loop on fuel. The broadcaster is
-- taken alone here, without the steps of other goroutines.
use chainlink_stellar.Prelude.{
  ℕ, zero, suc, ◌+◌, true, false, String, Option, some, none, List, [], ◌∷◌, ltb, if◌then◌else◌,
  String_equality, ok, err,
}
use chainlink_stellar.Prelude.Int64.{Int64, int64, add}
use chainlink_stellar.Prelude.Sort.{sort}
use chainlink_stellar.TxStore.{TxRef}
use chainlink_stellar.AccountStore.{get_tx_store, create_tx_store}
use chainlink_stellar.Config.{Config}
use chainlink_stellar.Fee.{Floats, FeeStrategy, seed_inclusion_fee}
use chainlink_stellar.Txm.{
  Txm, Settings, mark_tx_failed, get_transaction_attempt, increment_infra_attempts,
  get_infra_attempts,
}
use chainlink_stellar.Txm.Network.{Network}
use chainlink_stellar.Txm.Retry.{retry_get_client_or_fail, max_retries}
use chainlink_stellar.Txm.Sdk.{Sdk}
use chainlink_stellar.Txm.Account.{next_sequence_in, get_sequence_number, resync_sequence}
use chainlink_stellar.Txm.Submission.{
  Outcome, no_client, failed_for, out_of_fuel, Submit, Next, return, continue, give_up, percentile,
  submit_round,
}

module _ (fl : Floats) (fees : FeeStrategy fl) (net : Network) (sdk : Sdk net.World) (c : Settings)
    (config : Config fl.Float) (r : TxRef) (account : String) where
  open net use {World, now, get_client, send_transaction, get_fee_stats, sleep}
  open sdk use {Transaction, base64}

  -- The loop's condition, and its body or what follows the loop.
  unfoldable pub guarded_round : Submit → Txm → World → Next World
  unfolding submit_round give_up
  guarded_round l s w =
      if ltb l.attempt c.max_submit_retry_attempts
      then submit_round fl fees net sdk c config r account l s w
      else give_up fl fees net sdk c config r account "max_retries" l.seq s w

  -- The loop; the fuel is the number of rounds, the last of which only sees that it has ended.
  unfoldable pub submit_loop : ℕ → Submit → Txm → World → Outcome × Txm × World
  unfolding guarded_round
  submit_loop zero l s w = (out_of_fuel, s, w)
  submit_loop (suc fuel) l s w = elim (guarded_round l s w) [
    | return outcome s₁ w₁ ↦ (outcome, s₁, w₁)
    | continue l₁ s₁ w₁ ↦ submit_loop fuel l₁ s₁ w₁
  ]

  -- From the resynchronised store on: the fee, the sequence number and the loop, which takes at
  -- most one round more than it may submit, for the restore, and one to see that it has ended.
  unfoldable pub broadcast_prepared : Txm → World → Outcome × Txm × World
  unfolding submit_loop percentile
  broadcast_prepared s w =
      let attempt = get_transaction_attempt r s in
      let (network_percentile, s₁, w₁) =
        percentile fl fees net sdk c config r account (λ p. if ltb 0 attempt then p.1 else p.0) s
          w in
      submit_loop (c.max_submit_retry_attempts + 2)
        (record {
          attempt = 0;
          seq = next_sequence_in account s₁;
          inclusion_fee = (seed_inclusion_fee fl fees attempt network_percentile).0;
          restore_handled = false;
        })
        s₁ w₁

  -- The best-effort resync before a rebroadcast.
  unfoldable pub broadcast_with_store : Txm → World → Outcome × Txm × World
  unfolding broadcast_prepared
  broadcast_with_store s w =
      if ltb 0 (get_transaction_attempt r s)
      then (let (synced, s₁, w₁) = resync_sequence net sdk r s w in broadcast_prepared s₁ w₁)
      else broadcast_prepared s w

  -- An account that has no store yet, with the answer of `getSequenceNumber`.
  unfoldable pub broadcast_new : Option Int64 → Txm → World → Outcome × Txm × World
  unfolding broadcast_with_store
  broadcast_new none s w =
      let (time, w₁) = now w in (failed_for "sequence_number", mark_tx_failed c time r s, w₁)
  broadcast_new (some seq_num) s w =
      elim (create_tx_store account (add seq_num (int64 1)) s.account_store) [
        | err e ↦
            (let (time, w₁) = now w in (failed_for "store_create", mark_tx_failed c time r s, w₁))
        | ok stores ↦ broadcast_with_store (record s { account_store = stores }) w
      ]

  unfoldable pub broadcast_without_client : Txm → World → Outcome × Txm × World
  broadcast_without_client s w =
      let (slept, w₁) =
        if ltb (get_infra_attempts r (increment_infra_attempts r s)) (max_retries c)
        then sleep w
        else (true, w) in
      let (time, w₂) = now w₁ in (no_client, retry_get_client_or_fail c slept time r s, w₂)

  -- `account` is the transaction's `FromAddress`, which never changes.
  unfoldable pub broadcast_from : Txm → World → Outcome × Txm × World
  unfolding broadcast_without_client broadcast_new broadcast_with_store
  broadcast_from s w =
      let (found, w₁) = get_client w in
      if found
      then elim (get_tx_store account s.account_store) [
        | some _ ↦ broadcast_with_store s w₁
        | none ↦
            (let (answer, w₂) = get_sequence_number net sdk account w₁ in broadcast_new answer s w₂)
      ]
      else broadcast_without_client s w₁

module _ (fl : Floats) (fees : FeeStrategy fl) (net : Network) (sdk : Sdk net.World) (c : Settings)
    (config : Config fl.Float) where
  open net use {World}

  unfoldable pub simulate_assemble_sign_and_send : TxRef → Txm → World → Outcome × Txm × World
  simulate_assemble_sign_and_send r s w =
      broadcast_from fl fees net sdk c config r (s.heap r).from_address s w

  broadcast_each : List TxRef → Txm → World → Txm × World
  broadcast_each [] s w = (s, w)
  broadcast_each (r ∷ rs) s w =
      let (outcome, s', w') = simulate_assemble_sign_and_send r s w in broadcast_each rs s' w'

  -- A turn of `broadcastLoop`: the channel is drained and its transactions sent, oldest first.
  unfoldable pub broadcast_turn : Txm → World → Txm × World
  unfolding broadcast_each
  broadcast_turn s w =
      broadcast_each (sort (λ r. (s.heap r).timestamp) s.broadcast_chan)
        (record s { broadcast_chan = [] }) w
