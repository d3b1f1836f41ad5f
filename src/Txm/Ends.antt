-- ===== src/Txm/Ends.antt =====
-- relayer/txm/txm.go, `simulateAssembleSignAndSend`: how the whole broadcast ends.
use chainlink_stellar.Prelude.{
  ℕ, zero, suc, ◌+◌, ◌-◌, ◌≤◌, ◌<◌, ◌≡◌, refl, Bool, true, false, String, Option, some, none, arith,
  ltb, String_equality,
}
use chainlink_stellar.Prelude.Int64.{Int64, int64, add}
use chainlink_stellar.TxStore.{TxRef}
use chainlink_stellar.AccountStore.{get_tx_store, create_tx_store}
use chainlink_stellar.Config.{Config}
use chainlink_stellar.Fee.{Floats, FeeStrategy}
use chainlink_stellar.Txm.{
  Txm, Settings, failed, is_terminal_status, mark_tx_failed, get_transaction_attempt,
}
use chainlink_stellar.Txm.Status.{update_transaction_status-IsSettled}
use chainlink_stellar.Txm.Network.{Network}
use chainlink_stellar.Txm.Recorded.{if_elim, option_elim, result_elim}
use chainlink_stellar.Txm.Sdk.{Sdk}
use chainlink_stellar.Txm.Account.{get_sequence_number}
use chainlink_stellar.Txm.Submission.{Outcome, Submit, Next, return, continue, give_up}
use chainlink_stellar.Txm.Broadcast.{
  guarded_round, submit_loop, broadcast_prepared, broadcast_with_store, broadcast_new,
  broadcast_from, broadcast_without_client, simulate_assemble_sign_and_send,
}
use chainlink_stellar.Txm.Rounds.{allowance, Ends, Round, guarded_round-Round}

module _ (fl : Floats) (fees : FeeStrategy fl) (net : Network) (sdk : Sdk net.World) (c : Settings)
    (config : Config fl.Float) (r : TxRef) (account : String) where
  abbrev RoundOf : Submit → Next net.World → Type 0
  RoundOf = Round account r fees.max_inclusion_fee

  -- A round that goes on was within the number of attempts.
  guarded_round_continues :
      (l l' : Submit) (s s' : Txm) (w w' : net.World)
      → guarded_round fl fees net sdk c config r account l s w ≡ continue l' s' w'
      → l.attempt < c.max_submit_retry_attempts
  unfolding guarded_round give_up
  guarded_round_continues l l' s s' w w' e = ground arith

  abbrev EndsOf : Outcome × Txm × net.World → Type 0
  EndsOf (outcome, s, w) = Ends account r outcome s

  -- Enough fuel: one round for each attempt left, one for the restore and one for the end.
  submit_loop-Ends :
      (fuel : ℕ) (l : Submit) (s : Txm) (w : net.World)
      → (c.max_submit_retry_attempts - l.attempt) + allowance l.restore_handled < fuel
      → EndsOf (submit_loop fl fees net sdk c config r account fuel l s w)
  unfolding submit_loop
  submit_loop-Ends zero l s w h = absurd (omega arith)
  submit_loop-Ends (suc fuel) l s w h =
      go (guarded_round fl fees net sdk c config r account l s w) refl
        (guarded_round-Round fl fees net sdk c config r account l s w) (submit_loop-Ends fuel)
    where
      go :
          (next : Next net.World)
          → guarded_round fl fees net sdk c config r account l s w ≡ next
          → RoundOf l next
          → ((l₁ : Submit) (s₁ : Txm) (w₁ : net.World)
              → (c.max_submit_retry_attempts - l₁.attempt) + allowance l₁.restore_handled < fuel
              → EndsOf (submit_loop fl fees net sdk c config r account fuel l₁ s₁ w₁))
          → EndsOf (elim next [
            | return outcome s₁ w₁ ↦ (outcome, s₁, w₁)
            | continue l₁ s₁ w₁ ↦ submit_loop fl fees net sdk c config r account fuel l₁ s₁ w₁
          ])
      go (return outcome s₁ w₁) e p ih = p
      go (continue l₁ s₁ w₁) e p ih =
          let more = guarded_round_continues l l₁ s s₁ w w₁ e in
          let spent = p.spent in let once = p.once in ih l₁ s₁ w₁ (omega arith)

  allowance_le : (b : Bool) → allowance b ≤ 1
  allowance_le true = omega arith
  allowance_le false = omega arith

  broadcast_prepared-Ends :
      (s : Txm) (w : net.World) → EndsOf (broadcast_prepared fl fees net sdk c config r account s w)
  unfolding broadcast_prepared
  broadcast_prepared-Ends s w =
      submit_loop-Ends (c.max_submit_retry_attempts + 2) _ _ _ (omega arith)

  broadcast_with_store-Ends :
      (s : Txm) (w : net.World)
      → EndsOf (broadcast_with_store fl fees net sdk c config r account s w)
  unfolding broadcast_with_store
  broadcast_with_store-Ends s w =
      if_elim EndsOf (ltb 0 (get_transaction_attempt r s)) _ _ (broadcast_prepared-Ends _ _)
        (broadcast_prepared-Ends s w)

  broadcast_new-Ends :
      (answer : Option Int64) (s : Txm) (w : net.World)
      → EndsOf (broadcast_new fl fees net sdk c config r account answer s w)
  unfolding broadcast_new mark_tx_failed is_terminal_status
  broadcast_new-Ends none s w = update_transaction_status-IsSettled c _ r failed _ refl
  broadcast_new-Ends (some seq_num) s w =
      result_elim EndsOf (create_tx_store account (add seq_num (int64 1)) s.account_store) _ _
        (λ e. update_transaction_status-IsSettled c _ r failed _ refl)
        (λ stores. broadcast_with_store-Ends _ w)

  broadcast_from-Ends :
      (s : Txm) (w : net.World) → EndsOf (broadcast_from fl fees net sdk c config r account s w)
  unfolding broadcast_from broadcast_without_client
  broadcast_from-Ends s w =
      if_elim EndsOf (net.get_client w).0 _ _
        (option_elim EndsOf (get_tx_store account s.account_store) _ _
          (broadcast_new-Ends (get_sequence_number net sdk account (net.get_client w).1).0 s _)
          (λ store. broadcast_with_store-Ends s _))
        tt

module _ (fl : Floats) (fees : FeeStrategy fl) (net : Network) (sdk : Sdk net.World) (c : Settings)
    (config : Config fl.Float) where
  -- A broadcast comes to an end within its fuel, whatever the network and the SDK answer. Unless
  -- its context ends or there is no client, the transaction is then unconfirmed and recorded in
  -- flight in the store of its account, under the hash it carries; or it is settled: terminal,
  -- stamped, and its waiters released.
  pub simulate_assemble_sign_and_send-Ends :
      (r : TxRef) (s : Txm) (w : net.World)
      → let (outcome, t, w') = simulate_assemble_sign_and_send fl fees net sdk c config r s w in
        Ends (s.heap r).from_address r outcome t
  unfolding simulate_assemble_sign_and_send
  simulate_assemble_sign_and_send-Ends r s w =
      broadcast_from-Ends fl fees net sdk c config r (s.heap r).from_address s w
