-- ===== src/Txm/Restore.antt =====
-- relayer/txm/restore.go: the transaction that restores archived ledger entries before the one the
-- user asked for.
use Prim.Native.Nat.{max}
use chainlink_stellar.Prelude.{
  ℕ, zero, suc, Bool, true, false, String, Option, some, none, [], ◌∷◌, ok, err,
}
use chainlink_stellar.Prelude.Int64.{Int64, int64, sub}
use chainlink_stellar.TxStore.{TxRef}
use chainlink_stellar.Fee.{Floats, FeeStrategy, calculate_restore_fee}
use chainlink_stellar.Txm.{Txm, Settings}
use chainlink_stellar.Txm.Network.{
  Network, RestorePreamble, TransactionLedgerStatus, success, failed_on_chain, not_found,
  tx_pending, tx_duplicate, try_again_later, tx_error, other_status, SendStatus,
}
use chainlink_stellar.Txm.Sdk.{Sdk}
use chainlink_stellar.Txm.Account.{resync_sequence}
use chainlink_stellar.Txm.Assembly.{sign_transaction}

module _ (fl : Floats) (fees : FeeStrategy fl) (net : Network) (sdk : Sdk net.World)
    (c : Settings) where
  open net use {World, get_transaction, send_transaction, sleep}
  open sdk use {
    Transaction, SorobanData, new_timeout, new_transaction, base64, decode_soroban_data,
    restore_footprint, ticks,
  }

  abbrev is_final : TransactionLedgerStatus → Bool
  is_final success = true
  is_final failed_on_chain = true
  is_final not_found = false

  -- The loop, with the number of ticks before the timeout. `none` is the timeout.
  unfoldable pub poll_loop : ℕ → String → World → Option TransactionLedgerStatus × World
  poll_loop zero hash w = (none, w)
  poll_loop (suc n) hash w =
      let (answer, w') = get_transaction hash w in
      elim answer [
        | none ↦ poll_loop n hash w'
        | some resp ↦ elim (is_final resp.status) [
          | true ↦ (some resp.status, w')
          | false ↦ poll_loop n hash w'
        ]
      ]

  -- The status of the response, which is all that is read of it.
  unfoldable pub poll_restore_transaction : String → World → Option TransactionLedgerStatus × World
  unfolding poll_loop
  poll_restore_transaction hash w = let (n, w') = ticks w in poll_loop n hash w'

  -- Behind an accepted restore: whether it succeeded, or `none` to try again.
  unfoldable pub restore_accepted : TxRef → String → Txm → World → Option Bool × Txm × World
  unfolding poll_restore_transaction
  restore_accepted r hash s w =
      let (polled, w₁) = poll_restore_transaction hash w in
      elim polled [
        | none ↦ (none, s, w₁)
        | some success ↦
            let (synced, s', w₂) = resync_sequence net sdk r s w₁ in (some synced, s', w₂)
        | some failed_on_chain ↦ (some false, s, w₁)
        | some not_found ↦ (some false, s, w₁)
      ]

  -- The `switch` on the status of the submission.
  unfoldable pub restore_status :
      SendStatus → TxRef → String → Txm → World → Option Bool × Txm × World
  unfolding restore_accepted
  restore_status tx_pending r hash s w = restore_accepted r hash s w
  restore_status tx_duplicate r hash s w = restore_accepted r hash s w
  restore_status try_again_later r hash s w = (none, s, w)
  restore_status tx_error r hash s w = (some false, s, w)
  restore_status other_status r hash s w = (some false, s, w)

  -- One round of the loop, without the sleep of a round that is tried again.
  restore_round : TxRef → String → Txm → World → Option Bool × Txm × World
  unfolding restore_status
  restore_round r signed_xdr s w =
      let (sent, w₁) = send_transaction signed_xdr w in
      elim sent [
        | none ↦ (none, s, w₁)
        | some result ↦ restore_status result.status r result.hash s w₁
      ]

  -- The loop, with the attempts left. Whether the restore succeeded.
  unfoldable pub restore_loop : ℕ → TxRef → String → Txm → World → Bool × Txm × World
  unfolding restore_round
  restore_loop zero r signed_xdr s w = (false, s, w)
  restore_loop (suc left) r signed_xdr s w =
      let (outcome, s', w') = restore_round r signed_xdr s w in
      elim outcome [
        | some restored ↦ (restored, s', w')
        | none ↦
            let (slept, w₂) = sleep w' in
            elim slept [ false ↦ (false, s', w₂) | true ↦ restore_loop left r signed_xdr s' w₂ ]
      ]

  -- The signed restore transaction in base 64.
  unfoldable pub build_restore :
      TxRef → RestorePreamble → Int64 → SorobanData → Txm → World → Option String × World
  build_restore r preamble seq soroban_data s w =
      let (op, w₁) = restore_footprint (s.heap r).from_address soroban_data w in
      let (bounds, w₂) = new_timeout c.tx_timeout_secs w₁ in
      elim (new_transaction
        (record {
          account_id = (s.heap r).from_address;
          sequence = max (int64 0) (sub seq (int64 1));
          increment_sequence_num = true;
          operations = op ∷ [];
          base_fee = calculate_restore_fee fl fees preamble.min_resource_fee c.restore_fee_buffer;
          time_bounds = bounds;
          max_ledger = none;
        })
        w₂) [
          | none ↦ (none, w₂)
          | some tx ↦
              let (signed, w₃) = sign_transaction net sdk tx (s.heap r).from_address w₂ in
              elim signed [
                | none ↦ (none, w₃)
                | some signed_tx ↦ elim (base64 signed_tx) [
                  | err e ↦ (none, w₃)
                  | ok signed_xdr ↦ (some signed_xdr, w₃)
                ]
              ]
        ]

  unfoldable pub handle_restore : TxRef → RestorePreamble → Int64 → Txm → World → Bool × Txm × World
  unfolding build_restore restore_loop
  handle_restore r preamble seq s w = elim (decode_soroban_data preamble.transaction_data_xdr) [
    | none ↦ (false, s, w)
    | some soroban_data ↦
        let (built, w₁) = build_restore r preamble seq soroban_data s w in
        elim built [
          | none ↦ (false, s, w₁)
          | some signed_xdr ↦ restore_loop c.max_restore_attempts r signed_xdr s w₁
        ]
  ]
