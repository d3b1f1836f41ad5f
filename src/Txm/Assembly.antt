-- ===== src/Txm/Assembly.antt =====
-- relayer/txm/broadcast.go: `assembleTransaction`, `signTransaction` and `handleSendResult`. The nil
-- checks are left out, as no caller passes nil.
use mathlib.Core.List.{drop}
use chainlink_stellar.Prelude.{
  ℕ, Bool, true, false, String, Option, some, none, List, [], ◌∷◌, ◌==◌, if◌then◌else◌,
  String_equality, ok, err,
}
use chainlink_stellar.Prelude.Int64.{Int64, int64, add}
use chainlink_stellar.Prelude.Map.{put}
use chainlink_stellar.TxStore.{TxRef, add_unconfirmed}
use chainlink_stellar.AccountStore.{get_tx_store}
use chainlink_stellar.Failure.{ErrorReason, parse_submit_error_result, classify_submit_error_code}
use chainlink_stellar.Txm.{
  Txm, update_transaction_hash, update_transaction_result_xdr, update_transaction_result_meta,
  update_transaction_result_code,
}
use chainlink_stellar.Txm.Network.{
  Network, SimulateTransactionResponse, SendTransactionResponse, SendStatus, tx_pending,
  tx_duplicate, try_again_later, tx_error, other_status,
}
use chainlink_stellar.Txm.Sdk.{Sdk}

module _ (net : Network) (sdk : Sdk net.World) where
  open net use {World, xdr}
  open sdk use {
    Transaction, SorobanData, AuthEntry, operations, source_account_id, source_sequence,
    time_bounds, new_transaction, decode_soroban_data, set_resource_fee, decode_auth,
    is_invoke_host_function, set_ext, set_auth, hash, sign, address_to_account_id, add_signature,
  }

  unfoldable pub decode_auths : List String → Option (List AuthEntry)
  decode_auths [] = some []
  decode_auths (a ∷ as') = elim (decode_auth a) [
    | none ↦ none
    | some entry ↦ elim (decode_auths as') [ none ↦ none | some rest ↦ some (entry ∷ rest) ]
  ]

  -- `sim.Results[0].AuthXDR`, empty where it is nil or there is no result.
  abbrev auth_xdr : List (Option (List String)) → List String
  auth_xdr [] = []
  auth_xdr (none ∷ results) = []
  auth_xdr (some auths ∷ results) = auths

  -- The writes to the operation, and whether the authorizations decode.
  unfoldable pub apply_soroban_data :
      ℕ → SorobanData → SimulateTransactionResponse → World → Bool × World
  unfolding decode_auths
  apply_soroban_data op soroban_data sim w =
      if is_invoke_host_function op w
      then (let w' = set_ext op soroban_data w in
          elim (auth_xdr sim.results) [
            | [] ↦ (true, w')
            | auth ∷ auths ↦ elim (decode_auths (auth ∷ auths)) [
              | none ↦ (false, w')
              | some entries ↦ (true, set_auth op entries w')
            ]
          ])
      else (true, w)

  -- The rebuilt transaction and the sum of the fees.
  unfoldable pub rebuild :
      Transaction → List ℕ → Int64 → Int64 → ℕ → World → Option (Transaction × Int64) × World
  rebuild tx ops inclusion_fee resource_fee max_ledger w =
      elim (new_transaction
        (record {
          account_id = source_account_id tx;
          sequence = source_sequence tx;
          increment_sequence_num = false;
          operations = ops;
          base_fee = inclusion_fee;
          time_bounds = time_bounds tx;
          max_ledger = some max_ledger;
        })
        w) [
          | none ↦ (none, w)
          | some assembled ↦ (some (assembled, add inclusion_fee resource_fee), w)
        ]

  -- Behind the decoding of the Soroban data.
  unfoldable pub assemble_decoded :
      Option SorobanData
      → Int64
      → ℕ
      → List ℕ
      → Transaction
      → SimulateTransactionResponse
      → Int64
      → ℕ
      → World
      → Option (Transaction × Int64) × World
  unfolding apply_soroban_data rebuild
  assemble_decoded none resource_fee op ops tx sim inclusion_fee max_ledger w = (none, w)
  assemble_decoded (some soroban_data) resource_fee op ops tx sim inclusion_fee max_ledger w =
      let (decoded, w') =
        apply_soroban_data op (set_resource_fee resource_fee soroban_data) sim w in
      if decoded then rebuild tx (op ∷ ops) inclusion_fee resource_fee max_ledger w' else (none, w')

  -- With the operations of the transaction.
  unfoldable pub assemble_operations :
      List ℕ
      → Int64
      → Transaction
      → SimulateTransactionResponse
      → Int64
      → ℕ
      → World
      → Option (Transaction × Int64) × World
  unfolding assemble_decoded rebuild
  assemble_operations [] buffer tx sim inclusion_fee max_ledger w = (none, w)
  assemble_operations (op ∷ ops) buffer tx sim inclusion_fee max_ledger w =
      if sim.transaction_data_xdr == ""
      then rebuild tx (op ∷ ops) inclusion_fee (int64 0) max_ledger w
      else assemble_decoded (decode_soroban_data sim.transaction_data_xdr)
          (add sim.min_resource_fee buffer) op ops tx sim inclusion_fee max_ledger w

  -- The first argument is `FeeStrategy.ResourceFeeBuffer`.
  unfoldable pub assemble_transaction :
      Int64
      → Transaction
      → SimulateTransactionResponse
      → Int64
      → ℕ
      → World
      → Option (Transaction × Int64) × World
  unfolding assemble_operations
  assemble_transaction buffer tx sim inclusion_fee max_ledger w =
      assemble_operations (operations tx) buffer tx sim inclusion_fee max_ledger w

  unfoldable pub sign_transaction : Transaction → String → World → Option Transaction × World
  sign_transaction tx from_address w = elim (hash tx) [
    | none ↦ (none, w)
    | some digest ↦
        let (signed, w') = sign from_address digest w in
        elim signed [
          | none ↦ (none, w')
          | some signature ↦ elim (address_to_account_id from_address) [
            | none ↦ (none, w')
            | some key ↦ (add_signature (drop 28 key) signature tx, w')
          ]
        ]
  ]

  -- The last calls of the accepting case.
  unfoldable pub record_hash : TxRef → String → Txm → Txm
  record_hash r hash s = update_transaction_result_code r "" (
      update_transaction_result_meta r ""
        (update_transaction_result_xdr r "" (update_transaction_hash r hash s)))

  -- The case of a pending or duplicate transaction.
  unfoldable pub accept :
      TxRef → String → SendTransactionResponse → Int64 → ℕ → Txm → (Bool × Bool × ErrorReason) × Txm
  unfolding record_hash
  accept r account result seq max_ledger s =
      if result.hash == ""
      then ((false, true, "no_hash"), s)
      else elim (get_tx_store account s.account_store) [
        | none ↦ ((false, true, "nil_tx_store"), s)
        | some store ↦ elim (add_unconfirmed seq result.hash max_ledger r store) [
          | err e ↦ ((false, true, "store_add"), s)
          | ok store' ↦ (
            (true, false, ""),
            record_hash r result.hash
                (record s { account_store = put account store' s.account_store }),
          )
        ]
      ]

  -- Whether the submission is accepted, whether it fails for good, and the reason. `account` names
  -- the store.
  unfoldable pub handle_send_result :
      SendStatus
      → TxRef
      → String
      → SendTransactionResponse
      → Int64
      → ℕ
      → Txm
      → (Bool × Bool × ErrorReason) × Txm
  unfolding accept
  handle_send_result tx_pending r account result seq max_ledger s =
      accept r account result seq max_ledger s
  handle_send_result tx_duplicate r account result seq max_ledger s =
      accept r account result seq max_ledger s
  handle_send_result try_again_later r account result seq max_ledger s =
      ((false, false, "try_again_later"), s)
  handle_send_result tx_error r account result seq max_ledger s =
      elim (parse_submit_error_result xdr result.error_result_xdr) [
        | none ↦ ((false, true, "submit_error_undecoded"), s)
        | some code ↦
            let (fatal, reason) = classify_submit_error_code xdr code in ((false, fatal, reason), s)
      ]
  handle_send_result other_status r account result seq max_ledger s =
      ((false, true, "unknown_submit"), s)
