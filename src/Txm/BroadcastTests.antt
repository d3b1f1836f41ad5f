-- ===== src/Txm/BroadcastTests.antt =====
-- Witnesses and tests of the broadcast of relayer/txm, on a small network and SDK.
use chainlink_stellar.Prelude.{
  ℕ, ◌+◌, ◌≤◌, ◌≡◌, refl, true, false, String, some, none, [], ◌∷◌, List, arith, ok, if◌then◌else◌,
  String_equality, ℕ_equality,
}
use chainlink_stellar.Prelude.Int64.{Int64, int64, add}
use chainlink_stellar.Prelude.Map.{get}
use chainlink_stellar.TxStore.{TxStore, new_tx_store, add_unconfirmed, get_next_sequence, confirm}
use chainlink_stellar.TxStore.Invariant.{IsValid, new_tx_store-IsValid}
use chainlink_stellar.Config.{Config, default_config_set}
use chainlink_stellar.Fee.Tests.{fractions, default_fees}
use chainlink_stellar.AccountStore.{get_tx_store}
use chainlink_stellar.Txm.{
  Txm, is_terminal_status, update_transaction_status, update_transaction_fee,
  get_transaction_attempt, update_transaction_ledger_close_time, update_transaction_result_code,
  update_transaction_result_xdr,
}
use chainlink_stellar.Txm.Tests.{settings, full_queue, in_flight, sample_store, including}
use chainlink_stellar.Txm.Network.{Network, SimulateTransactionResponse, tx_pending}
use chainlink_stellar.Txm.Sdk.{Sdk}
use chainlink_stellar.Txm.Account.{next_sequence_in, resync_sequence, get_sequence_number}
use chainlink_stellar.Txm.Simulation.{
  prepare_loop, prepare_and_simulate_with_retry, build_preliminary_tx, simulate_transaction,
}
use chainlink_stellar.Txm.Assembly.{assemble_transaction, sign_transaction, handle_send_result}
use chainlink_stellar.Txm.Submission.{Outcome, Submit, submit_round, after_send}
use chainlink_stellar.Txm.Broadcast.{broadcast_from, simulate_assemble_sign_and_send}
use chainlink_stellar.Txm.Rounds.{Ends, Round, submit_round-Round}
use chainlink_stellar.Txm.Ends.{simulate_assemble_sign_and_send-Ends}
use chainlink_stellar.Txm.Prepared.{Numbers, IsPrepared, prepare_loop-IsPrepared}
use chainlink_stellar.Txm.Assembled.{IsAssembled, assemble_transaction-IsAssembled}
use chainlink_stellar.Txm.Resync.{resync_sequence_lem}
use chainlink_stellar.Txm.Overwrite.{ReturnsOverwritten, after_send-check_one}
use chainlink_stellar.Txm.Tracked.{tracked}
use chainlink_stellar.Txm.Confirm.{
  check_one, check_answer, check_status, confirm_success, confirm_in, finalize,
}

-- A network that accepts every transaction, and knows an account at sequence 12.
abbrev accepting : Network
accepting = record {
  World = ℕ;
  now = λ w. (w, w + 1);
  get_client = λ w. (true, w);
  get_latest_ledger = λ w. (some 90, w);
  get_transaction = λ hash w. (none, w);
  send_transaction =
      λ x w. (some (record { status = tx_pending; hash = "h11"; error_result_xdr = "" }), w);
  get_fee_stats = λ w. (some (200, 400), w);
  get_ledger_entries = λ key w. (some ("entry" ∷ []), w);
  sleep = λ w. (true, w);
  ctx_done = λ w. false;
  xdr = including.xdr;
}

abbrev simulated : SimulateTransactionResponse
simulated = record {
  error = [];
  transaction_data_xdr = "data";
  min_resource_fee = int64 70;
  results = [];
  restore_preamble = none;
}

-- A transaction is its source account, its sequence number and its operations.
abbrev small_sdk : Sdk ℕ
small_sdk = record {
  Transaction = String × Int64 × List ℕ;
  TimeBounds = ℕ;
  SorobanData = Int64;
  AuthEntry = String;
  new_timeout = λ secs w. (w, w);
  min_base_fee = int64 100;
  new_transaction = λ p w. some (
    p.account_id,
    (if p.increment_sequence_num then add p.sequence (int64 1) else p.sequence),
    p.operations,
  );
  base64 = λ t. ok "signed";
  operations = λ t. t.2;
  source_account_id = λ t. t.0;
  source_sequence = λ t. t.1;
  time_bounds = λ t. 0;
  decode_soroban_data = λ x. some (int64 0);
  set_resource_fee = λ fee d. fee;
  decode_auth = λ x. some x;
  is_invoke_host_function = λ op w. true;
  set_ext = λ op d w. w + 1;
  set_auth = λ op auths w. w + 1;
  restore_footprint = λ from d w. (9, w);
  hash = λ t. some [];
  address_to_account_id = λ a. some [];
  account_key = λ key. some "key";
  decode_account = λ entry. some (int64 12);
  sign = λ from digest w. (some [], w);
  add_signature = λ hint signature t. some t;
  accounts = λ w. (some ("GA" ∷ []), w);
  simulate = λ x w. (ok simulated, w);
  ticks = λ w. (3, w);
}

abbrev config : Config fractions.Float
config = default_config_set (3, 2)

small_sdk-Numbers : Numbers small_sdk
small_sdk-Numbers = record { numbered = λ p w t e. ground arith }

simulate_assemble_sign_and_send-Ends_example :
    let (outcome, t, w') =
      simulate_assemble_sign_and_send fractions default_fees accepting small_sdk settings config 0
        full_queue 7 in
    Ends "GA" 0 outcome t
simulate_assemble_sign_and_send-Ends_example =
    simulate_assemble_sign_and_send-Ends fractions default_fees accepting small_sdk settings config
      0 full_queue 7

abbrev first_round : Submit
first_round = record {
  attempt = 0;
  seq = int64 11;
  inclusion_fee = int64 200;
  restore_handled = false;
}

submit_round-Round_example : Round "GA" 0 (int64 100000) first_round (
    submit_round fractions default_fees accepting small_sdk settings config 0 "GA" first_round
      full_queue 7)
submit_round-Round_example =
    submit_round-Round fractions default_fees accepting small_sdk settings config 0 "GA" first_round
      full_queue 7

prepare_loop-IsPrepared_example :
    IsPrepared accepting small_sdk settings config 0
      (int64 11)
      (prepare_loop accepting small_sdk settings config 3 0 (int64 11) full_queue 7)
prepare_loop-IsPrepared_example =
    prepare_loop-IsPrepared accepting small_sdk settings config 3 0 (int64 11) full_queue 7
      small_sdk-Numbers (omega arith) (omega arith)

assemble_transaction-IsAssembled_example :
    IsAssembled accepting small_sdk
      ("GA", int64 11, 4 ∷ [])
      (int64 200)
      (int64 15070)
      (assemble_transaction accepting small_sdk
        (int64 15000)
        ("GA", int64 11, 4 ∷ [])
        simulated
        (int64 200)
        140
        7)
assemble_transaction-IsAssembled_example =
    assemble_transaction-IsAssembled accepting small_sdk (int64 15000) ("GA", int64 11, 4 ∷ [])
      simulated (int64 200) 140 7 small_sdk-Numbers

abbrev new_account : Txm
new_account = record full_queue { account_store = ("GA", new_tx_store (int64 5)) ∷ [] }

resync_sequence_lem_example :
    let (synced, t, w') = resync_sequence accepting small_sdk 0 new_account 7 in
    (synced ≡ true)
    × (int64 13 ≤ next_sequence_in "GA" t)
    × ((store' : TxStore) × (get "GA" t.account_store ≡ some store')
        × IsValid store'
        × (store'.unconfirmed_sequences ≡ (new_tx_store (int64 5)).unconfirmed_sequences))
unfolding get get_sequence_number
resync_sequence_lem_example =
    resync_sequence_lem accepting small_sdk 0 new_account 7 (new_tx_store (int64 5)) (int64 12) refl
      (new_tx_store-IsValid (int64 5)) refl

-- The broadcast of the first transaction of the queue succeeds at its first attempt.
broadcast_of_queued :
    (simulate_assemble_sign_and_send fractions default_fees accepting small_sdk settings config 0
      full_queue 7).0
    ≡ Outcome.in_flight
unfolding simulate_assemble_sign_and_send broadcast_from get_tx_store get get_transaction_attempt
    prepare_and_simulate_with_retry prepare_loop build_preliminary_tx simulate_transaction
    assemble_transaction sign_transaction handle_send_result update_transaction_fee add_unconfirmed
    next_sequence_in get_next_sequence
broadcast_of_queued = refl

after_send-check_one_example :
    ReturnsOverwritten fractions default_fees including small_sdk settings config "GA" in_flight (
      after_send fractions default_fees including small_sdk settings config 2 "GA"
        (true, false, "")
        first_round
        (check_one including settings "GA" in_flight full_queue 7).1
        (check_one including settings "GA" in_flight full_queue 7).2)
unfolding get check_one check_answer check_status confirm_success confirm_in confirm
    is_terminal_status finalize update_transaction_status update_transaction_ledger_close_time
    update_transaction_result_code update_transaction_result_xdr
after_send-check_one_example =
    after_send-check_one fractions default_fees including small_sdk settings config "GA" in_flight
      first_round full_queue 7 (tracked sample_store refl refl) refl
      (record { terminal = refl; done = refl; stamped = refl })
