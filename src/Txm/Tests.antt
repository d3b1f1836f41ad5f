-- ===== src/Txm/Tests.antt =====
-- Witnesses and tests of the transaction manager of relayer/txm/txm.go.
use chainlink_stellar.Prelude.{
  ℕ, zero, suc, ◌+◌, ◌≡◌, ◌↔◌, refl, true, false, String, some, none, [], ◌∷◌, ◌++◌, ℕ_equality,
  String_equality,
}
use chainlink_stellar.Prelude.Int64.{int64}
use chainlink_stellar.Prelude.Map.{get}
use chainlink_stellar.TxStore.{TxRef, UnconfirmedTx, TxStore}
use chainlink_stellar.FeeTracker.{new_fee_tracker}
use chainlink_stellar.Txm.{Txm, StellarTx, Settings}
use chainlink_stellar.Txm.Queue.{enqueue_transaction, new_tx}
use chainlink_stellar.Txm.Prune.{prune_terminal}
use chainlink_stellar.Txm.Retention.{IsRetained, get-prune_terminal}
use chainlink_stellar.Txm.Backpressure.{IsEvicted, Resent, enqueue_transaction_evicts}
use chainlink_stellar.Txm.Network.{Network, success}
use chainlink_stellar.Txm.Confirm.{check_one}
use chainlink_stellar.Txm.Tracked.{tracked}
use chainlink_stellar.Txm.Settled.{Verdict, check_one-Verdict}

abbrev pub settings : Settings
settings = record {
  broadcast_chan_size = 2;
  max_simulate_attempts = 3;
  max_submit_retry_attempts = 10;
  tx_timeout_secs = int64 300;
  ledger_bounds_offset = 50;
  max_tx_retry_attempts = 5;
  max_get_client_retry_attempts = some 10;
  max_restore_attempts = 3;
  restore_fee_buffer = int64 10000;
  prune_interval = int64 600;
  prune_tx_expiration = int64 7200;
}

abbrev ids : ℕ → String
ids zero = "a"
ids (suc zero) = "b"
ids _ = "c"

-- The transactions at the addresses 0, 1, 2, …
abbrev sample_heap : TxRef → StellarTx
sample_heap r =
    new_tx r (ids r) "GA"
      (record { id = ""; from_address = "GA"; operations = 0 ∷ []; ledger_bounds_offset = 0 })

-- Two queued transactions and one in flight, at sequence 10.
abbrev pub in_flight : UnconfirmedTx
in_flight = record { sequence = int64 10; hash = "h10"; max_ledger = 100; tx = 2 }

abbrev pub sample_store : TxStore
sample_store = record {
  next_sequence = int64 11;
  unconfirmed_sequences = (int64 10, in_flight) ∷ [];
  failed_sequences = [];
  last_onchain_sequence = int64 10;
}

abbrev pub full_queue : Txm
full_queue = record {
  transactions = ("a", 0) ∷ ("b", 1) ∷ [];
  heap = sample_heap;
  broadcast_chan = 0 ∷ 1 ∷ [];
  account_store = ("GA", sample_store) ∷ [];
  fee_tracker = new_fee_tracker (int64 0);
}

-- Another goroutine takes the room that the eviction has made.
abbrev refill : Txm → Txm
refill t = record t { broadcast_chan = t.broadcast_chan ++ 7 ∷ [] }

enqueue_transaction_evicts_example :
    (t : Txm) × IsEvicted settings 2 0 (1 ∷ []) full_queue t
    × Resent settings 2 full_queue (refill t) (enqueue_transaction settings refill 9 2 full_queue)
unfolding get
enqueue_transaction_evicts_example =
    enqueue_transaction_evicts settings refill 9 2 0 (1 ∷ []) full_queue (λ t. refl) refl refl refl
      refl

get-prune_terminal_example :
    (get "a" (prune_terminal settings 9 full_queue).transactions ≡ some 0)
    ↔ (get "a" full_queue.transactions ≡ some 0) × IsRetained settings 9 (full_queue.heap 0)
unfolding get
get-prune_terminal_example = get-prune_terminal settings 9 full_queue "a" 0 (refl, (refl, tt))

-- A network on which every transaction is included.
abbrev pub including : Network
including = record {
  World = ℕ;
  now = λ w. (w, w + 1);
  get_client = λ w. (true, w);
  get_latest_ledger = λ w. (some 90, w);
  get_transaction = λ hash w. (
    some (record {
      status = success;
      result_xdr = "";
      result_meta_xdr = "";
      ledger_close_time = int64 5;
    }),
    w,
  );
  send_transaction = λ x w. (none, w);
  get_fee_stats = λ w. (none, w);
  get_ledger_entries = λ key w. (none, w);
  sleep = λ w. (true, w);
  ctx_done = λ w. false;
  xdr = record {
    decode = λ x. none;
    tx_code_name = λ code. "";
    op_code_name = λ code. "";
    invoke_code_name = λ code. "";
  };
}

check_one-Verdict_example :
    Verdict including settings "GA" in_flight full_queue
      (check_one including settings "GA" in_flight full_queue 7)
unfolding get
check_one-Verdict_example =
    check_one-Verdict including settings "GA" in_flight full_queue 7
      (tracked sample_store refl refl)
