-- ===== src/Txm/Simulation.antt =====
-- relayer/txm/broadcast.go and txm.go: the preliminary transaction, its simulation, and the retries
-- of a failed simulation. An error is its text. The nil checks of a client and a transaction are
-- left out, as no caller passes nil.
use mathlib.Core.List.{◌++◌}
use Prim.Native.Nat.{max}
use chainlink_stellar.Prelude.{
  ℕ, zero, suc, ◌+◌, ◌%◌, ◌^◌, Bool, true, false, String, Option, some, none, List, [], ◌∷◌, nat_eq,
  ltb, ◌==◌, if◌then◌else◌, String_equality, Result, ok, err, not, ◌&&◌,
}
use chainlink_stellar.Prelude.Int64.{Int64, int64, sub}
use chainlink_stellar.TxStore.{TxRef}
use chainlink_stellar.Config.{Config, Bytes, bytes, is_retryable_simulation_error, Bytes_equality}
use chainlink_stellar.Txm.{Txm, Settings, modify}
use chainlink_stellar.Txm.Queue.{TxRequest}
use chainlink_stellar.Txm.Network.{Network, SimulateTransactionResponse}
use chainlink_stellar.Txm.Sdk.{Sdk}
use chainlink_stellar.Txm.Account.{default_from_address}

module _ {F : Type 0} (net : Network) (sdk : Sdk net.World) (c : Settings) (config : Config F) where
  open net use {World, get_client, get_latest_ledger, sleep, ctx_done}
  open sdk use {Transaction, new_timeout, new_transaction, min_base_fee, base64, simulate}

  -- `from` and `operations` are the fields of the transaction.
  unfoldable pub build_preliminary_tx :
      String → List ℕ → Int64 → ℕ → World → Option Transaction × World
  build_preliminary_tx from operations next_submit_seq max_ledger w =
      let (bounds, w') = new_timeout c.tx_timeout_secs w in
      (
        new_transaction
            (record {
              account_id = from;
              sequence = max (int64 0) (sub next_submit_seq (int64 1));
              increment_sequence_num = true;
              operations = operations;
              base_fee = min_base_fee;
              time_bounds = bounds;
              max_ledger = some max_ledger;
            })
            w',
        w',
      )

  unfoldable pub simulate_transaction :
      Transaction → World → Result Bytes SimulateTransactionResponse × World
  simulate_transaction tx w = elim (base64 tx) [
    | err e ↦ (err (bytes "failed to base64 encode preliminary tx: " ++ e), w)
    | ok tx_xdr ↦
        let (answer, w') = simulate tx_xdr w in
        elim answer [
          | err e ↦ (err (bytes "rpc simulate transaction failed: " ++ e), w')
          | ok result ↦
              if result.error == []
              then (ok result, w')
              else (err (bytes "simulation error: " ++ result.error), w')
        ]
  ]

  -- `tx.LedgerBoundsOffset`, or the configured one.
  abbrev offset : TxRef → Txm → ℕ
  offset r s =
      if ltb 0 (s.heap r).ledger_bounds_offset
      then (s.heap r).ledger_bounds_offset
      else c.ledger_bounds_offset

  -- `left` is the number of attempts after this one, `maxAttempts - (attempt + 1)`.
  unfoldable pub should_retry_simulation : ℕ → Bytes → World → Bool
  should_retry_simulation left e w =
      ltb 0 left && is_retryable_simulation_error config (ctx_done w) (some e)

  -- What the loop of `prepareAndSimulateWithRetry` returns.
  abbrev pub Prepared : Type 0
  Prepared = Option (Transaction × SimulateTransactionResponse × ℕ)

  -- How an attempt ends: with what the loop returns, or with `none` for the next attempt.
  abbrev pub Attempt : Type 0
  Attempt = Option Prepared × Txm × World

  -- Behind a failure: whether it is retried, and the sleep before that.
  unfoldable pub retry_or_stop : Bool → Txm → World → Attempt
  retry_or_stop false s w = (some none, s, w)
  retry_or_stop true s w = let (slept, w') = sleep w in ((if slept then none else some none), s, w')

  -- Behind the simulation.
  unfoldable pub prepare_simulated :
      Result Bytes SimulateTransactionResponse → Transaction → ℕ → ℕ → Txm → World → Attempt
  unfolding retry_or_stop should_retry_simulation
  prepare_simulated (ok result) prelim max_ledger left s w =
      (some (some (prelim, result, max_ledger)), s, w)
  prepare_simulated (err e) prelim max_ledger left s w =
      retry_or_stop (should_retry_simulation left e w) s w

  -- Behind `buildPreliminaryTx`.
  unfoldable pub prepare_built : Option Transaction → ℕ → ℕ → Txm → World → Attempt
  unfolding prepare_simulated
  prepare_built none max_ledger left s w = (some none, s, w)
  prepare_built (some prelim) max_ledger left s w =
      let (simulated, w') = simulate_transaction prelim w in
      prepare_simulated simulated prelim max_ledger left s w'

  -- Behind `GetLatestLedger`.
  unfoldable pub prepare_answer : Option ℕ → ℕ → TxRef → Int64 → Txm → World → Attempt
  unfolding prepare_built retry_or_stop
  prepare_answer none left r seq s w = retry_or_stop (ltb 0 left) s w
  prepare_answer (some sequence) left r seq s w =
      let max_ledger = (sequence + offset r s) % 2 ^ 32 in
      let (built, w') =
        build_preliminary_tx (s.heap r).from_address (s.heap r).operations seq max_ledger w in
      prepare_built built max_ledger left (modify r (λ t. record t { max_ledger = max_ledger }) s)
        w'

  -- The loop, with the attempts left.
  unfoldable pub prepare_loop : ℕ → TxRef → Int64 → Txm → World → Prepared × Txm × World
  unfolding prepare_answer
  prepare_loop zero r seq s w = (none, s, w)
  prepare_loop (suc left) r seq s w =
      let (latest, w₁) = get_latest_ledger w in
      let (answer, s₁, w₂) = prepare_answer latest left r seq s w₁ in
      elim answer [ some prepared ↦ (prepared, s₁, w₂) | none ↦ prepare_loop left r seq s₁ w₂ ]

  unfoldable pub prepare_and_simulate_with_retry :
      TxRef → Int64 → Txm → World → Prepared × Txm × World
  prepare_and_simulate_with_retry r seq s w =
      prepare_loop (if nat_eq c.max_simulate_attempts 0 then 1 else c.max_simulate_attempts) r seq s
        w

  simulate_from :
      String → TxRequest → World → Option (Result Bytes SimulateTransactionResponse) × World
  simulate_from from req w =
      let (found, w₁) = get_client w in
      if not found
      then (none, w₁)
      else let (latest, w₂) = get_latest_ledger w₁ in
        elim latest [
          | none ↦ (none, w₂)
          | some sequence ↦
              let (built, w₃) =
                build_preliminary_tx from req.operations (int64 0)
                  ((sequence + c.ledger_bounds_offset) % 2 ^ 32) w₂ in
              elim built [
                | none ↦ (none, w₃)
                | some prelim ↦
                    let (answer, w₄) = simulate_transaction prelim w₃ in (some answer, w₄)
              ]
        ]

  -- The read-only `Simulate`; `none` is an error before the simulation.
  unfoldable pub simulate_request :
      TxRequest → World → Option (Result Bytes SimulateTransactionResponse) × World
  unfolding simulate_from
  simulate_request req w = elim req.operations [
    | [] ↦ (none, w)
    | op ∷ ops ↦
        if req.from_address == ""
        then (let (from, w') = default_from_address net sdk w in
            elim from [ none ↦ (none, w') | some a ↦ simulate_from a req w' ])
        else simulate_from req.from_address req w
  ]
