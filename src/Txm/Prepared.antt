-- ===== src/Txm/Prepared.antt =====
-- relayer/txm/txm.go, `prepareAndSimulateWithRetry`: what a preparation returns.
use chainlink_stellar.Prelude.{
  ℕ, zero, suc, ◌^◌, ◌≤◌, ◌<◌, ◌≡◌, refl, ◌∙◌, Bool, true, false, String, Option, some, none, List,
  [], arith, if◌then◌else◌, Result, ok, err, ltb, ℕ_equality, String_equality,
}
use chainlink_stellar.Prelude.Int64.{Int64, int64, add}
use chainlink_stellar.TxStore.{TxRef}
use chainlink_stellar.Config.{Config, Bytes, Bytes_equality}
use chainlink_stellar.Txm.{Txm, Settings, modify}
use chainlink_stellar.Txm.Network.{Network, SimulateTransactionResponse}
use chainlink_stellar.Txm.Sdk.{Sdk, TransactionParams}
use chainlink_stellar.Txm.Simulation.{
  build_preliminary_tx, simulate_transaction, prepare_simulated, prepare_built, prepare_answer,
  retry_or_stop, prepare_loop,
}

-- `txnbuild.NewTransaction`: the sequence number of the account is that of the parameters, plus one
-- if the parameters ask for it.
pub record Numbers {W : Type 0} (sdk : Sdk W) : Type 0 where
  pub numbered :
      (p : TransactionParams sdk.TimeBounds) (w : W) (t : sdk.Transaction)
      → sdk.new_transaction p w ≡ some t
      → sdk.source_sequence t
        ≡ (if p.increment_sequence_num then add p.sequence (int64 1) else p.sequence)

module _ {F : Type 0} (net : Network) (sdk : Sdk net.World) (c : Settings) (config : Config F) where
  build_preliminary_tx_sequence :
      (from : String) (ops : List ℕ) (seq : Int64) (max_ledger : ℕ) (w : net.World)
      (t : sdk.Transaction)
      → Numbers sdk
      → int64 1 ≤ seq
      → seq < 2 ^ 64
      → (build_preliminary_tx net sdk c config from ops seq max_ledger w).0 ≡ some t
      → sdk.source_sequence t ≡ seq
  unfolding build_preliminary_tx
  build_preliminary_tx_sequence from ops seq max_ledger w t n low high e =
      n.numbered _ _ t e ∙ omega arith

  simulate_transaction_no_error :
      (tx : sdk.Transaction) (w : net.World) (result : SimulateTransactionResponse)
      → (simulate_transaction net sdk c config tx w).0 ≡ ok result
      → result.error ≡ []
  unfolding simulate_transaction
  simulate_transaction_no_error tx w result e =
      ground (arith, λ (x : SimulateTransactionResponse). Bytes_equality.test_iff x.error [])

  -- What a successful preparation returns: a transaction with the sequence number, a simulation
  -- without an error, and the ledger bound that the transaction records.
  abbrev pub IsPrepared :
      TxRef
      → Int64
      → Option (sdk.Transaction × SimulateTransactionResponse × ℕ) × Txm × net.World
      → Type 0
  IsPrepared r seq (none, s, w) = Unit
  IsPrepared r seq (some (prelim, sim, max_ledger), s, w) =
      (sdk.source_sequence prelim ≡ seq) × (sim.error ≡ []) × ((s.heap r).max_ledger ≡ max_ledger)

  max_ledger-modify :
      (r : TxRef) (max_ledger : ℕ) (s : Txm)
      → ((modify r (λ t. record t { max_ledger = max_ledger }) s).heap r).max_ledger ≡ max_ledger
  unfolding modify
  max_ledger-modify r max_ledger s = ground arith

  abbrev IsAttempt :
      TxRef
      → Int64
      → Option (Option (sdk.Transaction × SimulateTransactionResponse × ℕ)) × Txm × net.World
      → Type 0
  IsAttempt r seq (none, s, w) = Unit
  IsAttempt r seq (some prepared, s, w) = IsPrepared r seq (prepared, s, w)

  retry_or_stop-IsAttempt :
      (retried : Bool) (r : TxRef) (seq : Int64) (s : Txm) (w : net.World)
      → IsAttempt r seq (retry_or_stop net sdk c config retried s w)
  unfolding retry_or_stop
  retry_or_stop-IsAttempt false r seq s w = tt
  retry_or_stop-IsAttempt true r seq s w = slept (net.sleep w).0
    where
      slept : (b : Bool) → IsAttempt r seq ((if b then none else some none), s, (net.sleep w).1)
      slept true = tt
      slept false = tt

  prepare_built-IsAttempt :
      (built : Option sdk.Transaction) (max_ledger left : ℕ) (r : TxRef) (seq : Int64) (s : Txm)
      (w : net.World)
      → ((t : sdk.Transaction) → built ≡ some t → sdk.source_sequence t ≡ seq)
      → (s.heap r).max_ledger ≡ max_ledger
      → IsAttempt r seq (prepare_built net sdk c config built max_ledger left s w)
  unfolding prepare_built prepare_simulated
  prepare_built-IsAttempt none max_ledger left r seq s w h e = tt
  prepare_built-IsAttempt (some prelim) max_ledger left r seq s w h e =
      simulated (simulate_transaction net sdk c config prelim w).0 refl
    where
      simulated :
          (o : Result Bytes SimulateTransactionResponse)
          → (simulate_transaction net sdk c config prelim w).0 ≡ o
          → IsAttempt r seq (
              prepare_simulated net sdk c config o prelim max_ledger left s
                (simulate_transaction net sdk c config prelim w).1)
      simulated (ok result) q = (h prelim refl, simulate_transaction_no_error prelim w result q, e)
      simulated (err msg) q = retry_or_stop-IsAttempt _ r seq s _

  prepare_answer-IsAttempt :
      (latest : Option ℕ) (left : ℕ) (r : TxRef) (seq : Int64) (s : Txm) (w : net.World)
      → Numbers sdk
      → int64 1 ≤ seq
      → seq < 2 ^ 64
      → IsAttempt r seq (prepare_answer net sdk c config latest left r seq s w)
  unfolding prepare_answer
  prepare_answer-IsAttempt none left r seq s w n low high =
      retry_or_stop-IsAttempt (ltb 0 left) r seq s w
  prepare_answer-IsAttempt (some sequence) left r seq s w n low high =
      prepare_built-IsAttempt _ _ left r seq _ _
        (λ t e. build_preliminary_tx_sequence _ _ seq _ w t n low high e) (max_ledger-modify r _ s)

  -- A preparation that succeeds, with a positive sequence number, returns a transaction that
  -- carries that number, a simulation without an error, and the ledger bound that the transaction
  -- now records. `Numbers` is how the SDK numbers a transaction.
  pub prepare_loop-IsPrepared :
      (left : ℕ) (r : TxRef) (seq : Int64) (s : Txm) (w : net.World)
      → Numbers sdk
      → int64 1 ≤ seq
      → seq < 2 ^ 64
      → IsPrepared r seq (prepare_loop net sdk c config left r seq s w)
  unfolding prepare_loop
  prepare_loop-IsPrepared zero r seq s w n low high = tt
  prepare_loop-IsPrepared (suc left) r seq s w n low high =
      go
        (prepare_answer net sdk c config (net.get_latest_ledger w).0 left r seq s
          (net.get_latest_ledger w).1)
        (prepare_answer-IsAttempt (net.get_latest_ledger w).0 left r seq s _ n low high)
        (λ s' w'. prepare_loop-IsPrepared left r seq s' w' n low high)
    where
      go :
          (a : Option (Option (sdk.Transaction × SimulateTransactionResponse × ℕ))
            × Txm
            × net.World)
          → IsAttempt r seq a
          → ((s' : Txm) (w' : net.World)
              → IsPrepared r seq (prepare_loop net sdk c config left r seq s' w'))
          → IsPrepared r seq (elim a.0 [
            | some prepared ↦ (prepared, a.1, a.2)
            | none ↦ prepare_loop net sdk c config left r seq a.1 a.2
          ])
      go (none, s', w') h ih = ih s' w'
      go (some prepared, s', w') h ih = h
