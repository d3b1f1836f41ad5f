-- ===== src/Txm.antt =====
-- relayer/txm/txm.go: the state of the transaction manager and the methods that touch one
-- transaction. A `*StellarTx` is an address (`TxRef`) on a heap, since the transaction map, the
-- broadcast channel and the stores hold the same pointers. A method runs under the lock, so each
-- is one step; the clock is an argument, in nanoseconds. Logging and metrics are left out.
pub mod Status
pub mod Queue
pub mod Prune
pub mod Retention
pub mod Backpressure
pub mod Query
pub mod Retry
pub mod Network
pub mod Confirm
pub mod Tracked
pub mod Moved
pub mod Settled
pub mod Sdk
pub mod Account
pub mod Simulation
pub mod Assembly
pub mod Restore
pub mod Submission
pub mod Broadcast
pub mod Recorded
pub mod Resync
pub mod Prepared
pub mod Assembled
pub mod Overwrite
pub mod Rounds
pub mod Ends
mod Tests
mod BroadcastTests
use chainlink_stellar.Prelude.{
  ℕ, suc, ◌+◌, ◌%◌, ◌^◌, Bool, true, false, String, Option, some, none, List, [], ◌∷◌, nat_eq, ltb,
  leb, ◌&&◌, is_some, if◌then◌else◌, String_equality,
}
use chainlink_stellar.Prelude.Int64.{Int64, int64}
use chainlink_stellar.Prelude.Map.{Map, delete}
use chainlink_stellar.TxStore.{TxRef, release}
use chainlink_stellar.AccountStore.{AccountStore, update_store}
use chainlink_stellar.FeeTracker.{FeeTracker}

-- `commontypes.TransactionStatus`, as far as the code uses it.
pub data TransactionStatus : Type 0 where
  unknown pending unconfirmed finalized failed : TransactionStatus

-- relayer/txm/tx.go, `StellarTx`. A zero time is `none`, and so is a nil fee; `done` tells whether
-- the channel `Done` is closed. An operation is a pointer into the SDK's heap.
pub record StellarTx : Type 0 where
  pub id : String
  pub timestamp : ℕ
  pub from_address : String
  pub operations : List ℕ
  pub ledger_bounds_offset : ℕ  -- uint32
  pub attempt : ℕ  -- uint64
  pub infra_attempts : ℕ  -- uint64
  pub status : TransactionStatus
  pub terminal_time : Option ℕ
  pub broadcast_at : Option ℕ
  pub tx_hash : String
  pub fee : Option Int64
  pub ledger_close_time : Int64
  pub result_xdr : String
  pub result_code : String
  pub result_meta_xdr : String
  pub max_ledger : ℕ  -- uint32
  pub min_resource_fee : Int64
  pub done : Bool

-- The fields of a resolved `Config` that the manager reads through its pointers.
pub record Settings : Type 0 where
  pub broadcast_chan_size : ℕ
  pub max_simulate_attempts : ℕ
  pub max_submit_retry_attempts : ℕ
  pub tx_timeout_secs : Int64
  pub ledger_bounds_offset : ℕ
  pub max_tx_retry_attempts : ℕ
  pub max_get_client_retry_attempts : Option ℕ
  pub max_restore_attempts : ℕ
  pub restore_fee_buffer : Int64
  pub prune_interval : Int64
  pub prune_tx_expiration : Int64

-- `heap` gives the transaction at each address; `broadcast_chan` is a FIFO, oldest first.
pub record Txm : Type 0 where
  pub transactions : Map String TxRef
  pub heap : TxRef → StellarTx
  pub broadcast_chan : List TxRef
  pub account_store : AccountStore
  pub fee_tracker : FeeTracker

-- A write to the transaction at `r`.
unfoldable pub modify : TxRef → (StellarTx → StellarTx) → Txm → Txm
modify r f s = record s { heap = λ q. if nat_eq q r then f (s.heap q) else s.heap q }

unfoldable pub is_terminal_status : TransactionStatus → Bool
is_terminal_status finalized = true
is_terminal_status failed = true
is_terminal_status unknown = false
is_terminal_status pending = false
is_terminal_status unconfirmed = false

-- `closeDone`: the channel is closed once.
unfoldable pub close_done : TxRef → Txm → Txm
unfolding modify
close_done r = modify r λ t. record t { done = true }

module _ (c : Settings) where
  unfoldable pub maybe_evict_terminal_tx : TxRef → Txm → Txm
  maybe_evict_terminal_tx r s =
      if ltb (int64 0) c.prune_interval
      then s
      else record s { transactions = delete (s.heap r).id s.transactions }

  abbrev stamp : ℕ → Option ℕ → Option ℕ
  stamp now none = some now
  stamp now (some t) = some t

  unfoldable pub update_transaction_status : ℕ → TxRef → TransactionStatus → Txm → Txm
  unfolding modify is_terminal_status close_done maybe_evict_terminal_tx
  update_transaction_status now r status s =
      let s₁ = modify r (λ t. record t { status = status }) s in
      if is_terminal_status status
      then close_done r (
          maybe_evict_terminal_tx r
            (modify r (λ t. record t { terminal_time = stamp now t.terminal_time }) s₁))
      else s₁

  unfoldable pub mark_tx_failed : ℕ → TxRef → Txm → Txm
  unfolding update_transaction_status
  mark_tx_failed now r s = update_transaction_status now r failed s

  -- The store is the one of the transaction's account.
  unfoldable pub release_seq_and_fail_tx : ℕ → String → Int64 → TxRef → Txm → Txm
  unfolding update_transaction_status
  release_seq_and_fail_tx now account seq r s =
      update_transaction_status now r failed
        (record s { account_store = update_store account (release seq) s.account_store })

unfoldable pub mark_broadcast_at : ℕ → TxRef → Txm → Txm
unfolding modify
mark_broadcast_at now r = modify r λ t. record t { broadcast_at = some now }

unfoldable pub update_transaction_hash : TxRef → String → Txm → Txm
unfolding modify
update_transaction_hash r hash = modify r λ t. record t { tx_hash = hash }

unfoldable pub update_transaction_fee : TxRef → Int64 → Txm → Txm
unfolding modify
update_transaction_fee r fee = modify r λ t. record t { fee = some fee }

unfoldable pub update_transaction_ledger_close_time : TxRef → Int64 → Txm → Txm
unfolding modify
update_transaction_ledger_close_time r time s =
    if leb time (int64 0) then s else modify r (λ t. record t { ledger_close_time = time }) s

unfoldable pub update_transaction_result_xdr : TxRef → String → Txm → Txm
unfolding modify
update_transaction_result_xdr r xdr = modify r λ t. record t { result_xdr = xdr }

unfoldable pub update_transaction_result_code : TxRef → String → Txm → Txm
unfolding modify
update_transaction_result_code r code = modify r λ t. record t { result_code = code }

unfoldable pub update_transaction_result_meta : TxRef → String → Txm → Txm
unfolding modify
update_transaction_result_meta r meta = modify r λ t. record t { result_meta_xdr = meta }

unfoldable pub increment_transaction_attempt : TxRef → Txm → Txm
unfolding modify
increment_transaction_attempt r = modify r λ t. record t { attempt = (t.attempt + 1) % 2 ^ 64 }

unfoldable pub get_transaction_attempt : TxRef → Txm → ℕ
get_transaction_attempt r s = (s.heap r).attempt

unfoldable pub increment_infra_attempts : TxRef → Txm → Txm
unfolding modify
increment_infra_attempts r =
    modify r λ t. record t { infra_attempts = (t.infra_attempts + 1) % 2 ^ 64 }

unfoldable pub get_infra_attempts : TxRef → Txm → ℕ
get_infra_attempts r s = (s.heap r).infra_attempts
