-- ===== src/Txm/Queue.antt =====
-- relayer/txm/txm.go: `Enqueue`, its queue with the eviction of the oldest transaction, and the
-- channel sends of the retry paths. A send on the channel succeeds while it holds fewer than its
-- capacity; on a channel of capacity 0 it succeeds only while a receiver waits, which none does
-- here.
use chainlink_stellar.Prelude.{
  ℕ, Bool, false, String, Option, some, none, List, [], ◌∷◌, ◌++◌, nat_eq, ltb, ◌==◌, not,
  if◌then◌else◌, String_equality, Result, ok, err, length,
}
use chainlink_stellar.Prelude.Int64.{int64}
use chainlink_stellar.Prelude.Map.{get, put, delete}
use chainlink_stellar.TxStore.{TxRef}
use chainlink_stellar.Txm.{
  Txm, StellarTx, Settings, pending, failed, modify, close_done, update_transaction_status,
}

-- `TxRequest`; its metadata only feeds the log.
pub record TxRequest : Type 0 where
  pub id : String
  pub from_address : String
  pub operations : List ℕ
  pub ledger_bounds_offset : ℕ

pub data EnqueueError : Type 0 where
  not_single_operation no_account : EnqueueError
  invalid_from_address channel_full : String → EnqueueError

abbrev or_else : String → String → String
or_else id fallback = if id == "" then fallback else id

-- The new transaction that `Enqueue` allocates.
abbrev pub new_tx : ℕ → String → String → TxRequest → StellarTx
new_tx now id from req = record {
  id = id;
  timestamp = now;
  from_address = from;
  operations = req.operations;
  ledger_bounds_offset = req.ledger_bounds_offset;
  attempt = 0;
  infra_attempts = 0;
  status = pending;
  terminal_time = none;
  broadcast_at = none;
  tx_hash = "";
  fee = none;
  ledger_close_time = int64 0;
  result_xdr = "";
  result_code = "";
  result_meta_xdr = "";
  max_ledger = 0;
  min_resource_fee = int64 0;
  done = false;
}

module _ (c : Settings) where
  -- `select { case s.broadcastChan <- tx: … default: … }`: the state if the send goes through.
  unfoldable pub try_send : TxRef → Txm → Option Txm
  try_send r s =
      if ltb (length s.broadcast_chan) c.broadcast_chan_size
      then some (record s { broadcast_chan = s.broadcast_chan ++ r ∷ [] })
      else none

  unfoldable pub drop_oldest_for_backpressure : ℕ → TxRef → Txm → Txm
  drop_oldest_for_backpressure now dropped s = elim (get (s.heap dropped).id s.transactions) [
    | none ↦ s
    | some cur ↦
        if nat_eq cur dropped
        then update_transaction_status c now dropped failed
            (modify dropped (λ t. record t { result_code = "channel_full_oldest_evicted" }) s)
        else s
  ]

  -- `case droppedTx = <-s.broadcastChan`, and the drop.
  unfoldable pub evict_oldest : ℕ → Txm → Txm
  evict_oldest now s = elim s.broadcast_chan [
    | [] ↦ s
    | oldest ∷ rest ↦ drop_oldest_for_backpressure now oldest (record s { broadcast_chan = rest })
  ]

  -- The last `select` of `enqueueTransaction`, after a failed send, the eviction, and what other
  -- goroutines did to the manager in between.
  unfoldable pub resend : TxRef → Txm → Txm × Result EnqueueError String
  unfolding try_send
  resend r s = elim (try_send r s) [
    | some t ↦ (t, ok (s.heap r).id)
    | none ↦ (
      record s { transactions = delete (s.heap r).id s.transactions },
      err (channel_full (s.heap r).id),
    )
  ]

  -- `others` is what other goroutines do between the eviction and the second send.
  unfoldable pub enqueue_transaction :
      (Txm → Txm) → ℕ → TxRef → Txm → Txm × Result EnqueueError String
  unfolding try_send resend close_done
  enqueue_transaction others now r s = elim (get (s.heap r).id s.transactions) [
    | some _ ↦ (close_done r s, ok (s.heap r).id)
    | none ↦
        let registered = record s { transactions = put (s.heap r).id r s.transactions } in
        elim (try_send r registered) [
          | some t ↦ (t, ok (s.heap r).id)
          | none ↦ resend r (others (evict_oldest now registered))
        ]
  ]

  enqueue_from :
      (Txm → Txm)
      → ℕ
      → TxRef
      → String
      → (String → Bool)
      → String
      → TxRequest
      → Txm
      → Txm × Result EnqueueError String
  enqueue_from others now r id is_address from req s =
      if not (is_address from)
      then (s, err (invalid_from_address from))
      else enqueue_transaction others now r (modify r (λ _. new_tx now id from req) s)

  -- `uuid` is the fresh identifier, `r` the fresh address, `account` the first account of the
  -- keystore (`none` if it fails or has none), and `is_address` the SDK's check of an address.
  unfoldable pub enqueue :
      (Txm → Txm)
      → ℕ
      → TxRef
      → String
      → Option String
      → (String → Bool)
      → TxRequest
      → Txm
      → Txm × Result EnqueueError String
  unfolding enqueue_from
  enqueue others now r uuid account is_address req s =
      let id = or_else req.id uuid in
      if not (nat_eq (length req.operations) 1)
      then (s, err not_single_operation)
      else if req.from_address == ""
      then elim account [
        | none ↦ (s, err no_account)
        | some from ↦ enqueue_from others now r id is_address from req s
      ]
      else enqueue_from others now r id is_address req.from_address req s
