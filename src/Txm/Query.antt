-- ===== src/Txm/Query.antt =====
-- relayer/txm/txm.go: the status queries.
use chainlink_stellar.Prelude.{
  ℕ, Bool, true, false, String, Option, some, none, ◌==◌, if◌then◌else◌, String_equality, Result,
  ok, err, length,
}
use chainlink_stellar.Prelude.Int64.{Int64}
use chainlink_stellar.Prelude.Map.{get}
use chainlink_stellar.AccountStore.{get_total_inflight_count}
use chainlink_stellar.Txm.{Txm, StellarTx, TransactionStatus, unknown, finalized}

-- relayer/txm/tx.go, `TxResult`; the error is present when there is a result code.
pub record TxResult : Type 0 where
  pub id : String
  pub hash : String
  pub status : TransactionStatus
  pub fee : Option Int64
  pub ledger_close_time : Int64
  pub result_xdr : String
  pub result_meta_xdr : String
  pub error : Option String

pub data QueryError : Type 0 where
  empty_id no_such_transaction fee_not_available : QueryError
  not_finalized : TransactionStatus → QueryError

unfoldable pub tx_result_locked : StellarTx → TxResult
tx_result_locked t = record {
  id = t.id;
  hash = t.tx_hash;
  status = t.status;
  fee = t.fee;
  ledger_close_time = t.ledger_close_time;
  result_xdr = t.result_xdr;
  result_meta_xdr = t.result_meta_xdr;
  error = if t.result_code == "" then none else some t.result_code;
}

-- The check of the id and the lookup that the queries share.
unfoldable pub find_transaction : String → Txm → Result QueryError StellarTx
find_transaction id s =
    if id == ""
    then err empty_id
    else elim (get id s.transactions) [ none ↦ err no_such_transaction | some r ↦ ok (s.heap r) ]

unfoldable pub get_status : String → Txm → TransactionStatus × Option QueryError
unfolding find_transaction
get_status id s = elim (find_transaction id s) [
  | err e ↦ (unknown, some e)
  | ok t ↦ (t.status, none)
]

unfoldable pub get_transaction_result : String → Txm → Result QueryError TxResult
unfolding find_transaction tx_result_locked
get_transaction_result id s = elim (find_transaction id s) [
  | err e ↦ err e
  | ok t ↦ ok (tx_result_locked t)
]

abbrev is_finalized : TransactionStatus → Bool
is_finalized finalized = true
is_finalized _ = false

unfoldable pub get_transaction_fee : String → Txm → Result QueryError Int64
unfolding find_transaction
get_transaction_fee id s = elim (find_transaction id s) [
  | err e ↦ err e
  | ok t ↦
      if is_finalized t.status
      then elim t.fee [ none ↦ err fee_not_available | some fee ↦ ok fee ]
      else err (not_finalized t.status)
]

-- Queued transactions, and transactions in flight over all accounts.
unfoldable pub inflight_count : Txm → ℕ × ℕ
inflight_count s = (length s.broadcast_chan, get_total_inflight_count s.account_store)
