-- ===== src/Service/Submit.antt =====
-- relayer/stellar_service.go: `SubmitTransaction`, and `BuildInvokeContractOperation` of
-- relayer/txm/invoker_adapter.go. The strkey codec is a parameter, and so is `EnqueueAndWait` here.
use chainlink_stellar.Prelude.{
  ℕ, ◌*◌, ◌-◌, ◌%◌, ◌^◌, Option, some, none, List, [], ◌∷◌, ltb, if◌then◌else◌,
}
use chainlink_stellar.Prelude.Int64.{Int64, int64}
use chainlink_stellar.Config.{Bytes}
use chainlink_stellar.ScVal.{ScVal, ScAddress}
use chainlink_stellar.ScVal.Address.{Strkey, build_contract_sc_address}
use chainlink_stellar.Convert.Domain.{DomainVal}
use chainlink_stellar.Convert.Events.{convert_scvals_to_domain}

pub record InvokeHostFunction : Type 0 where
  pub contract_address : ScAddress
  pub function_name : Bytes
  pub args : List ScVal
  pub source_account : Bytes

-- A request to the manager with its one operation.
pub record TxRequest : Type 0 where
  pub id : Bytes
  pub from_address : Bytes
  pub operation : InvokeHostFunction
  pub ledger_bounds_offset : ℕ

pub data TransactionStatus : Type 0 where
  finalized failed_status : TransactionStatus
  other_status : ℕ → TransactionStatus

-- A `big.Int` by its sign and its magnitude.
pub data Big : Type 0 where
  non_negative : ℕ → Big
  negative : ℕ → Big

pub record TxResult : Type 0 where
  pub id : Bytes
  pub hash : Bytes
  pub status : TransactionStatus
  pub fee : Option Big
  pub ledger_close_time : Int64
  pub result_xdr : Bytes
  pub result_meta_xdr : Bytes
  pub error : Option Bytes

pub data TxStatus : Type 0 where
  tx_success tx_failed tx_fatal : TxStatus

pub record SubmitTransactionRequest : Type 0 where
  pub contract_id : Bytes
  pub function : Bytes
  pub args : List DomainVal
  pub from_address : Bytes
  pub idempotency_key : Bytes
  pub ledger_bounds_offset : ℕ

pub record SubmitTransactionResponse : Type 0 where
  pub tx_hash : Bytes
  pub tx_idempotency_key : Bytes
  pub result_xdr : Bytes
  pub result_meta_xdr : Bytes
  pub transaction_fee : Option ℕ
  pub block_timestamp : Option ℕ
  pub tx_status : TxStatus
  pub error : Bytes

-- What a method returns: a response, an error, or both.
pub data Answer {ℓ} (A : Type ℓ) : Type ℓ where
  response : A → Answer A
  response_and_error : A → Answer A
  only_error : Answer A

abbrev pub uint64_fee : Option Big → Option ℕ
uint64_fee none = none
uint64_fee (some (non_negative n)) = if ltb n (2 ^ 64) then some n else none
uint64_fee (some (negative n)) = none

-- Microseconds, which wrap in a uint64.
abbrev pub timestamp_of : Int64 → Option ℕ
timestamp_of t = if ltb (int64 0) t then some ((t - 2 ^ 63) * 1_000_000 % 2 ^ 64) else none

abbrev pub reply_with : TxStatus → Bytes → TxResult → SubmitTransactionResponse
reply_with status error r = record {
  tx_hash = r.hash;
  tx_idempotency_key = r.id;
  result_xdr = r.result_xdr;
  result_meta_xdr = r.result_meta_xdr;
  transaction_fee = uint64_fee r.fee;
  block_timestamp = timestamp_of r.ledger_close_time;
  tx_status = status;
  error = error;
}

abbrev text_of : Option Bytes → Bytes
text_of none = []
text_of (some text) = text

-- A failed transaction with a result was reverted on the chain; one without failed before.
abbrev failed_reply : Bytes → TxResult → Answer SubmitTransactionResponse
failed_reply [] r = response_and_error (reply_with tx_fatal [] r)
failed_reply (b ∷ bs) r = response (reply_with tx_failed (text_of r.error) r)

abbrev status_reply : TransactionStatus → TxResult → Answer SubmitTransactionResponse
status_reply finalized r = response (reply_with tx_success [] r)
status_reply failed_status r = failed_reply r.result_xdr r
status_reply (other_status tag) r = response_and_error (reply_with tx_fatal [] r)

-- The switch on the status of the manager's result.
unfoldable pub submit_reply : TxResult → Answer SubmitTransactionResponse
submit_reply r = status_reply r.status r

module _ (k : Strkey) where
  unfoldable pub build_invoke_contract_operation :
      Bytes → Bytes → List ScVal → Bytes → Option InvokeHostFunction
  unfolding build_contract_sc_address
  build_invoke_contract_operation [] name args from = none
  build_invoke_contract_operation (c ∷ cs) [] args from = none
  build_invoke_contract_operation (c ∷ cs) (n ∷ ns) args from = elim (k.decode_contract (c ∷ cs)) [
    | none ↦ none
    | some raw ↦ elim (build_contract_sc_address k raw) [
      | none ↦ none
      | some address ↦ some (record {
        contract_address = address;
        function_name = n ∷ ns;
        args = args;
        source_account = from;
      })
    ]
  ]

  -- The request to the manager, from the conversion of the arguments on.
  unfoldable pub submit_request : SubmitTransactionRequest → Option TxRequest
  unfolding build_invoke_contract_operation convert_scvals_to_domain
  submit_request q = elim (convert_scvals_to_domain k q.args) [
    | none ↦ none
    | some args ↦
        elim (build_invoke_contract_operation q.contract_id q.function args q.from_address) [
          | none ↦ none
          | some operation ↦ some (record {
            id = q.idempotency_key;
            from_address = q.from_address;
            operation = operation;
            ledger_bounds_offset = q.ledger_bounds_offset;
          })
        ]
  ]

  -- The rest of the method, once the manager has answered; the inner `none` is a nil result.
  unfoldable pub submit_result : Option (Option TxResult) → Answer SubmitTransactionResponse
  unfolding submit_reply
  submit_result none = only_error
  submit_result (some none) = only_error
  submit_result (some (some r)) = submit_reply r

  abbrev checked :
      Bytes → Bytes → Answer SubmitTransactionResponse → Answer SubmitTransactionResponse
  checked [] function a = only_error
  checked (c ∷ cs) [] a = only_error
  checked (c ∷ cs) (f ∷ fs) a = a

  -- `none` is a service without a manager.
  unfoldable pub submit_transaction :
      Option (TxRequest → Option (Option TxResult))
      → SubmitTransactionRequest
      → Answer SubmitTransactionResponse
  unfolding submit_request submit_result
  submit_transaction none q = only_error
  submit_transaction (some enqueue_and_wait) q =
      checked q.contract_id q.function (elim (submit_request q) [
        | none ↦ only_error
        | some request ↦ submit_result (enqueue_and_wait request)
      ])
