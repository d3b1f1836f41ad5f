-- ===== src/Failure.antt =====
-- relayer/txm/failed_result.go, and `parseSubmitErrorResult` and `classifySubmitErrorCode` of
-- relayer/txm/broadcast.go: what a failed transaction result means. The XDR decoder is the SDK's
-- and a parameter; the types below are what the code reads of a decoded result.
pub mod Classified
mod Tests
use chainlink_stellar.Prelude.{
  Bool, true, false, Option, some, none, List, [], ◌∷◌, String, ◌==◌, if◌then◌else◌,
  String_equality,
}
use chainlink_stellar.Prelude.Int64.{Int64}

-- `ErrorReason` is a string type.
abbrev pub ErrorReason : Type 0
ErrorReason = String

pub data InvokeHostFunctionResultCode : Type 0 where
  resource_limit_exceeded entry_archived insufficient_refundable_fee : InvokeHostFunctionResultCode
  other_invoke : String → InvokeHostFunctionResultCode

pub record OperationTr : Type 0 where
  pub kind : String  -- the operation type's name
  pub invoke_host_function_result : Option InvokeHostFunctionResultCode

pub data OperationResultCode : Type 0 where
  op_inner op_exceeded_work_limit : OperationResultCode
  other_op : String → OperationResultCode

pub record OperationResult : Type 0 where
  pub code : OperationResultCode
  pub tr : Option OperationTr

pub data TransactionResultCode : Type 0 where
  tx_bad_seq tx_insufficient_fee tx_internal_error : TransactionResultCode
  other_tx : String → TransactionResultCode

pub record TransactionResult : Type 0 where
  pub code : TransactionResultCode
  pub results : Option (List OperationResult)
  pub fee_charged : Int64

-- The SDK: `SafeUnmarshalBase64` into a `TransactionResult`, and the names of the codes.
pub record ResultXdr : Type 0 where
  pub decode : String → Option TransactionResult
  pub tx_code_name : TransactionResultCode → String
  pub op_code_name : OperationResultCode → String
  pub invoke_code_name : InvokeHostFunctionResultCode → String

pub record FailedTxClassification : Type 0 where
  pub result_code : ErrorReason
  pub retryable : Bool

abbrev pub revert : ErrorReason
revert = "revert"

abbrev pub revert_decode : ErrorReason
revert_decode = "revert_decode_error"

unfoldable pub is_retryable_invoke_host_function_result : InvokeHostFunctionResultCode → Bool
is_retryable_invoke_host_function_result resource_limit_exceeded = true
is_retryable_invoke_host_function_result entry_archived = true
is_retryable_invoke_host_function_result insufficient_refundable_fee = true
is_retryable_invoke_host_function_result (other_invoke name) = false

abbrev pub is_inner : OperationResultCode → Bool
is_inner op_inner = true
is_inner _ = false

abbrev pub is_work_limit : OperationResultCode → Bool
is_work_limit op_exceeded_work_limit = true
is_work_limit _ = false

module _ (x : ResultXdr) where
  abbrev final : ErrorReason → FailedTxClassification
  final reason = record { result_code = reason; retryable = false }

  classify_tr : OperationTr → FailedTxClassification
  classify_tr tr = elim tr.invoke_host_function_result [
    | some code ↦ record {
      result_code = x.invoke_code_name code;
      retryable = is_retryable_invoke_host_function_result code;
    }
    | none ↦ final tr.kind
  ]

  -- The first round of the loop over the operation results, which always returns.
  classify_operation : OperationResult → FailedTxClassification
  unfolding classify_tr
  classify_operation r =
      if is_inner r.code
      then elim r.tr [ none ↦ final (x.op_code_name r.code) | some tr ↦ classify_tr tr ]
      else record { result_code = x.op_code_name r.code; retryable = is_work_limit r.code }

  classify_results : ErrorReason → Option (List OperationResult) → FailedTxClassification
  unfolding classify_operation
  classify_results result_code none = final result_code
  classify_results result_code (some []) = final result_code
  classify_results result_code (some (r ∷ rs)) = classify_operation r

  unfoldable pub classify_failed_transaction_result : String → FailedTxClassification
  unfolding classify_results is_retryable_invoke_host_function_result
  classify_failed_transaction_result result_xdr =
      if result_xdr == "" then final revert else elim (x.decode result_xdr) [
        | none ↦ final revert_decode
        | some r ↦ classify_results (x.tx_code_name r.code) r.results
      ]

  -- `none` is `ok == false`.
  unfoldable pub parse_submit_error_result : String → Option TransactionResultCode
  parse_submit_error_result error_result_xdr =
      if error_result_xdr == ""
      then none
      else elim (x.decode error_result_xdr) [ none ↦ none | some r ↦ some r.code ]

  -- Whether the rejection is fatal, and the reason.
  unfoldable pub classify_submit_error_code : TransactionResultCode → Bool × ErrorReason
  classify_submit_error_code tx_bad_seq = (false, "bad_seq")
  classify_submit_error_code tx_insufficient_fee = (false, "insufficient_fee")
  classify_submit_error_code tx_internal_error = (false, "internal_error")
  classify_submit_error_code (other_tx name) = (true, x.tx_code_name (other_tx name))
