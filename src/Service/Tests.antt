-- ===== src/Service/Tests.antt =====
-- Witnesses of relayer/stellar_service.go.
use chainlink_stellar.Prelude.{◌≡◌, refl, Option, some, [], ◌∷◌, All, map}
use chainlink_stellar.Prelude.Int64.{int64}
use chainlink_stellar.Config.{bytes}
use chainlink_stellar.ScVal.Address.{build_contract_sc_address}
use chainlink_stellar.ScVal.Tests.{plain_strkey, plain_strkey-IsStrkey, key_32}
use chainlink_stellar.Convert.Domain.{u32_value, bytes_value}
use chainlink_stellar.Convert.Value.{convert_scval_from_domain}
use chainlink_stellar.Convert.Arguments.{IsArgument}
use chainlink_stellar.Convert.Events.{convert_scvals_to_domain}
use chainlink_stellar.Service.Submit.{
  TxRequest, TxResult, SubmitTransactionRequest, failed_status, tx_failed, non_negative, reply_with,
  submit_transaction, submit_request, submit_result, submit_reply, build_invoke_contract_operation,
}
use chainlink_stellar.Service.Accepted.{IsExecuted, submit_transaction-IsExecuted}

abbrev request : SubmitTransactionRequest
request = record {
  contract_id = b'C' ∷ key_32;
  function = bytes "transfer";
  args = u32_value (some 7) ∷ bytes_value (1 ∷ []) ∷ [];
  from_address = bytes "GA";
  idempotency_key = bytes "k1";
  ledger_bounds_offset = 0;
}

abbrev reverted : TxResult
reverted = record {
  id = bytes "k1";
  hash = bytes "ab";
  status = failed_status;
  fee = some (non_negative 100);
  ledger_close_time = int64 1000;
  result_xdr = bytes "AAA";
  result_meta_xdr = [];
  error = some (bytes "trap");
}

abbrev manager : TxRequest → Option (Option TxResult)
manager q = some (some reverted)

submit_transaction-IsExecuted_example :
    (q : TxRequest) × (r : TxResult) × (manager q ≡ some (some r))
    × All IsArgument request.args
    × (map (convert_scval_from_domain plain_strkey) request.args ≡ map some q.operation.args)
    × IsExecuted r (reply_with tx_failed (bytes "trap") reverted)
unfolding submit_transaction submit_request submit_result submit_reply
    build_invoke_contract_operation build_contract_sc_address convert_scvals_to_domain
    convert_scval_from_domain
submit_transaction-IsExecuted_example =
    submit_transaction-IsExecuted plain_strkey plain_strkey-IsStrkey manager request
      (reply_with tx_failed (bytes "trap") reverted) refl
