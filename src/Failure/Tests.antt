-- ===== src/Failure/Tests.antt =====
-- Witnesses for relayer/txm/failed_result.go.
use chainlink_stellar.Prelude.{◌≡◌, ◌↔◌, true, some, [], ◌∷◌}
use chainlink_stellar.Prelude.Int64.{int64}
use chainlink_stellar.Failure.{
  ResultXdr, other_tx, op_inner, entry_archived, classify_failed_transaction_result,
}
use chainlink_stellar.Failure.Classified.{IsTransientResult, retryable_iff}

-- Every result is that of a host function call on an archived entry.
abbrev archived : ResultXdr
archived = record {
  decode = λ x. some (record {
    code = other_tx "txFAILED";
    results = some (
        record {
          code = op_inner;
          tr = some (record { kind = "invoke"; invoke_host_function_result = some entry_archived });
        }
        ∷ []);
    fee_charged = int64 100;
  });
  tx_code_name = λ code. "tx";
  op_code_name = λ code. "op";
  invoke_code_name = λ code. "invoke";
}

retryable_iff_example :
    ((classify_failed_transaction_result archived "AAAA").retryable ≡ true)
    ↔ IsTransientResult archived "AAAA"
retryable_iff_example = retryable_iff archived "AAAA"
