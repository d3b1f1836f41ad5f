-- ===== src/Service/Invoker.antt =====
-- relayer/txm/invoker_adapter.go: contract calls over the transaction manager. `EnqueueAndWait`,
-- `Simulate`, the RPC client and the decoders of XDR are parameters. The outer `none` is an error, the
-- inner one a nil value.
use mathlib.Core.List.{map}
use chainlink_stellar.Prelude.{ℕ, true, false, Option, some, none, List, [], ◌∷◌, ◌++◌}
use chainlink_stellar.Config.{Bytes}
use chainlink_stellar.ScVal.{ScVal}
use chainlink_stellar.ScVal.Address.{Strkey}
use chainlink_stellar.ScVal.Codec.{symbol_to_scval}
use chainlink_stellar.Convert.Events.{EventsRequest, SegmentFilter, default_format, zero_or_more}
use chainlink_stellar.Convert.Pages.{EventInfo}
use chainlink_stellar.Service.Submit.{
  TransactionStatus, finalized, failed_status, other_status, TxRequest, TxResult,
  InvokeHostFunction, build_invoke_contract_operation,
}
use chainlink_stellar.Service.Simulate.{SimulateResult, HostFunctionResult}

-- The metadata of a transaction, with what its Soroban part returned if it has one.
pub data TransactionMeta : Type 0 where
  meta_v3 : Option ScVal → TransactionMeta
  meta_v4 : Option (Option ScVal) → TransactionMeta
  other_meta : ℕ → TransactionMeta

pub record InvokerAdapter : Type 0 where
  pub from_address : Bytes
  pub ledger_bounds_offset : ℕ

unfoldable pub extract_return_value_from_transaction_meta :
    Option TransactionMeta → Option (Option ScVal)
extract_return_value_from_transaction_meta none = some none
extract_return_value_from_transaction_meta (some (meta_v3 v)) = some v
extract_return_value_from_transaction_meta (some (meta_v4 none)) = some none
extract_return_value_from_transaction_meta (some (meta_v4 (some v))) = some v
extract_return_value_from_transaction_meta (some (other_meta version)) = none

module _ (unmarshal_meta : Bytes → Option TransactionMeta) where
  unfoldable pub extract_return_value_from_result_meta_xdr : Bytes → Option (Option ScVal)
  unfolding extract_return_value_from_transaction_meta
  extract_return_value_from_result_meta_xdr [] = some none
  extract_return_value_from_result_meta_xdr (b ∷ bs) = elim (unmarshal_meta (b ∷ bs)) [
    | none ↦ none
    | some meta ↦ extract_return_value_from_transaction_meta (some meta)
  ]

  abbrev finalized_value : TransactionStatus → TxResult → Option (Option ScVal)
  finalized_value finalized r = extract_return_value_from_result_meta_xdr r.result_meta_xdr
  finalized_value failed_status r = none
  finalized_value (other_status tag) r = none

  abbrev value_of_result : Option Bytes → TxResult → Option (Option ScVal)
  value_of_result none r = finalized_value r.status r
  value_of_result (some error) r = none

  -- What the answer of `EnqueueAndWait` is worth.
  unfoldable pub invoke_result : Option (Option TxResult) → Option (Option ScVal)
  unfolding extract_return_value_from_result_meta_xdr
  invoke_result none = none
  invoke_result (some none) = none
  invoke_result (some (some r)) = value_of_result r.error r

module _ (unmarshal : Bytes → Option ScVal) where
  abbrev decoded : Option Bytes → Option (Option ScVal)
  decoded none = some none
  decoded (some []) = some none
  decoded (some (b ∷ bs)) = elim (unmarshal (b ∷ bs)) [ none ↦ none | some v ↦ some (some v) ]

  unfoldable pub extract_return_value_from_simulation_result :
      List HostFunctionResult → Option (Option ScVal)
  extract_return_value_from_simulation_result [] = some none
  extract_return_value_from_simulation_result (r ∷ rs) = decoded r.return_value_xdr

  abbrev without_restore : Option (Bytes × ℕ) → List HostFunctionResult → Option (Option ScVal)
  without_restore none rs = extract_return_value_from_simulation_result rs
  without_restore (some p) rs = none

  unfoldable pub simulate_result : Option SimulateResult → Option (Option ScVal)
  unfolding extract_return_value_from_simulation_result
  simulate_result none = none
  simulate_result (some r) = without_restore r.restore_preamble r.results

abbrev request_of : InvokerAdapter → InvokeHostFunction → TxRequest
request_of a operation = record {
  id = [];
  from_address = a.from_address;
  operation = operation;
  ledger_bounds_offset = a.ledger_bounds_offset;
}

module _ (k : Strkey) (a : InvokerAdapter) where
  unfoldable pub invoke_contract :
      (Bytes → Option TransactionMeta)
      → (TxRequest → Option (Option TxResult))
      → Bytes
      → Bytes
      → List ScVal
      → Option (Option ScVal)
  unfolding build_invoke_contract_operation invoke_result
  invoke_contract unmarshal_meta enqueue_and_wait contract name args =
      elim (build_invoke_contract_operation k contract name args a.from_address) [
        | none ↦ none
        | some operation ↦ invoke_result unmarshal_meta (enqueue_and_wait (request_of a operation))
      ]

  unfoldable pub simulate_contract :
      (Bytes → Option ScVal)
      → (TxRequest → Option SimulateResult)
      → Bytes
      → Bytes
      → List ScVal
      → Option (Option ScVal)
  unfolding build_invoke_contract_operation simulate_result
  simulate_contract unmarshal simulate contract name args =
      elim (build_invoke_contract_operation k contract name args a.from_address) [
        | none ↦ none
        | some operation ↦ simulate_result unmarshal (simulate (request_of a operation))
      ]

abbrev topic_segment : Bytes → SegmentFilter
topic_segment topic = record { wildcard = none; scval = some (symbol_to_scval topic) }

-- The query for a contract's events, whose first topics are the given ones.
unfoldable pub invoker_events : Bytes → ℕ → List Bytes → EventsRequest Bytes
unfolding symbol_to_scval
invoker_events contract start_ledger topics = record {
  start_ledger = start_ledger;
  end_ledger = 0;
  filters =
      record {
        event_types = record { system = false; contract = true };
        contract_ids = contract ∷ [];
        topics =
            (map topic_segment topics ++ record { wildcard = some zero_or_more; scval = none } ∷ [])
            ∷ [];
      }
      ∷ [];
  format = default_format;
  pagination = none;
}

unfoldable pub get_events_of_contract :
    (EventsRequest Bytes → Option (List EventInfo))
    → Bytes
    → ℕ
    → List Bytes
    → Option (List EventInfo)
unfolding invoker_events
get_events_of_contract client contract start_ledger topics =
    client (invoker_events contract start_ledger topics)
