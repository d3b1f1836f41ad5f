-- ===== src/Service/Simulate.antt =====
-- relayer/stellar_service.go: `SimulateTransaction`. Building and encoding the transaction
-- (`txnbuild.NewTransaction`, with the SDK's minimal fee) and the time are parameters.
use chainlink_stellar.Prelude.{ℕ, Bool, true, false, Option, some, none, List, [], ◌∷◌}
use chainlink_stellar.Prelude.Int64.{Int64, int64, add}
use chainlink_stellar.Config.{Bytes, Bytes_equality}
use chainlink_stellar.ScVal.Address.{Strkey, build_contract_sc_address, fit}
use chainlink_stellar.Convert.Domain.{DomainVal}
use chainlink_stellar.Convert.Events.{convert_scvals_to_domain, Format, base64}
use chainlink_stellar.Convert.Pages.{SimulateAuthMode, validate_simulate_auth_mode}
use chainlink_stellar.Service.Submit.{
  Answer, response, response_and_error, only_error, InvokeHostFunction,
}

pub record SimulateTransactionRequest : Type 0 where
  pub contract_id : Bytes
  pub function : Bytes
  pub args : List DomainVal
  pub source_account : Bytes
  pub auth_mode : SimulateAuthMode
  -- The instruction leeway of a resource configuration.
  pub instruction_leeway : Option ℕ

-- The transaction that is simulated.
pub record TransactionParams : Type 0 where
  pub source_account : Bytes
  pub sequence : Int64
  pub increment_sequence_num : Bool
  pub operation : InvokeHostFunction
  pub max_time : Int64

-- The request to the RPC client.
pub record SimulateRequest : Type 0 where
  pub transaction : Bytes
  pub auth_mode : SimulateAuthMode
  pub format : Format
  pub instruction_leeway : Option ℕ

pub record HostFunctionResult : Type 0 where
  pub return_value_xdr : Option Bytes
  pub auth_xdr : Option (List Bytes)

-- The answer of the RPC client; a restore preamble is its data and its fee.
pub record SimulateResult : Type 0 where
  pub latest_ledger : ℕ
  pub error : Bytes
  pub events_xdr : List Bytes
  pub transaction_data_xdr : Bytes
  pub min_resource_fee : Int64
  pub results : List HostFunctionResult
  pub restore_preamble : Option (Bytes × Int64)

pub record SimulateTransactionResponse : Type 0 where
  pub ledger_sequence : ℕ
  pub success : Bool
  pub error : Bytes
  pub events_xdr : List Bytes
  pub transaction_data_xdr : Bytes
  pub min_resource_fee : Int64
  pub return_value_xdr : Bytes
  pub required_auth_xdr : List Bytes
  pub restore_preamble : Option (Bytes × Int64)

abbrev is_empty : Bytes → Bool
is_empty [] = true
is_empty (b ∷ bs) = false

abbrev or_empty {ℓ} : {A : Type ℓ} → Option (List A) → List A
or_empty none = []
or_empty (some as') = as'

-- The response before its results are read.
abbrev pub bare_response : SimulateResult → SimulateTransactionResponse
bare_response r = record {
  ledger_sequence = r.latest_ledger;
  success = is_empty r.error;
  error = r.error;
  events_xdr = r.events_xdr;
  transaction_data_xdr = r.transaction_data_xdr;
  min_resource_fee = r.min_resource_fee;
  return_value_xdr = [];
  required_auth_xdr = [];
  restore_preamble = none;
}

abbrev without_results :
    Bytes
    → Option (Bytes × Int64)
    → SimulateTransactionResponse
    → Answer SimulateTransactionResponse
without_results [] none a = response_and_error a
without_results [] (some p) a = response (record a { restore_preamble = some p })
without_results (b ∷ bs) p a = response (record a { restore_preamble = p })

-- The switch on the number of results.
abbrev by_results : List HostFunctionResult → SimulateResult → Answer SimulateTransactionResponse
by_results [] r = without_results r.error r.restore_preamble (bare_response r)
by_results (x ∷ []) r = response (record (bare_response r) {
  return_value_xdr = or_empty x.return_value_xdr;
  required_auth_xdr = or_empty x.auth_xdr;
  restore_preamble = r.restore_preamble;
})
by_results (x ∷ y ∷ xs) r = response_and_error (bare_response r)

unfoldable pub simulate_response : SimulateResult → Answer SimulateTransactionResponse
simulate_response r = by_results r.results r

module _ (k : Strkey) where
  -- The source account, or the account with a key of zeros.
  unfoldable pub simulate_source : Bytes → Option Bytes
  simulate_source [] = k.encode_account (fit 32 [])
  simulate_source (b ∷ bs) = elim (k.decode_account (b ∷ bs)) [
    | none ↦ none
    | some key ↦ some (b ∷ bs)
  ]

  -- The transaction, from the decoding of the contract on.
  unfoldable pub simulate_params : Int64 → SimulateTransactionRequest → Option TransactionParams
  unfolding build_contract_sc_address convert_scvals_to_domain simulate_source
  simulate_params now q = elim (k.decode_contract q.contract_id) [
    | none ↦ none
    | some raw ↦ elim (build_contract_sc_address k raw) [
      | none ↦ none
      | some address ↦ elim (convert_scvals_to_domain k q.args) [
        | none ↦ none
        | some args ↦ elim (simulate_source q.source_account) [
          | none ↦ none
          | some source ↦ some (record {
            source_account = source;
            sequence = int64 0;
            increment_sequence_num = true;
            operation = record {
              contract_address = address;
              function_name = q.function;
              args = args;
              source_account = source;
            };
            max_time = add now (int64 60);
          })
        ]
      ]
    ]
  ]

  module _ (build : TransactionParams → Option Bytes)
      (client : SimulateRequest → Option SimulateResult) where
    abbrev simulated : Option SimulateResult → Answer SimulateTransactionResponse
    simulated none = only_error
    simulated (some r) = simulate_response r

    abbrev checked_simulation :
        Bytes → Bytes → Answer SimulateTransactionResponse → Answer SimulateTransactionResponse
    checked_simulation [] function a = only_error
    checked_simulation (c ∷ cs) [] a = only_error
    checked_simulation (c ∷ cs) (f ∷ fs) a = a

    unfoldable pub simulate_request : Int64 → SimulateTransactionRequest → Option SimulateRequest
    unfolding validate_simulate_auth_mode simulate_params
    simulate_request now q = elim (validate_simulate_auth_mode q.auth_mode) [
      | none ↦ none
      | some mode ↦ elim (simulate_params now q) [
        | none ↦ none
        | some params ↦ elim (build params) [
          | none ↦ none
          | some text ↦ some (record {
            transaction = text;
            auth_mode = mode;
            format = base64;
            instruction_leeway = q.instruction_leeway;
          })
        ]
      ]
    ]

    unfoldable pub simulate_transaction :
        Int64 → SimulateTransactionRequest → Answer SimulateTransactionResponse
    unfolding simulate_request simulate_response
    simulate_transaction now q =
        checked_simulation q.contract_id q.function (elim (simulate_request now q) [
          | none ↦ only_error
          | some request ↦ simulated (client request)
        ])
