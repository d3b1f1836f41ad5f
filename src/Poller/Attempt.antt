-- ===== src/Poller/Attempt.antt =====
-- ccv/destination_reader/execution_attempt_poller.go: `extractInvokeContractArgs` and
-- `decodeExecuteArgsToAttempt`. Reading a base64 envelope and `protocol.DecodeMessage` are
-- parameters.
use chainlink_stellar.Prelude.{ℕ, Option, some, none, List, [], ◌∷◌}
use chainlink_stellar.Config.{Bytes}
use chainlink_stellar.ScVal.{ScVal}
use chainlink_stellar.ScVal.Address.{address_vec_from_scval}
use chainlink_stellar.ScVal.Codec.{bytes_from_scval, bytes_vec_from_scval, uint32_from_scval}

-- What is called: a contract with these arguments, or `none` for a nil pointer.
pub data HostFunction : Type 0 where
  invoke_contract : Option (List ScVal) → HostFunction
  other_function : ℕ → HostFunction

pub data Operation : Type 0 where
  invoke_host_function : HostFunction → Operation
  other_operation : ℕ → Operation

-- An envelope with its operations, the inner ones of a fee bump.
pub data Envelope : Type 0 where
  tx_v0 : List Operation → Envelope
  tx_v1 : List Operation → Envelope
  tx_fee_bump : List Operation → Envelope
  other_envelope : ℕ → Envelope

pub record ExecutionAttempt (Message : Type 0) : Type 0 where
  pub ccvs : List Bytes
  pub ccv_data : List Bytes
  pub message : Message
  pub transaction_gas_limit : ℕ

abbrev operations : Envelope → Option (List Operation)
operations (tx_v0 ops) = some ops
operations (tx_v1 ops) = some ops
operations (tx_fee_bump ops) = some ops
operations (other_envelope tag) = none

abbrev first_args : List Operation → Option (List ScVal)
first_args [] = none
first_args (invoke_host_function (invoke_contract args) ∷ ops) = args
first_args (invoke_host_function (other_function tag) ∷ ops) = none
first_args (other_operation tag ∷ ops) = none

unfoldable pub extract_invoke_contract_args :
    (Bytes → Option Envelope) → Bytes → Option (List ScVal)
extract_invoke_contract_args unmarshal envelope_xdr = elim (unmarshal envelope_xdr) [
  | none ↦ none
  | some envelope ↦ elim (operations envelope) [ none ↦ none | some ops ↦ first_args ops ]
]

module _ {Message : Type 0} (decode_message : Bytes → Option Message) where
  unfoldable pub decode_execute_args_to_attempt : List ScVal → Option (ExecutionAttempt Message)
  unfolding bytes_from_scval address_vec_from_scval bytes_vec_from_scval uint32_from_scval
  decode_execute_args_to_attempt (encoded ∷ ccvs ∷ results ∷ gas ∷ []) =
      elim (bytes_from_scval encoded) [
        | none ↦ none
        | some encoded_msg ↦ elim (address_vec_from_scval ccvs) [
          | none ↦ none
          | some ccv_addresses ↦ elim (bytes_vec_from_scval results) [
            | none ↦ none
            | some verifier_results ↦ elim (uint32_from_scval gas) [
              | none ↦ none
              | some gas_limit_override ↦ elim (decode_message encoded_msg) [
                | none ↦ none
                | some message ↦ some (record {
                  ccvs = ccv_addresses;
                  ccv_data = verifier_results;
                  message = message;
                  transaction_gas_limit = gas_limit_override;
                })
              ]
            ]
          ]
        ]
      ]
  decode_execute_args_to_attempt _ = none
