-- ===== src/Convert/Address.antt =====
-- relayer/type_converters.go: addresses, errors and executables. `convertAddressToDomain` converts
-- from the domain type, whatever its name says, and `convertScAddressToDomain` to it.
use chainlink_stellar.Prelude.{Option, some, none, nat_eq, length, if◌then◌else◌}
use chainlink_stellar.Config.{Bytes}
use chainlink_stellar.ScVal.{
  ScAddress, account, contract, muxed_account, claimable_balance, liquidity_pool, other_address,
  ScError, ScErrorType, sce_contract, sce_wasm_vm, sce_context, sce_storage, sce_object, sce_crypto,
  sce_events, sce_budget, sce_value, sce_auth, other_sce, ContractExecutable, wasm, stellar_asset,
  other_executable,
}
use chainlink_stellar.ScVal.Address.{Strkey, build_contract_sc_address}
use chainlink_stellar.Convert.Domain.{
  DomainAddress, account_id, contract_id, muxed_id, claimable_balance_id, liquidity_pool_id,
  other_id, DomainError, DomainErrorType, contract_error, wasm_vm_error, context_error,
  storage_error, object_error, crypto_error, events_error, budget_error, value_error, auth_error,
  DomainExecutable, wasm_hash, asset_executable,
}

module _ (k : Strkey) where
  -- The account with the key that the SDK finds in the text of the key.
  unfoldable pub account_address : Bytes → Option ScAddress
  account_address key = elim (k.encode_account key) [
    | none ↦ none
    | some text ↦ elim (k.address_to_account_id text) [
      | none ↦ none
      | some id ↦ some (account (some (some id)))
    ]
  ]

  unfoldable pub convert_address_to_domain : DomainAddress → Option ScAddress
  unfolding account_address
  convert_address_to_domain (account_id key) =
      if nat_eq (length key) 32 then account_address key else none
  convert_address_to_domain (contract_id key) =
      if nat_eq (length key) 32 then build_contract_sc_address k key else none
  convert_address_to_domain (muxed_id id key) = none
  convert_address_to_domain (claimable_balance_id v0) = none
  convert_address_to_domain (liquidity_pool_id key) = none
  convert_address_to_domain (other_id tag) = none

unfoldable pub convert_sc_address_to_domain : ScAddress → Option DomainAddress
convert_sc_address_to_domain (account none) = none
convert_sc_address_to_domain (account (some none)) = none
convert_sc_address_to_domain (account (some (some key))) = some (account_id key)
convert_sc_address_to_domain (contract none) = none
convert_sc_address_to_domain (contract (some hash)) = some (contract_id hash)
convert_sc_address_to_domain (muxed_account none) = none
convert_sc_address_to_domain (muxed_account (some (id, key))) = some (muxed_id id key)
convert_sc_address_to_domain (claimable_balance none) = none
convert_sc_address_to_domain (claimable_balance (some none)) = none
convert_sc_address_to_domain (claimable_balance (some (some v0))) = some (claimable_balance_id v0)
convert_sc_address_to_domain (liquidity_pool none) = none
convert_sc_address_to_domain (liquidity_pool (some hash)) = some (liquidity_pool_id hash)
convert_sc_address_to_domain (other_address tag) = none

unfoldable pub convert_contract_executable_to_domain : ContractExecutable → Option DomainExecutable
convert_contract_executable_to_domain (wasm none) = none
convert_contract_executable_to_domain (wasm (some hash)) = some (wasm_hash hash)
convert_contract_executable_to_domain stellar_asset = some asset_executable
convert_contract_executable_to_domain (other_executable tag) = none

unfoldable pub convert_sc_error_type_to_domain : ScErrorType → Option DomainErrorType
convert_sc_error_type_to_domain sce_contract = some contract_error
convert_sc_error_type_to_domain sce_wasm_vm = some wasm_vm_error
convert_sc_error_type_to_domain sce_context = some context_error
convert_sc_error_type_to_domain sce_storage = some storage_error
convert_sc_error_type_to_domain sce_object = some object_error
convert_sc_error_type_to_domain sce_crypto = some crypto_error
convert_sc_error_type_to_domain sce_events = some events_error
convert_sc_error_type_to_domain sce_budget = some budget_error
convert_sc_error_type_to_domain sce_value = some value_error
convert_sc_error_type_to_domain sce_auth = some auth_error
convert_sc_error_type_to_domain (other_sce tag) = none

-- The code of a contract's error, or the code of any other.
unfoldable pub convert_error_code : DomainErrorType → ScError → Option DomainError
convert_error_code contract_error e = elim e.contract_code [
  | none ↦ none
  | some code ↦ some (record { kind = contract_error; contract_code = some code; code = none })
]
convert_error_code kind e = elim e.code [
  | none ↦ none
  | some code ↦ some (record { kind = kind; contract_code = none; code = some code })
]

unfoldable pub convert_sc_error_to_domain : ScError → Option DomainError
unfolding convert_sc_error_type_to_domain convert_error_code
convert_sc_error_to_domain e = elim (convert_sc_error_type_to_domain e.kind) [
  | none ↦ none
  | some kind ↦ convert_error_code kind e
]
