-- ===== src/Convert/Domain.antt =====
-- The domain types that relayer/type_converters.go reads and builds, as far as it does. A value is
-- its type tag with the field of that tag; `none`, or a `nil_…` constructor, is a nil pointer. A nil
-- slice and an empty one are the same here.
use chainlink_stellar.Prelude.{ℕ, Bool, Option}
use chainlink_stellar.Prelude.Int64.{Int64}
use chainlink_stellar.Config.{Bytes}
use chainlink_stellar.ScVal.{UInt128Parts, Int128Parts, UInt256Parts, Int256Parts}

pub data DomainErrorType : Type 0 where
  contract_error wasm_vm_error context_error storage_error object_error : DomainErrorType
  crypto_error events_error budget_error value_error auth_error : DomainErrorType

pub record DomainError : Type 0 where
  pub kind : DomainErrorType
  pub contract_code : Option ℕ
  pub code : Option ℕ

pub data DomainAddress : Type 0 where
  account_id : Bytes → DomainAddress
  contract_id : Bytes → DomainAddress
  muxed_id : ℕ → Bytes → DomainAddress
  claimable_balance_id : Bytes → DomainAddress
  liquidity_pool_id : Bytes → DomainAddress
  other_id : ℕ → DomainAddress

pub data DomainExecutable : Type 0 where
  wasm_hash : Bytes → DomainExecutable
  asset_executable : DomainExecutable

mutual
  pub data DomainVal : Type 0 where
    bool_value : Option Bool → DomainVal
    void_value : Option (Unit {0}) → DomainVal
    error_value : DomainError → DomainVal
    u32_value : Option ℕ → DomainVal
    i32_value : Option ℕ → DomainVal
    u64_value : Option ℕ → DomainVal
    i64_value : Option Int64 → DomainVal
    timepoint_value : Option ℕ → DomainVal
    duration_value : Option ℕ → DomainVal
    u128_value : Option UInt128Parts → DomainVal
    i128_value : Option Int128Parts → DomainVal
    u256_value : Option UInt256Parts → DomainVal
    i256_value : Option Int256Parts → DomainVal
    bytes_value : Bytes → DomainVal
    string_value : Option Bytes → DomainVal
    symbol_value : Option Bytes → DomainVal
    vec_value : DomainVec → DomainVal
    map_value : DomainMap → DomainVal
    address_value : Option DomainAddress → DomainVal
    instance_value : DomainExecutable → Pairs → DomainVal
    ledger_key_instance_value : DomainVal
    nonce_key_value : Int64 → DomainVal
    other_value : ℕ → DomainVal

  pub data DomainVec : Type 0 where
    nil_values : DomainVec
    values : Refs → DomainVec

  pub data DomainMap : Type 0 where
    nil_pairs : DomainMap
    pairs : Pairs → DomainMap

  -- A pointer to a value.
  pub data Ref : Type 0 where
    nil_ref : Ref
    ref : DomainVal → Ref

  pub data Refs : Type 0 where
    no_refs : Refs
    refs : Ref → Refs → Refs

  pub data Pairs : Type 0 where
    no_pairs : Pairs
    pair : Ref → Ref → Pairs → Pairs
