-- ===== src/Txm/Sdk.antt =====
-- What relayer/txm/broadcast.go and restore.go use of the Stellar SDK, of the keystore, and of the
-- RPC client's simulation. An operation is an address on the SDK's heap, which is a part of the
-- world: `tx.Operations` and a built transaction share it. Nothing is assumed here.
use chainlink_stellar.Prelude.{ℕ, String, Bool, Option, List, Result}
use chainlink_stellar.Prelude.Int64.{Int64}
use chainlink_stellar.Config.{Bytes}
use chainlink_stellar.Txm.Network.{SimulateTransactionResponse}

-- `txnbuild.TransactionParams`, with the fields of its `SourceAccount`; `none` is a nil bound.
pub record TransactionParams (TimeBounds : Type 0) : Type 0 where
  pub account_id : String
  pub sequence : Int64
  pub increment_sequence_num : Bool
  pub operations : List ℕ
  pub base_fee : Int64
  pub time_bounds : TimeBounds
  pub max_ledger : Option ℕ

pub record Sdk (World : Type 0) : Type 1 where
  pub Transaction : Type 0
  pub TimeBounds : Type 0
  pub SorobanData : Type 0
  pub AuthEntry : Type 0
  pub new_timeout : Int64 → World → TimeBounds × World
  pub min_base_fee : Int64
  pub new_transaction : TransactionParams TimeBounds → World → Option Transaction
  pub base64 : Transaction → Result Bytes String
  pub operations : Transaction → List ℕ
  pub source_account_id : Transaction → String
  pub source_sequence : Transaction → Int64
  pub time_bounds : Transaction → TimeBounds
  pub decode_soroban_data : String → Option SorobanData
  pub set_resource_fee : Int64 → SorobanData → SorobanData
  pub decode_auth : String → Option AuthEntry
  -- `op.(*txnbuild.InvokeHostFunction)` succeeds, and the writes of its fields.
  pub is_invoke_host_function : ℕ → World → Bool
  pub set_ext : ℕ → SorobanData → World → World
  pub set_auth : ℕ → List AuthEntry → World → World
  -- A new `txnbuild.RestoreFootprint`.
  pub restore_footprint : String → SorobanData → World → ℕ × World
  pub hash : Transaction → Option Bytes
  -- The Ed25519 key of an address, and its ledger key in base 64.
  pub address_to_account_id : String → Option Bytes
  pub account_key : Bytes → Option String
  -- The sequence number of an account entry.
  pub decode_account : String → Option Int64
  pub sign : String → Bytes → World → Option Bytes × World
  pub add_signature : Bytes → Bytes → Transaction → Option Transaction
  pub accounts : World → Option (List String) × World
  pub simulate : String → World → Result Bytes SimulateTransactionResponse × World
  -- How often the ticker of `pollRestoreTransaction` fires before its context ends.
  pub ticks : World → ℕ × World
