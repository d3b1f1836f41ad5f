-- ===== src/ScVal.antt =====
-- bindings/scval/scval.go: Soroban values, `xdr.ScVal` of the Stellar SDK, and their conversions
-- from and to Go values. A value is its type tag with the pointer of that tag's arm, `none` for
-- nil; no code here reads another arm. A text is the list of its bytes. An error is `none`. An int64
-- is in the form of Prelude.Int64.
pub mod Address
pub mod Struct
pub mod Codec
pub mod Integer
pub mod Increasing
pub mod Sorted
pub mod RoundTrip
pub mod Tests
use chainlink_stellar.Prelude.{ℕ, Bool, Option, List, [], ◌∷◌}
use chainlink_stellar.Prelude.Int64.{Int64}
use chainlink_stellar.Config.{Bytes}

pub record UInt128Parts : Type 0 where
  pub hi : ℕ
  pub lo : ℕ

pub record Int128Parts : Type 0 where
  pub hi : Int64
  pub lo : ℕ

pub record UInt256Parts : Type 0 where
  pub hi_hi : ℕ
  pub hi_lo : ℕ
  pub lo_hi : ℕ
  pub lo_lo : ℕ

pub record Int256Parts : Type 0 where
  pub hi_hi : Int64
  pub hi_lo : ℕ
  pub lo_hi : ℕ
  pub lo_lo : ℕ

pub data ScErrorType : Type 0 where
  sce_contract sce_wasm_vm sce_context sce_storage sce_object sce_crypto sce_events : ScErrorType
  sce_budget sce_value sce_auth : ScErrorType
  other_sce : ℕ → ScErrorType

pub record ScError : Type 0 where
  pub kind : ScErrorType
  pub contract_code : Option ℕ
  pub code : Option ℕ

-- The inner `none` of an account or a balance is a union whose arm is not set.
pub data ScAddress : Type 0 where
  account : Option (Option Bytes) → ScAddress
  contract : Option Bytes → ScAddress
  muxed_account : Option (ℕ × Bytes) → ScAddress
  claimable_balance : Option (Option Bytes) → ScAddress
  liquidity_pool : Option Bytes → ScAddress
  other_address : ℕ → ScAddress

pub data ContractExecutable : Type 0 where
  wasm : Option Bytes → ContractExecutable
  stellar_asset : ContractExecutable
  other_executable : ℕ → ContractExecutable

mutual
  pub data ScVal : Type 0 where
    scv_bool : Option Bool → ScVal
    scv_void : ScVal
    scv_error : Option ScError → ScVal
    scv_u32 : Option ℕ → ScVal
    scv_i32 : Option ℕ → ScVal
    scv_u64 : Option ℕ → ScVal
    scv_i64 : Option Int64 → ScVal
    scv_timepoint : Option ℕ → ScVal
    scv_duration : Option ℕ → ScVal
    scv_u128 : Option UInt128Parts → ScVal
    scv_i128 : Option Int128Parts → ScVal
    scv_u256 : Option UInt256Parts → ScVal
    scv_i256 : Option Int256Parts → ScVal
    scv_bytes : Option Bytes → ScVal
    scv_string : Option Bytes → ScVal
    scv_symbol : Option Bytes → ScVal
    scv_vec : VecArm → ScVal
    scv_map : MapArm → ScVal
    scv_address : Option ScAddress → ScVal
    scv_contract_instance : InstanceArm → ScVal
    scv_ledger_key_contract_instance : ScVal
    scv_ledger_key_nonce : Option Int64 → ScVal
    other_scv : ℕ → ScVal

  -- A pointer to a pointer to a vector; `no_items` is a nil inner pointer.
  pub data VecArm : Type 0 where
    nil_vec : VecArm
    no_items : VecArm
    items : Items → VecArm

  pub data Items : Type 0 where
    nil : Items
    cons : ScVal → Items → Items

  pub data MapArm : Type 0 where
    nil_map : MapArm
    no_entries : MapArm
    entries : Entries → MapArm

  pub data Entries : Type 0 where
    end : Entries
    entry : ScVal → ScVal → Entries → Entries

  -- A contract instance, with its storage if it has one.
  pub data InstanceArm : Type 0 where
    nil_instance : InstanceArm
    bare_instance : ContractExecutable → InstanceArm
    instance_with : ContractExecutable → Entries → InstanceArm

abbrev pub items_of : List ScVal → Items
items_of [] = nil
items_of (v ∷ vs) = cons v (items_of vs)

abbrev pub item_list : Items → List ScVal
item_list nil = []
item_list (cons v vs) = v ∷ item_list vs

abbrev pub entry_list : Entries → List (ScVal × ScVal)
entry_list end = []
entry_list (entry k v es) = (k, v) ∷ entry_list es

abbrev pub entries_of : List (ScVal × ScVal) → Entries
entries_of [] = end
entries_of ((k, v) ∷ es) = entry k v (entries_of es)
