-- ===== src/Txm/Network.antt =====
-- What the transaction manager of relayer/txm uses of the outside: the clock, the RPC client, the
-- keystore and the Stellar SDK. A call takes the state of the world and returns the new one; an
-- error is `none`, or `false`. Nothing is assumed of it here.
use chainlink_stellar.Prelude.{ℕ, String, Bool, Option, List}
use chainlink_stellar.Prelude.Int64.{Int64}
use chainlink_stellar.Config.{Bytes}
use chainlink_stellar.Failure.{ResultXdr}

pub data TransactionLedgerStatus : Type 0 where
  success failed_on_chain not_found : TransactionLedgerStatus

-- `protocolrpc.GetTransactionResponse`, as far as it is read.
pub record GetTransactionResponse : Type 0 where
  pub status : TransactionLedgerStatus
  pub result_xdr : String
  pub result_meta_xdr : String
  pub ledger_close_time : Int64

pub data SendStatus : Type 0 where
  tx_pending tx_duplicate try_again_later tx_error other_status : SendStatus

pub record SendTransactionResponse : Type 0 where
  pub status : SendStatus
  pub hash : String
  pub error_result_xdr : String

pub record RestorePreamble : Type 0 where
  pub transaction_data_xdr : String
  pub min_resource_fee : Int64

-- `results` holds the `AuthXDR` of each result.
pub record SimulateTransactionResponse : Type 0 where
  pub error : Bytes
  pub transaction_data_xdr : String
  pub min_resource_fee : Int64
  pub results : List (Option (List String))
  pub restore_preamble : Option RestorePreamble

pub record Network : Type 1 where
  pub World : Type 0
  pub now : World → ℕ × World
  pub get_client : World → Bool × World
  pub get_latest_ledger : World → Option ℕ × World
  pub get_transaction : String → World → Option GetTransactionResponse × World
  pub send_transaction : String → World → Option SendTransactionResponse × World
  pub get_fee_stats : World → Option (ℕ × ℕ) × World
  pub get_ledger_entries : String → World → Option (List String) × World
  -- `select` on a timer of `SubmitRetryDelay` and the context: whether the timer fired.
  pub sleep : World → Bool × World
  -- `ctx.Err() != nil`.
  pub ctx_done : World → Bool
  pub xdr : ResultXdr
