-- ===== src/Txm/Status.antt =====
-- What the status updates of relayer/txm/txm.go do to one transaction.
use chainlink_stellar.Prelude.{ℕ, ◌≡◌, true, some, arith, is_some, String_equality}
use chainlink_stellar.TxStore.{TxRef}
use chainlink_stellar.Txm.{
  Txm, Settings, TransactionStatus, is_terminal_status, update_transaction_status,
}

-- A waiter on the transaction is released, and its outcome is final.
pub record IsSettled (r : TxRef) (s : Txm) : Type 0 where
  pub terminal : is_terminal_status (s.heap r).status ≡ true
  pub done : (s.heap r).done ≡ true
  pub stamped : is_some (s.heap r).terminal_time ≡ true

module _ (c : Settings) where
  -- A terminal status closes `Done` and stamps the transaction.
  pub update_transaction_status-IsSettled :
      (now : ℕ) (r : TxRef) (status : TransactionStatus) (s : Txm)
      → is_terminal_status status ≡ true
      → IsSettled r (update_transaction_status c now r status s)
  unfolding update_transaction_status
  update_transaction_status-IsSettled now r status s h = ground arith

  -- A later terminal status leaves the time of the first one.
  pub update_transaction_status_first_time :
      (now : ℕ) (r : TxRef) (status : TransactionStatus) (s : Txm) (since : ℕ)
      → (s.heap r).terminal_time ≡ some since
      → ((update_transaction_status c now r status s).heap r).terminal_time ≡ some since
  unfolding update_transaction_status
  update_transaction_status_first_time now r status s since h = ground arith
