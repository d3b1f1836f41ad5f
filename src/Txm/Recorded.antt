-- ===== src/Txm/Recorded.antt =====
-- relayer/txm/broadcast.go, `handleSendResult`: an accepted transaction is in the store.
use chainlink_stellar.Prelude.{
  ℕ, ◌≡◌, refl, Bool, true, false, String, Option, some, none, arith, ◌==◌, if◌then◌else◌,
  String_equality, Result, ok, err, ℕ_equality,
}
use chainlink_stellar.Prelude.Int64.{Int64}
use chainlink_stellar.Prelude.Map.{get, put, get-put_self}
use chainlink_stellar.TxStore.{TxRef, TxStore, UnconfirmedTx, StoreError, add_unconfirmed}
use chainlink_stellar.AccountStore.{get_tx_store}
use chainlink_stellar.Failure.{ErrorReason, parse_submit_error_result}
use chainlink_stellar.Txm.{
  Txm, update_transaction_hash, update_transaction_result_xdr, update_transaction_result_meta,
  update_transaction_result_code,
}
use chainlink_stellar.Txm.Network.{
  Network, SendTransactionResponse, SendStatus, tx_pending, tx_duplicate, try_again_later, tx_error,
  other_status,
}
use chainlink_stellar.Txm.Tracked.{IsTracked, tracked}
use chainlink_stellar.Txm.Sdk.{Sdk}
use chainlink_stellar.Txm.Assembly.{accept, record_hash, handle_send_result}

-- The account's store holds the transaction, under the hash that the transaction carries.
pub record IsRecorded (account : String) (r : TxRef) (s : Txm) : Type 0 where
  pub entry : UnconfirmedTx
  pub held : IsTracked account entry s
  pub entry_tx : entry.tx ≡ r
  pub entry_hash : entry.hash ≡ (s.heap r).tx_hash

add_unconfirmed_entry :
    (seq : Int64) (hash : String) (max_ledger : ℕ) (r : TxRef) (store store' : TxStore)
    → add_unconfirmed seq hash max_ledger r store ≡ ok store'
    → get seq store'.unconfirmed_sequences
      ≡ some (record { sequence = seq; hash = hash; max_ledger = max_ledger; tx = r })
unfolding add_unconfirmed
add_unconfirmed_entry seq hash l r store store' e = ground (
  arith,
  get-put_self seq (record { sequence = seq; hash = hash; max_ledger = l; tx = r })
      store.unconfirmed_sequences,
)

pub if_elim {ℓ} :
    {A : Type 0} (P : A → Type ℓ) (b : Bool) (x y : A) → P x → P y → P (if b then x else y)
if_elim P true x y h k = h
if_elim P false x y h k = k

pub if_cases {ℓ} :
    {A : Type 0} (P : A → Type ℓ) (b : Bool) (x y : A)
    → (b ≡ true → P x)
    → (b ≡ false → P y)
    → P (if b then x else y)
if_cases P true x y h k = h refl
if_cases P false x y h k = k refl

pub option_elim {ℓ} :
    {A B : Type 0} (P : B → Type ℓ) (o : Option A) (n : B) (f : A → B)
    → P n
    → ((a : A) → P (f a))
    → P (elim o [ none ↦ n | some a ↦ f a ])
option_elim P none n f h k = h
option_elim P (some a) n f h k = k a

pub result_elim {ℓ} :
    {E A B : Type 0} (P : B → Type ℓ) (o : Result E A) (n : E → B) (f : A → B)
    → ((e : E) → P (n e))
    → ((a : A) → P (f a))
    → P (elim o [ err e ↦ n e | ok a ↦ f a ])
result_elim P (err e) n f h k = h e
result_elim P (ok a) n f h k = k a

module _ (net : Network) (sdk : Sdk net.World) where
  -- What an accepting verdict says of the state.
  abbrev pub Accepted : TxRef → String → (Bool × Bool × ErrorReason) × Txm → Type 0
  Accepted r account ((accepted, fatal, reason), t) = accepted ≡ true → IsRecorded account r t

  record_hash_store :
      (r : TxRef) (hash : String) (s : Txm)
      → (record_hash net sdk r hash s).account_store ≡ s.account_store
  unfolding record_hash update_transaction_hash update_transaction_result_xdr
      update_transaction_result_meta update_transaction_result_code
  record_hash_store r hash s = refl

  record_hash_hash :
      (r : TxRef) (hash : String) (s : Txm) → hash ≡ ((record_hash net sdk r hash s).heap r).tx_hash
  unfolding record_hash update_transaction_hash update_transaction_result_xdr
      update_transaction_result_meta update_transaction_result_code
  record_hash_hash r hash s = ground arith

  accept-IsRecorded :
      (r : TxRef) (account : String) (result : SendTransactionResponse) (seq : Int64)
      (max_ledger : ℕ) (s : Txm)
      → Accepted r account (accept net sdk r account result seq max_ledger s)
  unfolding accept
  accept-IsRecorded r account result seq max_ledger s =
      if_elim (Accepted r account) (result.hash == "") _ _ (λ h. absurd (ground arith))
        (option_elim (Accepted r account) (get_tx_store account s.account_store) _ _
          (λ h. absurd (ground arith)) (λ store. stored store _ refl))
    where
      stored :
          (store : TxStore) (o : Result StoreError TxStore)
          → add_unconfirmed seq result.hash max_ledger r store ≡ o
          → Accepted r account (elim o [
            | err e ↦ ((false, true, "store_add"), s)
            | ok store' ↦ (
              (true, false, ""),
              record_hash net sdk r result.hash
                  (record s { account_store = put account store' s.account_store }),
            )
          ])
      stored store (err e) q = λ h. absurd (ground arith)
      stored store (ok store') q = λ h. record {
        entry = record { sequence = seq; hash = result.hash; max_ledger = max_ledger; tx = r };
        held =
            tracked store'
              (rw (record_hash_store r result.hash _) (get-put_self account store' s.account_store))
              (add_unconfirmed_entry seq result.hash max_ledger r store store' q);
        entry_tx = refl;
        entry_hash = record_hash_hash r result.hash _;
      }

  pub handle_send_result-IsRecorded :
      (status : SendStatus) (r : TxRef) (account : String) (result : SendTransactionResponse)
      (seq : Int64) (max_ledger : ℕ) (s : Txm)
      → Accepted r account (handle_send_result net sdk status r account result seq max_ledger s)
  unfolding handle_send_result
  handle_send_result-IsRecorded tx_pending r account result seq max_ledger s =
      accept-IsRecorded r account result seq max_ledger s
  handle_send_result-IsRecorded tx_duplicate r account result seq max_ledger s =
      accept-IsRecorded r account result seq max_ledger s
  handle_send_result-IsRecorded try_again_later r account result seq max_ledger s =
      λ h. absurd (ground arith)
  handle_send_result-IsRecorded tx_error r account result seq max_ledger s =
      option_elim (Accepted r account) (parse_submit_error_result net.xdr result.error_result_xdr) _
        _ (λ h. absurd (ground arith)) (λ code h. absurd (ground arith))
  handle_send_result-IsRecorded other_status r account result seq max_ledger s =
      λ h. absurd (ground arith)
