-- ===== src/Txm/Tracked.antt =====
-- relayer/txm/txm.go: a transaction in flight, and `Confirm` of it by the confirm loop.
use chainlink_stellar.Prelude.{
  ◌≡◌, refl, Bool, String, some, none, arith, if◌then◌else◌, String_equality, ℕ_equality, ==_refl,
  ok, ◌&&◌, leb,
}
use chainlink_stellar.Prelude.Int64.{Int64}
use chainlink_stellar.Prelude.Map.{get, put, delete, get-put_self, get-delete_self}
use chainlink_stellar.TxStore.{TxStore, UnconfirmedTx, confirm}
use chainlink_stellar.Txm.{Txm}
use chainlink_stellar.Txm.Confirm.{confirm_in}

-- The transaction waits for the confirm loop, in the store of its account.
pub data IsTracked (account : String) (u : UnconfirmedTx) (s : Txm) : Type 0 where
  tracked :
      (store : TxStore)
      → get account s.account_store ≡ some store
      → get u.sequence store.unconfirmed_sequences ≡ some u
      → IsTracked account u s

-- What `Confirm` leaves of a store in which the transaction was in flight.
confirmed : Int64 → Bool → TxStore → TxStore
confirmed seq expired store = record store {
  unconfirmed_sequences = delete seq store.unconfirmed_sequences;
  failed_sequences =
      if expired && leb store.last_onchain_sequence seq
      then put seq tt store.failed_sequences
      else store.failed_sequences;
}

confirm-tracked :
    (u : UnconfirmedTx) (expired : Bool) (store : TxStore)
    → get u.sequence store.unconfirmed_sequences ≡ some u
    → confirm u.sequence u.hash expired store ≡ ok (confirmed u.sequence expired store)
unfolding confirm confirmed
confirm-tracked u expired store f = rw (f, confirm) (rw (==_refl u.hash) refl)

-- The account's store no longer holds the sequence.
abbrev pub IsUntracked : String → Int64 → Txm → Type 0
IsUntracked account seq s =
    (store : TxStore) × (get account s.account_store ≡ some store)
    × (get seq store.unconfirmed_sequences ≡ none)

-- `Confirm` of a tracked transaction succeeds, and touches nothing but its store.
pub confirm_in-tracked :
    (account : String) (u : UnconfirmedTx) (expired : Bool) (s : Txm)
    → IsTracked account u s
    → (t : Txm) × (confirm_in account u expired s ≡ some t) × IsUntracked account u.sequence t
unfolding confirm_in confirmed
confirm_in-tracked account u expired s (tracked store e f) = (
  record s { account_store = put account (confirmed u.sequence expired store) s.account_store },
  ground (arith, confirm-tracked u expired store f),
  (
    confirmed u.sequence expired store,
    get-put_self account _ s.account_store,
    get-delete_self u.sequence store.unconfirmed_sequences,
  ),
)
