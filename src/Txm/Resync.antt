-- ===== src/Txm/Resync.antt =====
-- relayer/txm/txm.go, `resyncSequence`: what a resync does to the stores.
use chainlink_stellar.Prelude.{◌≤◌, ◌≡◌, refl, true, String, some, inl, inr, String_equality}
use chainlink_stellar.Prelude.Int64.{Int64, int64, add}
use chainlink_stellar.Prelude.Map.{get, put, get-put_self}
use chainlink_stellar.TxStore.{TxRef, TxStore, resync_nonce, get_next_sequence}
use chainlink_stellar.TxStore.Sequence.{get_next_sequence_cases}
use chainlink_stellar.TxStore.Invariant.{IsValid, resync_nonce-IsValid}
use chainlink_stellar.AccountStore.{update_store, get_tx_store}
use chainlink_stellar.Txm.{Txm}
use chainlink_stellar.Txm.Network.{Network}
use chainlink_stellar.Txm.Sdk.{Sdk}
use chainlink_stellar.Txm.Account.{next_sequence_in, get_sequence_number, resync_sequence}

-- A resynced store hands out nothing that the chain has used.
le-get_next_sequence :
    (n : Int64) (store : TxStore) → IsValid store → n ≤ get_next_sequence (resync_nonce n store)
unfolding resync_nonce
le-get_next_sequence n store v =
    let v' = resync_nonce-IsValid n store v in
    elim (get_next_sequence_cases (resync_nonce n store)) [
      | inl e ↦ rw e v'.onchain_le
      | inr recycled ↦ v'.failed_recent _ recycled
    ]

module _ (net : Network) (sdk : Sdk net.World) where
  -- The manager after a resync that has found the store and the chain's answer.
  resynced : Txm → String → Int64 → TxStore → Txm
  resynced s account n store = record s {
    account_store = put account (resync_nonce n store) s.account_store;
  }

  resync_sequence-resynced :
      (r : TxRef) (s : Txm) (w : net.World) (store : TxStore) (seq_num : Int64)
      → get (s.heap r).from_address s.account_store ≡ some store
      → (get_sequence_number net sdk (s.heap r).from_address w).0 ≡ some seq_num
      → resync_sequence net sdk r s w ≡ (
        true,
        resynced s (s.heap r).from_address (add seq_num (int64 1)) store,
        (get_sequence_number net sdk (s.heap r).from_address w).1,
      )
  unfolding resync_sequence get_tx_store update_store resynced
  resync_sequence-resynced r s w store seq_num e answer =
      rw (answer, resync_sequence) (rw (e, resync_sequence) (rw (e, update_store) refl))

  -- When the chain answers with the last used sequence of an account whose store is valid, the
  -- resync succeeds; the store is then valid, has the same transactions in flight, and hands out a
  -- sequence that is at least the one after the chain's.
  pub resync_sequence_lem :
      (r : TxRef) (s : Txm) (w : net.World) (store : TxStore) (seq_num : Int64)
      → get (s.heap r).from_address s.account_store ≡ some store
      → IsValid store
      → (get_sequence_number net sdk (s.heap r).from_address w).0 ≡ some seq_num
      → let account = (s.heap r).from_address in
        let (synced, t, w') = resync_sequence net sdk r s w in
        (synced ≡ true)
        × (add seq_num (int64 1) ≤ next_sequence_in account t)
        × ((store' : TxStore) × (get account t.account_store ≡ some store')
            × IsValid store'
            × (store'.unconfirmed_sequences ≡ store.unconfirmed_sequences))
  unfolding get_tx_store next_sequence_in resync_nonce resynced
  resync_sequence_lem r s w store seq_num e v answer =
      let n = add seq_num (int64 1) in
      let found = get-put_self (s.heap r).from_address (resync_nonce n store) s.account_store in
      rw (resync_sequence-resynced r s w store seq_num e answer) (
        refl,
        rw (found, next_sequence_in) (le-get_next_sequence n store v),
        (resync_nonce n store, found, resync_nonce-IsValid n store v, refl),
      )
