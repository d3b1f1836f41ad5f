-- ===== src/TxStore/Invariant.antt =====
-- What holds of a store between two calls of the methods of relayer/txm/txstore.go.
use chainlink_stellar.Prelude.{
  ℕ, ◌+◌, ◌^◌, ◌≤◌, ◌<◌, ◌≡◌, Bool, String, some, none, arith, ok, ℕ_equality, String_equality,
  Option-cases, inl, inr,
}
use chainlink_stellar.Prelude.Int64.{Int64}
use chainlink_stellar.Prelude.Map.{Unique, get, get-put, get-delete, put-Unique, delete-Unique}
use chainlink_stellar.TxStore.{
  TxRef, UnconfirmedTx, TxStore, new_tx_store, resync_nonce, add_unconfirmed, confirm, release,
}
use chainlink_stellar.TxStore.Sequence.{get-resync_nonce}

-- Each in-flight transaction is filed under its own sequence, which is not recycled; a recycled
-- sequence lies between the last resync and the next sequence.
pub record IsValid (s : TxStore) : Type 0 where
  pub keyed :
      (k : Int64) (u : UnconfirmedTx) → get k s.unconfirmed_sequences ≡ some u → u.sequence ≡ k
  pub disjoint :
      (k : Int64) → get k s.failed_sequences ≡ some tt → get k s.unconfirmed_sequences ≡ none
  pub failed_recent : (k : Int64) → get k s.failed_sequences ≡ some tt → s.last_onchain_sequence ≤ k
  pub failed_le : (k : Int64) → get k s.failed_sequences ≡ some tt → k ≤ s.next_sequence
  pub inflight_le :
      (k : Int64) (u : UnconfirmedTx) → get k s.unconfirmed_sequences ≡ some u → k ≤ s.next_sequence
  pub onchain_le : s.last_onchain_sequence ≤ s.next_sequence
  pub unique : Unique s.unconfirmed_sequences

pub new_tx_store-IsValid : (n : Int64) → IsValid (new_tx_store n)
unfolding new_tx_store get
new_tx_store-IsValid n = record {
  keyed = λ k u h. cc;
  disjoint = λ k h. cc;
  failed_recent = λ k h. cc;
  failed_le = λ k h. cc;
  inflight_le = λ k u h. cc;
  onchain_le = omega arith;
  unique = tt;
}

pub resync_nonce-IsValid : (n : Int64) (s : TxStore) → IsValid s → IsValid (resync_nonce n s)
unfolding resync_nonce
resync_nonce-IsValid n s v = record {
  keyed = v.keyed;
  disjoint = λ k h. ground (arith, get-resync_nonce k n s, v.disjoint k);
  failed_recent = λ k h. ground (arith, get-resync_nonce k n s);
  failed_le = λ k h. ground (arith, get-resync_nonce k n s, v.failed_le k);
  inflight_le = λ k u h. ground (arith, v.inflight_le k u);
  onchain_le = ground arith;
  unique = v.unique;
}

pub release-IsValid :
    (n : Int64) (s : TxStore) → n ≤ s.next_sequence → IsValid s → IsValid (release n s)
unfolding release
release-IsValid n s le v = record {
  keyed = λ k u h. ground (arith, get-delete n k s.unconfirmed_sequences, v.keyed k u);
  disjoint = λ k h. ground (
    arith,
    get-delete n k s.unconfirmed_sequences,
    get-put n k tt s.failed_sequences,
    v.disjoint k,
  );
  failed_recent = λ k h. ground (arith, get-put n k tt s.failed_sequences, v.failed_recent k);
  failed_le = λ k h. ground (arith, get-put n k tt s.failed_sequences, v.failed_le k);
  inflight_le = λ k u h. ground (arith, get-delete n k s.unconfirmed_sequences, v.inflight_le k u);
  onchain_le = v.onchain_le;
  unique = delete-Unique n s.unconfirmed_sequences v.unique;
}

-- A successful `Confirm` found its transaction in flight.
pub confirm_found :
    (n : Int64) (hash : String) (failed : Bool) (s : TxStore) {t : TxStore}
    → confirm n hash failed s ≡ ok t
    → (u : UnconfirmedTx) × (get n s.unconfirmed_sequences ≡ some u)
unfolding confirm
confirm_found n hash failed s e = elim (Option-cases (get n s.unconfirmed_sequences)) [
  | inl no_entry ↦ absurd (ground arith)
  | inr found ↦ found
]

pub confirm-IsValid :
    (n : Int64) (hash : String) (failed : Bool) (s t : TxStore)
    → IsValid s
    → confirm n hash failed s ≡ ok t
    → IsValid t
unfolding confirm
confirm-IsValid n hash failed s t v e = record {
  keyed = λ k u h. ground (arith, get-delete n k s.unconfirmed_sequences, v.keyed k u);
  disjoint = λ k h. ground (
    arith,
    get-delete n k s.unconfirmed_sequences,
    get-put n k tt s.failed_sequences,
    v.disjoint k,
  );
  failed_recent = λ k h. ground (arith, get-put n k tt s.failed_sequences, v.failed_recent k);
  failed_le = λ k h.
      ground
        (arith, get-put n k tt s.failed_sequences, v.failed_le k, v.inflight_le n found.0 found.1);
  inflight_le = λ k u h. ground (arith, get-delete n k s.unconfirmed_sequences, v.inflight_le k u);
  onchain_le = ground (arith, v.onchain_le);
  unique = ground (arith, delete-Unique n s.unconfirmed_sequences v.unique);
}
  where
    found : (u : UnconfirmedTx) × (get n s.unconfirmed_sequences ≡ some u)
    found = confirm_found n hash failed s e

pub add_unconfirmed-IsValid :
    (n : Int64) (hash : String) (max_ledger : ℕ) (tx : TxRef) (s t : TxStore)
    → s.next_sequence + 1 < 2 ^ 64
    → IsValid s
    → add_unconfirmed n hash max_ledger tx s ≡ ok t
    → IsValid t
unfolding add_unconfirmed
add_unconfirmed-IsValid n hash l tx s t r v e = record {
  keyed = λ k u h. ground (arith, get-put n k w s.unconfirmed_sequences, v.keyed k u);
  disjoint = λ k h. ground (
    arith,
    get-put n k w s.unconfirmed_sequences,
    get-delete n k s.failed_sequences,
    v.disjoint k,
  );
  failed_recent = λ k h. ground (arith, get-delete n k s.failed_sequences, v.failed_recent k);
  failed_le = λ k h. ground (arith, get-delete n k s.failed_sequences, v.failed_le k);
  inflight_le = λ k u h.
      ground (arith, get-put n k w s.unconfirmed_sequences, v.inflight_le k u, v.failed_le n);
  onchain_le = ground (arith, v.onchain_le);
  unique = ground (arith, put-Unique n w s.unconfirmed_sequences v.unique);
}
  where
    w : UnconfirmedTx
    w = record { sequence = n; hash = hash; max_ledger = l; tx = tx }
