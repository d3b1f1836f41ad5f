-- ===== src/TxStore/Races.antt =====
-- Between `GetNextSequence` and `AddUnconfirmed` of relayer/txm/txstore.go the store is unlocked,
-- and the confirm loop may call `Confirm`.
use chainlink_stellar.Prelude.{
  ℕ, ◌<◌, ◌≡◌, Bool, String, some, none, arith, ok, Option-cases, inl, inr, ◌⊎◌, ℕ_equality,
  String_equality,
}
use chainlink_stellar.Prelude.Int64.{Int64, int64, add}
use chainlink_stellar.Prelude.Map.{get, delete, get-put, get-delete, get-put_self}
use chainlink_stellar.TxStore.{
  TxRef, UnconfirmedTx, TxStore, track, get_next_sequence, add_unconfirmed, confirm, release,
  resync_nonce,
}
use chainlink_stellar.TxStore.Sequence.{get_next_sequence_cases, get-resync_nonce}
use chainlink_stellar.TxStore.Invariant.{IsValid, confirm_found}
use chainlink_stellar.TxStore.Fresh.{IsTight, entry, get_next_sequence_fresh}

pub confirm-IsTight :
    (k : Int64) (hash : String) (failed : Bool) (s : TxStore) {t : TxStore}
    → IsTight s
    → confirm k hash failed s ≡ ok t
    → IsTight t
unfolding confirm
confirm-IsTight k hash failed s tight e = record {
  failed_lt = λ j h. ground (
    arith,
    get-put k j tt s.failed_sequences,
    tight.failed_lt j,
    tight.inflight_lt k found.0 found.1,
  );
  inflight_lt =
      λ j u h. ground (arith, get-delete k j s.unconfirmed_sequences, tight.inflight_lt j u);
}
  where
    found : (u : UnconfirmedTx) × (get k s.unconfirmed_sequences ≡ some u)
    found = confirm_found k hash failed s e

pub resync_nonce-IsTight : (n : Int64) (s : TxStore) → IsTight s → IsTight (resync_nonce n s)
unfolding resync_nonce
resync_nonce-IsTight n s tight = record {
  failed_lt = λ j h. ground (arith, get-resync_nonce j n s, tight.failed_lt j);
  inflight_lt = λ j u h. ground (arith, tight.inflight_lt j u);
}

-- `Release` keeps a store tight when the released sequence lies below the next one.
pub release-IsTight :
    (k : Int64) (s : TxStore) → k < s.next_sequence → IsTight s → IsTight (release k s)
unfolding release
release-IsTight k s lt tight = record {
  failed_lt = λ j h. ground (arith, get-put k j tt s.failed_sequences, tight.failed_lt j);
  inflight_lt =
      λ j u h. ground (arith, get-delete k j s.unconfirmed_sequences, tight.inflight_lt j u);
}

-- `AddUnconfirmed` accepts the next sequence, and a recycled one, that is not in flight.
add_unconfirmed_free :
    (s : TxStore) (seq : Int64) (hash : String) (l : ℕ) (tx : TxRef)
    → get seq s.unconfirmed_sequences ≡ none
    → (seq ≡ s.next_sequence) ⊎ (get seq s.failed_sequences ≡ some tt)
    → (t : TxStore) × (add_unconfirmed seq hash l tx s ≡ ok t)
      × (get seq t.unconfirmed_sequences ≡ some (entry seq hash l tx))
unfolding add_unconfirmed
add_unconfirmed_free s seq hash l tx free offered =
    elim (Option-cases (get seq s.failed_sequences)) [
      | inl fresh ↦ (
        track seq hash l tx (record s { next_sequence = add s.next_sequence (int64 1) }),
        ground arith,
        get-put_self seq _ s.unconfirmed_sequences,
      )
      | inr (u, old) ↦ (
        track seq hash l tx (record s { failed_sequences = delete seq s.failed_sequences }),
        ground arith,
        get-put_self seq _ s.unconfirmed_sequences,
      )
    ]

-- A sequence stays good across a `Confirm` of another goroutine, whether that transaction was
-- included or expired: it is still recorded without error, under the transaction that it was
-- handed out for.
pub add_unconfirmed-confirm :
    (s t : TxStore) (k : Int64) (other : String) (failed : Bool) (hash : String) (max_ledger : ℕ)
    (tx : TxRef)
    → IsValid s
    → IsTight s
    → confirm k other failed s ≡ ok t
    → (u : TxStore) × (add_unconfirmed (get_next_sequence s) hash max_ledger tx t ≡ ok u)
      × (get (get_next_sequence s) u.unconfirmed_sequences
          ≡ some (entry (get_next_sequence s) hash max_ledger tx))
unfolding confirm
add_unconfirmed-confirm s t k other failed hash l tx v tight e =
    add_unconfirmed_free t seq hash l tx
      (ground (arith, get-delete k seq s.unconfirmed_sequences, get_next_sequence_fresh s v tight))
      (elim (get_next_sequence_cases s) [
        | inl last ↦ inl (ground arith)
        | inr recycled ↦ inr (ground (arith, get-put k seq tt s.failed_sequences))
      ])
  where
    seq : Int64
    seq = get_next_sequence s
