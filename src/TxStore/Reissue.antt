-- ===== src/TxStore/Reissue.antt =====
-- `Release` of relayer/txm/txstore.go for a sequence that was handed out and never recorded: that
-- sequence is still the next one, and the release also files it for reuse.
use chainlink_stellar.Prelude.{
  ℕ, ◌≤◌, ◌≡◌, String, some, none, arith, ok, err, inl, inr, ℕ_equality, String_equality,
}
use chainlink_stellar.Prelude.Int64.{Int64}
use chainlink_stellar.Prelude.Map.{get, delete, get-put, get-delete, get-put_self, get-delete_self}
use chainlink_stellar.TxStore.{
  TxRef, UnconfirmedTx, TxStore, track, get_next_sequence, add_unconfirmed, release, sequence_used,
}
use chainlink_stellar.TxStore.Sequence.{
  get_next_sequence_cases, get_next_sequence-le, get_next_sequence-le_failed,
}
use chainlink_stellar.TxStore.Invariant.{IsValid}
use chainlink_stellar.TxStore.Fresh.{entry}

-- The store after the next sequence is released unused and then recorded for a transaction.
reissued : Int64 → String → ℕ → TxRef → TxStore → TxStore
reissued seq hash l tx s =
    track seq hash l tx
      (record (release seq s) { failed_sequences = delete seq (release seq s).failed_sequences })

eq_of_le :
    (s : TxStore) (n : Int64)
    → n ≡ s.next_sequence
    → ((k : Int64) → get k s.failed_sequences ≡ some tt → n ≤ k)
    → get_next_sequence s ≡ n
eq_of_le s n e least = elim (get_next_sequence_cases s) [
  | inl last ↦ omega arith
  | inr recycled ↦ omega (arith, least _ recycled, get_next_sequence-le s)
]

module _ (s : TxStore) (v : IsValid s) (last : get_next_sequence s ≡ s.next_sequence) where
  release_free :
      get (get_next_sequence s) (release (get_next_sequence s) s).unconfirmed_sequences ≡ none
  unfolding release
  release_free = get-delete_self (get_next_sequence s) s.unconfirmed_sequences

  -- The released sequence is filed for reuse.
  release_filed :
      get (get_next_sequence s) (release (get_next_sequence s) s).failed_sequences ≡ some tt
  unfolding release
  release_filed =
      ground (arith, v.onchain_le, get-put_self (get_next_sequence s) tt s.failed_sequences)

  release-next : get_next_sequence (release (get_next_sequence s) s) ≡ get_next_sequence s
  unfolding release
  release-next = eq_of_le (release (get_next_sequence s) s) (get_next_sequence s) last λ k h.
      ground (
        arith,
        get-put (get_next_sequence s) k tt s.failed_sequences,
        get_next_sequence-le_failed s k,
      )

  reissued-next :
      (hash : String) (l : ℕ) (tx : TxRef)
      → get_next_sequence (reissued (get_next_sequence s) hash l tx s) ≡ get_next_sequence s
  unfolding release reissued track
  reissued-next hash l tx =
      eq_of_le (reissued (get_next_sequence s) hash l tx s) (get_next_sequence s) last λ k h.
        ground (
          arith,
          get-delete (get_next_sequence s) k (release (get_next_sequence s) s).failed_sequences,
          get-put (get_next_sequence s) k tt s.failed_sequences,
          get_next_sequence-le_failed s k,
        )

  add_unconfirmed-release :
      (hash : String) (l : ℕ) (tx : TxRef)
      → add_unconfirmed (get_next_sequence s) hash l tx (release (get_next_sequence s) s)
        ≡ ok (reissued (get_next_sequence s) hash l tx s)
  unfolding add_unconfirmed reissued
  add_unconfirmed-release hash l tx = ground (arith, release_free, release_filed)

reissued_tracked :
    (seq : Int64) (hash : String) (l : ℕ) (tx : TxRef) (s : TxStore)
    → get seq (reissued seq hash l tx s).unconfirmed_sequences ≡ some (entry seq hash l tx)
unfolding reissued track
reissued_tracked seq hash l tx s = get-put_self seq _ (release seq s).unconfirmed_sequences

add_unconfirmed_used :
    (seq : Int64) (hash : String) (l : ℕ) (tx : TxRef) (t : TxStore) {u : UnconfirmedTx}
    → get seq t.unconfirmed_sequences ≡ some u
    → add_unconfirmed seq hash l tx t ≡ err (sequence_used seq hash u.hash)
unfolding add_unconfirmed
add_unconfirmed_used seq hash l tx t h = ground arith

-- When the sequence that a well-formed store hands out is its next one and is released
-- unused, the transaction that is recorded under it afterwards does not advance the store: the
-- same sequence is handed out again while it is in flight. A third transaction is refused under
-- it, and the release that answers the refusal removes the second one from the store.
pub release_reissues :
    (s : TxStore) (hash : String) (max_ledger : ℕ) (tx : TxRef) (hash' : String) (max_ledger' : ℕ)
    (tx' : TxRef)
    → IsValid s
    → get_next_sequence s ≡ s.next_sequence
    → let seq = get_next_sequence s in
      (t : TxStore) × (add_unconfirmed
          (get_next_sequence (release seq s))
          hash
          max_ledger
          tx
          (release seq s)
        ≡ ok t)
      × (get seq t.unconfirmed_sequences ≡ some (entry seq hash max_ledger tx))
      × (get_next_sequence t ≡ seq)
      × (add_unconfirmed seq hash' max_ledger' tx' t ≡ err (sequence_used seq hash' hash))
      × (get seq (release seq t).unconfirmed_sequences ≡ none)
unfolding release
release_reissues s hash l tx hash' l' tx' v last = (
  reissued seq hash l tx s,
  rw (release-next s v last) (add_unconfirmed-release s v last hash l tx),
  reissued_tracked seq hash l tx s,
  reissued-next s v last hash l tx,
  add_unconfirmed_used seq hash' l' tx' (reissued seq hash l tx s)
      (reissued_tracked seq hash l tx s),
  get-delete_self seq (reissued seq hash l tx s).unconfirmed_sequences,
)
  where
    seq : Int64
    seq = get_next_sequence s
