-- ===== src/TxStore/Fresh.antt =====
-- Handing out a sequence and recording the transaction under it: `GetNextSequence` and
-- `AddUnconfirmed` of relayer/txm/txstore.go, and what `Release` of an unused sequence does to them.
use chainlink_stellar.Prelude.{
  ℕ, ◌+◌, ◌^◌, ◌≤◌, ◌<◌, ◌≡◌, String, some, none, arith, ok, Option-cases, inl, inr, ◌⊎◌,
  ℕ_equality, String_equality,
}
use chainlink_stellar.Prelude.Int64.{Int64}
use chainlink_stellar.Prelude.Map.{get, delete, get-put, get-delete, get-put_self}
use chainlink_stellar.TxStore.{
  TxRef, UnconfirmedTx, TxStore, get_next_sequence, add_unconfirmed, track,
}
use chainlink_stellar.TxStore.Sequence.{get_next_sequence-le_failed, get_next_sequence_cases}
use chainlink_stellar.TxStore.Invariant.{IsValid}

-- Every sequence that the store knows lies below the next one.
pub record IsTight (s : TxStore) : Type 0 where
  pub failed_lt : (k : Int64) → get k s.failed_sequences ≡ some tt → k < s.next_sequence
  pub inflight_lt :
      (k : Int64) (u : UnconfirmedTx) → get k s.unconfirmed_sequences ≡ some u → k < s.next_sequence

abbrev pub entry : Int64 → String → ℕ → TxRef → UnconfirmedTx
entry seq hash l tx = record { sequence = seq; hash = hash; max_ledger = l; tx = tx }

-- In a tight store the sequence that is handed out is not in flight.
pub get_next_sequence_fresh :
    (s : TxStore) → IsValid s → IsTight s → get (get_next_sequence s) s.unconfirmed_sequences ≡ none
get_next_sequence_fresh s v t = elim (get_next_sequence_cases s) [
  | inl e ↦ elim (Option-cases (get (get_next_sequence s) s.unconfirmed_sequences)) [
    | inl free ↦ free
    | inr (u, taken) ↦ absurd (omega (arith, t.inflight_lt _ u taken))
  ]
  | inr recycled ↦ v.disjoint _ recycled
]

lt-get_next_sequence :
    (t : TxStore) (n : Int64)
    → n < t.next_sequence
    → ((k : Int64) → get k t.failed_sequences ≡ some tt → n < k)
    → n < get_next_sequence t
lt-get_next_sequence t n below above = elim (get_next_sequence_cases t) [
  | inl e ↦ omega arith
  | inr recycled ↦ above _ recycled
]

-- What `AddUnconfirmed` of a sequence promises of the store that it leaves.
pub record IsRecorded (seq : Int64) (hash : String) (max_ledger : ℕ) (tx : TxRef) (t : TxStore)
    : Type 0 where
  pub tight : IsTight t
  pub tracked : get seq t.unconfirmed_sequences ≡ some (entry seq hash max_ledger tx)
  pub advanced : seq < get_next_sequence t

record_new :
    (s : TxStore) (seq : Int64) (hash : String) (l : ℕ) (tx : TxRef)
    → IsTight s
    → seq ≡ s.next_sequence
    → ((k : Int64) → get k s.failed_sequences ≡ some tt → seq ≤ k)
    → get seq s.failed_sequences ≡ none
    → IsRecorded seq hash l tx
        (track seq hash l tx (record s { next_sequence = s.next_sequence + 1 }))
unfolding track
record_new s seq hash l tx t e least fresh = record {
  tight = record {
    failed_lt = λ k h. omega (arith, t.failed_lt k h);
    inflight_lt = λ k u h.
        ground
          (arith, get-put seq k (entry seq hash l tx) s.unconfirmed_sequences, t.inflight_lt k u);
  };
  tracked = get-put_self seq _ s.unconfirmed_sequences;
  advanced =
      lt-get_next_sequence _ seq (omega arith)
        (λ k h. absurd (omega (arith, t.failed_lt k h, least k h)));
}

record_recycled :
    (s : TxStore) (seq : Int64) (hash : String) (l : ℕ) (tx : TxRef)
    → IsTight s
    → ((k : Int64) → get k s.failed_sequences ≡ some tt → seq ≤ k)
    → get seq s.failed_sequences ≡ some tt
    → IsRecorded seq hash l tx
        (track seq hash l tx (record s { failed_sequences = delete seq s.failed_sequences }))
unfolding track
record_recycled s seq hash l tx t least old = record {
  tight = record {
    failed_lt = λ k h. ground (arith, get-delete seq k s.failed_sequences, t.failed_lt k);
    inflight_lt = λ k u h. ground (
      arith,
      get-put seq k (entry seq hash l tx) s.unconfirmed_sequences,
      t.inflight_lt k u,
      t.failed_lt seq old,
    );
  };
  tracked = get-put_self seq _ s.unconfirmed_sequences;
  advanced =
      lt-get_next_sequence _ seq (t.failed_lt seq old)
        (λ k h. ground (arith, get-delete seq k s.failed_sequences, least k));
}

-- In a tight store below the largest int64 `AddUnconfirmed` accepts a sequence that is not in
-- flight and is the next one or the least recycled one.
pub accepts :
    (s : TxStore) (seq : Int64) (hash : String) (l : ℕ) (tx : TxRef)
    → IsTight s
    → s.next_sequence + 1 < 2 ^ 64
    → get seq s.unconfirmed_sequences ≡ none
    → ((k : Int64) → get k s.failed_sequences ≡ some tt → seq ≤ k)
    → ((seq ≡ s.next_sequence) ⊎ (get seq s.failed_sequences ≡ some tt))
    → (t : TxStore) × (add_unconfirmed seq hash l tx s ≡ ok t) × IsRecorded seq hash l tx t
unfolding add_unconfirmed
accepts s seq hash l tx t r free least (inl e) = elim (Option-cases (get seq s.failed_sequences)) [
  | inl fresh ↦ (
    track seq hash l tx (record s { next_sequence = s.next_sequence + 1 }),
    ground arith,
    record_new s seq hash l tx t e least fresh,
  )
  | inr (u, old) ↦ absurd (omega (arith, t.failed_lt seq old))
]
accepts s seq hash l tx t r free least (inr old) = (
  track seq hash l tx (record s { failed_sequences = delete seq s.failed_sequences }),
  ground arith,
  record_recycled s seq hash l tx t least old,
)

-- The sequence that a tight store hands out is recorded without error; the store stays tight, and
-- the sequence that it hands out next is greater.
pub add_unconfirmed-get_next_sequence :
    (s : TxStore) (hash : String) (max_ledger : ℕ) (tx : TxRef)
    → IsValid s
    → IsTight s
    → s.next_sequence + 1 < 2 ^ 64
    → (t : TxStore) × (add_unconfirmed (get_next_sequence s) hash max_ledger tx s ≡ ok t)
      × IsRecorded (get_next_sequence s) hash max_ledger tx t
add_unconfirmed-get_next_sequence s hash l tx v t r =
    accepts s (get_next_sequence s) hash l tx t r (get_next_sequence_fresh s v t)
      (get_next_sequence-le_failed s) (get_next_sequence_cases s)
