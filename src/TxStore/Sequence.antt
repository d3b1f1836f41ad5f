-- ===== src/TxStore/Sequence.antt =====
-- The sequence number that `GetNextSequence` of relayer/txm/txstore.go hands out, and what the
-- loops of `ResyncNonce` leave of the recycled sequences.
use Prim.Native.Nat.{min}
use chainlink_stellar.Prelude.{
  ◌≤◌, ◌≡◌, refl, ◌∙◌, ◌⊎◌, inl, inr, Bool, true, false, some, none, List, [], ◌∷◌, ◌||◌, arith,
  leb, nat_eq, if◌then◌else◌, ℕ_equality, Bool-cases,
}
use chainlink_stellar.Prelude.Int64.{Int64}
use chainlink_stellar.Prelude.Map.{Map, get, delete, get-delete}
use chainlink_stellar.TxStore.{
  TxStore, min_failed, get_next_sequence, bad_failed_seqs, delete_all, resync_nonce,
}

min_failed-le : (n : Int64) (m : Map Int64 (Unit {0})) → min_failed n m ≤ n
unfolding min_failed
min_failed-le n [] = omega arith
min_failed-le n ((seq, u) ∷ m) = omega (arith, min_failed-le (min n seq) m)

min_failed-le_key :
    (n k : Int64) (m : Map Int64 (Unit {0})) → get k m ≡ some tt → min_failed n m ≤ k
unfolding min_failed get
min_failed-le_key n k [] h = cc
min_failed-le_key n k ((seq, u) ∷ m) h =
    ground (arith, min_failed-le_key (min n seq) k m, min_failed-le (min n seq) m)

-- The loop stops at its start value or at a key of the map.
min_failed_cases :
    (n : Int64) (m : Map Int64 (Unit {0}))
    → (min_failed n m ≡ n) ⊎ (get (min_failed n m) m ≡ some tt)
unfolding min_failed get
min_failed_cases n [] = inl refl
min_failed_cases n ((seq, u) ∷ m) = ground (arith, min_failed_cases (min n seq) m)

pub get_next_sequence-le : (s : TxStore) → get_next_sequence s ≤ s.next_sequence
unfolding get_next_sequence
get_next_sequence-le s = min_failed-le s.next_sequence s.failed_sequences

pub get_next_sequence-le_failed :
    (s : TxStore) (k : Int64) → get k s.failed_sequences ≡ some tt → get_next_sequence s ≤ k
unfolding get_next_sequence
get_next_sequence-le_failed s k h = min_failed-le_key s.next_sequence k s.failed_sequences h

pub get_next_sequence_cases :
    (s : TxStore)
    → (get_next_sequence s ≡ s.next_sequence)
      ⊎ (get (get_next_sequence s) s.failed_sequences ≡ some tt)
unfolding get_next_sequence
get_next_sequence_cases s = min_failed_cases s.next_sequence s.failed_sequences

abbrev pub elem : Int64 → List Int64 → Bool
elem k [] = false
elem k (x ∷ xs) = nat_eq x k || elem k xs

get-delete_all :
    (k : Int64) (seqs : List Int64) (m : Map Int64 (Unit {0}))
    → get k (delete_all seqs m) ≡ (if elem k seqs then none else get k m)
unfolding delete_all
get-delete_all k [] m = refl
get-delete_all k (x ∷ xs) m = ground (arith, get-delete_all k xs (delete x m), get-delete x k m)

elem-bad_failed_seqs_above :
    (k n : Int64) (m : Map Int64 (Unit {0})) → leb n k ≡ true → elem k (bad_failed_seqs n m) ≡ false
unfolding bad_failed_seqs
elem-bad_failed_seqs_above k n [] h = refl
elem-bad_failed_seqs_above k n ((x, u) ∷ m) h = elim (Bool-cases (leb n x)) [
  | inl e ↦ rw e (elem-bad_failed_seqs_above k n m h)
  | inr e ↦ rw e (ground (arith, elem-bad_failed_seqs_above k n m h))
]

-- The keys that the first loop collects.
elem-bad_failed_seqs :
    (k n : Int64) (m : Map Int64 (Unit {0}))
    → (if elem k (bad_failed_seqs n m) then none else get k m) ≡ (if leb n k then get k m else none)
unfolding bad_failed_seqs get
elem-bad_failed_seqs k n [] = ground arith
elem-bad_failed_seqs k n ((x, u) ∷ m) = elim (Bool-cases (leb n x)) [
  | inl e ↦ rw e (ground (arith, elem-bad_failed_seqs k n m, elem-bad_failed_seqs_above k n m))
  | inr e ↦ rw e (ground (arith, elem-bad_failed_seqs k n m))
]

pub get-resync_nonce :
    (k n : Int64) (s : TxStore)
    → get k (resync_nonce n s).failed_sequences
      ≡ (if leb n k then get k s.failed_sequences else none)
unfolding resync_nonce
get-resync_nonce k n s =
    get-delete_all k (bad_failed_seqs n s.failed_sequences) s.failed_sequences
    ∙ elem-bad_failed_seqs k n s.failed_sequences
