-- ===== src/TxStore.antt =====
-- relayer/txm/txstore.go: the sequence numbers and in-flight transactions of one Stellar account.
-- A Go map is an association list; a method that mutates the store returns the new one, and every
-- method is atomic, since it holds the lock from its first line to its last.
pub mod Sequence
pub mod Invariant
pub mod Steps
pub mod Fresh
pub mod Snapshot
pub mod Races
pub mod Reissue
mod Tests
use Prim.Native.Nat.{min}
use chainlink_stellar.Prelude.{
  ℕ, ◌+◌, ◌≤◌, String, Bool, true, false, Option, some, none, List, [], ◌∷◌, map, ◌==◌, ltb, leb,
  not, ◌&&◌, if◌then◌else◌, Result, ok, err, length, ℕ_equality, String_equality,
}
use chainlink_stellar.Prelude.Int64.{Int64, int64, add}
use chainlink_stellar.Prelude.Map.{Map, get, put, delete}
use chainlink_stellar.Prelude.Sort.{sort}

-- The address of a `StellarTx`, which the store holds by pointer.
abbrev pub TxRef : Type 0
TxRef = ℕ

pub record UnconfirmedTx : Type 0 where
  pub sequence : Int64
  pub hash : String
  pub max_ledger : ℕ  -- uint32
  pub tx : TxRef

pub record TxStore : Type 0 where
  pub next_sequence : Int64
  pub unconfirmed_sequences : Map Int64 UnconfirmedTx
  pub failed_sequences : Map Int64 (Unit {0})
  pub last_onchain_sequence : Int64

unfoldable pub new_tx_store : Int64 → TxStore
new_tx_store initial = record {
  next_sequence = initial;
  unconfirmed_sequences = [];
  failed_sequences = [];
  last_onchain_sequence = initial;
}

-- The first loop of `ResyncNonce`: the recycled sequences that the chain has passed.
unfoldable pub bad_failed_seqs : Int64 → Map Int64 (Unit {0}) → List Int64
bad_failed_seqs n [] = []
bad_failed_seqs n ((seq, u) ∷ m) =
    if leb n seq then bad_failed_seqs n m else seq ∷ bad_failed_seqs n m

-- The second loop.
unfoldable pub delete_all : List Int64 → Map Int64 (Unit {0}) → Map Int64 (Unit {0})
delete_all [] m = m
delete_all (seq ∷ seqs) m = delete_all seqs (delete seq m)

unfoldable pub resync_nonce : Int64 → TxStore → TxStore
unfolding bad_failed_seqs delete_all
resync_nonce n s = record s {
  failed_sequences = delete_all (bad_failed_seqs n s.failed_sequences) s.failed_sequences;
  next_sequence = if ltb s.next_sequence n then n else s.next_sequence;
  last_onchain_sequence = n;
}

unfoldable pub get_last_resynced_nonce : TxStore → Int64
get_last_resynced_nonce s = s.last_onchain_sequence

-- The loop of `GetNextSequence`.
unfoldable pub min_failed : Int64 → Map Int64 (Unit {0}) → Int64
min_failed next [] = next
min_failed next ((seq, u) ∷ m) = min_failed (min next seq) m

unfoldable pub get_next_sequence : TxStore → Int64
unfolding min_failed
get_next_sequence s = min_failed s.next_sequence s.failed_sequences

pub data StoreError : Type 0 where
  sequence_used : Int64 → String → String → StoreError
  old_sequence future_sequence : Int64 → Int64 → StoreError
  no_such_sequence : Int64 → StoreError
  unexpected_hash : String → String → StoreError

-- The part of `AddUnconfirmed` behind its checks.
unfoldable pub track : Int64 → String → ℕ → TxRef → TxStore → TxStore
track seq hash max_ledger tx s = record s {
  unconfirmed_sequences =
      put seq (record { sequence = seq; hash = hash; max_ledger = max_ledger; tx = tx })
        s.unconfirmed_sequences;
}

unfoldable pub add_unconfirmed : Int64 → String → ℕ → TxRef → TxStore → Result StoreError TxStore
unfolding track
add_unconfirmed seq hash max_ledger tx s = elim (get seq s.unconfirmed_sequences) [
  | some existing ↦ err (sequence_used seq hash existing.hash)
  | none ↦ elim (get seq s.failed_sequences) [
    | none ↦
        if ltb seq s.next_sequence
        then err (old_sequence s.next_sequence seq)
        else if ltb s.next_sequence seq
        then err (future_sequence s.next_sequence seq)
        else ok (
            track seq hash max_ledger tx
              (record s { next_sequence = add s.next_sequence (int64 1) }))
    | some _ ↦ ok (
        track seq hash max_ledger tx
          (record s { failed_sequences = delete seq s.failed_sequences }))
  ]
]

unfoldable pub confirm : Int64 → String → Bool → TxStore → Result StoreError TxStore
confirm seq hash failed s = elim (get seq s.unconfirmed_sequences) [
  | none ↦ err (no_such_sequence seq)
  | some unconfirmed ↦
      if not (unconfirmed.hash == hash)
      then err (unexpected_hash unconfirmed.hash hash)
      else ok (record s {
        unconfirmed_sequences = delete seq s.unconfirmed_sequences;
        failed_sequences =
            if failed && leb s.last_onchain_sequence seq
            then put seq tt s.failed_sequences
            else s.failed_sequences;
      })
]

unfoldable pub release : Int64 → TxStore → TxStore
release seq s = record s {
  unconfirmed_sequences = delete seq s.unconfirmed_sequences;
  failed_sequences =
      if leb s.last_onchain_sequence seq then put seq tt s.failed_sequences else s.failed_sequences;
}

abbrev pub values : Map Int64 UnconfirmedTx → List UnconfirmedTx
values = map λ e. e.1

unfoldable pub get_unconfirmed : TxStore → List UnconfirmedTx
get_unconfirmed s = sort (λ (u : UnconfirmedTx). u.sequence) (values s.unconfirmed_sequences)

unfoldable pub inflight_count : TxStore → ℕ
inflight_count s = length s.unconfirmed_sequences
