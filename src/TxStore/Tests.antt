-- ===== src/TxStore/Tests.antt =====
-- Witnesses and tests of the store of relayer/txm/txstore.go.
use mathlib.Core.List.{Mem}
use chainlink_stellar.Prelude.{
  ◌≡◌, refl, true, some, none, [], ◌∷◌, arith, ok, err, All, ℕ_equality, String_equality,
}
use chainlink_stellar.Prelude.Int64.{Int64, int64}
use chainlink_stellar.Prelude.Map.{get, put, delete}
use chainlink_stellar.Prelude.Sort.{IsSorted}
use chainlink_stellar.TxStore.{
  UnconfirmedTx, TxStore, new_tx_store, resync_nonce, add_unconfirmed, confirm, release,
  get_next_sequence, get_unconfirmed, sequence_used, bad_failed_seqs, delete_all,
}
use chainlink_stellar.TxStore.Invariant.{IsValid, new_tx_store-IsValid}
use chainlink_stellar.TxStore.Steps.{
  History, start, added, expired, History-IsValid, History-accounts, is_accounted,
}
use chainlink_stellar.TxStore.Fresh.{IsTight, IsRecorded, entry, add_unconfirmed-get_next_sequence}
use chainlink_stellar.TxStore.Races.{add_unconfirmed-confirm}
use chainlink_stellar.TxStore.Reissue.{release_reissues}
use chainlink_stellar.TxStore.Snapshot.{get_unconfirmed_lem}

abbrev s10 : TxStore
s10 = new_tx_store (int64 10)

-- 10 and 11 in flight.
abbrev s12 : TxStore
s12 = record {
  next_sequence = int64 12;
  unconfirmed_sequences =
      (int64 10, entry (int64 10) "h10" 100 0) ∷ (int64 11, entry (int64 11) "h11" 90 1) ∷ [];
  failed_sequences = [];
  last_onchain_sequence = int64 10;
}

-- 10 expired and 11 in flight.
abbrev s12_expired : TxStore
s12_expired = record s12 {
  unconfirmed_sequences = (int64 11, entry (int64 11) "h11" 90 1) ∷ [];
  failed_sequences = (int64 10, tt) ∷ [];
}

s12-History : History (int64 10) s12 [] (int64 10)
unfolding new_tx_store add_unconfirmed get put
s12-History = added (int64 11) "h11" 90 1 (omega arith) refl (
    added
      {t = record s12 {
        next_sequence = int64 11;
        unconfirmed_sequences = (int64 10, entry (int64 10) "h10" 100 0) ∷ [];
      }}
      (int64 10) "h10" 100 0 (omega arith) refl start)

s12_expired-History : History (int64 10) s12_expired [] (int64 10)
unfolding confirm get put delete
s12_expired-History = expired {s = s12} (int64 10) "h10" refl s12-History

History-IsValid_example : IsValid s12_expired
History-IsValid_example = History-IsValid s12_expired-History

History-accounts_example : is_accounted (int64 11) s12_expired [] ≡ true
History-accounts_example =
    History-accounts (int64 11) s12_expired-History (omega arith) (omega arith)

s12_expired-IsTight : IsTight s12_expired
unfolding get
s12_expired-IsTight = record {
  failed_lt = λ k h. ground arith;
  inflight_lt = λ k u h. ground arith;
}

s12-IsTight : IsTight s12
unfolding get
s12-IsTight = record { failed_lt = λ k h. ground arith; inflight_lt = λ k u h. ground arith }

add_unconfirmed-get_next_sequence_example :
    (t : TxStore) × (add_unconfirmed (get_next_sequence s12_expired) "retry" 120 0 s12_expired
      ≡ ok t)
    × IsRecorded (get_next_sequence s12_expired) "retry" 120 0 t
add_unconfirmed-get_next_sequence_example =
    add_unconfirmed-get_next_sequence s12_expired "retry" 120 0
      (History-IsValid s12_expired-History) s12_expired-IsTight (omega arith)

add_unconfirmed-confirm_example :
    (u : TxStore) × (add_unconfirmed (get_next_sequence s12) "new" 120 2 s12_expired ≡ ok u)
    × (get (get_next_sequence s12) u.unconfirmed_sequences
        ≡ some (entry (get_next_sequence s12) "new" 120 2))
unfolding confirm get put delete
add_unconfirmed-confirm_example =
    add_unconfirmed-confirm s12 s12_expired (int64 10) "h10" true "new" 120 2
      (History-IsValid s12-History) s12-IsTight refl

release_reissues_example :
    (t : TxStore) × (add_unconfirmed
        (get_next_sequence (release (get_next_sequence s10) s10))
        "b"
        1
        1
        (release (get_next_sequence s10) s10)
      ≡ ok t)
    × (get (get_next_sequence s10) t.unconfirmed_sequences
        ≡ some (entry (get_next_sequence s10) "b" 1 1))
    × (get_next_sequence t ≡ get_next_sequence s10)
    × (add_unconfirmed (get_next_sequence s10) "c" 1 2 t
        ≡ err (sequence_used (get_next_sequence s10) "c" "b"))
    × (get (get_next_sequence s10) (release (get_next_sequence s10) t).unconfirmed_sequences ≡ none)
unfolding new_tx_store get_next_sequence
release_reissues_example =
    release_reissues s10 "b" 1 1 "c" 1 2 (new_tx_store-IsValid (int64 10)) refl

get_unconfirmed_lem_example :
    IsSorted (λ (u : UnconfirmedTx). u.sequence) (get_unconfirmed s12)
    × All (λ u. get u.sequence s12.unconfirmed_sequences ≡ some u) (get_unconfirmed s12)
    × ((k : Int64) (u : UnconfirmedTx)
        → get k s12.unconfirmed_sequences ≡ some u
        → Mem u (get_unconfirmed s12))
get_unconfirmed_lem_example = get_unconfirmed_lem s12 (History-IsValid s12-History)

-- The store's own test, TestTxStore_ResyncNonce_DoesNotGoBackwards.
resync_backwards : get_next_sequence (resync_nonce (int64 5) s12) ≡ int64 12
unfolding get_next_sequence resync_nonce bad_failed_seqs delete_all
resync_backwards = refl
