-- ===== src/TxStore/Steps.antt =====
-- Histories of a store: the calls of relayer/txm/txstore.go in any order, by any goroutine.
use chainlink_stellar.Prelude.{
  ℕ, ◌+◌, ◌^◌, ◌≤◌, ◌<◌, ◌≡◌, Bool, true, false, String, List, [], ◌∷◌, arith, ok, ltb, ◌||◌,
  is_some, if◌then◌else◌, ℕ_equality, String_equality,
}
use chainlink_stellar.Prelude.Int64.{Int64}
use chainlink_stellar.Prelude.Map.{get, get-put, get-delete}
use chainlink_stellar.TxStore.{
  TxRef, UnconfirmedTx, TxStore, new_tx_store, resync_nonce, add_unconfirmed, confirm, release,
}
use chainlink_stellar.TxStore.Sequence.{elem, get-resync_nonce}
use chainlink_stellar.TxStore.Invariant.{
  IsValid, new_tx_store-IsValid, resync_nonce-IsValid, add_unconfirmed-IsValid, confirm-IsValid,
  release-IsValid,
}

-- A store that began at `n`, with what a history leaves behind: the sequences whose transaction
-- was confirmed as included, and the highest sequence that a resync has reported. A call that
-- returns an error changes nothing. Sequence numbers stay below the largest int64.
pub data History (n : Int64) : TxStore → List Int64 → Int64 → Type 0 where
  start : History n (new_tx_store n) [] n
  resynced :
      {s : TxStore} {settled : List Int64} {high : Int64} (m : Int64)
      → History n s settled high
      → History n (resync_nonce m s) settled (if ltb high m then m else high)
  added :
      {s t : TxStore} {settled : List Int64} {high : Int64} (seq : Int64) (hash : String)
      (max_ledger : ℕ) (tx : TxRef)
      → s.next_sequence + 1 < 2 ^ 64
      → add_unconfirmed seq hash max_ledger tx s ≡ ok t
      → History n s settled high
      → History n t settled high
  included :
      {s t : TxStore} {settled : List Int64} {high : Int64} (seq : Int64) (hash : String)
      → confirm seq hash false s ≡ ok t
      → History n s settled high
      → History n t (seq ∷ settled) high
  expired :
      {s t : TxStore} {settled : List Int64} {high : Int64} (seq : Int64) (hash : String)
      → confirm seq hash true s ≡ ok t
      → History n s settled high
      → History n t settled high
  released :
      {s : TxStore} {settled : List Int64} {high : Int64} (seq : Int64)
      → seq ≤ s.next_sequence
      → History n s settled high
      → History n (release seq s) settled high

-- After every history the store is well formed: entries are filed under their sequence, no
-- sequence is both in flight and recycled, every recycled sequence lies between the last resync
-- and the next sequence, and none in flight lies above the next sequence.
pub History-IsValid :
    {n : Int64} {s : TxStore} {settled : List Int64} {high : Int64}
    → History n s settled high
    → IsValid s
History-IsValid {n} start = new_tx_store-IsValid n
History-IsValid (resynced {s} m h) = resync_nonce-IsValid m s (History-IsValid h)
History-IsValid (added {s} {t} seq hash l tx r e h) =
    add_unconfirmed-IsValid seq hash l tx s t r (History-IsValid h) e
History-IsValid (included {s} {t} seq hash e h) =
    confirm-IsValid seq hash false s t (History-IsValid h) e
History-IsValid (expired {s} {t} seq hash e h) =
    confirm-IsValid seq hash true s t (History-IsValid h) e
History-IsValid (released {s} seq le h) = release-IsValid seq s le (History-IsValid h)

onchain-le_high :
    {n : Int64} {s : TxStore} {settled : List Int64} {high : Int64}
    → History n s settled high
    → s.last_onchain_sequence ≤ high
unfolding new_tx_store resync_nonce add_unconfirmed confirm release
onchain-le_high start = omega arith
onchain-le_high (resynced m h) = ground arith
onchain-le_high (added seq hash l tx r e h) = ground (arith, onchain-le_high h)
onchain-le_high (included seq hash e h) = ground (arith, onchain-le_high h)
onchain-le_high (expired seq hash e h) = ground (arith, onchain-le_high h)
onchain-le_high (released seq le h) = ground (arith, onchain-le_high h)

-- In flight, ready for reuse, or settled on chain.
abbrev pub is_accounted : Int64 → TxStore → List Int64 → Bool
is_accounted k s settled =
    is_some (get k s.unconfirmed_sequences) || is_some (get k s.failed_sequences) || elem k settled

-- No sequence number leaks: after every history each sequence between the highest one that a
-- resync has reported and the next one is in flight, or waits for reuse, or was settled on chain.
pub History-accounts :
    {n : Int64} {s : TxStore} {settled : List Int64} {high : Int64} (k : Int64)
    → History n s settled high
    → high ≤ k
    → k < s.next_sequence
    → is_accounted k s settled ≡ true
unfolding new_tx_store resync_nonce add_unconfirmed confirm release
History-accounts k start a b = absurd (omega arith)
History-accounts k (resynced {s} m h) a b =
    ground (arith, History-accounts k h, get-resync_nonce k m s)
History-accounts k (added {s} seq hash l tx r e h) a b = ground (
  arith,
  History-accounts k h,
  get-put seq k w s.unconfirmed_sequences,
  get-delete seq k s.failed_sequences,
)
  where
    w : UnconfirmedTx
    w = record { sequence = seq; hash = hash; max_ledger = l; tx = tx }
History-accounts k (included {s} seq hash e h) a b =
    ground (arith, History-accounts k h, get-delete seq k s.unconfirmed_sequences)
History-accounts k (expired {s} seq hash e h) a b = ground (
  arith,
  History-accounts k h,
  onchain-le_high h,
  get-delete seq k s.unconfirmed_sequences,
  get-put seq k tt s.failed_sequences,
)
History-accounts k (released {s} seq le h) a b = ground (
  arith,
  History-accounts k h,
  onchain-le_high h,
  get-delete seq k s.unconfirmed_sequences,
  get-put seq k tt s.failed_sequences,
)
