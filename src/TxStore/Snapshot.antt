-- ===== src/TxStore/Snapshot.antt =====
-- `GetUnconfirmed` and `InflightCount` of relayer/txm/txstore.go.
use mathlib.Core.List.{Mem, mem-cons_self, mem-cons_of_mem}
use mathlib.Core.List.Perm
use mathlib.Core.Path.{subst}
use chainlink_stellar.Prelude.{
  ◌≡◌, refl, sym, inl, inr, some, arith, nat_eq, ℕ_equality, if◌then◌else◌, [], ◌∷◌, Bool-cases,
  All, ==_refl,
}
use chainlink_stellar.Prelude.Int64.{Int64}
use chainlink_stellar.Prelude.Map.{Map, Unique, get}
use chainlink_stellar.Prelude.Sort.{IsSorted, sort-IsSorted, sort-perm, sort-All}
use chainlink_stellar.TxStore.{UnconfirmedTx, TxStore, values, get_unconfirmed}
use chainlink_stellar.TxStore.Invariant.{IsValid}

values_filed :
    (m n : Map Int64 UnconfirmedTx)
    → ((k : Int64) (u : UnconfirmedTx) → get k m ≡ some u → get k n ≡ some u)
    → ((k : Int64) (u : UnconfirmedTx) → get k m ≡ some u → u.sequence ≡ k)
    → Unique m
    → All (λ u. get u.sequence n ≡ some u) (values m)
unfolding get
values_filed [] n sub keyed un = tt
values_filed ((j, w) ∷ m) n sub keyed un = (
  subst (λ x. get x n ≡ some w) (sym (keyed j w here)) (sub j w here),
  values_filed m n (λ k u h. sub k u (later k u h)) (λ k u h. keyed k u (later k u h)) un.1,
)
  where
    here : (if nat_eq j j then some w else get j m) ≡ some w
    here = rw (==_refl j) refl

    later :
        (k : Int64) (u : UnconfirmedTx)
        → get k m ≡ some u
        → (if nat_eq j k then some w else get k m) ≡ some u
    later k u h = ground (arith, un.0)

filed-mem-values :
    (m : Map Int64 UnconfirmedTx) (k : Int64) (u : UnconfirmedTx)
    → get k m ≡ some u
    → Mem u (values m)
unfolding get
filed-mem-values [] k u h = absurd (ground arith)
filed-mem-values ((j, w) ∷ m) k u h = elim (Bool-cases (nat_eq j k)) [
  | inl e ↦ let same : w ≡ u = ground arith in rw same mem-cons_self
  | inr e ↦ mem-cons_of_mem _ (filed-mem-values m k u (ground arith))
]

-- The snapshot of a well-formed store is sorted by sequence and holds exactly the transactions
-- in flight: each stands in the store under its own sequence, and none of the store is missing.
pub get_unconfirmed_lem :
    (s : TxStore)
    → IsValid s
    → IsSorted (λ (u : UnconfirmedTx). u.sequence) (get_unconfirmed s)
      × All (λ u. get u.sequence s.unconfirmed_sequences ≡ some u) (get_unconfirmed s)
      × ((k : Int64) (u : UnconfirmedTx)
          → get k s.unconfirmed_sequences ≡ some u
          → Mem u (get_unconfirmed s))
unfolding get_unconfirmed
get_unconfirmed_lem s v = (
  sort-IsSorted _ (values s.unconfirmed_sequences),
  sort-All _ _ (values s.unconfirmed_sequences)
      (values_filed s.unconfirmed_sequences s.unconfirmed_sequences (λ k u h. h) v.keyed v.unique),
  λ k u h.
      (Perm.mem_iff (sort-perm _ (values s.unconfirmed_sequences))).1
        (filed-mem-values s.unconfirmed_sequences k u h),
)
