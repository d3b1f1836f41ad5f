-- ===== src/AccountStore/Laws.antt =====
-- Laws of the account store of relayer/txm/txstore.go.
use mathlib.Core.Option
use chainlink_stellar.Prelude.{
  ◌≡◌, refl, String, [], ◌∷◌, arith, Option-cases, inl, inr, if◌then◌else◌, ◌==◌, Bool-cases,
  String_equality,
}
use chainlink_stellar.Prelude.Map.{get, get-put}
use chainlink_stellar.TxStore.{TxStore, get_unconfirmed}
use chainlink_stellar.AccountStore.{AccountStore, update_store, get_all_unconfirmed}

-- A call through the pointer of one account changes that account's store and no other.
pub get-update_store :
    (a b : String) (f : TxStore → TxStore) (c : AccountStore)
    → get b (update_store a f c) ≡ (if a == b then Option.map f (get b c) else get b c)
unfolding update_store
get-update_store a b f c = elim (Option-cases (get a c)) [
  | inl e ↦ rw (e, update_store) (ground (arith, String_equality.test_iff a b))
  | inr (s, e) ↦
      rw (e, update_store) (ground (arith, String_equality.test_iff a b, get-put a b (f s) c))
]

-- The snapshot of all accounts has, for each account, the snapshot of its store.
pub get-get_all_unconfirmed :
    (a : String) (c : AccountStore)
    → get a (get_all_unconfirmed c) ≡ Option.map get_unconfirmed (get a c)
unfolding get_all_unconfirmed get
get-get_all_unconfirmed a [] = refl
get-get_all_unconfirmed a ((b, s) ∷ c) = elim (Bool-cases (b == a)) [
  | inl e ↦ rw e refl
  | inr e ↦ rw e (get-get_all_unconfirmed a c)
]
