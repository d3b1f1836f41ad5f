-- ===== src/AccountStore.antt =====
-- relayer/txm/txstore.go, `AccountStore`: one store for each account address. The Go map holds
-- pointers, and no entry is ever removed or replaced, so a method called on a pointer that
-- `GetTxStore` returned changes the entry of its address: `update_store`.
pub mod Laws
use chainlink_stellar.Prelude.{
  ℕ, ◌+◌, String, Option, some, none, List, [], ◌∷◌, map, Result, ok, err, String_equality,
}
use chainlink_stellar.Prelude.Int64.{Int64}
use chainlink_stellar.Prelude.Map.{Map, get, put}
use chainlink_stellar.TxStore.{
  TxStore, UnconfirmedTx, new_tx_store, inflight_count, get_unconfirmed,
}

abbrev pub AccountStore : Type 0
AccountStore = Map String TxStore

pub data AccountError : Type 0 where
  already_exists : String → AccountError

unfoldable pub create_tx_store : String → Int64 → AccountStore → Result AccountError AccountStore
create_tx_store address initial c = elim (get address c) [
  | some _ ↦ err (already_exists address)
  | none ↦ ok (put address (new_tx_store initial) c)
]

unfoldable pub get_tx_store : String → AccountStore → Option TxStore
get_tx_store address c = get address c

-- A call through a pointer to the store of `address`.
unfoldable pub update_store : String → (TxStore → TxStore) → AccountStore → AccountStore
update_store address f c = elim (get address c) [ none ↦ c | some s ↦ put address (f s) c ]

unfoldable pub get_total_inflight_count : AccountStore → ℕ
get_total_inflight_count [] = 0
get_total_inflight_count ((address, s) ∷ c) = inflight_count s + get_total_inflight_count c

unfoldable pub get_all_unconfirmed : AccountStore → Map String (List UnconfirmedTx)
get_all_unconfirmed [] = []
get_all_unconfirmed ((address, s) ∷ c) = (address, get_unconfirmed s) ∷ get_all_unconfirmed c
