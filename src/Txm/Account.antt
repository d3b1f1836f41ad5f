-- ===== src/Txm/Account.antt =====
-- relayer/txm/txm.go: the sequence number of an account on the chain, and the default account.
use chainlink_stellar.Prelude.{
  Bool, true, false, String, Option, some, none, List, [], ◌∷◌, ◌==◌, if◌then◌else◌,
  String_equality,
}
use chainlink_stellar.Prelude.Int64.{Int64, int64, add}
use chainlink_stellar.TxStore.{TxRef, resync_nonce, get_next_sequence}
use chainlink_stellar.AccountStore.{get_tx_store, update_store}
use chainlink_stellar.Txm.{Txm}
use chainlink_stellar.Txm.Network.{Network}
use chainlink_stellar.Txm.Sdk.{Sdk}

-- `txStore.GetNextSequence()` on the store of an account, which exists where it is called.
unfoldable pub next_sequence_in : String → Txm → Int64
next_sequence_in account s = elim (get_tx_store account s.account_store) [
  | none ↦ int64 0
  | some store ↦ get_next_sequence store
]

module _ (net : Network) (sdk : Sdk net.World) where
  open net use {World, get_ledger_entries}
  open sdk use {address_to_account_id, account_key, decode_account, accounts}

  -- What the first ledger entry says, the one of the account.
  unfoldable pub last_used : Option (List String) → Option Int64
  last_used none = none
  last_used (some []) = none
  last_used (some (entry ∷ entries)) = if entry == "" then none else decode_account entry

  -- The last used sequence number; `none` is an error.
  unfoldable pub get_sequence_number : String → World → Option Int64 × World
  unfolding last_used
  get_sequence_number address w =
      if address == "" then (none, w) else elim (address_to_account_id address) [
        | none ↦ (none, w)
        | some account_id ↦ elim (account_key account_id) [
          | none ↦ (none, w)
          | some key ↦ let (entries, w') = get_ledger_entries key w in (last_used entries, w')
        ]
      ]

  -- Whether it succeeds.
  unfoldable pub resync_sequence : TxRef → Txm → World → Bool × Txm × World
  unfolding get_sequence_number
  resync_sequence r s w =
      let (answer, w') = get_sequence_number (s.heap r).from_address w in
      elim answer [
        | none ↦ (false, s, w')
        | some seq_num ↦ elim (get_tx_store (s.heap r).from_address s.account_store) [
          | none ↦ (false, s, w')
          | some _ ↦ (
            true,
            record s {
              account_store =
                  update_store (s.heap r).from_address (resync_nonce (add seq_num (int64 1)))
                    s.account_store;
            },
            w',
          )
        ]
      ]

  unfoldable pub default_from_address : World → Option String × World
  default_from_address w =
      let (answer, w') = accounts w in
      elim answer [ none ↦ (none, w') | some [] ↦ (none, w') | some (a ∷ as') ↦ (some a, w') ]
