-- ===== src/Txm/Prune.antt =====
-- relayer/txm/txm.go: eviction of terminal transactions, `pruneTerminal`.
use chainlink_stellar.Prelude.{ℕ, ◌+◌, Bool, false, String, some, none, [], ◌∷◌, leb, if◌then◌else◌}
use chainlink_stellar.Prelude.Int64.{Int64, int64}
use chainlink_stellar.Prelude.Map.{Map}
use chainlink_stellar.TxStore.{TxRef}
use chainlink_stellar.Txm.{Txm, StellarTx, Settings, is_terminal_status}

-- `time.Since(tx.TerminalTime) >= expiration`, for a stamped terminal transaction.
unfoldable pub terminal_past_retention : ℕ → Int64 → StellarTx → Bool
terminal_past_retention now expiration t =
    if is_terminal_status t.status
    then elim t.terminal_time [ none ↦ false | some since ↦ leb (since + expiration) (int64 now) ]
    else false

unfoldable pub prune_loop : ℕ → Int64 → (TxRef → StellarTx) → Map String TxRef → Map String TxRef
prune_loop now expiration heap [] = []
prune_loop now expiration heap ((id, r) ∷ m) =
    let rest = prune_loop now expiration heap m in
    if terminal_past_retention now expiration (heap r) then rest else (id, r) ∷ rest

unfoldable pub prune_terminal : Settings → ℕ → Txm → Txm
unfolding prune_loop
prune_terminal c now s = record s {
  transactions = prune_loop now c.prune_tx_expiration s.heap s.transactions;
}
