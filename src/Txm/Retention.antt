-- ===== src/Txm/Retention.antt =====
-- Which transactions `pruneTerminal` of relayer/txm/txm.go evicts.
use mathlib.Core.Path.{subst}
use chainlink_stellar.Prelude.{
  ℕ, ◌+◌, ◌<◌, ◌≡◌, ap, ◌∙◌, ◌↔◌, ◌⊎◌, refl, Bool, true, false, String, Option, some, none, [], ◌∷◌,
  arith, if◌then◌else◌, Bool-cases, inl, inr, String_equality,
}
use chainlink_stellar.Prelude.Int64.{Int64, int64}
use chainlink_stellar.Prelude.Map.{Map, Unique, get}
use chainlink_stellar.TxStore.{TxRef}
use chainlink_stellar.Txm.{Txm, StellarTx, Settings, is_terminal_status}
use chainlink_stellar.Txm.Prune.{terminal_past_retention, prune_loop, prune_terminal}

-- An entry of the transaction map after the pass.
abbrev retain : ℕ → Int64 → (TxRef → StellarTx) → Option TxRef → Option TxRef
retain now expiration heap none = none
retain now expiration heap (some r) =
    if terminal_past_retention now expiration (heap r) then none else some r

get-prune_loop :
    (now : ℕ) (expiration : Int64) (heap : TxRef → StellarTx) (m : Map String TxRef) (id : String)
    → Unique m
    → get id (prune_loop now expiration heap m) ≡ retain now expiration heap (get id m)
unfolding prune_loop get
get-prune_loop now expiration heap [] id u = refl
get-prune_loop now expiration heap ((j, q) ∷ m) id u =
    elim (Bool-cases (terminal_past_retention now expiration (heap q))) [
      | inl past ↦ rw past (
          ground (
            arith,
            get-prune_loop now expiration heap m id u.1,
            String_equality.test_iff j id,
            u.0,
            past,
          ))
      | inr kept ↦ rw kept (
          ground (
            arith,
            get-prune_loop now expiration heap m id u.1,
            String_equality.test_iff j id,
            u.0,
            kept,
          ))
    ]

-- The transaction is not terminal, or has no terminal time, or has not been terminal for the
-- retention time.
abbrev pub IsRetained : Settings → ℕ → StellarTx → Type 0
IsRetained c now t =
    (is_terminal_status t.status ≡ false)
    ⊎ (t.terminal_time ≡ none)
    ⊎ ((since : ℕ) × (t.terminal_time ≡ some since) × (int64 now < since + c.prune_tx_expiration))

IsRetained-iff :
    (c : Settings) (now : ℕ) (t : StellarTx)
    → (terminal_past_retention now c.prune_tx_expiration t ≡ false) ↔ IsRetained c now t
unfolding terminal_past_retention
IsRetained-iff c now t =
    (forward (is_terminal_status t.status) t.terminal_time refl refl, λ h. ground arith)
  where
    forward :
        (terminal : Bool) (time : Option ℕ)
        → is_terminal_status t.status ≡ terminal
        → t.terminal_time ≡ time
        → terminal_past_retention now c.prune_tx_expiration t ≡ false
        → IsRetained c now t
    forward false time e f h = inl e
    forward true none e f h = inr (inl f)
    forward true (some since) e f h = inr (inr (since, f, ground arith))

-- A pass keeps exactly the transactions that are not terminal or not yet past their retention: a
-- transaction is registered afterwards if and only if it was registered before and is not
-- terminal, or was never stamped, or has been terminal for less than the retention time.
pub get-prune_terminal :
    (c : Settings) (now : ℕ) (s : Txm) (id : String) (r : TxRef)
    → Unique s.transactions
    → (get id (prune_terminal c now s).transactions ≡ some r)
      ↔ (get id s.transactions ≡ some r) × IsRetained c now (s.heap r)
unfolding prune_terminal
get-prune_terminal c now s id r u = (
  λ h. entry (get id s.transactions) refl h,
  λ h. ground (arith, kept, (IsRetained-iff c now (s.heap r)).1 h.1),
)
  where
    kept :
        get id (prune_terminal c now s).transactions
        ≡ retain now c.prune_tx_expiration s.heap (get id s.transactions)
    kept = get-prune_loop now c.prune_tx_expiration s.heap s.transactions id u

    entry :
        (o : Option TxRef)
        → get id s.transactions ≡ o
        → get id (prune_terminal c now s).transactions ≡ some r
        → (get id s.transactions ≡ some r) × IsRetained c now (s.heap r)
    entry none e h = absurd (ground (arith, kept))
    entry (some q) e h =
        let same : q ≡ r = ground (arith, kept) in
        let stays : terminal_past_retention now c.prune_tx_expiration (s.heap q) ≡ false =
          ground (arith, kept) in
        (
          e ∙ ap some same,
          (IsRetained-iff c now (s.heap r)).0 (
              subst (λ k. terminal_past_retention now c.prune_tx_expiration (s.heap k) ≡ false) same
                stays),
        )
