-- ===== src/Config/Resolved.antt =====
-- What `Resolve` of relayer/txm/config.go promises, and which failed simulations a resolved
-- configuration retries (relayer/txm/broadcast.go).
use chainlink_stellar.Prelude.{
  ◌≡◌, refl, ◌∙◌, Bool, true, false, Option, some, none, List, [], ◌∷◌, ◌||◌, arith, Bool-cases,
  inl, inr, ◌==◌,
}
use chainlink_stellar.Config.{
  Bytes, Config, resolve, or_default, default_config_set, builtin_simulation_terminal_hints,
  builtin_simulation_retryable_hints, contains_hint, contains, any_hint, to_lower,
  is_retryable_simulation_error, merge_simulation_hint_lists, bytes_eq_iff, Bytes_equality,
}
use chainlink_stellar.Config.Hints.{
  Distinct, merge_simulation_hint_lists_lem, merge_simulation_hint_lists_idem,
}

pub terminal-Distinct : Distinct builtin_simulation_terminal_hints
unfolding contains_hint
terminal-Distinct = (refl, (refl, (refl, (refl, (refl, (refl, (refl, (refl, (refl, tt)))))))))

retryable-Distinct : Distinct builtin_simulation_retryable_hints
unfolding contains_hint
retryable-Distinct = (
  refl,
  (
    refl,
    (refl, (refl, (refl, (refl, (refl, (refl, (refl, (refl, (refl, (refl, (refl, tt))))))))))),
  ),
)

or_default_idem {ℓ} : {A : Type ℓ} (x d : Option A) → or_default (or_default x d) d ≡ or_default x d
or_default_idem none none = refl
or_default_idem none (some a) = refl
or_default_idem (some a) d = refl

-- Resolving a resolved configuration changes nothing, the merged hint lists included.
resolve_idem :
    {F : Type 0} (half_more : F) (c : Config F)
    → resolve half_more (resolve half_more c) ≡ resolve half_more c
unfolding resolve
resolve_idem {F} half_more c = λ i. record {
  broadcast_chan_size = or_default_idem c.broadcast_chan_size d.broadcast_chan_size i;
  confirm_poll_interval = or_default_idem c.confirm_poll_interval d.confirm_poll_interval i;
  base_inclusion_fee = or_default_idem c.base_inclusion_fee d.base_inclusion_fee i;
  max_inclusion_fee = or_default_idem c.max_inclusion_fee d.max_inclusion_fee i;
  fee_bump_multiplier = or_default_idem c.fee_bump_multiplier d.fee_bump_multiplier i;
  resource_fee_buffer = or_default_idem c.resource_fee_buffer d.resource_fee_buffer i;
  restore_fee_buffer = or_default_idem c.restore_fee_buffer d.restore_fee_buffer i;
  fee_stats_poll_interval = or_default_idem c.fee_stats_poll_interval d.fee_stats_poll_interval i;
  max_simulate_attempts = or_default_idem c.max_simulate_attempts d.max_simulate_attempts i;
  max_submit_retry_attempts =
      or_default_idem c.max_submit_retry_attempts d.max_submit_retry_attempts i;
  submit_retry_delay = or_default_idem c.submit_retry_delay d.submit_retry_delay i;
  tx_timeout_secs = or_default_idem c.tx_timeout_secs d.tx_timeout_secs i;
  ledger_bounds_offset = or_default_idem c.ledger_bounds_offset d.ledger_bounds_offset i;
  max_tx_retry_attempts = or_default_idem c.max_tx_retry_attempts d.max_tx_retry_attempts i;
  max_get_client_retry_attempts =
      or_default_idem c.max_get_client_retry_attempts d.max_get_client_retry_attempts i;
  max_restore_attempts = or_default_idem c.max_restore_attempts d.max_restore_attempts i;
  simulation_terminal_hints =
      merge_simulation_hint_lists_idem builtin_simulation_terminal_hints c.simulation_terminal_hints
        terminal-Distinct i;
  simulation_retryable_hints =
      merge_simulation_hint_lists_idem builtin_simulation_retryable_hints
        c.simulation_retryable_hints retryable-Distinct i;
  prune_interval = or_default_idem c.prune_interval d.prune_interval i;
  prune_tx_expiration = or_default_idem c.prune_tx_expiration d.prune_tx_expiration i;
}
  where
    d : Config F
    d = default_config_set half_more

any_hint_found :
    (msg h : Bytes) (hints : List Bytes)
    → contains_hint hints h ≡ true
    → contains msg h ≡ true
    → any_hint msg hints ≡ true
unfolding any_hint contains_hint
any_hint_found msg h [] e found = cc
any_hint_found msg h (x ∷ hints) e found = elim (Bool-cases (x == h)) [
  | inl same ↦ rw ((bytes_eq_iff x h).0 same, found) refl
  | inr other ↦ ground (arith, any_hint_found msg h hints)
]

-- A failed simulation is not retried, whatever retryable hints its message holds, if its message in
-- lower-case letters holds a built-in terminal hint, or one that the user lists, as the hint is
-- written.
pub terminal_hint_wins :
    {F : Type 0} (half_more : F) (c : Config F) (ctx_done : Bool) (err hint : Bytes)
    → (contains_hint builtin_simulation_terminal_hints hint
        || contains_hint c.simulation_terminal_hints hint)
      ≡ true
    → contains (to_lower err) hint ≡ true
    → is_retryable_simulation_error (resolve half_more c) ctx_done (some err) ≡ false
unfolding resolve is_retryable_simulation_error
terminal_hint_wins half_more c ctx_done err hint listed found =
    rw (any_hint_found (to_lower err) hint merged kept found) (ground arith)
  where
    merged : List Bytes
    merged =
        merge_simulation_hint_lists builtin_simulation_terminal_hints c.simulation_terminal_hints

    kept : contains_hint merged hint ≡ true
    kept =
        (merge_simulation_hint_lists_lem builtin_simulation_terminal_hints
            c.simulation_terminal_hints terminal-Distinct).2
          hint
        ∙ listed
