-- ===== src/Config.antt =====
-- relayer/txm/config.go: the configuration, its defaults, and the hints by which a failed
-- simulation is retried (`isRetryableSimulationError` of relayer/txm/broadcast.go). A text is the
-- list of its bytes. A field that is not set is `none`.
pub mod Hints
pub mod Resolved
mod Tests
use mathlib.Core.List.{◌++◌}
use chainlink_stellar.Prelude.{
  ℕ, ◌+◌, ◌*◌, Bool, true, false, Option, some, none, List, [], ◌∷◌, map, leb, nat_eq, ◌&&◌, ◌||◌,
  if◌then◌else◌, String, Equality, ◌==◌, ◌≡◌, ◌↔◌, refl, ap, arith, Bool-cases, inl, inr,
}
use chainlink_stellar.Prelude.Int64.{Int64, int64}
use Prim.Native.Char.{code}

abbrev pub Bytes : Type 0
Bytes = List ℕ

abbrev pub bytes : String → Bytes
bytes String.[] = []
bytes (String.◌∷◌ c s) = code c ∷ bytes s

abbrev pub bytes_eq : Bytes → Bytes → Bool
bytes_eq [] [] = true
bytes_eq [] (b ∷ bs) = false
bytes_eq (a ∷ as') [] = false
bytes_eq (a ∷ as') (b ∷ bs) = nat_eq a b && bytes_eq as' bs

pub bytes_eq_iff : (a b : Bytes) → (bytes_eq a b ≡ true) ↔ (a ≡ b)
bytes_eq_iff [] [] = ground arith
bytes_eq_iff [] (b ∷ bs) = ground arith
bytes_eq_iff (a ∷ as') [] = ground arith
bytes_eq_iff (a ∷ as') (b ∷ bs) = ground (arith, bytes_eq_iff as' bs)

instance abbrev pub Bytes_equality : Equality Bytes
Bytes_equality = record { test = bytes_eq; test_iff = bytes_eq_iff }

unfoldable pub contains_hint : List Bytes → Bytes → Bool
contains_hint [] h = false
contains_hint (x ∷ xs) h = x == h || contains_hint xs h

-- One of the two loops of `mergeSimulationHintLists`. The keys of `seen` are the elements of `out`.
unfoldable pub collect : List Bytes → List Bytes → List Bytes
unfolding contains_hint
collect out [] = out
collect out (h ∷ hs) = collect (if contains_hint out h then out else out ++ h ∷ []) hs

unfoldable pub merge_simulation_hint_lists : List Bytes → List Bytes → List Bytes
unfolding collect
merge_simulation_hint_lists builtin [] = builtin
merge_simulation_hint_lists builtin (h ∷ hs) = collect (collect [] builtin) (h ∷ hs)

abbrev pub builtin_simulation_terminal_hints : List Bytes
builtin_simulation_terminal_hints = map bytes (
    "error(contract" ∷ "contract error" ∷ "trapped" ∷ "trap" ∷ "malformed" ∷ "bad auth" ∷ "invalid"
    ∷ "unknown function" ∷ "no such contract" ∷ [])

abbrev pub builtin_simulation_retryable_hints : List Bytes
builtin_simulation_retryable_hints = map bytes (
    "timeout" ∷ "temporarily unavailable" ∷ "try_again_later" ∷ "too many requests" ∷ "rate limit"
    ∷ "connection refused" ∷ "connection reset" ∷ "eof" ∷ "bad_seq" ∷ "tx_bad_seq" ∷ "sequence"
    ∷ "stale" ∷ "ledger" ∷ [])

-- `F` is float64; durations are int64 nanoseconds.
pub record Config (F : Type 0) : Type 0 where
  pub broadcast_chan_size : Option ℕ
  pub confirm_poll_interval : Option Int64
  pub base_inclusion_fee : Option Int64
  pub max_inclusion_fee : Option Int64
  pub fee_bump_multiplier : Option F
  pub resource_fee_buffer : Option Int64
  pub restore_fee_buffer : Option Int64
  pub fee_stats_poll_interval : Option Int64
  pub max_simulate_attempts : Option ℕ
  pub max_submit_retry_attempts : Option ℕ
  pub submit_retry_delay : Option Int64
  pub tx_timeout_secs : Option Int64
  pub ledger_bounds_offset : Option ℕ
  pub max_tx_retry_attempts : Option ℕ
  pub max_get_client_retry_attempts : Option ℕ
  pub max_restore_attempts : Option ℕ
  pub simulation_terminal_hints : List Bytes
  pub simulation_retryable_hints : List Bytes
  pub prune_interval : Option Int64
  pub prune_tx_expiration : Option Int64

abbrev pub second : ℕ
second = 1_000_000_000

-- `DefaultConfigSet`; `half_more` is the literal 1.5.
unfoldable pub default_config_set : {F : Type 0} → F → Config F
default_config_set half_more = record {
  broadcast_chan_size = some 100;
  confirm_poll_interval = some (int64 (3 * second));
  base_inclusion_fee = some (int64 100);
  max_inclusion_fee = some (int64 100_000);
  fee_bump_multiplier = some half_more;
  resource_fee_buffer = some (int64 15_000);
  restore_fee_buffer = some (int64 10_000);
  fee_stats_poll_interval = some (int64 (5 * second));
  max_simulate_attempts = some 3;
  max_submit_retry_attempts = some 10;
  submit_retry_delay = some (int64 (3 * second));
  tx_timeout_secs = some (int64 300);
  ledger_bounds_offset = some 50;
  max_tx_retry_attempts = some 5;
  max_get_client_retry_attempts = some 10;
  max_restore_attempts = some 3;
  simulation_terminal_hints = [];
  simulation_retryable_hints = [];
  prune_interval = some (int64 (600 * second));
  prune_tx_expiration = some (int64 (7200 * second));
}

-- `if c.X == nil { c.X = default }`.
abbrev pub or_default {ℓ} : {A : Type ℓ} → Option A → Option A → Option A
or_default none d = d
or_default (some a) d = some a

unfoldable pub resolve : {F : Type 0} → F → Config F → Config F
unfolding default_config_set
resolve {F} half_more c = record {
  broadcast_chan_size = or_default c.broadcast_chan_size d.broadcast_chan_size;
  confirm_poll_interval = or_default c.confirm_poll_interval d.confirm_poll_interval;
  base_inclusion_fee = or_default c.base_inclusion_fee d.base_inclusion_fee;
  max_inclusion_fee = or_default c.max_inclusion_fee d.max_inclusion_fee;
  fee_bump_multiplier = or_default c.fee_bump_multiplier d.fee_bump_multiplier;
  resource_fee_buffer = or_default c.resource_fee_buffer d.resource_fee_buffer;
  restore_fee_buffer = or_default c.restore_fee_buffer d.restore_fee_buffer;
  fee_stats_poll_interval = or_default c.fee_stats_poll_interval d.fee_stats_poll_interval;
  max_simulate_attempts = or_default c.max_simulate_attempts d.max_simulate_attempts;
  max_submit_retry_attempts = or_default c.max_submit_retry_attempts d.max_submit_retry_attempts;
  submit_retry_delay = or_default c.submit_retry_delay d.submit_retry_delay;
  tx_timeout_secs = or_default c.tx_timeout_secs d.tx_timeout_secs;
  ledger_bounds_offset = or_default c.ledger_bounds_offset d.ledger_bounds_offset;
  max_tx_retry_attempts = or_default c.max_tx_retry_attempts d.max_tx_retry_attempts;
  max_get_client_retry_attempts =
      or_default c.max_get_client_retry_attempts d.max_get_client_retry_attempts;
  max_restore_attempts = or_default c.max_restore_attempts d.max_restore_attempts;
  simulation_terminal_hints =
      merge_simulation_hint_lists builtin_simulation_terminal_hints c.simulation_terminal_hints;
  simulation_retryable_hints =
      merge_simulation_hint_lists builtin_simulation_retryable_hints c.simulation_retryable_hints;
  prune_interval = or_default c.prune_interval d.prune_interval;
  prune_tx_expiration = or_default c.prune_tx_expiration d.prune_tx_expiration;
}
  where
    d : Config F
    d = default_config_set half_more

-- `strings.ToLower` on the ASCII letters; other characters have no case here.
unfoldable pub to_lower : Bytes → Bytes
to_lower = map λ c. if leb b'A' c && leb c b'Z' then c + 32 else c

unfoldable pub is_prefix : Bytes → Bytes → Bool
is_prefix [] text = true
is_prefix (h ∷ hs) [] = false
is_prefix (h ∷ hs) (c ∷ text) = nat_eq h c && is_prefix hs text

-- `strings.Contains`.
unfoldable pub contains : Bytes → Bytes → Bool
unfolding is_prefix
contains [] hint = is_prefix hint []
contains (c ∷ text) hint = is_prefix hint (c ∷ text) || contains text hint

-- A loop over a hint list that returns at the first match.
unfoldable pub any_hint : Bytes → List Bytes → Bool
unfolding contains
any_hint msg [] = false
any_hint msg (hint ∷ hints) = if contains msg hint then true else any_hint msg hints

-- `none` is a nil error.
unfoldable pub is_retryable_simulation_error : {F : Type 0} → Config F → Bool → Option Bytes → Bool
unfolding any_hint to_lower
is_retryable_simulation_error c ctx_done none = false
is_retryable_simulation_error c ctx_done (some err) =
    if ctx_done
    then false
    else let msg = to_lower err in
      if any_hint msg c.simulation_terminal_hints
      then false
      else if any_hint msg c.simulation_retryable_hints
      then true
      else false
