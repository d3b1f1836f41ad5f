-- ===== src/Config/Tests.antt =====
-- Witnesses and tests of relayer/txm/config.go.
use chainlink_stellar.Prelude.{◌≡◌, refl, true, false, some, [], ◌∷◌}
use chainlink_stellar.Config.{
  Bytes, bytes, Config, resolve, default_config_set, contains_hint, contains, to_lower,
  is_retryable_simulation_error, merge_simulation_hint_lists, is_prefix,
}
use chainlink_stellar.Config.Resolved.{terminal_hint_wins}

abbrev message : Bytes
message = bytes "HostError: Error(Contract, #6); connection reset"

abbrev user_config : Config (Unit {0})
user_config = record (default_config_set tt) { simulation_retryable_hints = bytes "reset" ∷ [] }

terminal_hint_wins_example :
    is_retryable_simulation_error (resolve tt user_config) false (some message) ≡ false
unfolding contains_hint contains to_lower is_prefix default_config_set
terminal_hint_wins_example =
    terminal_hint_wins tt user_config false message (bytes "error(contract") refl refl

retried :
    is_retryable_simulation_error (resolve tt user_config) false (some (bytes "read: EOF")) ≡ true
unfolding is_retryable_simulation_error resolve default_config_set merge_simulation_hint_lists
    contains is_prefix
retried = refl

-- The user's terminal hint is not found in the message that holds it, because of its capital letter.
abbrev capital_config : Config (Unit {0})
capital_config = record user_config { simulation_terminal_hints = bytes "Fatal" ∷ [] }

capital_hint_missed :
    is_retryable_simulation_error (resolve tt capital_config) false (some (bytes "Fatal: EOF"))
    ≡ true
unfolding is_retryable_simulation_error resolve default_config_set merge_simulation_hint_lists
    contains is_prefix
capital_hint_missed = refl
