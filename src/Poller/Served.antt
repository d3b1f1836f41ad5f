-- ===== src/Poller/Served.antt =====
-- ccv/destination_reader/execution_attempt_poller.go: what a run of the poller leaves in the cache,
-- while no entry expires.
use mathlib.Core.List.{Memᴰ}
use chainlink_stellar.Prelude.{true, false, ℕ, ◌≡◌, some, none, List, [], ◌∷◌, ◌<◌}
use chainlink_stellar.Convert.Events.{EventsRequest, default_format}
use chainlink_stellar.ScVal.{scv_symbol}
use chainlink_stellar.Poller.Outcome.{returned}
use chainlink_stellar.Config.{bytes, Bytes, Bytes_equality}
use chainlink_stellar.Poller.Event.{EventInfo}
use chainlink_stellar.Poller.Attempt.{ExecutionAttempt}
use chainlink_stellar.Poller.Poll.{Protocol, Poller, Rpc, poll_tick}
use chainlink_stellar.Poller.Loop.{verified}

-- The query of a poll: the events of the contract whose first topic is the OffRamp's, from the first
-- ledger and before the second, without pagination.
abbrev pub execution_query : Bytes → ℕ → ℕ → EventsRequest Bytes
execution_query contract first last = record {
  start_ledger = first;
  end_ledger = last;
  filters =
      record {
        event_types = record { system = false; contract = true };
        contract_ids = contract ∷ [];
        topics =
            (record {
              wildcard = none;
              scval = some (scv_symbol (some (bytes "offramp_1_7_ExecStateChanged")));
            }
              ∷ record { wildcard = some (bytes "**"); scval = none }
              ∷ [])
            ∷ [];
      }
      ∷ [];
  format = default_format;
  pagination = none;
}

module _ (t : Protocol) where
  -- During the ticks of a poller, one of the events in the answer to a query stands for the attempt
  -- to execute the message with the id. The query is for the ledgers from the cursor of its tick to
  -- a later latest ledger, which is excluded.
  pub data IsFetched (id : Bytes) (a : ExecutionAttempt t.Message)
      : List Rpc → Poller t → Type 1 where
    now :
        {r : Rpc} {rs : List Rpc} {p : Poller t} (latest : ℕ) (es : List EventInfo) (e : EventInfo)
        → r.latest_ledger ≡ some latest
        → p.last_polled_ledger < latest
        → r.events (execution_query p.offramp_contract_id p.last_polled_ledger latest) ≡ some es
        → Memᴰ e es
        → verified t r e ≡ returned (id, a)
        → IsFetched id a (r ∷ rs) p
    later :
        {r : Rpc} {rs : List Rpc} {p q : Poller t}
        → poll_tick t r p ≡ returned q
        → IsFetched id a rs q
        → IsFetched id a (r ∷ rs) p
