-- ===== src/Poller/Loop.antt =====
-- ccv/destination_reader/execution_attempt_poller.go: what one event of a poll does.
use chainlink_stellar.Prelude.{
  ◌≡◌, ◌≢◌, ◌⊎◌, arith, some, none, List, [], ◌∷◌, ◌++◌, Option-cases, inl, inr,
}
use chainlink_stellar.Config.{Bytes}
use chainlink_stellar.Poller.Outcome.{Outcome, returned, failed, panicked, Outcome-cases}
use chainlink_stellar.Poller.Event.{EventInfo, parse_execution_state_changed_event}
use chainlink_stellar.Poller.Attempt.{ExecutionAttempt}
use chainlink_stellar.Poller.Poll.{
  Protocol, Rpc, attempt_of_event, attempts_at, process_execution_state_changed, process_events,
}

module _ (t : Protocol) where
  -- The id and the attempt that an event stands for, if it parses and its transaction can be fetched
  -- and decoded.
  unfoldable pub verified : Rpc → EventInfo → Outcome (Bytes × ExecutionAttempt t.Message)
  verified r e = elim (parse_execution_state_changed_event t.unmarshal_scval e) [
    | none ↦ failed
    | some ev ↦ elim (attempt_of_event t r ev) [
      | failed ↦ failed
      | panicked ↦ panicked
      | returned a ↦ returned (ev.message_id, a)
    ]
  ]

  -- The attempt after those that the cache has for the id.
  abbrev pub cache_attempt : t.Cache → Bytes → ExecutionAttempt t.Message → t.Cache
  cache_attempt c id a = t.add c id (attempts_at t c id ++ a ∷ [])

  -- A loop that does not panic passes over its first event or caches what it stands for.
  pub process_events_cons :
      (r : Rpc) (e : EventInfo) (es : List EventInfo) (c d : t.Cache)
      → process_events t r (e ∷ es) c ≡ returned d
      → ((verified r e ≡ failed) × (process_events t r es c ≡ returned d))
        ⊎ ((id : Bytes) × (a : ExecutionAttempt t.Message) × (verified r e ≡ returned (id, a))
            × (process_events t r es (cache_attempt c id a) ≡ returned d))
  unfolding process_events process_execution_state_changed verified
  process_events_cons r e es c d h =
      elim (Option-cases (parse_execution_state_changed_event t.unmarshal_scval e)) [
        | inl q ↦ inl (ground arith)
        | inr (ev, q) ↦ elim (Outcome-cases (attempt_of_event t r ev)) [
          | inl i ↦ inl (ground arith)
          | inr (inl i) ↦ absurd (ground arith)
          | inr (inr (a, i)) ↦ inr (ev.message_id, a, ground arith, ground arith)
        ]
      ]

  -- The loop returns no error.
  pub process_events_runs :
      (r : Rpc) (es : List EventInfo) (c : t.Cache) → process_events t r es c ≢ failed
  unfolding process_events
  process_events_runs r [] c h = cc
  process_events_runs r (e ∷ es) c h =
      elim (Option-cases (parse_execution_state_changed_event t.unmarshal_scval e)) [
        | inl q ↦ process_events_runs r es c (ground arith)
        | inr (ev, q) ↦ elim (Outcome-cases (process_execution_state_changed t r ev c)) [
          | inl i ↦ process_events_runs r es c (ground arith)
          | inr (inl i) ↦ absurd (ground arith)
          | inr (inr (d, i)) ↦ process_events_runs r es d (ground arith)
        ]
      ]
