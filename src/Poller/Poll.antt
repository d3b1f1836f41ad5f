-- ===== src/Poller/Poll.antt =====
-- ccv/destination_reader/execution_attempt_poller.go: the poller's state and its operations. The
-- protocol library, the RPC client and the expirable cache are parameters.
use chainlink_stellar.Prelude.{
  ◌+◌, ℕ, ◌-◌, ◌/◌, ◌%◌, ◌^◌, ◌==◌, Bool, Option, some, none, List, [], ◌∷◌, ◌++◌, ltb, leb,
  if◌then◌else◌,
}
use chainlink_stellar.Prelude.Int64.{Int64}
use chainlink_stellar.Config.{Bytes, bytes, Bytes_equality}
use chainlink_stellar.Convert.Events.{EventsRequest}
use chainlink_stellar.ScVal.{ScVal}
use chainlink_stellar.Poller.Outcome.{Outcome, returned, failed, panicked}
use chainlink_stellar.Poller.Event.{
  EventInfo, ExecutionStateChangedEvent, parse_execution_state_changed_event, contract_events,
}
use chainlink_stellar.Poller.Attempt.{
  ExecutionAttempt, Envelope, extract_invoke_contract_args, decode_execute_args_to_attempt,
}

-- A transaction of the RPC client, as far as it is read.
pub record Transaction : Type 0 where
  pub success : Bool
  pub envelope_xdr : Bytes

-- What the RPC client answers during one poll.
pub record Rpc : Type 0 where
  pub latest_ledger : Option ℕ
  pub events : EventsRequest Bytes → Option (List EventInfo)
  pub transaction : Bytes → Option Transaction

-- The decoders, the message id and the cache. `MustMessageID` panics where there is no id.
pub record Protocol : Type 1 where
  pub Message : Type 0
  pub unmarshal_scval : Bytes → Option ScVal
  pub unmarshal_envelope : Bytes → Option Envelope
  pub decode_message : Bytes → Option Message
  pub message_id : Message → Option Bytes
  pub Cache : Type 0
  pub empty : Cache
  pub get : Cache → Bytes → Option (List (ExecutionAttempt Message))
  pub add : Cache → Bytes → List (ExecutionAttempt Message) → Cache

pub record Poller (t : Protocol) : Type 0 where
  pub offramp_contract_id : Bytes
  pub lookback_window : Int64
  pub start_ledger : ℕ
  pub last_polled_ledger : ℕ
  pub attempt_cache : t.Cache

abbrev pub min_stellar_ledger : ℕ
min_stellar_ledger = 7

-- `estimatedLedgerCloseTime`, in nanoseconds.
abbrev pub estimated_ledger_close_time : ℕ
estimated_ledger_close_time = 6_000_000_000

-- `uint32` of a window divided by the close time, which Go rounds toward zero.
unfoldable pub lookback_ledgers : Int64 → ℕ
lookback_ledgers w =
    if leb (2 ^ 63) w
    then (w - 2 ^ 63) / estimated_ledger_close_time % 2 ^ 32
    else (2 ^ 64 - (2 ^ 63 - w) / estimated_ledger_close_time) % 2 ^ 32

abbrev max : ℕ → ℕ → ℕ
max a b = if ltb a b then b else a

module _ (t : Protocol) where
  unfoldable pub new_poller : Bytes → Int64 → Option (Poller t)
  new_poller [] expiration = none
  new_poller (c ∷ cs) expiration = some (record {
    offramp_contract_id = c ∷ cs;
    lookback_window = expiration;
    start_ledger = 0;
    last_polled_ledger = 0;
    attempt_cache = t.empty;
  })

  unfoldable pub get_start_ledger : Rpc → Poller t → Option (Poller t)
  unfolding lookback_ledgers
  get_start_ledger r p = elim r.latest_ledger [
    | none ↦ none
    | some latest ↦
        if leb latest (lookback_ledgers p.lookback_window)
        then some (record p { start_ledger = min_stellar_ledger })
        else some (record p {
          start_ledger =
              max ((latest + 2 ^ 32 - lookback_ledgers p.lookback_window) % 2 ^ 32)
                min_stellar_ledger;
        })
  ]

  -- `processExecutionStateChanged` up to the check of the message id, which panics where the message
  -- has none.
  unfoldable pub attempt_of_event :
      Rpc → ExecutionStateChangedEvent → Outcome (ExecutionAttempt t.Message)
  unfolding extract_invoke_contract_args decode_execute_args_to_attempt
  attempt_of_event r e = elim (r.transaction e.tx_hash) [
    | none ↦ failed
    | some tx ↦
        if tx.success
        then elim (extract_invoke_contract_args t.unmarshal_envelope tx.envelope_xdr) [
          | none ↦ failed
          | some args ↦ elim (decode_execute_args_to_attempt t.decode_message args) [
            | none ↦ failed
            | some attempt ↦ elim (t.message_id attempt.message) [
              | none ↦ panicked
              | some id ↦ if e.message_id == id then returned attempt else failed
            ]
          ]
        ]
        else failed
  ]

  abbrev pub attempts_at : t.Cache → Bytes → List (ExecutionAttempt t.Message)
  attempts_at c id = elim (t.get c id) [ none ↦ [] | some as' ↦ as' ]

  unfoldable pub process_execution_state_changed :
      Rpc → ExecutionStateChangedEvent → t.Cache → Outcome t.Cache
  unfolding attempt_of_event
  process_execution_state_changed r e c = elim (attempt_of_event r e) [
    | failed ↦ failed
    | panicked ↦ panicked
    | returned attempt ↦
        returned (t.add c e.message_id (attempts_at c e.message_id ++ attempt ∷ []))
  ]

  -- The loop over the events; one that fails is passed over.
  unfoldable pub process_events : Rpc → List EventInfo → t.Cache → Outcome t.Cache
  unfolding process_execution_state_changed parse_execution_state_changed_event
  process_events r [] c = returned c
  process_events r (e ∷ es) c = elim (parse_execution_state_changed_event t.unmarshal_scval e) [
    | none ↦ process_events r es c
    | some parsed ↦ elim (process_execution_state_changed r parsed c) [
      | failed ↦ process_events r es c
      | panicked ↦ panicked
      | returned d ↦ process_events r es d
    ]
  ]

  -- The query of a poll up to a ledger.
  unfoldable pub execution_events : Poller t → ℕ → EventsRequest Bytes
  unfolding contract_events
  execution_events p to_ledger =
      contract_events p.offramp_contract_id (bytes "offramp_1_7_ExecStateChanged")
        p.last_polled_ledger to_ledger

  unfoldable pub poll_for_events : Rpc → Poller t → Outcome (Poller t)
  unfolding process_events execution_events
  poll_for_events r p = elim r.latest_ledger [
    | none ↦ failed
    | some to_ledger ↦
        if leb to_ledger p.last_polled_ledger
        then returned p
        else elim (r.events (execution_events p to_ledger)) [
          | none ↦ failed
          | some events ↦ elim (process_events r events p.attempt_cache) [
            | failed ↦ failed
            | panicked ↦ panicked
            | returned cache ↦
                returned (record p { attempt_cache = cache; last_polled_ledger = to_ledger })
          ]
        ]
  ]

  -- One tick of `runPolling`, which goes on after an error.
  unfoldable pub poll_tick : Rpc → Poller t → Outcome (Poller t)
  unfolding poll_for_events
  poll_tick r p = elim (poll_for_events r p) [
    | failed ↦ returned p
    | panicked ↦ panicked
    | returned q ↦ returned q
  ]

  -- The loop of `runPolling`, over what the client answers at each tick before the context ends.
  unfoldable pub run_polling : List Rpc → Poller t → Outcome (Poller t)
  unfolding poll_tick
  run_polling [] p = returned p
  run_polling (r ∷ rs) p = elim (poll_tick r p) [
    | failed ↦ failed
    | panicked ↦ panicked
    | returned q ↦ run_polling rs q
  ]

  unfoldable pub run_backfill : Rpc → Poller t → Outcome (Poller t)
  unfolding poll_for_events
  run_backfill r p = poll_for_events r (record p { last_polled_ledger = p.start_ledger })

  -- `Start` up to the polling loop, with the answers to its first query and to its backfill.
  unfoldable pub start : Rpc → Rpc → Poller t → Outcome (Poller t)
  unfolding get_start_ledger run_backfill
  start r s p = elim (get_start_ledger r p) [
    | none ↦ failed
    | some q ↦ elim (run_backfill s q) [
      | failed ↦ returned (record q { last_polled_ledger = q.start_ledger })
      | panicked ↦ panicked
      | returned q2 ↦ returned q2
    ]
  ]

  -- An id that is not in the cache has no attempts.
  unfoldable pub get_execution_attempts :
      t.Message → Poller t → Option (List (ExecutionAttempt t.Message))
  get_execution_attempts m p = elim (t.message_id m) [
    | none ↦ none
    | some id ↦ some (attempts_at p.attempt_cache id)
  ]
