-- ===== src/Poller/Cached.antt =====
-- ccv/destination_reader/execution_attempt_poller.go: what the cache holds. The laws of the cache
-- are those of an LRU of unlimited size whose entries expire.
use mathlib.Core.Path.{subst}
use chainlink_stellar.Prelude.{
  ◌≡◌, ◌⊎◌, inl, inr, sym, ◌∙◌, arith, some, none, List, [], ◌∷◌, ◌++◌, All, ◌==◌, Bool-cases,
  Option-cases, if◌then◌else◌,
}
use chainlink_stellar.Prelude.Int64.{Int64}
use chainlink_stellar.Config.{Bytes, Bytes_equality}
use chainlink_stellar.Poller.Outcome.{returned, failed, panicked, Outcome-cases, returned_inj}
use chainlink_stellar.Poller.Event.{
  EventInfo, ExecutionStateChangedEvent, parse_execution_state_changed_event,
}
use chainlink_stellar.Poller.Attempt.{
  ExecutionAttempt, extract_invoke_contract_args, decode_execute_args_to_attempt,
}
use chainlink_stellar.Poller.Poll.{
  Protocol, Poller, Rpc, attempt_of_event, attempts_at, process_events, poll_tick, start,
  new_poller, get_execution_attempts,
}
use chainlink_stellar.Poller.Loop.{verified, cache_attempt, process_events_cons}
use chainlink_stellar.Poller.Ledgers.{poll_tick_lem, start_lem}

-- An entry is what was last added for its key, or has expired.
pub record IsCache (t : Protocol) : Type 0 where
  pub get_empty : (k : Bytes) → t.get t.empty k ≡ none
  pub get_add :
      (c : t.Cache) (k j : Bytes) (v w : List (ExecutionAttempt t.Message))
      → t.get (t.add c k v) j ≡ some w
      → ((j ≡ k) × (v ≡ w)) ⊎ (t.get c j ≡ some w)

module _ (t : Protocol) where
  abbrev pub HasId : Bytes → ExecutionAttempt t.Message → Type 0
  HasId id a = t.message_id a.message ≡ some id

  -- The attempts under each id are for the message with that id.
  abbrev pub AreServed : t.Cache → Type 0
  AreServed c =
      (id : Bytes) (as' : List (ExecutionAttempt t.Message))
      → t.get c id ≡ some as'
      → All (HasId id) as'

  -- What can happen to a poller: it starts, it polls, entries of its cache expire.
  pub data History : Poller t → Type 1 where
    created :
        {p : Poller t} (contract : Bytes) (expiration : Int64)
        → new_poller t contract expiration ≡ some p
        → History p
    started : {p q : Poller t} (r s : Rpc) → History p → start t r s p ≡ returned q → History q
    polled : {p q : Poller t} (r : Rpc) → History p → poll_tick t r p ≡ returned q → History q
    expired :
        {p : Poller t} (c : t.Cache)
        → History p
        → ((id : Bytes) → (t.get c id ≡ none) ⊎ (t.get c id ≡ t.get p.attempt_cache id))
        → History (record p { attempt_cache = c })

  -- The check of the message id.
  checked-HasId :
      (e : ExecutionStateChangedEvent) (x a : ExecutionAttempt t.Message)
      → elim (t.message_id x.message) [
        | none ↦ panicked
        | some id ↦ if e.message_id == id then returned x else failed
      ]
        ≡ returned a
      → HasId e.message_id a
  checked-HasId e x a h = elim (Option-cases (t.message_id x.message)) [
    | inl q ↦ absurd (ground arith)
    | inr (id, q) ↦ elim (Bool-cases (e.message_id == id)) [
      | inr b ↦ absurd (ground arith)
      | inl b ↦ let same = (Bytes_equality.test_iff e.message_id id).0 b in ground (arith, same)
    ]
  ]

  attempt_of_event-HasId :
      (r : Rpc) (e : ExecutionStateChangedEvent) (a : ExecutionAttempt t.Message)
      → attempt_of_event t r e ≡ returned a
      → HasId e.message_id a
  unfolding attempt_of_event
  attempt_of_event-HasId r e a h = elim (Option-cases (r.transaction e.tx_hash)) [
    | inl q ↦ absurd (ground arith)
    | inr (tx, q) ↦ elim (Bool-cases tx.success) [
      | inr b ↦ absurd (ground arith)
      | inl b ↦
          elim (Option-cases (extract_invoke_contract_args t.unmarshal_envelope tx.envelope_xdr)) [
            | inl i ↦ absurd (ground arith)
            | inr (args, i) ↦
                elim (Option-cases (decode_execute_args_to_attempt t.decode_message args)) [
                  | inl j ↦ absurd (ground arith)
                  | inr (x, j) ↦ checked-HasId e x a (ground arith)
                ]
          ]
    ]
  ]

  verified-HasId :
      (r : Rpc) (e : EventInfo) (id : Bytes) (a : ExecutionAttempt t.Message)
      → verified t r e ≡ returned (id, a)
      → HasId id a
  unfolding verified
  verified-HasId r e id a h =
      elim (Option-cases (parse_execution_state_changed_event t.unmarshal_scval e)) [
        | inl q ↦ absurd (ground arith)
        | inr (ev, q) ↦ elim (Outcome-cases (attempt_of_event t r ev)) [
          | inl i ↦ absurd (ground arith)
          | inr (inl i) ↦ absurd (ground arith)
          | inr (inr (x, i)) ↦ ground (arith, attempt_of_event-HasId r ev x i)
        ]
      ]

  All-append :
      (P : ExecutionAttempt t.Message → Type 0) (as' : List (ExecutionAttempt t.Message))
      (a : ExecutionAttempt t.Message)
      → All P as'
      → P a
      → All P (as' ++ a ∷ [])
  All-append P [] a h p = (p, tt)
  All-append P (b ∷ as') a (q, h) p = (q, All-append P as' a h p)

  attempts_at-All : (c : t.Cache) (id : Bytes) → AreServed c → All (HasId id) (attempts_at t c id)
  attempts_at-All c id h = elim (Option-cases (t.get c id)) [
    | inl q ↦ rw (q, All) tt
    | inr (as', q) ↦ rw (q, All) (h id as' q)
  ]

  module _ (law : IsCache t) where
    add-AreServed :
        (c : t.Cache) (id : Bytes) (a : ExecutionAttempt t.Message)
        → AreServed c
        → HasId id a
        → AreServed (cache_attempt t c id a)
    add-AreServed c id a h p j as' e =
        elim (law.get_add c id j (attempts_at t c id ++ a ∷ []) as' e) [
          | inl (k, q) ↦
              rw (k, ← q) (All-append (HasId id) (attempts_at t c id) a (attempts_at-All c id h) p)
          | inr q ↦ h j as' q
        ]

    process_events-AreServed :
        (r : Rpc) (es : List EventInfo) (c d : t.Cache)
        → process_events t r es c ≡ returned d
        → AreServed c
        → AreServed d
    unfolding process_events
    process_events-AreServed r [] c d e h = subst AreServed (returned_inj e) h
    process_events-AreServed r (x ∷ es) c d e h = elim (process_events_cons t r x es c d e) [
      | inl (q, i) ↦ process_events-AreServed r es c d i h
      | inr (id, a, q, i) ↦
          process_events-AreServed r es (cache_attempt t c id a) d i
            (add-AreServed c id a h (verified-HasId r x id a q))
    ]

    tick-AreServed :
        (r : Rpc) (p q : Poller t)
        → poll_tick t r p ≡ returned q
        → AreServed p.attempt_cache
        → AreServed q.attempt_cache
    tick-AreServed r p q e h = elim (poll_tick_lem t r p q e) [
      | inl i ↦ rw i h
      | inr (latest, es, c, i, lt, j, k, l) ↦
          rw l (process_events-AreServed r es p.attempt_cache c k h)
    ]

    start-AreServed :
        (r s : Rpc) (p q : Poller t)
        → start t r s p ≡ returned q
        → AreServed p.attempt_cache
        → AreServed q.attempt_cache
    start-AreServed r s p q e h =
        let (n, i) = start_lem t r s p q e in
        tick-AreServed s (record p { start_ledger = n; last_polled_ledger = n }) q i h

    History-AreServed : {p : Poller t} → History p → AreServed p.attempt_cache
    unfolding new_poller
    History-AreServed (created {p} [] expiration e) = absurd cc
    History-AreServed (created {p} (c ∷ cs) expiration e) =
        λ id as' i. absurd (ground (arith, law.get_empty id))
    History-AreServed (started {p} {q} r s h e) = start-AreServed r s p q e (History-AreServed h)
    History-AreServed (polled {p} {q} r h e) = tick-AreServed r p q e (History-AreServed h)
    History-AreServed (expired {p} c h k) = λ id as' e. elim (k id) [
      | inl q ↦ absurd (ground arith)
      | inr q ↦ History-AreServed h id as' (sym q ∙ e)
    ]

    -- However a poller starts, polls and loses entries, as long as no call panics, the attempts it returns for a message are
    -- attempts to execute a message with the same id.
    pub get_execution_attempts-HasId :
        {p : Poller t} (m : t.Message) (as' : List (ExecutionAttempt t.Message))
        → History p
        → get_execution_attempts t m p ≡ some as'
        → All (λ a. t.message_id a.message ≡ t.message_id m) as'
    unfolding get_execution_attempts
    get_execution_attempts-HasId {p} m as' h e = elim (Option-cases (t.message_id m)) [
      | inl q ↦ absurd (ground arith)
      | inr (id, q) ↦ rw q (
          subst (All (HasId id)) (ground arith)
            (attempts_at-All p.attempt_cache id (History-AreServed h)))
    ]
