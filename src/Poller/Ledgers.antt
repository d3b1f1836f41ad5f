-- ===== src/Poller/Ledgers.antt =====
-- ccv/destination_reader/execution_attempt_poller.go: where polling starts, and how the cursor
-- moves.
use chainlink_stellar.Prelude.{
  ℕ, ◌-◌, ◌/◌, ◌^◌, ◌<◌, ◌≡◌, ◌⊎◌, ap, ◌∙◌, arith, some, List, leb, Bool-cases, Option-cases, inl,
  inr, if◌then◌else◌,
}
use chainlink_stellar.Prelude.Int64.{int64}
use chainlink_stellar.Poller.Outcome.{returned, Outcome-cases}
use chainlink_stellar.Poller.Loop.{process_events_runs}
use chainlink_stellar.Poller.Event.{EventInfo}
use chainlink_stellar.Poller.Poll.{
  Protocol, Poller, Rpc, lookback_ledgers, get_start_ledger, execution_events, poll_for_events,
  poll_tick, process_events, start, run_backfill,
}

-- The larger of the first ledger and the one so many before the latest.
abbrev pub ledger_before : ℕ → ℕ → ℕ
ledger_before latest n = if leb (latest - n) 7 then 7 else latest - n

lookback_ledgers_lem :
    (n : ℕ) → n / 6_000_000_000 < 2 ^ 32 → lookback_ledgers (int64 n) ≡ n / 6_000_000_000
unfolding lookback_ledgers
lookback_ledgers_lem n h = ground arith

module _ (t : Protocol) where
  -- For a window of n nanoseconds, below 2^32 ledgers, and a latest ledger that is a uint32,
  -- polling starts that many ledgers of six seconds before the latest, and never before ledger 7:
  -- the difference of the two uint32 numbers does not wrap.
  pub get_start_ledger_lem :
      (r : Rpc) (p : Poller t) (latest n : ℕ)
      → r.latest_ledger ≡ some latest
      → p.lookback_window ≡ int64 n
      → n / 6_000_000_000 < 2 ^ 32
      → latest < 2 ^ 32
      → get_start_ledger t r p
        ≡ some (record p { start_ledger = ledger_before latest (n / 6_000_000_000) })
  unfolding get_start_ledger
  get_start_ledger_lem r p latest n e w h l =
      let q : lookback_ledgers p.lookback_window ≡ n / 6_000_000_000 =
        ap lookback_ledgers w ∙ lookback_ledgers_lem n h in
      rw (e, get_start_ledger) (rw (q, get_start_ledger) (ground arith))

  -- A tick that gets an answer about new ledgers processes its events and moves the cursor.
  pub poll_tick_answered :
      (r : Rpc) (p q : Poller t) (latest : ℕ) (es : List EventInfo)
      → r.latest_ledger ≡ some latest
      → p.last_polled_ledger < latest
      → r.events (execution_events t p latest) ≡ some es
      → poll_tick t r p ≡ returned q
      → (c : t.Cache) × (process_events t r es p.attempt_cache ≡ returned c)
        × (q ≡ record p { last_polled_ledger = latest; attempt_cache = c })
  unfolding poll_tick poll_for_events
  poll_tick_answered r p q latest es e lt i h =
      elim (Outcome-cases (process_events t r es p.attempt_cache)) [
        | inl j ↦ absurd (process_events_runs t r es p.attempt_cache j)
        | inr (inl j) ↦ absurd (ground arith)
        | inr (inr (c, j)) ↦ (c, j, ground arith)
      ]

  -- A tick that does not panic leaves the poller as it is, or moves the cursor up to the latest
  -- ledger after it has queried every ledger from the old cursor on and before the new one.
  pub poll_tick_lem :
      (r : Rpc) (p q : Poller t)
      → poll_tick t r p ≡ returned q
      → (q ≡ p)
        ⊎ ((latest : ℕ) × (es : List EventInfo) × (c : t.Cache) × (r.latest_ledger ≡ some latest)
            × (p.last_polled_ledger < latest)
            × (r.events (execution_events t p latest) ≡ some es)
            × (process_events t r es p.attempt_cache ≡ returned c)
            × (q ≡ record p { last_polled_ledger = latest; attempt_cache = c }))
  unfolding poll_tick poll_for_events
  poll_tick_lem r p q h = elim (Option-cases r.latest_ledger) [
    | inl e ↦ inl (ground arith)
    | inr (latest, e) ↦ elim (Bool-cases (leb latest p.last_polled_ledger)) [
      | inl b ↦ inl (ground arith)
      | inr b ↦ elim (Option-cases (r.events (execution_events t p latest))) [
        | inl i ↦ inl (ground arith)
        | inr (es, i) ↦
            let lt : p.last_polled_ledger < latest = ground arith in
            let (c, j, k) = poll_tick_answered r p q latest es e (lt) i h in
            inr (latest, es, c, e, lt, i, j, k)
      ]
    ]
  ]

  get_start_ledger_shape :
      (r : Rpc) (p q : Poller t)
      → get_start_ledger t r p ≡ some q
      → q ≡ record p { start_ledger = q.start_ledger }
  unfolding get_start_ledger
  get_start_ledger_shape r p q e = elim (Option-cases r.latest_ledger) [
    | inl h ↦ absurd (ground arith)
    | inr (latest, h) ↦ elim (Bool-cases (leb latest (lookback_ledgers p.lookback_window))) [
      | inl b ↦ ground arith
      | inr b ↦ ground arith
    ]
  ]

  -- The backfill is a tick from the start ledger, also when it fails.
  pub start_lem :
      (r s : Rpc) (p q : Poller t)
      → start t r s p ≡ returned q
      → (n : ℕ) × (poll_tick t s (record p { start_ledger = n; last_polled_ledger = n })
          ≡ returned q)
  unfolding start run_backfill poll_tick
  start_lem r s p q e = elim (Option-cases (get_start_ledger t r p)) [
    | inl h ↦ absurd (ground arith)
    | inr (q1, h) ↦ (
      q1.start_ledger,
      elim (Outcome-cases
          (poll_for_events t s (record q1 { last_polled_ledger = q1.start_ledger }))) [
            | inl i ↦ ground (arith, get_start_ledger_shape r p q1 h)
            | inr (inl i) ↦ absurd (ground arith)
            | inr (inr (q2, i)) ↦ ground (arith, get_start_ledger_shape r p q1 h)
          ],
    )
  ]
