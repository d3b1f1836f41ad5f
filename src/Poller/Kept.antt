-- ===== src/Poller/Kept.antt =====
-- ccv/destination_reader/execution_attempt_poller.go: what the loop over the events of a poll leaves
-- in the cache, while no entry expires.
use mathlib.Core.Path.{subst}
use mathlib.Core.List.{Memᴰ}
use chainlink_stellar.Prelude.{
  ◌≡◌, ◌≢◌, ◌↔◌, ◌⊎◌, inl, inr, refl, ap, sym, ◌∙◌, arith, some, none, List, [], ◌∷◌, ◌++◌, ◌==◌,
  Bool-cases,
}
use chainlink_stellar.Poller.Outcome.{returned, returned_inj}
use chainlink_stellar.Config.{Bytes, Bytes_equality}
use chainlink_stellar.Poller.Event.{EventInfo}
use chainlink_stellar.Poller.Attempt.{ExecutionAttempt}
use chainlink_stellar.Poller.Poll.{Protocol, Rpc, attempts_at, process_events}
use chainlink_stellar.Poller.Loop.{verified, cache_attempt, process_events_cons}

Mem-append {ℓ} : {A : Type ℓ} {a : A} (xs : List A) (ys : List A) → Memᴰ a xs → Memᴰ a (xs ++ ys)
Mem-append [] ys h = elim h [ ]
Mem-append (x ∷ xs) ys (Memᴰ.head e) = Memᴰ.head e
Mem-append (x ∷ xs) ys (Memᴰ.tail h) = Memᴰ.tail (Mem-append xs ys h)

Mem-append_inv {ℓ} :
    {A : Type ℓ} (a b : A) (xs : List A) → Memᴰ a (xs ++ b ∷ []) → Memᴰ a xs ⊎ (a ≡ b)
Mem-append_inv a b [] (Memᴰ.head e) = inr e
Mem-append_inv a b [] (Memᴰ.tail h) = elim h [ ]
Mem-append_inv a b (x ∷ xs) (Memᴰ.head e) = inl (Memᴰ.head e)
Mem-append_inv a b (x ∷ xs) (Memᴰ.tail h) = elim (Mem-append_inv a b xs h) [
  | inl m ↦ inl (Memᴰ.tail m)
  | inr e ↦ inr e
]

Mem_last {ℓ} : {A : Type ℓ} (a : A) (xs : List A) → Memᴰ a (xs ++ a ∷ [])
Mem_last a [] = Memᴰ.head refl
Mem_last a (x ∷ xs) = Memᴰ.tail (Mem_last a xs)

-- An unlimited cache, while no entry expires.
pub record Keeps (t : Protocol) : Type 0 where
  pub get_same :
      (c : t.Cache) (k : Bytes) (v : List (ExecutionAttempt t.Message))
      → t.get (t.add c k v) k ≡ some v
  pub get_other :
      (c : t.Cache) (k j : Bytes) (v : List (ExecutionAttempt t.Message))
      → j ≢ k
      → t.get (t.add c k v) j ≡ t.get c j

module _ (t : Protocol) where
  -- The cache has the attempt under the id.
  abbrev pub IsServed : t.Cache → Bytes → ExecutionAttempt t.Message → Type 0
  IsServed c id a = Memᴰ a (attempts_at t c id)

  module _ (law : Keeps t) where
    attempts_at_same :
        (c : t.Cache) (k : Bytes) (v : List (ExecutionAttempt t.Message))
        → attempts_at t (t.add c k v) k ≡ v
    attempts_at_same c k v = ap (λ o. elim o [ none ↦ [] | some as' ↦ as' ]) (law.get_same c k v)

    attempts_at_other :
        (c : t.Cache) (k j : Bytes) (v : List (ExecutionAttempt t.Message))
        → j ≢ k
        → attempts_at t (t.add c k v) j ≡ attempts_at t c j
    attempts_at_other c k j v n =
        ap (λ o. elim o [ none ↦ [] | some as' ↦ as' ]) (law.get_other c k j v n)

    -- The attempts under an id after one more is cached.
    cached_at :
        (c : t.Cache) (j id : Bytes) (b : ExecutionAttempt t.Message)
        → ((j ≡ id) × (attempts_at t (cache_attempt t c j b) id ≡ attempts_at t c id ++ b ∷ []))
          ⊎ ((j ≢ id) × (attempts_at t (cache_attempt t c j b) id ≡ attempts_at t c id))
    cached_at c j id b = elim (Bool-cases (j == id)) [
      | inl e ↦
          let same = (Bytes_equality.test_iff j id).0 e in
          inl (same, rw same (attempts_at_same c id (attempts_at t c id ++ b ∷ [])))
      | inr e ↦
          let other : j ≢ id =
            λ same. absurd (ground (arith, (Bytes_equality.test_iff j id).1 same)) in
          inr (other, attempts_at_other c j id (attempts_at t c j ++ b ∷ []) (λ s. other (sym s)))
    ]

    cache_attempt-IsServed :
        (c : t.Cache) (j id : Bytes) (b a : ExecutionAttempt t.Message)
        → IsServed (cache_attempt t c j b) id a ↔ (IsServed c id a ⊎ ((j ≡ id) × (a ≡ b)))
    cache_attempt-IsServed c j id b a = elim (cached_at c j id b) [
      | inl (same, e) ↦ (
        λ m. elim (Mem-append_inv a b (attempts_at t c id) (subst (Memᴰ a) e m)) [
          | inl h ↦ inl h
          | inr h ↦ inr (same, h)
        ],
        λ s. subst (Memᴰ a) (sym e) (elim s [
          | inl h ↦ Mem-append (attempts_at t c id) (b ∷ []) h
          | inr (i, h) ↦
              subst (λ x. Memᴰ x (attempts_at t c id ++ b ∷ [])) (sym h)
                (Mem_last b (attempts_at t c id))
        ]),
      )
      | inr (other, e) ↦ (
        λ m. inl (subst (Memᴰ a) e m),
        λ s. subst (Memᴰ a) (sym e) (elim s [ inl h ↦ h | inr (i, h) ↦ absurd (other i) ]),
      )
    ]

    -- One of the events stands for the attempt.
    abbrev pub IsAmong : Rpc → List EventInfo → Bytes → ExecutionAttempt t.Message → Type 0
    IsAmong r es id a = (e : EventInfo) × Memᴰ e es × (verified t r e ≡ returned (id, a))

    pub process_events_keeps :
        (r : Rpc) (es : List EventInfo) (c d : t.Cache) (id : Bytes)
        (a : ExecutionAttempt t.Message)
        → process_events t r es c ≡ returned d
        → IsServed c id a ⊎ IsAmong r es id a
        → IsServed d id a
    unfolding process_events
    process_events_keeps r [] c d id a h (inl s) = subst (λ x. IsServed x id a) (returned_inj h) s
    process_events_keeps r [] c d id a h (inr (e, m, v)) = elim m [ ]
    process_events_keeps r (x ∷ es) c d id a h s = elim (process_events_cons t r x es c d h) [
      | inl (q, i) ↦ process_events_keeps r es c d id a i (elim s [
        | inl old ↦ inl old
        | inr (e, Memᴰ.head m, v) ↦ absurd cc
        | inr (e, Memᴰ.tail m, v) ↦ inr (e, m, v)
      ])
      | inr (j, b, q, i) ↦ process_events_keeps r es (cache_attempt t c j b) d id a i (elim s [
        | inl old ↦ inl ((cache_attempt-IsServed c j id b a).1 (inl old))
        | inr (e, Memᴰ.head m, v) ↦
            let same : returned (j, b) ≡ returned (id, a) = sym q ∙ ap (verified t r) (sym m) ∙ v in
            let pair = returned_inj same in
            inl (
              (cache_attempt-IsServed c j id b a).1
                (inr (ap (λ z. z.0) pair, sym (ap (λ z. z.1) pair))))
        | inr (e, Memᴰ.tail m, v) ↦ inr (e, m, v)
      ])
    ]

    pub process_events-IsServed :
        (r : Rpc) (es : List EventInfo) (c d : t.Cache) (id : Bytes)
        (a : ExecutionAttempt t.Message)
        → process_events t r es c ≡ returned d
        → IsServed d id a
        → IsServed c id a ⊎ IsAmong r es id a
    unfolding process_events
    process_events-IsServed r [] c d id a h s =
        inl (subst (λ x. IsServed x id a) (sym (returned_inj h)) s)
    process_events-IsServed r (x ∷ es) c d id a h s = elim (process_events_cons t r x es c d h) [
      | inl (q, i) ↦ elim (process_events-IsServed r es c d id a i s) [
        | inl old ↦ inl old
        | inr (e, m, v) ↦ inr (e, Memᴰ.tail m, v)
      ]
      | inr (j, b, q, i) ↦ elim (process_events-IsServed r es (cache_attempt t c j b) d id a i s) [
        | inl new ↦ elim ((cache_attempt-IsServed c j id b a).0 new) [
          | inl old ↦ inl old
          | inr (k, l) ↦ inr (x, Memᴰ.head refl, rw (← k, l) q)
        ]
        | inr (e, m, v) ↦ inr (e, Memᴰ.tail m, v)
      ]
    ]
