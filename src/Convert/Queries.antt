-- ===== src/Convert/Queries.antt =====
-- relayer/type_converters.go: which event queries convert, and to what; every event of a page is
-- converted or none is.
use chainlink_stellar.Prelude.{
  ◌≡◌, ◌↔◌, inl, inr, refl, Option, some, none, List, [], ◌∷◌, arith, Option-cases, All, map,
  Bool-cases, ◌==◌, true, ℕ,
}
use chainlink_stellar.Config.{Bytes, Bytes_equality}
use chainlink_stellar.ScVal.Address.{Strkey, IsStrkey}
use chainlink_stellar.Convert.Domain.{DomainVal}
use chainlink_stellar.Convert.Value.{convert_scval_from_domain}
use chainlink_stellar.Convert.Arguments.{IsArgument, convert_scval_from_domain_iff}
use chainlink_stellar.Convert.Events.{
  traverse, DomainSegment, SegmentFilter, exact_one, zero_or_more, convert_segment,
  convert_topic_filter_from_domain, convert_event_filter_from_domain, DomainEventFilter,
  EventFilter, EventTypeSet, EventType, system_type, contract_type, other_type, add_types, no_types,
}

module _ {ℓ κ} {A : Type ℓ} {B : Type κ} (f : A → Option B) where
  -- Every element has a result, and these are the results.
  pub traverse-map : (xs : List A) (ys : List B) → traverse f xs ≡ some ys → map f xs ≡ map some ys
  traverse-map [] [] e = refl
  traverse-map [] (y ∷ ys) e = absurd cc
  traverse-map (x ∷ xs) zs e = elim (Option-cases (f x)) [
    | inl q ↦ absurd (ground arith)
    | inr (y, q) ↦ elim (Option-cases (traverse f xs)) [
      | inl q2 ↦ absurd (ground arith)
      | inr (ys, q2) ↦ ground (arith, traverse-map xs ys q2)
    ]
  ]

  pub traverse-All :
      (P : A → Type 0)
      → ((x : A) → ((y : B) × (f x ≡ some y)) ↔ P x)
      → (xs : List A) → ((ys : List B) × (traverse f xs ≡ some ys)) ↔ All P xs
  traverse-All P h [] = ((λ _. tt), (λ _. ([], refl)))
  traverse-All P h (x ∷ xs) = (
    (λ (zs, e). elim (Option-cases (f x)) [
      | inl q ↦ absurd (ground arith)
      | inr (y, q) ↦ elim (Option-cases (traverse f xs)) [
        | inl q2 ↦ absurd (ground arith)
        | inr (ys, q2) ↦ ((h x).0 (y, q), (traverse-All P h xs).0 (ys, q2))
      ]
    ]),
    (λ (p, ps).
        let (y, q) = (h x).1 p in
        let (ys, q2) = (traverse-All P h xs).1 ps in
        (y ∷ ys, rw (q, traverse) (rw (q2, traverse) refl))),
  )

---- A segment with exactly one of the two: a wildcard of the two there are, or an argument.
pub data IsChoice : Option Bytes → Option DomainVal → Type 0 where
  one : IsChoice (some exact_one) none
  many : IsChoice (some zero_or_more) none
  argument : {v : DomainVal} → IsArgument v → IsChoice none (some v)

abbrev pub IsSegment : DomainSegment → Type 0
IsSegment s = IsChoice s.wildcard s.value

abbrev pub IsTopic : List DomainSegment → Type 0
IsTopic [] = ⊥
IsTopic (s ∷ ss) = All IsSegment (s ∷ ss)

pub data IsEventType : EventType → Type 0 where
  system_known : IsEventType system_type
  contract_known : IsEventType contract_type

no_other : {tag : ℕ} → ¬ IsEventType (other_type tag)
no_other = elim [ ]

module _ (k : Strkey) (s : IsStrkey k) where
  choice_converts :
      {w : Option Bytes} {v : Option DomainVal}
      → IsChoice w v
      → (x : SegmentFilter) × (convert_segment k (record { wildcard = w; value = v }) ≡ some x)
  unfolding convert_segment
  choice_converts one = (_, refl)
  choice_converts many = (_, refl)
  choice_converts (argument {v} h) =
      let (y, q) = (convert_scval_from_domain_iff k s v).1 h in
      (record { wildcard = none; scval = some y }, rw (q, convert_segment) refl)

  wildcard_converts :
      (w : Bytes) (x : SegmentFilter)
      → convert_segment k (record { wildcard = some w; value = none }) ≡ some x
      → IsChoice (some w) none
  unfolding convert_segment
  wildcard_converts w x e = elim (Bool-cases (w == exact_one)) [
    | inl h ↦ rw ((Bytes_equality.test_iff w exact_one).0 h) one
    | inr h ↦ elim (Bool-cases (w == zero_or_more)) [
      | inl i ↦ rw ((Bytes_equality.test_iff w zero_or_more).0 i) many
      | inr i ↦ absurd (ground arith)
    ]
  ]

  converts-IsChoice :
      (w : Option Bytes) (v : Option DomainVal) (x : SegmentFilter)
      → convert_segment k (record { wildcard = w; value = v }) ≡ some x
      → IsChoice w v
  unfolding convert_segment
  converts-IsChoice none none x e = absurd cc
  converts-IsChoice none (some v) x e = elim (Option-cases (convert_scval_from_domain k v)) [
    | inl q ↦ absurd (ground arith)
    | inr (y, q) ↦ argument ((convert_scval_from_domain_iff k s v).0 (y, q))
  ]
  converts-IsChoice (some w) none x e = wildcard_converts w x e
  converts-IsChoice (some w) (some v) x e = absurd cc

  IsSegment-converts :
      (g : DomainSegment) → ((x : SegmentFilter) × (convert_segment k g ≡ some x)) ↔ IsSegment g
  IsSegment-converts g = ((λ (x, e). converts-IsChoice g.wildcard g.value x e), choice_converts)

  IsTopic-converts :
      (t : List DomainSegment)
      → ((x : List SegmentFilter) × (convert_topic_filter_from_domain k t ≡ some x)) ↔ IsTopic t
  unfolding convert_topic_filter_from_domain
  IsTopic-converts [] = ((λ (x, e). absurd cc), elim [ ])
  IsTopic-converts (g ∷ gs) = traverse-All (convert_segment k) IsSegment IsSegment-converts (g ∷ gs)

  types_add :
      (set : EventTypeSet) (ts : List EventType)
      → ((x : EventTypeSet) × (add_types set ts ≡ some x)) ↔ All IsEventType ts
  unfolding add_types
  types_add set [] = ((λ _. tt), λ _. (set, refl))
  types_add set (system_type ∷ ts) =
      let (f, g) = types_add (record { system = true; contract = set.contract }) ts in
      ((λ h. (system_known, f h)), λ (_, h). g h)
  types_add set (contract_type ∷ ts) =
      let (f, g) = types_add (record { system = set.system; contract = true }) ts in
      ((λ h. (contract_known, f h)), λ (_, h). g h)
  types_add set (other_type tag ∷ ts) = ((λ (x, e). absurd cc), λ (h, _). absurd (no_other h))

  -- An event filter converts exactly when its event types are of the two kinds there are and every
  -- topic filter has a segment, each of which is either a wildcard `*` or `**` or an argument, not
  -- both.
  pub convert_event_filter_from_domain_iff :
      (f : DomainEventFilter)
      → ((x : EventFilter) × (convert_event_filter_from_domain k f ≡ some x))
        ↔ (All IsEventType f.event_types × All IsTopic f.topics)
  unfolding convert_event_filter_from_domain
  convert_event_filter_from_domain_iff f =
      let (p, q) = types_add no_types f.event_types in
      let (p2, q2) =
        traverse-All (convert_topic_filter_from_domain k) IsTopic IsTopic-converts f.topics in
      (
        (λ (x, e). elim (Option-cases (add_types no_types f.event_types)) [
          | inl h ↦ absurd (ground arith)
          | inr (y, h) ↦
              elim (Option-cases (traverse (convert_topic_filter_from_domain k) f.topics)) [
                | inl i ↦ absurd (ground arith)
                | inr (z, i) ↦ (p (y, h), p2 (z, i))
              ]
        ]),
        (λ (h, i).
            let (y, e) = q h in
            let (z, e2) = q2 i in
            (
              record { event_types = y; contract_ids = f.contract_ids; topics = z },
              rw (e, convert_event_filter_from_domain)
                  (rw (e2, convert_event_filter_from_domain) refl),
            )),
      )
