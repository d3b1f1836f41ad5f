-- ===== src/Config/Hints.antt =====
-- Merging hint lists: `mergeSimulationHintLists` of relayer/txm/config.go.
use mathlib.Core.List.{append_assoc, append-nil}
use mathlib.Core.Path.{subst}
use chainlink_stellar.Prelude.{
  ◌≡◌, refl, sym, ap, ◌∙◌, true, false, List, [], ◌∷◌, ◌++◌, ◌||◌, arith, if◌then◌else◌, Bool-cases,
  inl, inr,
}
use chainlink_stellar.Config.{
  Bytes, bytes_eq_iff, Bytes_equality, contains_hint, collect, merge_simulation_hint_lists,
}

-- No hint occurs twice.
abbrev pub Distinct : List Bytes → Type 0
Distinct [] = Unit {0}
Distinct (x ∷ xs) = (contains_hint xs x ≡ false) × Distinct xs

contains_hint-append :
    (xs ys : List Bytes) (h : Bytes)
    → contains_hint (xs ++ ys) h ≡ (contains_hint xs h || contains_hint ys h)
unfolding contains_hint
contains_hint-append [] ys h = refl
contains_hint-append (x ∷ xs) ys h = ground (arith, contains_hint-append xs ys h)

contains_hint-collect :
    (out hs : List Bytes) (h : Bytes)
    → contains_hint (collect out hs) h ≡ (contains_hint out h || contains_hint hs h)
unfolding collect
contains_hint-collect out [] h = ground arith
contains_hint-collect out (x ∷ hs) h = elim (Bool-cases (contains_hint out x)) [
  | inl e ↦ rw e (ground (arith, contains_hint-collect out hs h, bytes_eq_iff x h))
  | inr e ↦ rw e (
      ground
        (arith, contains_hint-collect (out ++ x ∷ []) hs h, contains_hint-append out (x ∷ []) h))
]

Distinct-append_one :
    (out : List Bytes) (h : Bytes)
    → Distinct out
    → contains_hint out h ≡ false
    → Distinct (out ++ h ∷ [])
unfolding contains_hint
Distinct-append_one [] h d e = (refl, tt)
Distinct-append_one (x ∷ out) h d e = ground (
  arith,
  contains_hint-append out (h ∷ []) x,
  Distinct-append_one out h d.1,
  bytes_eq_iff h x,
  bytes_eq_iff x h,
)

pub collect-Distinct : (out hs : List Bytes) → Distinct out → Distinct (collect out hs)
unfolding collect
collect-Distinct out [] d = d
collect-Distinct out (h ∷ hs) d = elim (Bool-cases (contains_hint out h)) [
  | inl e ↦ rw e (collect-Distinct out hs d)
  | inr e ↦ rw e (collect-Distinct (out ++ h ∷ []) hs (Distinct-append_one out h d e))
]

collect-append : (out xs ys : List Bytes) → collect out (xs ++ ys) ≡ collect (collect out xs) ys
unfolding collect
collect-append out [] ys = refl
collect-append out (x ∷ xs) ys =
    collect-append (if contains_hint out x then out else out ++ x ∷ []) xs ys

collect_known :
    (out hs : List Bytes)
    → ((h : Bytes) → contains_hint hs h ≡ true → contains_hint out h ≡ true)
    → collect out hs ≡ out
unfolding collect
collect_known out [] known = refl
collect_known out (h ∷ hs) known =
    rw (known h (ground (arith, bytes_eq_iff h h)))
      (collect_known out hs (λ k e. known k (ground (arith, e))))

Distinct-append_fresh :
    (out : List Bytes) (h : Bytes) (hs : List Bytes)
    → Distinct (out ++ h ∷ hs)
    → contains_hint out h ≡ false
unfolding contains_hint
Distinct-append_fresh [] h hs d = refl
Distinct-append_fresh (x ∷ out) h hs d = ground (
  arith,
  Distinct-append_fresh out h hs d.1,
  contains_hint-append out (h ∷ hs) x,
  bytes_eq_iff h x,
  bytes_eq_iff x h,
)

collect_fresh : (out hs : List Bytes) → Distinct (out ++ hs) → collect out hs ≡ out ++ hs
unfolding collect
collect_fresh out [] d = sym (append-nil out)
collect_fresh out (h ∷ hs) d = rw (Distinct-append_fresh out h hs d) (
    collect_fresh (out ++ h ∷ []) hs (subst Distinct (sym (append_assoc out (h ∷ []) hs)) d)
    ∙ append_assoc out (h ∷ []) hs)

-- A loop only appends.
collect_extends : (out hs : List Bytes) → (fresh : List Bytes) × (collect out hs ≡ out ++ fresh)
unfolding collect
collect_extends out [] = ([], sym (append-nil out))
collect_extends out (h ∷ hs) = elim (Bool-cases (contains_hint out h)) [
  | inl e ↦ rw e (collect_extends out hs)
  | inr e ↦
      let (fresh, same) = collect_extends (out ++ h ∷ []) hs in
      rw e (h ∷ fresh, same ∙ append_assoc out (h ∷ []) fresh)
]

collect_self : (out : List Bytes) → collect out out ≡ out
collect_self out = collect_known out out (λ h e. e)

-- Merging what was merged changes nothing.
collect_idem : (out hs : List Bytes) → Distinct out → collect out (collect out hs) ≡ collect out hs
collect_idem out hs d =
    let (fresh, same) = collect_extends out hs in
    rw same (
      collect-append out out fresh
      ∙ ap (λ b. collect b fresh) (collect_self out)
      ∙ collect_fresh out fresh (subst Distinct same (collect-Distinct out hs d)))

merge-collect :
    (builtin extra : List Bytes)
    → Distinct builtin
    → merge_simulation_hint_lists builtin extra ≡ collect builtin extra
unfolding merge_simulation_hint_lists
merge-collect builtin [] d = refl
merge-collect builtin (h ∷ hs) d = ap (λ b. collect b (h ∷ hs)) (collect_fresh [] builtin d)

-- The merge of a list without repetitions and any other begins with the first, has no
-- repetitions, and holds exactly the hints of the two.
pub merge_simulation_hint_lists_lem :
    (builtin extra : List Bytes)
    → Distinct builtin
    → let merged = merge_simulation_hint_lists builtin extra in
      ((fresh : List Bytes) × (merged ≡ builtin ++ fresh))
      × Distinct merged
      × ((h : Bytes) → contains_hint merged h ≡ (contains_hint builtin h || contains_hint extra h))
merge_simulation_hint_lists_lem builtin extra d = rw (merge-collect builtin extra d) (
  collect_extends builtin extra,
  collect-Distinct builtin extra d,
  contains_hint-collect builtin extra,
)

pub merge_simulation_hint_lists_idem :
    (builtin extra : List Bytes)
    → Distinct builtin
    → merge_simulation_hint_lists builtin (merge_simulation_hint_lists builtin extra)
      ≡ merge_simulation_hint_lists builtin extra
merge_simulation_hint_lists_idem builtin extra d =
    merge-collect builtin _ d
    ∙ ap (collect builtin) (merge-collect builtin extra d)
    ∙ collect_idem builtin extra d
    ∙ sym (merge-collect builtin extra d)
