-- ===== src/Prelude/Sort.antt =====
-- `sort.Slice` by a number of each element.
use Prim.Native.Nat.{ℕ, ◌≤◌}
use mathlib.Core.List.{List, [], ◌∷◌, Perm}
use mathlib.Core.List.Perm
use mathlib.Core.Logic.{inl, inr}
use native.Mathlib.Omega.{arith}
use chainlink_stellar.Prelude.Tests.{ltb, if◌then◌else◌, Bool-cases}
use chainlink_stellar.Prelude.Lists.{All}

module _ {ℓ} {A : Type ℓ} (key : A → ℕ) where
  unfoldable pub insert : A → List A → List A
  insert a [] = a ∷ []
  insert a (x ∷ xs) = if ltb (key x) (key a) then x ∷ insert a xs else a ∷ x ∷ xs

  unfoldable pub sort : List A → List A
  unfolding insert
  sort [] = []
  sort (x ∷ xs) = insert x (sort xs)

  abbrev pub IsSorted : List A → Type 0
  IsSorted [] = Unit
  IsSorted (x ∷ xs) = All (λ y. key x ≤ key y) xs × IsSorted xs

  All-trans :
      (a b : A) (xs : List A)
      → key a ≤ key b
      → All (λ y. key b ≤ key y) xs
      → All (λ y. key a ≤ key y) xs
  All-trans a b [] h p = tt
  All-trans a b (x ∷ xs) h p = (omega arith, All-trans a b xs h p.1)

  All-insert :
      (a b : A) (xs : List A)
      → key a ≤ key b
      → All (λ y. key a ≤ key y) xs
      → All (λ y. key a ≤ key y) (insert b xs)
  unfolding insert
  All-insert a b [] h p = (h, tt)
  All-insert a b (x ∷ xs) h p = ground (arith, All-insert a b xs h p.1)

  insert-IsSorted : (a : A) (xs : List A) → IsSorted xs → IsSorted (insert a xs)
  unfolding insert
  insert-IsSorted a [] s = (tt, tt)
  insert-IsSorted a (x ∷ xs) s =
      ground (arith, insert-IsSorted a xs s.1, All-insert x a xs, All-trans a x xs)

  pub sort-IsSorted : (xs : List A) → IsSorted (sort xs)
  unfolding sort
  sort-IsSorted [] = tt
  sort-IsSorted (x ∷ xs) = insert-IsSorted x (sort xs) (sort-IsSorted xs)

  insert-perm : (a : A) (xs : List A) → Perm (insert a xs) (a ∷ xs)
  unfolding insert
  insert-perm a [] = Perm.refl (a ∷ [])
  insert-perm a (x ∷ xs) = elim (Bool-cases (ltb (key x) (key a))) [
    | inl e ↦ rw e (Perm.trans (Perm.cons x (insert-perm a xs)) (Perm.swap a x xs))
    | inr e ↦ rw e (Perm.refl (a ∷ x ∷ xs))
  ]

  pub sort-perm : (xs : List A) → Perm (sort xs) xs
  unfolding sort
  sort-perm [] = Perm.nil
  sort-perm (x ∷ xs) = Perm.trans (insert-perm x (sort xs)) (Perm.cons x (sort-perm xs))

  insert-All {κ} : (P : A → Type κ) (a : A) (xs : List A) → P a → All P xs → All P (insert a xs)
  unfolding insert
  insert-All P a [] h p = (h, tt)
  insert-All P a (x ∷ xs) h p = elim (Bool-cases (ltb (key x) (key a))) [
    | inl e ↦ rw e (p.0, insert-All P a xs h p.1)
    | inr e ↦ rw e (h, p)
  ]

  pub sort-All {κ} : (P : A → Type κ) (xs : List A) → All P xs → All P (sort xs)
  unfolding sort
  sort-All P [] p = tt
  sort-All P (x ∷ xs) p = insert-All P x (sort xs) p.0 (sort-All P xs p.1)
