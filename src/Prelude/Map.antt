-- ===== src/Prelude/Map.antt =====
-- A Go map as an association list. The order of the list stands for the iteration order, which Go
-- leaves open; a key occurs at most once in every map that is built by `put` and `delete`.
use mathlib.Core.Path.{◌≡◌, refl}
use mathlib.Core.Bool.{Bool, true, false}
use mathlib.Core.Option.{Option, none, some}
use mathlib.Core.List.{List, [], ◌∷◌}
use native.Mathlib.Omega.{arith}
use chainlink_stellar.Prelude.Tests.{if◌then◌else◌}
use chainlink_stellar.Prelude.Eq.{Equality, ◌==◌, ==_refl}

abbrev pub Map {ℓ κ} : Type ℓ → Type κ → Type (ℓ ⊔ κ)
Map K V = List (K × V)

module _ {ℓ κ} {K : Type ℓ} {V : Type κ} ⦃e : Equality K⦄ where
  unfoldable pub get : K → Map K V → Option V
  get k [] = none
  get k ((j, v) ∷ m) = if j == k then some v else get k m

  unfoldable pub put : K → V → Map K V → Map K V
  put k v [] = (k, v) ∷ []
  put k v ((j, w) ∷ m) = if j == k then (k, v) ∷ m else (j, w) ∷ put k v m

  unfoldable pub delete : K → Map K V → Map K V
  delete k [] = []
  delete k ((j, v) ∷ m) = if j == k then delete k m else (j, v) ∷ delete k m

  unfoldable pub has : K → Map K V → Bool
  has k [] = false
  has k ((j, v) ∷ m) = if j == k then true else has k m

  pub get-put :
      (k j : K) (v : V) (m : Map K V) → get j (put k v m) ≡ (if k == j then some v else get j m)
  unfolding get put
  get-put k j v [] = refl
  get-put k j v ((i, w) ∷ m) =
      ground (arith, e.test_iff k j, e.test_iff i k, e.test_iff i j, get-put k j v m)

  pub get-delete : (k j : K) (m : Map K V) → get j (delete k m) ≡ (if k == j then none else get j m)
  unfolding get delete
  get-delete k j [] = ground arith
  get-delete k j ((i, w) ∷ m) =
      ground (arith, e.test_iff k j, e.test_iff i k, e.test_iff i j, get-delete k j m)

  pub get-put_self : (k : K) (v : V) (m : Map K V) → get k (put k v m) ≡ some v
  get-put_self k v m = rw (get-put k k v m, ==_refl k) refl

  pub get-delete_self : (k : K) (m : Map K V) → get k (delete k m) ≡ none
  get-delete_self k m = rw (get-delete k k m, ==_refl k) refl

  abbrev pub Unique : Map K V → Type κ
  Unique [] = Unit
  Unique ((k, v) ∷ m) = (get k m ≡ none) × Unique m

  pub put-Unique : (k : K) (v : V) (m : Map K V) → Unique m → Unique (put k v m)
  unfolding get put
  put-Unique k v [] u = (refl, tt)
  put-Unique k v ((j, w) ∷ m) u =
      ground (arith, e.test_iff j k, e.test_iff k j, get-put k j v m, put-Unique k v m u.1)

  pub delete-Unique : (k : K) (m : Map K V) → Unique m → Unique (delete k m)
  unfolding get delete
  delete-Unique k [] u = tt
  delete-Unique k ((j, w) ∷ m) u =
      ground (arith, e.test_iff j k, e.test_iff k j, get-delete k j m, delete-Unique k m u.1)
