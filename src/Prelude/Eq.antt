-- ===== src/Prelude/Eq.antt =====
-- Decidable equality as an interface, with its instances for numbers and texts.
use Prim.Native.Nat.{ℕ}
use Prim.Native.String.{String}
use mathlib.Core.Path.{◌≡◌, refl}
use mathlib.Core.Logic.{◌↔◌}
use mathlib.Core.Bool.{Bool, true}
use text.Mathlib.Text.{◌==◌ as str_eq}
use text.Mathlib.TextEquality.{eq_iff}
use chainlink_stellar.Prelude.Tests.{nat_eq, nat_eq_iff}

-- A Boolean test that decides the equations of a type.
pub record Equality {κ} (K : Type κ) : Type κ where
  pub test : K → K → Bool
  pub test_iff : (x y : K) → (test x y ≡ true) ↔ (x ≡ y)

instance abbrev pub ℕ_equality : Equality ℕ
ℕ_equality = record { test = nat_eq; test_iff = nat_eq_iff }

instance abbrev pub String_equality : Equality String
String_equality = record { test = str_eq; test_iff = eq_iff }

infix 50 ◌==◌
abbrev pub ◌==◌ {κ} : {K : Type κ} ⦃q : Equality K⦄ → K → K → Bool
◌==◌ ⦃q⦄ x y = q.test x y

pub ==_refl {κ} : {K : Type κ} ⦃q : Equality K⦄ (x : K) → (x == x) ≡ true
==_refl ⦃q⦄ x = (q.test_iff x x).1 refl
