-- ===== src/Common/Outcome.antt =====
-- The outcome of code that may misbehave: `fault` is an out-of-range `operator[]`, a throwing
-- `vector::at`, `front` or `back` of an empty container, or an int that overflows, and nothing after
-- it is modelled.
use Prim.Native.Nat.{ℕ, zero, suc}
use mathlib.Core.Path.{◌≡◌, refl}
use mathlib.Core.Logic.{◌⊎◌, inl, inr}
use mathlib.Core.Bool.{Bool, true, false}
use mathlib.Core.List.{List, [], ◌∷◌}
use network_simulation.Common.Tests.{if◌then◌else◌}

pub data Run {ℓ} (A : Type ℓ) : Type ℓ where
  ok : A → Run A
  fault : Run A

infixl 5 ◌>>=◌
abbrev pub ◌>>=◌ {ℓ κ} : {A : Type ℓ} {B : Type κ} → Run A → (A → Run B) → Run B
ok a >>= f = f a
fault >>= f = fault

-- `v[i]` and `v.at(i)`.
abbrev pub at {ℓ} : {A : Type ℓ} → List A → ℕ → Run A
at [] i = fault
at (x ∷ xs) zero = ok x
at (x ∷ xs) (suc i) = at xs i

pub Run-cases {ℓ} : {A : Type ℓ} (r : Run A) → ((a : A) × (r ≡ ok a)) ⊎ (r ≡ fault)
Run-cases (ok a) = inl (a, refl)
Run-cases fault = inr refl

-- A result that a test for a fault has let through.
pub past_fault {ℓ} :
    {A : Type ℓ} (b : Bool) (r : Run A) (x : A) → (if b then fault else r) ≡ ok x → r ≡ ok x
past_fault true r x e = absurd (cc e)
past_fault false r x e = e
