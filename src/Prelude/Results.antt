-- ===== src/Prelude/Results.antt =====
-- Go's `value, err` results, whose errors are of a type that the package gives, and their chains.
use mathlib.Core.Path.{◌≡◌, refl}
use mathlib.Core.Bool.{Bool, true, false}
use native.Mathlib.Omega.{arith}
use synthient_mcp.Prelude.Tests.{if◌then◌else◌}

pub data Result {ℓ κ} (E : Type ℓ) (A : Type κ) : Type (ℓ ⊔ κ) where
  ok : A → Result E A
  err : E → Result E A

module _ {ℓ κ μ} {E : Type ℓ} {A : Type κ} {B : Type μ} where
  infixl 5 ◌>>=◌
  abbrev pub ◌>>=◌ : Result E A → (A → Result E B) → Result E B
  answer >>= continue = elim answer [ ok a ↦ continue a | err e ↦ err e ]

  -- A chain that succeeds has a first step that succeeds.
  pub bind_steps :
      (answer : Result E A) (continue : A → Result E B) {b : B}
      → (answer >>= continue) ≡ ok b
      → (a : A) × (answer ≡ ok a) × (continue a ≡ ok b)
  bind_steps (ok a) _ whole = (a, refl, whole)
  bind_steps (err e) _ whole = absurd (cc)

  pub bind_cong :
      (answer : Result E A) {f g : A → Result E B}
      → ((a : A) → f a ≡ g a)
      → (answer >>= f) ≡ (answer >>= g)
  bind_cong (ok a) same = same a
  bind_cong (err e) same = refl

pub bind_assoc {ℓ} :
    {E A B C : Type ℓ} (answer : Result E A) (f : A → Result E B) (k : B → Result E C)
    → ((answer >>= f) >>= k) ≡ (answer >>= λ a. f a >>= k)
bind_assoc (ok a) f k = refl
bind_assoc (err e) f k = refl

-- A guard whose chain succeeds did not fire.
pub guard_passed {ℓ κ} :
    {E : Type ℓ} {A : Type κ} (fires : Bool) (e : E) (later : Result E A) {a : A}
    → (if fires then err e else later) ≡ ok a
    → (fires ≡ false) × (later ≡ ok a)
guard_passed true e later whole = absurd (cc)
guard_passed false e later whole = (refl, whole)

pub ok_injective {ℓ κ} :
    {E : Type ℓ} {A : Type κ} (answer : Result E A) {a b : A}
    → answer ≡ ok a
    → answer ≡ ok b
    → a ≡ b
ok_injective answer first second = ground arith
