-- ===== src/Common/Outcomes.antt =====
-- A call that returns or throws, and a method that may throw after it has written: the state comes
-- back beside the error too.
use mathlib.Core.Path.{◌≡◌, refl}
use mathlib.Core.Logic.{◌⊎◌, inl, inr}

pub data Outcome {ℓ κ} (Thrown : Type ℓ) (Returned : Type κ) : Type (ℓ ⊔ κ) where
  err : Thrown → Outcome Thrown Returned
  ok : Returned → Outcome Thrown Returned

infixl 5 ◌>>=◌ ◌>>◌
-- what follows a call, where the call returned
abbrev pub ◌>>=◌ {ℓ κ μ} :
    {E : Type ℓ} {A : Type κ} {B : Type μ} → Outcome E A → (A → Outcome E B) → Outcome E B
err thrown >>= next = err thrown
ok value >>= next = next value

pub Outcome-cases {ℓ κ} :
    {E : Type ℓ} {A : Type κ} (o : Outcome E A) → ((a : A) × (o ≡ ok a)) ⊎ ((e : E) × (o ≡ err e))
Outcome-cases (ok a) = inl (a, refl)
Outcome-cases (err e) = inr (e, refl)

abbrev pub ◌>>◌ {ℓ κ} : {E : Type ℓ} {B : Type κ} → Outcome E (Unit {0}) → Outcome E B → Outcome E B
check >> rest = check >>= λ _. rest

-- Inversion of a chain that returned.
pub >>=-eq-ok {ℓ κ μ} :
    {E : Type ℓ} {A : Type κ} {B : Type μ} (call : Outcome E A) (next : A → Outcome E B) {last : B}
    → (call >>= next) ≡ ok last
    → (first : A) × (call ≡ ok first) × (next first ≡ ok last)
>>=-eq-ok (err thrown) next h = cc
>>=-eq-ok (ok first) next h = (first, refl, h)
