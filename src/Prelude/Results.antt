-- ===== src/Prelude/Results.antt =====
-- A Go result pair `(value, error)` of which one side is used.
use mathlib.Core.Path.{◌≡◌, refl}
use mathlib.Core.Bool.{Bool, true, false}
use native.Mathlib.Omega.{arith}
use mathlib.Core.List.{List, [], ◌∷◌}
use mathlib.Core.Logic.{◌⊎◌, inl, inr}

pub data Result {ℓ κ} (E : Type ℓ) (A : Type κ) : Type (ℓ ⊔ κ) where
  ok : A → Result E A
  err : E → Result E A

-- What a function does that may panic.
pub data Run {ℓ} (A : Type ℓ) : Type ℓ where
  panics : Run A
  returns : A → Run A

-- The first component is the receiver after the call, the second what the call returns.
abbrev pub after {ℓ κ} : {S : Type ℓ} {A : Type κ} → S × A → S
after r = r.0

abbrev pub result {ℓ κ} : {S : Type ℓ} {A : Type κ} → S × A → A
result r = r.1

-- `x` stands in the list.
abbrev pub In : {A : Type 0} → A → List A → Type 0
In x [] = ⊥
In x (y ∷ ys) = (y ≡ x) ⊎ In x ys

-- A chain of calls, which ends at the first error: what `do` blocks stand for.
infixl 5 ◌>>=◌
infixl 5 ◌>>◌
abbrev pub ◌>>=◌ : {E A B : Type 0} → Result E A → (A → Result E B) → Result E B
r >>= rest = elim r [ err e ↦ err e | ok a ↦ rest a ]

abbrev pub ◌>>◌ : {E B : Type 0} → Result E (Unit {0}) → Result E B → Result E B
r >> rest = elim r [ err e ↦ err e | ok u ↦ rest ]

-- The error, unless the test holds.
abbrev pub fail_unless : {E : Type 0} → E → Bool → Result E (Unit {0})
fail_unless e false = err e
fail_unless e true = ok tt

-- Both links of a chain of two that succeeds.
pub >>=-ok :
    {E A B : Type 0} (r : Result E A) (rest : A → Result E B) {b : B}
    → (r >>= rest) ≡ ok b
    → (a : A) × (r ≡ ok a) × (rest a ≡ ok b)
>>=-ok (err e) rest h = ground (arith, h)
>>=-ok (ok a) rest h = (a, refl, h)

pub Result-cases {ℓ κ} :
    {E : Type ℓ} {A : Type κ} (r : Result E A) → ((a : A) × (r ≡ ok a)) ⊎ ((e : E) × (r ≡ err e))
Result-cases (ok a) = inl (a, refl)
Result-cases (err e) = inr (e, refl)
