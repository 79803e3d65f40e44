-- ===== src/Base/Errors.antt =====
-- Code that may raise: a value, or the exception. Each component has its own type of exceptions.
use mathlib.Core.Path.{◌≡◌, refl, ap}
use mathlib.Core.Bool.{Bool, true, false}
use mathlib.Core.Logic.{◌⊎◌, inl, inr}

pub data Result {ℓ κ} (E : Type ℓ) (A : Type κ) : Type (ℓ ⊔ κ) where
  ok : A → Result E A
  err : E → Result E A

infixl 5 ◌>>=◌ ◌>>◌
abbrev pub ◌>>=◌ {ℓ κ μ} :
    {E : Type ℓ} {A : Type κ} {B : Type μ} → Result E A → (A → Result E B) → Result E B
err raised >>= rest = err raised
ok value >>= rest = rest value

abbrev pub ◌>>◌ {ℓ κ} : {E : Type ℓ} {B : Type κ} → Result E (Unit {0}) → Result E B → Result E B
first >> rest = first >>= λ _. rest

-- `if not test: raise e`
abbrev pub guard {ℓ} : {E : Type ℓ} → Bool → E → Result E (Unit {0})
guard false raised = err raised
guard true raised = ok tt

pub >>=-eq-ok {ℓ κ μ} :
    {E : Type ℓ} {A : Type κ} {B : Type μ} (first : Result E A) (rest : A → Result E B) {value : B}
    → (first >>= rest) ≡ ok value
    → (x : A) × (first ≡ ok x) × (rest x ≡ ok value)
>>=-eq-ok (err raised) rest returns = cc
>>=-eq-ok (ok x) rest returns = (x, refl, returns)

pub guard-eq-ok {ℓ} :
    {E : Type ℓ} (test : Bool) (raised : E) {u : Unit {0}} → guard test raised ≡ ok u → test ≡ true
guard-eq-ok false raised returns = cc
guard-eq-ok true raised returns = refl

pub Result-cases {ℓ κ} :
    {E : Type ℓ} {A : Type κ} (r : Result E A) → ((a : A) × (r ≡ ok a)) ⊎ ((e : E) × (r ≡ err e))
Result-cases (ok a) = inl (a, refl)
Result-cases (err e) = inr (e, refl)

-- The same for proofs: the rest of the proof is given the value.
pub bind_elim {ℓ κ μ ν} :
    {E : Type ℓ} {A : Type κ} {B : Type μ} {C : Type ν} (m : Result E A) (f : A → Result E B)
    {b : B}
    → (m >>= f) ≡ ok b
    → ((a : A) → m ≡ ok a → f a ≡ ok b → C)
    → C
bind_elim (ok a) f h k = k a refl h
bind_elim (err e) f h k = absurd (cc)

pub guard_elim {ℓ μ ν} :
    {E : Type ℓ} {B : Type μ} {C : Type ν} (t : Bool) (e : E) (m : Result E B) {b : B}
    → (guard t e >> m) ≡ ok b
    → (t ≡ true → m ≡ ok b → C)
    → C
guard_elim true e m h k = k refl h
guard_elim false e m h k = absurd (cc)

abbrev value_or {ℓ κ} : {E : Type ℓ} {A : Type κ} → A → Result E A → A
value_or d (ok a) = a
value_or d (err e) = d

pub ok-injective {ℓ κ} :
    {E : Type ℓ} {A : Type κ} (a b : A) → ◌≡◌ {A = Result E A} (ok a) (ok b) → a ≡ b
ok-injective a b h = ap (value_or a) h
