-- ===== src/RunTest/Exec.antt =====
-- The effects of strataqemu/run_test.py and strataqemu/tests_spec.py: code that changes a state and may raise. What was done
-- before an exception stays done, so the state comes back beside the exception.
use strata_qemu_testing.Base.{
  Result, ok, err, ◌≡◌, refl, ap, ok-injective, Bool, true, false, if◌then◌else◌,
}
use mathlib.Core.Path.{subst}

abbrev pub Exec : Type 0 → Type 0 → Type 0 → Type 0
Exec S F A = S → Result F A × S

module _ {S F A B : Type 0} where
  -- What follows a part that has run.
  abbrev pub follow : (A → Exec S F B) → Result F A × S → Result F B × S
  follow f (ok a, s) = f a s
  follow f (err e, s) = (err e, s)

  infixl 5 ◌>>=◌
  unfoldable pub ◌>>=◌ : Exec S F A → (A → Exec S F B) → Exec S F B
  ◌>>=◌ m f s = follow f (m s)

module _ {S F B : Type 0} where
  infixl 5 ◌>>◌
  abbrev pub ◌>>◌ : Exec S F (Unit {0}) → Exec S F B → Exec S F B
  m >> k = m >>= λ _. k

-- From a state that satisfies `P`, a part that returns leaves one that satisfies `Q`, and a part that
-- raises leaves one that satisfies `R`.
abbrev pub Leaves : {S F A : Type 0} → (S → Type 0) → (S → Type 0) → Result F A × S → Type 0
Leaves Q R (ok a, s) = Q s
Leaves Q R (err e, s) = R s

pub record Triple {S F A : Type 0} (P Q R : S → Type 0) (m : Exec S F A) : Type 0 where
  pub at : (s : S) → P s → Leaves Q R (m s)

module _ {S F A B : Type 0} (Q R : S → Type 0) {T : S → Type 0} where
  follow-Leaves :
      (f : A → Exec S F B) (q : Result F A × S)
      → ((a : A) → Triple Q T R (f a))
      → Leaves Q R q
      → Leaves T R (follow f q)
  follow-Leaves f (ok a, s) k h = (k a).at s h
  follow-Leaves f (err e, s) k h = h

  pub Triple-bind :
      (P : S → Type 0) (m : Exec S F A) (f : A → Exec S F B)
      → Triple P Q R m
      → ((a : A) → Triple Q T R (f a))
      → Triple P T R (m >>= f)
  unfolding ◌>>=◌
  Triple-bind P m f km kf = record { at = λ s h. follow-Leaves f (m s) kf (km.at s h) }

module _ {S F A : Type 0} where
  -- A value, without an effect.
  abbrev pub pure : A → Exec S F A
  pure a s = (ok a, s)

  -- `raise e`
  abbrev pub raise : F → Exec S F A
  raise e s = (err e, s)

  -- A result that has been computed: the value, or the exception.
  abbrev pub lift : Result F A → Exec S F A
  lift r s = (r, s)

module _ {S F A B C : Type 0} where
  follow_elim :
      (f : A → Exec S F B) (q : Result F A × S) {b : B} {end : S}
      → follow f q ≡ (ok b, end)
      → ((a : A) (t : S) → q ≡ (ok a, t) → f a t ≡ (ok b, end) → C)
      → C
  follow_elim f (ok a, t) h k = k a t refl h
  follow_elim f (err e, t) h k = absurd (let raised = ap (λ q. q.0) h in cc)

  -- A proof about code that has returned: the rest is given the value and the state of the first part.
  pub exec_elim :
      (m : Exec S F A) (f : A → Exec S F B) (s : S) {b : B} {end : S}
      → (m >>= f) s ≡ (ok b, end)
      → ((a : A) (t : S) → m s ≡ (ok a, t) → f a t ≡ (ok b, end) → C)
      → C
  unfolding ◌>>=◌
  exec_elim m f s h k = follow_elim f (m s) h k

module _ {S F A : Type 0} where
  -- What a pair of a result and a state is, when it is that of code that has returned.
  pub returned :
      (r : Result F A) (s : S) {a : A} {t : S}
      → ◌≡◌ {A = Result F A × S} (r, s) (ok a, t)
      → (r ≡ ok a) × (s ≡ t)
  returned r s h = (ap (λ q. q.0) h, ap (λ q. q.1) h)

  pub pure-injective :
      (a : A) (s : S) {b : A} {t : S}
      → ◌≡◌ {A = Result F A × S} (ok a, s) (ok b, t)
      → (a ≡ b) × (s ≡ t)
  pure-injective a s {b} h = (ok-injective a b (ap (λ q. q.0) h), ap (λ q. q.1) h)

  pub with_state : (q : Result F A × S) {a : A} → q.0 ≡ ok a → q ≡ (ok a, q.1)
  with_state (r, s) h = ap (λ x. (x, s)) h

-- What code returns satisfies `P`, from whatever state it is run.
pub record Gives {S F A : Type 0} (P : A → Type 0) (m : Exec S F A) : Type 0 where
  pub at : (s t : S) (a : A) → m s ≡ (ok a, t) → P a

module _ {S F A B : Type 0} {P : B → Type 0} where
  -- The rest is given what the first part returns, and that it satisfies `Q`.
  pub Gives-bind :
      {Q : A → Type 0} {m : Exec S F A} {f : A → Exec S F B}
      → Gives Q m
      → ((a : A) → Q a → Gives P (f a))
      → Gives P (m >>= f)
  Gives-bind {m} {f} first rest = record {
    at = λ s t b h. exec_elim m f s h λ a s1 e h. (rest a (first.at s s1 a e)).at s1 t b h;
  }

  pub Gives-then :
      (m : Exec S F A) {f : A → Exec S F B} → ((a : A) → Gives P (f a)) → Gives P (m >>= f)
  Gives-then m {f} rest = record {
    at = λ s t b h. exec_elim m f s h λ a s1 e h. (rest a).at s1 t b h;
  }

module _ {S F A : Type 0} {P : A → Type 0} where
  pub Gives-pure : {a : A} → P a → Gives {S = S} {F = F} P (λ s. (ok a, s))
  Gives-pure {a} p = record {
    at = λ s t b h. subst P (pure-injective {S = S} {F = F} a s {b = b} {t = t} h).0 p;
  }

  pub Gives-if :
      (test : Bool) {x y : Exec S F A} → Gives P x → Gives P y → Gives P (if test then x else y)
  Gives-if true gx gy = gx
  Gives-if false gx gy = gy

  pub Gives-raise : {e : F} → Gives {S = S} {F = F} P (λ s. (err e, s))
  Gives-raise = record { at = λ s t b h. absurd (let raised = ap (λ q. q.0) h in cc) }

module _ {S F A : Type 0} {P Q : A → Type 0} {m : Exec S F A} where
  pub Gives-map : ((a : A) → Q a → P a) → Gives Q m → Gives P m
  Gives-map f g = record { at = λ s t a h. f a (g.at s t a h) }

module _ {S F A : Type 0} where
  -- The value of a computed result.
  pub Gives-lift : (r : Result F A) → Gives {S = S} {F = F} (λ a. r ≡ ok a) (λ s. (r, s))
  Gives-lift r = record { at = λ s t a h. ap (λ q. q.0) h }

  -- What returns has returned.
  pub Gives-self : (m : Exec S F A) → Gives (λ a. (s : S) × (t : S) × (m s ≡ (ok a, t))) m
  Gives-self m = record { at = λ s t a h. (s, t, h) }
