-- ===== src/Steps/SessionOnly/Allowed.antt =====
-- strataqemu/tests_spec.py: the entries of the session and of the screenshot.
use strata_qemu_testing.Base.{ℕ, true, Option, ok, ◌≡◌, refl}
use mathlib.Core.Path.{subst}
use strata_qemu_testing.Base.Text.{Text, codes}
use strata_qemu_testing.Session.Parse.{Props}
use strata_qemu_testing.RunTest.Exec.{Gives, exec_elim, pure-injective}
use strata_qemu_testing.Steps.Remote.{Remote, Progress}
use strata_qemu_testing.Steps.Wait.{monotonic}
use strata_qemu_testing.Steps.SessionOnly.{StepResult, session_part, screenshot_part}

-- An entry of this name that passed.
abbrev pub Passed : Text → StepResult → Type 0
Passed name entry = (entry.name ≡ name) × (entry.passed ≡ true)

module _ {W : Type 0} (fx : Remote W) where
  -- The parts with an entry give it its name and say that they passed.
  pub session_part-name :
      (compositor script : Text) (timeout : ℕ) (s t : Progress W) {r : Props × StepResult}
      → session_part fx compositor script timeout s ≡ (ok r, t)
      → (r.1.name ≡ codes "session") × (r.1.passed ≡ true)
  unfolding session_part
  session_part-name compositor script timeout s t {r} h =
      exec_elim (monotonic fx) _ s h λ started s1 _ h. exec_elim _ _ s1 h λ exports s2 _ h.
        exec_elim (monotonic fx) _ s2 h λ now s3 _ h.
          subst (λ x. (x.1.name ≡ codes "session") × (x.1.passed ≡ true)) (pure-injective _ s3 h).0
            (refl, refl)

  pub screenshot_part-name :
      (env : Props) (compositor dest : Text) (qmp_dest : Option Text) (s t : Progress W)
      {r : StepResult}
      → screenshot_part fx env compositor dest qmp_dest s ≡ (ok r, t)
      → (r.name ≡ codes "screenshot") × (r.passed ≡ true)
  unfolding screenshot_part
  screenshot_part-name env compositor dest qmp_dest s t {r} h =
      exec_elim (monotonic fx) _ s h λ started s1 _ h. exec_elim _ _ s1 h λ _ s2 _ h.
        exec_elim _ _ s2 h λ _ s3 _ h. exec_elim (monotonic fx) _ s3 h λ now s4 _ h.
          subst (λ x. (x.name ≡ codes "screenshot") × (x.passed ≡ true)) (pure-injective _ s4 h).0
            (refl, refl)

  -- The same of the values that the parts return.
  pub session_part-Passed :
      (compositor script : Text) (timeout : ℕ)
      → Gives (λ r. Passed (codes "session") r.1) (session_part fx compositor script timeout)
  session_part-Passed compositor script timeout = record {
    at = λ s t r h. session_part-name compositor script timeout s t {r = r} h;
  }

  pub screenshot_part-Passed :
      (env : Props) (compositor dest : Text) (qmp_dest : Option Text)
      → Gives (Passed (codes "screenshot")) (screenshot_part fx env compositor dest qmp_dest)
  screenshot_part-Passed env compositor dest qmp_dest = record {
    at = λ s t r h. screenshot_part-name env compositor dest qmp_dest s t {r = r} h;
  }
