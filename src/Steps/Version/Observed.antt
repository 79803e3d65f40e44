-- ===== src/Steps/Version/Observed.antt =====
-- strataqemu/tests_spec.py: what an oracle of the version says when it returns.
use strata_qemu_testing.Base.{
  ℕ, ◌-◌, true, false, if◌then◌else◌, Option, none, some, Result, ok, err, ◌≡◌, refl, ap,
  Bool-cases, inl, inr, ◌⊎◌, ok-injective,
}
use mathlib.Core.Path.{subst}
use strata_qemu_testing.Base.Text.{Text}
use strata_qemu_testing.Guest.Toml.{zero_int}
use strata_qemu_testing.Versions.{versions_match}
use strata_qemu_testing.RunTest.Exec.{
  Gives, Gives-then, Gives-pure, exec_elim, returned, pure-injective, with_state,
}
use strata_qemu_testing.Steps.Remote.{
  Proc, StepError, smoke, timed_out, command_expired, os_error, value_error, no_rounds, Remote,
  Progress, ssh_run,
}
use strata_qemu_testing.Steps.Remote.Answers.{Answer, ssh_run-Answer}
use strata_qemu_testing.Steps.Wait.{monotonic}
use strata_qemu_testing.Steps.SessionOnly.{StepResult}
use strata_qemu_testing.Steps.Version.{
  strata_version_is_cli, parse_observed_version, smoke_of, strata_version_command, version_observed,
  version_step, ask_version, observed_or_skip, observe_version, run_version_oracle,
}

-- What an answer to `strata --version` says of a version that is found: it is printed with exit status 0, and
-- matches the intended one.
abbrev pub Reads : Text → Proc → Text → Type 0
Reads intended proc observed =
    (versions_match observed intended ≡ true)
    × (zero_int proc.returncode ≡ true)
    × (smoke_of (parse_observed_version proc.stdout) ≡ ok observed)

abbrev MayRead : Text → Proc → Option Text → Type 0
MayRead intended proc none = Unit
MayRead intended proc (some observed) = Reads intended proc observed

parsed-MayRead :
    (intended : Text) (proc : Proc) (parsed : Result StepError Text) {o : Option Text}
    (other : Text → StepError)
    → zero_int proc.returncode ≡ true
    → smoke_of (parse_observed_version proc.stdout) ≡ parsed
    → (elim parsed [
      | err e ↦ err e
      | ok observed ↦
          if versions_match observed intended then ok (some observed) else err (other observed)
    ])
      ≡ ok o
    → MayRead intended proc o
parsed-MayRead intended proc (err e) other zero is h = absurd (cc)
parsed-MayRead intended proc (ok observed) {o} other zero is h =
    elim (Bool-cases (versions_match observed intended)) [
      | inl same ↦
          subst (MayRead intended proc) (ok-injective (some observed) o (rw same at h))
            (same, zero, is)
      | inr differ ↦ absurd (let x = rw differ at h in cc)
    ]

version_observed-MayRead :
    (intended : Text) (proc : Proc) {o : Option Text}
    → version_observed intended proc ≡ ok o
    → MayRead intended proc o
unfolding version_observed
version_observed-MayRead intended proc {o} h =
    elim (Bool-cases (strata_version_is_cli proc.stdout)) [
      | inr other ↦ subst (MayRead intended proc) (ok-injective none o (rw other at h)) tt
      | inl cli ↦ elim (Bool-cases (zero_int proc.returncode)) [
        | inl zero ↦
            parsed-MayRead intended proc (smoke_of (parse_observed_version proc.stdout)) _ zero refl
              (rw (cli, zero) at h)
        | inr failed ↦ absurd (let x = rw (cli, failed) at h in cc)
      ]
    ]

module _ {W : Type 0} (fx : Remote W) where
  -- A version, if there is one, is read from an answer of the guest to `strata --version`.
  abbrev pub Matches : Text → Option Text → Type 0
  Matches intended none = Unit
  Matches intended (some observed) =
      (proc : Proc) × Answer fx strata_version_command proc × Reads intended proc observed

  -- An entry that passes has such a version; one that is skipped has none.
  abbrev pub IsVersionStep : Text → StepResult × Option Text → Type 0
  IsVersionStep intended r =
      ((r.0.passed ≡ true)
        × ((observed : Text) × (r.1 ≡ some observed) × Matches intended (some observed)))
      ⊎ ((r.0.passed ≡ false) × (r.1 ≡ none))

  answered-Matches :
      (intended : Text) (proc : Proc) (o : Option Text)
      → Answer fx strata_version_command proc
      → MayRead intended proc o
      → Matches intended o
  answered-Matches intended proc none answer h = tt
  answered-Matches intended proc (some observed) answer h = (proc, answer, h)

  observed_or_skip-Matches :
      (intended : Text) (q : Result StepError (Option Text) × Progress W)
      → ((o : Option Text) → q.0 ≡ ok o → Matches intended o)
      → (o : Option Text) (t : Progress W) → observed_or_skip fx q ≡ (ok o, t)
      → Matches intended o
  unfolding observed_or_skip
  observed_or_skip-Matches intended (ok r, s) k o t h =
      subst (Matches intended) (pure-injective r s h).0 (k r refl)
  observed_or_skip-Matches intended (err (command_expired text), s) k o t h =
      subst (Matches intended) (pure-injective none s h).0 tt
  observed_or_skip-Matches intended (err (smoke text), s) k o t h =
      absurd (let e = ap (λ q. q.0) h in cc)
  observed_or_skip-Matches intended (err (timed_out text), s) k o t h =
      absurd (let e = ap (λ q. q.0) h in cc)
  observed_or_skip-Matches intended (err (os_error text), s) k o t h =
      absurd (let e = ap (λ q. q.0) h in cc)
  observed_or_skip-Matches intended (err (value_error text), s) k o t h =
      absurd (let e = ap (λ q. q.0) h in cc)
  observed_or_skip-Matches intended (err no_rounds, s) k o t h =
      absurd (let e = ap (λ q. q.0) h in cc)

  ask_version-Matches :
      (intended : Text) (s t : Progress W) (o : Option Text)
      → ask_version fx intended s ≡ (ok o, t)
      → Matches intended o
  unfolding ask_version
  ask_version-Matches intended s t o h =
      exec_elim (ssh_run fx strata_version_command 10000 false) _ s h λ proc s1 asked h.
        answered-Matches intended proc o
          ((ssh_run-Answer fx strata_version_command 10000 false).at s s1 proc asked)
          (version_observed-MayRead intended proc (returned _ s1 h).0)

  observe_version-Matches :
      (intended : Text) (s t : Progress W) (o : Option Text)
      → observe_version fx intended s ≡ (ok o, t)
      → Matches intended o
  unfolding observe_version
  observe_version-Matches intended s t o h =
      observed_or_skip-Matches intended (ask_version fx intended s)
        (λ r e. ask_version-Matches intended s _ r (with_state (ask_version fx intended s) e)) o t h

  version_step-IsVersionStep :
      (name intended : Text) (elapsed : ℕ) (o : Option Text)
      → Matches intended o
      → IsVersionStep intended (version_step name intended elapsed o, o)
  unfolding version_step
  version_step-IsVersionStep name intended elapsed none m = inr (refl, refl)
  version_step-IsVersionStep name intended elapsed (some v) m = inl (refl, (v, refl, m))

  -- When the oracle of the version returns, its entry passes with a version that an answer of the guest to
  -- `strata --version` with exit status 0 holds and that matches the intended one, or is skipped and there is
  -- no version.
  pub run_version_oracle-IsVersionStep :
      (intended name : Text) (s t : Progress W) (r : StepResult × Option Text)
      → run_version_oracle fx intended name s ≡ (ok r, t)
      → IsVersionStep intended r
  unfolding run_version_oracle
  run_version_oracle-IsVersionStep intended name s t r h =
      exec_elim (monotonic fx) _ s h λ started s1 _ h.
        exec_elim (observe_version fx intended) _ s1 h λ observed s2 observed_ok h.
          exec_elim (monotonic fx) _ s2 h λ now s3 _ h.
            subst (IsVersionStep intended) (pure-injective _ s3 h).0 (
              version_step-IsVersionStep name intended (now - started) observed
                (observe_version-Matches intended s1 s2 observed observed_ok))

  version_step-name :
      (name intended : Text) (elapsed : ℕ) (o : Option Text)
      → (version_step name intended elapsed o).name ≡ name
  unfolding version_step
  version_step-name name intended elapsed none = refl
  version_step-name name intended elapsed (some v) = refl

  pub run_version_oracle-name :
      (intended name : Text) → Gives (λ r. r.0.name ≡ name) (run_version_oracle fx intended name)
  unfolding run_version_oracle
  run_version_oracle-name intended name = Gives-then _ λ started. Gives-then _ λ observed.
      Gives-then _ λ now. Gives-pure (version_step-name name intended (now - started) observed)
