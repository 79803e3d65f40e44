-- ===== src/Steps/SessionOnly/Kept.antt =====
-- strataqemu/tests_spec.py: what the session step and the screenshot put into ssh.log was recorded first.
pub mod Shot
use strata_qemu_testing.Base.{
  ℕ, zero, suc, Bool, true, false, ◌&&◌, Option, none, some, List, [], ◌∷◌, if◌then◌else◌, Result,
  ok, err, ltb, All, ◌≡◌, refl, Bool-cases, inl, inr, map,
}
use mathlib.Core.Path.{subst, sym}
use strata_qemu_testing.Base.Text.{Text, codes, text_eq, is_empty, lower, strip, contains}
use strata_qemu_testing.Guest.Toml.{zero_int}
use strata_qemu_testing.Session.Parse.{Props, has_key}
use strata_qemu_testing.Smoke.{parse_session_exports}
use strata_qemu_testing.RunTest.Exec.{◌>>=◌, Leaves, Triple, exec_elim, pure-injective, returned}
use strata_qemu_testing.Steps.Remote.{
  Proc, StepError, smoke, timed_out, command_expired, os_error, value_error, no_rounds, Remote,
  Progress, Step, blob_of,
}
use strata_qemu_testing.Steps.Remote.Logged.{
  command_of, Logged, Keeps, Keeps-bind, Keeps-test, ssh_run-Keeps, scp_to_guest-Keeps,
  scp_from_guest-Keeps, require_script-Keeps,
}
use strata_qemu_testing.Steps.Wait.{
  Answer, found, again, nap, monotonic, next_round, rounds, wait_until, session_answer,
  session_probe, run_session_step,
}
use strata_qemu_testing.Steps.Screenshot.{
  png_ok, ensure_screenshot_tool, shoot, grabbed, try_shoot, vnc_ended, vnc_fallback, check_shot,
  shot_bytes, take_shot, capture_guest_screenshot, dump_ended, extra_qmp_screendump,
}
use strata_qemu_testing.Steps.SessionOnly.{
  StepResult, command_is_forbidden_for_session_only, assert_session_only_commands, session_part,
  screenshot_part, check_recorded, run_session_only_steps,
}
use strata_qemu_testing.Steps.SessionOnly.Allowed.{session_part-name, screenshot_part-name}

-- A command without a forbidden token.
abbrev pub IsAllowed : Text → Type 0
IsAllowed command = command_is_forbidden_for_session_only command ≡ false

module _ {W : Type 0} (fx : Remote W) where
  abbrev pub Kept : {A : Type 0} → Step W A → Type 0
  Kept m = Keeps fx IsAllowed m

  abbrev pub Fine : Progress W → Type 0
  Fine s = Logged fx IsAllowed s

  pub same-Kept : {A : Type 0} (r : Result StepError A) → Kept {A = A} (λ s. (r, s))
  same-Kept (ok a) = record { at = λ s h. h }
  same-Kept (err e) = record { at = λ s h. h }

  pub if-Kept :
      {A : Type 0} (test : Bool) (x y : Step W A) → Kept x → Kept y → Kept (if test then x else y)
  if-Kept true x y kx ky = kx
  if-Kept false x y kx ky = ky

  pub monotonic-Kept : Kept (monotonic fx)
  unfolding monotonic
  monotonic-Kept = record { at = λ s h. h }

  next_round-Kept :
      {A : Type 0} (probe : Step W (Answer A)) (deadline pause : ℕ) (late : Text → Text)
      (rest : Text → Step W A) (a : Answer A)
      → ((last : Text) → Kept (rest last))
      → Kept (next_round fx probe deadline pause late rest a)
  unfolding next_round nap
  next_round-Kept probe deadline pause late rest (found a) k = same-Kept (ok a)
  next_round-Kept probe deadline pause late rest (again last) k =
      Keeps-bind fx IsAllowed _ _ (record { at = λ s h. h }) λ _. k last

  if-Leaves :
      {A : Type 0} (test : Bool) (q : Result StepError A × Progress W) (e : StepError)
      (s : Progress W)
      → Leaves Fine Fine q
      → Fine s
      → Leaves Fine Fine (if test then q else (err e, s))
  if-Leaves true q e s kq h = kq
  if-Leaves false q e s kq h = h

  rounds-Kept :
      {A : Type 0} (probe : Step W (Answer A)) (deadline pause : ℕ) (late : Text → Text)
      → Kept probe
      → (fuel : ℕ) (last : Text) → Kept (rounds fx probe deadline pause late fuel last)
  unfolding rounds
  rounds-Kept probe deadline pause late k zero last = record { at = λ s h. h }
  rounds-Kept probe deadline pause late k (suc fuel) last = record {
    at = λ s h.
        if-Leaves (ltb (fx.monotonic s.world) deadline) _ _ s
          ((Keeps-bind fx IsAllowed probe _ k λ a.
              next_round-Kept probe deadline pause late _ a
                (rounds-Kept probe deadline pause late k fuel)).at
            s h)
          h;
  }

  session_answer-Kept : (proc : Proc) → Kept (session_answer fx proc)
  unfolding session_answer
  session_answer-Kept proc = record {
    at = λ s h. elim (Bool-cases (zero_int proc.returncode)) [
      | inl zero_ ↦ rw zero_ (Keeps-test fx IsAllowed _ (ok _) (err _) s h)
      | inr other ↦ rw other (Keeps-test fx IsAllowed _ (err _) (ok _) s h)
    ];
  }

  session_probe-Kept : (compositor : Text) → Kept (session_probe fx compositor)
  unfolding session_probe
  session_probe-Kept compositor =
      Keeps-bind fx IsAllowed _ _ (ssh_run-Keeps fx IsAllowed _ 30000 false) session_answer-Kept

  run_session_step-Kept :
      (compositor script : Text) (timeout : ℕ)
      → Kept (run_session_step fx compositor script timeout)
  unfolding run_session_step wait_until
  run_session_step-Kept compositor script timeout =
      Keeps-bind fx IsAllowed _ _ (require_script-Keeps fx IsAllowed _ script) λ _.
        Keeps-bind fx IsAllowed _ _ (scp_to_guest-Keeps fx IsAllowed script _) λ _. record {
          at = λ s h.
              (rounds-Kept (session_probe fx compositor) _ 2000 _ (session_probe-Kept compositor)
                  (suc timeout) _).at
                s h;
        }

  pub session_part-Kept :
      (compositor script : Text) (timeout : ℕ) → Kept (session_part fx compositor script timeout)
  unfolding session_part
  session_part-Kept compositor script timeout =
      Keeps-bind fx IsAllowed _ _ monotonic-Kept λ started.
        Keeps-bind fx IsAllowed _ _ (run_session_step-Kept compositor script timeout)
          λ exports. Keeps-bind fx IsAllowed _ _ monotonic-Kept λ now. same-Kept (ok _)
