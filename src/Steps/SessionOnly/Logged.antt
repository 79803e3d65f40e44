-- ===== src/Steps/SessionOnly/Logged.antt =====
-- strataqemu/tests_spec.py: a session-only run that returns has sent the guest no forbidden command.
use strata_qemu_testing.Base.{
  ℕ, Option, List, [], ◌∷◌, Result, ok, All, ◌≡◌, refl, Bool-cases, inl, inr, map,
}
use mathlib.Core.Path.{subst, sym}
use strata_qemu_testing.Base.Text.{Text, codes}
use strata_qemu_testing.RunTest.Exec.{Leaves, exec_elim, pure-injective, returned}
use strata_qemu_testing.Steps.Remote.{StepError, Remote, Progress}
use strata_qemu_testing.Steps.Remote.Logged.{command_of}
use strata_qemu_testing.Steps.SessionOnly.{
  StepResult, command_is_forbidden_for_session_only, assert_session_only_commands, session_part,
  screenshot_part, check_recorded, run_session_only_steps,
}
use strata_qemu_testing.Steps.SessionOnly.Allowed.{session_part-name, screenshot_part-name}
use strata_qemu_testing.Steps.SessionOnly.Kept.{IsAllowed, Fine, session_part-Kept}
use strata_qemu_testing.Steps.SessionOnly.Kept.Shot.{screenshot_part-Kept}

assert_session_only_commands-IsAllowed :
    (commands : List Text) {u : Unit {0}}
    → assert_session_only_commands commands ≡ ok u
    → All IsAllowed commands
unfolding assert_session_only_commands
assert_session_only_commands-IsAllowed [] h = tt
assert_session_only_commands-IsAllowed (c ∷ rest) {u} h =
    elim (Bool-cases (command_is_forbidden_for_session_only c)) [
      | inl bad ↦ absurd (let x = rw bad at h in cc)
      | inr good ↦ (good, assert_session_only_commands-IsAllowed rest {u = u} (rw good at h))
    ]

module _ {W : Type 0} (fx : Remote W) where
  Leaves-Fine :
      {A : Type 0} {q : Result StepError A × Progress W} {a : A} {t : Progress W}
      → Leaves (Fine fx) (Fine fx) q
      → q ≡ (ok a, t)
      → Fine fx t
  Leaves-Fine h e = subst (λ q. Leaves (Fine fx) (Fine fx) q) e h

  check_recorded-Log :
      (s t : Progress W) {u : Unit {0}}
      → Fine fx s
      → check_recorded fx s ≡ (ok u, t)
      → All (λ e. IsAllowed (command_of e)) t.log
  unfolding check_recorded
  check_recorded-Log s t {u} fine h =
      let parts = returned (assert_session_only_commands s.commands) s h in
      subst (λ x. All (λ e. IsAllowed (command_of e)) x.log) parts.1
        (fine (assert_session_only_commands-IsAllowed s.commands {u = u} parts.0))

  -- A session-only run that starts with an empty ssh.log and returns has the two steps of the contract, and no
  -- entry of ssh.log, which has each command that was sent and ended or timed out, is of a command with a
  -- forbidden token.
  pub run_session_only_steps-IsAllowed :
      (compositor script dest : Text) (qmp_dest : Option Text) (timeout : ℕ) (s t : Progress W)
      (steps : List StepResult)
      → s.log ≡ []
      → run_session_only_steps fx compositor script dest qmp_dest timeout s ≡ (ok steps, t)
      → All (λ e. IsAllowed (command_of e)) t.log
        × (map (λ r. r.name) steps ≡ codes "session" ∷ codes "screenshot" ∷ [])
  unfolding run_session_only_steps
  run_session_only_steps-IsAllowed compositor script dest qmp_dest timeout s t steps empty h =
      exec_elim (session_part fx compositor script timeout) _ s h λ session s1 session_ok h.
        exec_elim (screenshot_part fx _ compositor dest qmp_dest) _ s1 h λ shot s2 shot_ok h.
          exec_elim (check_recorded fx) _ s2 h λ u s3 checked h.
            let ends = pure-injective _ s3 h in
            let first =
              session_part-name fx compositor script timeout s s1 {r = session} session_ok in
            let second =
              screenshot_part-name fx _ compositor dest qmp_dest s1 s2 {r = shot} shot_ok in
            let fine : Fine fx s =
              λ all. subst (All (λ e. IsAllowed (command_of e))) (sym empty) tt in
            let fine1 =
              Leaves-Fine ((session_part-Kept fx compositor script timeout).at s fine) session_ok in
            let fine2 =
              Leaves-Fine ((screenshot_part-Kept fx _ compositor dest qmp_dest).at s1 fine1)
                shot_ok in
            (
              subst (λ x. All (λ e. IsAllowed (command_of e)) x.log) ends.1
                  (check_recorded-Log s2 s3 {u = u} fine2 checked),
              subst (λ x. map (λ r. r.name) x ≡ codes "session" ∷ codes "screenshot" ∷ []) ends.0
                  (rw (first.0, second.0) refl),
            )
