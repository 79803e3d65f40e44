-- ===== src/Steps/SessionOnly/Kept/Shot.antt =====
-- strataqemu/tests_spec.py: what the screenshot puts into ssh.log was recorded first.
use strata_qemu_testing.Base.{
  ℕ, Bool, true, false, ◌&&◌, Option, none, some, [], Result, ok, err, Bool-cases, inl, inr,
}
use strata_qemu_testing.Base.Text.{Text, codes, text_eq}
use strata_qemu_testing.Guest.Toml.{zero_int}
use strata_qemu_testing.Session.Parse.{Props}
use strata_qemu_testing.RunTest.Exec.{Leaves}
use strata_qemu_testing.Steps.Remote.{
  StepError, smoke, timed_out, command_expired, os_error, value_error, no_rounds, Remote, Progress,
}
use strata_qemu_testing.Steps.Remote.Logged.{
  Keeps-bind, Keeps-test, ssh_run-Keeps, scp_from_guest-Keeps,
}
use strata_qemu_testing.Steps.Screenshot.{
  png_ok, ensure_screenshot_tool, shoot, grabbed, try_shoot, vnc_ended, vnc_fallback, check_shot,
  shot_bytes, take_shot, capture_guest_screenshot, dump_ended, extra_qmp_screendump,
}
use strata_qemu_testing.Steps.SessionOnly.{screenshot_part}
use strata_qemu_testing.Steps.SessionOnly.Kept.{
  IsAllowed, Kept, Fine, same-Kept, if-Kept, monotonic-Kept,
}

module _ {W : Type 0} (fx : Remote W) where
  ensure_screenshot_tool-Kept : (tool : Text) → Kept fx (ensure_screenshot_tool fx tool)
  unfolding ensure_screenshot_tool
  ensure_screenshot_tool-Kept tool =
      Keeps-bind fx IsAllowed _ _ (ssh_run-Keeps fx IsAllowed _ 15000 false) λ which.
        if-Kept fx (zero_int which.returncode) _ _ (same-Kept fx (ok tt)) (same-Kept fx (err _))

  shoot-Kept : (command dest : Text) → Kept fx (shoot fx command dest)
  unfolding shoot
  shoot-Kept command dest =
      Keeps-bind fx IsAllowed _ _ (ssh_run-Keeps fx IsAllowed command 15000 true)
        λ proc. scp_from_guest-Keeps fx IsAllowed _ dest

  grabbed-Kept :
      (q : Result StepError (Unit {0}) × Progress W)
      → Leaves (Fine fx) (Fine fx) q
      → Leaves (Fine fx) (Fine fx) (grabbed fx q)
  unfolding grabbed
  grabbed-Kept (ok u, s) h = h
  grabbed-Kept (err (smoke text), s) h = h
  grabbed-Kept (err (command_expired text), s) h = h
  grabbed-Kept (err (timed_out text), s) h = h
  grabbed-Kept (err (os_error text), s) h = h
  grabbed-Kept (err (value_error text), s) h = h
  grabbed-Kept (err no_rounds, s) h = h

  vnc_ended-Kept :
      (s : Progress W) (q : Bool × W) → Fine fx s → Leaves (Fine fx) (Fine fx) (vnc_ended fx s q)
  unfolding vnc_ended
  vnc_ended-Kept s (true, w) h = h
  vnc_ended-Kept s (false, w) h = h

  screen-Kept :
      (o : Option ℕ) (e : StepError) (f : ℕ → Bool × W) (s : Progress W)
      → Fine fx s
      → Leaves {F = StepError} {A = Unit {0}}
          (Fine fx)
          (Fine fx)
          (elim o [ none ↦ (err e, s) | some display ↦ vnc_ended fx s (f display) ])
  screen-Kept none e f s h = h
  screen-Kept (some display) e f s h = vnc_ended-Kept s (f display) h

  vnc_fallback-Kept : (dest : Text) (got : Bool) → Kept fx (vnc_fallback fx dest got)
  unfolding vnc_fallback
  vnc_fallback-Kept dest got = record {
    at = λ s h. elim (Bool-cases (got && png_ok fx dest s.world)) [
      | inl there ↦ rw there h
      | inr missing ↦ rw missing (screen-Kept fx.machine.vnc_port _ _ s h)
    ];
  }

  check_shot-Kept : (dest : Text) → Kept fx (check_shot fx dest)
  unfolding check_shot
  check_shot-Kept dest = record {
    at = λ s h.
        Keeps-test fx IsAllowed (fx.is_file dest s.world)
          (shot_bytes fx dest (fx.read_bytes dest s.world)) (shot_bytes fx dest (some [])) s h;
  }

  take_shot-Kept : (prefix binary dest : Text) → Kept fx (take_shot fx prefix binary dest)
  unfolding take_shot try_shoot
  take_shot-Kept prefix binary dest =
      if-Kept fx (text_eq binary (codes "grim")) _ _ (shoot-Kept _ dest) (
        Keeps-bind fx IsAllowed _ _
          (record { at = λ s h. grabbed-Kept _ ((shoot-Kept _ dest).at s h) })
          λ got. vnc_fallback-Kept dest got)

  dump-Kept : (dest : Option Text) → Kept fx (extra_qmp_screendump fx dest)
  unfolding extra_qmp_screendump dump_ended
  dump-Kept none = same-Kept fx (ok tt)
  dump-Kept (some dest) = record { at = λ s h. h }

  pub screenshot_part-Kept :
      (env : Props) (compositor dest : Text) (qmp_dest : Option Text)
      → Kept fx (screenshot_part fx env compositor dest qmp_dest)
  unfolding screenshot_part capture_guest_screenshot
  screenshot_part-Kept env compositor dest qmp_dest =
      Keeps-bind fx IsAllowed _ _ (monotonic-Kept fx) λ started.
        Keeps-bind fx IsAllowed _ _
          (Keeps-bind fx IsAllowed _ _ (ensure_screenshot_tool-Kept _)
            λ _. Keeps-bind fx IsAllowed _ _ (take_shot-Kept _ _ dest) λ _. check_shot-Kept dest)
          λ _.
            Keeps-bind fx IsAllowed _ _ (dump-Kept qmp_dest)
              λ _. Keeps-bind fx IsAllowed _ _ (monotonic-Kept fx) λ now. same-Kept fx (ok _)
