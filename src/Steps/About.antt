-- ===== src/Steps/About.antt =====
-- strataqemu/tests_spec.py: `run_about_version_step`.
use strata_qemu_testing.Base.{
  ℕ, zero, suc, ◌-◌, Bool, true, false, ◌&&◌, List, [], ◌∷◌, if◌then◌else◌, Result, ok, err,
}
use strata_qemu_testing.Base.Text.{Text, codes, text_eq}
use strata_qemu_testing.Guests.{screenshot_tool_for_compositor}
use strata_qemu_testing.Guest.Toml.{zero_int}
use strata_qemu_testing.Session.Parse.{Props}
use strata_qemu_testing.Smoke.{about_smoke_command, about_sidebar_tabs, parse_smoke_kv}
use strata_qemu_testing.RunTest.Exec.{◌>>=◌, ◌>>◌, pure}
use strata_qemu_testing.Steps.Remote.{
  StepError, Remote, Progress, Step, blob_of, ssh_run, scp_to_guest, require_script,
}
use strata_qemu_testing.Steps.Wait.{monotonic, nap, with_env}
use strata_qemu_testing.Steps.Screenshot.{capture_guest_screenshot}
use strata_qemu_testing.Steps.SessionOnly.{StepResult, step}

abbrev pub tabs : ℕ → List (List Text)
tabs zero = (codes "spc" ∷ []) ∷ []
tabs (suc n) = (codes "tab" ∷ []) ∷ tabs n

-- `qmp_about_nav_chords`
abbrev pub qmp_about_nav_chords : List (List Text)
qmp_about_nav_chords = tabs about_sidebar_tabs

-- `qmp_open_about_chords`
abbrev pub qmp_open_about_chords : List (List Text)
qmp_open_about_chords = (codes "ctrl" ∷ codes "comma" ∷ []) ∷ qmp_about_nav_chords

-- `parse_smoke_kv`, with an empty text for the exception
abbrev injected_of : {E : Type 0} → Result E Text → Text
injected_of (ok value) = value
injected_of (err e) = []

module _ {W : Type 0} (fx : Remote W) where
  unfoldable pub key_sent : Progress W → Bool × W → Result StepError Bool × Progress W
  key_sent s (sent, w) = (ok sent, record s { world = w })

  unfoldable pub press : List Text → Step W Bool
  unfolding key_sent
  press chord s = key_sent s (fx.send_key chord s.world)

  -- `_send_qmp_chords`
  unfoldable pub send_qmp_chords : List (List Text) → ℕ → Step W Bool
  send_qmp_chords [] pause = pure true
  send_qmp_chords (chord ∷ rest) pause = do
    sent ← press chord
    if sent then (do nap fx pause; send_qmp_chords rest pause) else pure false

  -- After the script has opened the window: the keys to the page.
  unfoldable pub navigate : Text → Step W Text
  navigate used = do
    sent ← send_qmp_chords qmp_about_nav_chords 80
    if sent then (do nap fx 500; pure used) else pure []

  -- What the guest script has done, by its exit status and its `INPUT`.
  unfoldable pub after_script : Bool → Text → Step W Text
  after_script succeeded injected =
      if succeeded && text_eq injected (codes "wtype")
      then (do nap fx 500; pure (codes "wtype"))
      else if succeeded && text_eq injected (codes "hyprctl-open")
      then (do nap fx 600; navigate (codes "hyprctl+qmp"))
      else pure []

  -- `if not used`: the keys through QMP.
  unfoldable pub by_qmp : Text → Step W Text
  by_qmp [] = do
    opened ← send_qmp_chords ((codes "ctrl" ∷ codes "comma" ∷ []) ∷ []) 50
    if opened then (do nap fx 600; navigate (codes "qmp")) else pure []
  by_qmp (c ∷ used) = pure (c ∷ used)

  abbrev skipped : Text → ℕ → Text → Props → StepResult
  skipped name elapsed reason details = record {
    name = name;
    passed = false;
    elapsed = elapsed;
    details = (codes "reason", reason) ∷ details;
  }

  abbrev about_passed : Text → ℕ → Text → Text → Text → StepResult
  about_passed name elapsed used dest intended = step name elapsed (
      (codes "oracle", codes "settings-about")
      ∷ (codes "input", used)
      ∷ (codes "path", dest)
      ∷ (codes "intended", intended)
      ∷ (codes "nav", codes "tab×5+space")
      ∷ [])

  -- The screenshot, unless no input reached the window.
  unfoldable pub about_ended : Text → Props → Text → Text → Text → ℕ → Text → Step W StepResult
  about_ended name env compositor dest intended started [] = do
    now ← monotonic fx
    pure (
        skipped name (now - started)
          (codes "could not open Settings About (no wtype, hyprctl, or QMP)")
          ((codes "intended", intended) ∷ []))
  about_ended name env compositor dest intended started (c ∷ used) = do
    capture_guest_screenshot fx env dest (screenshot_tool_for_compositor compositor)
    now ← monotonic fx
    pure (about_passed name (now - started) (c ∷ used) dest intended)

  unfoldable pub open_about : Text → Props → Text → Text → Text → ℕ → Text → Step W StepResult
  open_about script env compositor dest intended started name = do
    require_script fx (codes "missing about smoke script ") script
    scp_to_guest fx script (codes "/tmp/smoke-about.sh")
    proc ← ssh_run fx (with_env fx env (about_smoke_command fx.quote_ compositor)) 30000 false
    used ←
        after_script (zero_int proc.returncode)
          (injected_of (parse_smoke_kv (blob_of proc) (codes "INPUT")))
    sent ← by_qmp used
    about_ended name env compositor dest intended started sent

  unfoldable pub run_about_version_step :
      Text → Props → Text → Text → Bool → Text → Text → Step W StepResult
  run_about_version_step script env compositor dest cli_version_passed intended name = do
    started ← monotonic fx
    if cli_version_passed
        then (do
          now ← monotonic fx
          pure (skipped name (now - started) (codes "CLI version already recorded") []))
        else open_about script env compositor dest intended started name
