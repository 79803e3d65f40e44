-- ===== src/Steps/SessionOnly.antt =====
-- strataqemu/tests_spec.py: `run_session_only_steps`, and which commands it may not send.
pub mod Allowed
pub mod Kept
pub mod Logged
use strata_qemu_testing.Base.{
  ℕ, ◌-◌, Bool, true, false, not, ◌&&◌, ◌||◌, Option, none, some, List, [], ◌∷◌, ◌++◌,
  if◌then◌else◌, Result, ok, err, any,
}
use strata_qemu_testing.Base.Text.{Text, codes, text_eq, contains}
use strata_qemu_testing.Guests.{screenshot_tool_for_compositor}
use strata_qemu_testing.Session.Parse.{Props, get_prop, has_key}
use strata_qemu_testing.Smoke.{session_env_from_exports}
use strata_qemu_testing.RunTest.Exec.{Exec, ◌>>=◌, ◌>>◌, pure, raise, lift}
use strata_qemu_testing.Steps.Remote.{StepError, smoke, Remote, Progress, Step}
use strata_qemu_testing.Steps.Wait.{run_session_step, strata_bus_name, monotonic}
use strata_qemu_testing.Steps.Screenshot.{capture_guest_screenshot, extra_qmp_screendump}

-- One entry of `steps`: the name, whether it passed or was skipped, the milliseconds, and the other
-- keys; a key with the value `None` is left out.
pub record StepResult : Type 0 where
  pub name : Text
  pub passed : Bool
  pub elapsed : ℕ
  pub details : Props

abbrev pub step : Text → ℕ → Props → StepResult
step name elapsed details = record {
  name = name;
  passed = true;
  elapsed = elapsed;
  details = details;
}

-- `"sid": exports.get("SESSION_ID")`
abbrev pub sid_of : Props → Props
sid_of exports =
    if has_key (codes "SESSION_ID") exports
    then (codes "sid", get_prop (codes "SESSION_ID") [] exports) ∷ []
    else []

-- SESSION_ONLY_FORBIDDEN
abbrev pub session_only_forbidden : List Text
session_only_forbidden =
    codes "install.sh"
    ∷ codes "strata --version"
    ∷ codes "gtk-launch"
    ∷ codes "gio launch"
    ∷ codes "NameHasOwner"
    ∷ strata_bus_name
    ∷ []

unfoldable pub command_is_forbidden_for_session_only : Text → Bool
command_is_forbidden_for_session_only command =
    any (λ token. contains command token) session_only_forbidden

-- `assert_session_only_commands`, and the same loop at the end of the steps
unfoldable pub assert_session_only_commands : List Text → Result StepError (Unit {0})
assert_session_only_commands [] = ok tt
assert_session_only_commands (command ∷ rest) =
    if command_is_forbidden_for_session_only command
    then err (smoke (codes "--session-only invoked a forbidden command: " ++ command))
    else assert_session_only_commands rest

module _ {W : Type 0} (fx : Remote W) where
  -- The first step of every flow: the exports, and its entry.
  unfoldable pub session_part : Text → Text → ℕ → Step W (Props × StepResult)
  session_part compositor script timeout = do
    started ← monotonic fx
    exports ← run_session_step fx compositor script timeout
    now ← monotonic fx
    pure (exports, step (codes "session") (now - started) (sid_of exports))

  -- The screenshot at the end of a flow, with its entry.
  unfoldable pub screenshot_part : Props → Text → Text → Option Text → Step W StepResult
  screenshot_part env compositor dest qmp_dest = do
    started ← monotonic fx
    capture_guest_screenshot fx env dest (screenshot_tool_for_compositor compositor)
    extra_qmp_screendump fx qmp_dest
    now ← monotonic fx
    pure (step (codes "screenshot") (now - started) ((codes "path", dest) ∷ []))

  unfoldable pub check_recorded : Step W (Unit {0})
  check_recorded s = (assert_session_only_commands s.commands, s)

  unfoldable pub run_session_only_steps :
      Text → Text → Text → Option Text → ℕ → Step W (List StepResult)
  run_session_only_steps compositor script dest qmp_dest timeout = do
    session ← session_part compositor script timeout
    shot ← screenshot_part (session_env_from_exports session.0) compositor dest qmp_dest
    check_recorded
    pure (session.1 ∷ shot ∷ [])
