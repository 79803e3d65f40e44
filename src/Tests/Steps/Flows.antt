-- ===== src/Tests/Steps/Flows.antt =====
-- strataqemu/tests_spec.py at concrete inputs: the flows against a guest on which every step passes.
use strata_qemu_testing.Base.{
  ℕ, ◌≡◌, refl, true, All, map, List, [], ◌∷◌, Result, ok, none, some, arith, Option,
}
use native.Mathlib.Nat.{le_refl}
use strata_qemu_testing.Steps.Remote.Logged.{command_of}
use strata_qemu_testing.Steps.SessionOnly.Kept.{IsAllowed}
use strata_qemu_testing.Steps.SessionOnly.Logged.{run_session_only_steps-IsAllowed}
use strata_qemu_testing.Steps.Remote.{Progress, StepError}
use strata_qemu_testing.Steps.SessionOnly.{StepResult}
use strata_qemu_testing.Steps.Screenshot.Png.{IsPicture, capture_guest_screenshot-IsPicture}
use strata_qemu_testing.Steps.Version.Observed.{IsVersionStep, run_version_oracle-IsVersionStep}
use strata_qemu_testing.Steps.Wait.Loop.{IsSteady}
use strata_qemu_testing.Steps.Wait.Clock.{WindowEnds, wait_window-Ends}
use strata_qemu_testing.Steps.Install.{Outcome}
use strata_qemu_testing.Steps.Install.Contract.{Keeps}
use strata_qemu_testing.Steps.Omarchy.{omarchy_bindings_steps}
use strata_qemu_testing.Steps.Omarchy.Contract.{DetectsGuest, run_omarchy_bindings_steps-Keeps}
use strata_qemu_testing.Base.Text.{Text, codes, text_eq}
use strata_qemu_testing.Steps.Wait.{hyprland_probe, wait_window}
use strata_qemu_testing.Steps.Screenshot.{capture_guest_screenshot}
use strata_qemu_testing.Steps.SessionOnly.{run_session_only_steps}
use strata_qemu_testing.Steps.Version.{run_version_oracle}
use strata_qemu_testing.Steps.Install.{run_install_from_release_steps}
use strata_qemu_testing.Steps.Update.{run_update_from_steps}
use strata_qemu_testing.Steps.Omarchy.{run_omarchy_bindings_steps}
use strata_qemu_testing.Tests.Steps.{
  opened, guest_fx, mute_fx, at_start, flow_args, intent, outcome_of,
}

guest_fx-IsSteady : IsSteady guest_fx
guest_fx-IsSteady = record {
  run_later = λ argv timeout w. omega arith;
  sleep_later = λ time w. le_refl _;
}

wait_window-Ends_example :
    WindowEnds guest_fx guest_fx-IsSteady
      (hyprland_probe guest_fx [])
      at_start
      (wait_window guest_fx [] (codes "Hyprland") at_start)
unfolding text_eq
wait_window-Ends_example =
    wait_window-Ends guest_fx guest_fx-IsSteady [] (codes "Hyprland") at_start

abbrev done_shot : Result StepError (Unit {0}) × Progress ℕ
done_shot = capture_guest_screenshot guest_fx [] (codes "shot.png") (codes "grim") at_start

shot_done : done_shot ≡ (ok tt, done_shot.1)
unfolding opened
shot_done = refl

capture_guest_screenshot-IsPicture_example : IsPicture guest_fx (codes "shot.png") done_shot.1.world
capture_guest_screenshot-IsPicture_example =
    capture_guest_screenshot-IsPicture guest_fx [] (codes "shot.png") (codes "grim") at_start
      done_shot.1 shot_done

abbrev done_session : Result StepError (List StepResult) × Progress ℕ
done_session =
    run_session_only_steps guest_fx (codes "Hyprland") (codes "smoke-session.sh") (codes "shot.png")
      none 60000 at_start

abbrev two_entries : List StepResult
two_entries =
    record { name = codes "session"; passed = true; elapsed = 10; details = [] }
    ∷ record {
      name = codes "screenshot";
      passed = true;
      elapsed = 15;
      details = (codes "path", codes "shot.png") ∷ [];
    }
    ∷ []

session_done : done_session ≡ (ok two_entries, done_session.1)
unfolding opened
session_done = refl

run_session_only_steps-IsAllowed_example :
    All (λ e. IsAllowed (command_of e)) done_session.1.log
    × (map (λ r. r.name) two_entries ≡ codes "session" ∷ codes "screenshot" ∷ [])
run_session_only_steps-IsAllowed_example =
    run_session_only_steps-IsAllowed guest_fx (codes "Hyprland") (codes "smoke-session.sh")
      (codes "shot.png") none 60000 at_start done_session.1 two_entries refl session_done

abbrev done_version : Result StepError (StepResult × Option Text) × Progress ℕ
done_version = run_version_oracle guest_fx (codes "v0.15.0") (codes "version") at_start

abbrev version_entry : StepResult × Option Text
version_entry = (
  record {
    name = codes "version";
    passed = true;
    elapsed = 5;
    details =
        (codes "oracle", codes "strata --version")
        ∷ (codes "intended", codes "v0.15.0")
        ∷ (codes "observed", codes "0.15.0")
        ∷ [];
  },
  some (codes "0.15.0"),
)

version_done : done_version ≡ (ok version_entry, done_version.1)
unfolding opened
version_done = refl

run_version_oracle-IsVersionStep_example : IsVersionStep guest_fx (codes "v0.15.0") version_entry
run_version_oracle-IsVersionStep_example =
    run_version_oracle-IsVersionStep guest_fx (codes "v0.15.0") (codes "version") at_start
      done_version.1 version_entry version_done

abbrev done_install : Result StepError Outcome × Progress ℕ
done_install = run_install_from_release_steps guest_fx flow_args intent at_start

abbrev done_update : Result StepError Outcome × Progress ℕ
done_update = run_update_from_steps mute_fx flow_args (codes "0.14.0") none intent at_start

abbrev done_bindings : Result StepError Outcome × Progress ℕ
done_bindings = run_omarchy_bindings_steps guest_fx flow_args none at_start

bindings_done : done_bindings ≡ (ok (outcome_of done_bindings), done_bindings.1)
unfolding opened
bindings_done = refl

run_omarchy_bindings_steps-Keeps_example :
    Keeps omarchy_bindings_steps [] (outcome_of done_bindings)
    × DetectsGuest guest_fx (codes "omarchy-4") (outcome_of done_bindings)
run_omarchy_bindings_steps-Keeps_example =
    run_omarchy_bindings_steps-Keeps guest_fx flow_args none at_start done_bindings.1
      (outcome_of done_bindings) bindings_done
