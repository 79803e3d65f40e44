-- ===== src/Steps/Install.antt =====
-- strataqemu/tests_spec.py: `run_install_from_release_steps`, in the parts that its comments and its
-- steps give.
pub mod Contract
pub mod Checked
use strata_qemu_testing.Base.{
  ℕ, ◌-◌, true, ◌&&◌, Option, none, some, List, [], ◌∷◌, ◌++◌, if◌then◌else◌, Result, ok, err,
}
use strata_qemu_testing.Base.Text.{Text, codes, text_eq, mem, contains}
use strata_qemu_testing.Guest.Recipe.{Guest}
use strata_qemu_testing.Guests.{
  compositor_process_name, screenshot_tool_for_compositor, supports_install_from_release,
}
use strata_qemu_testing.Session.Parse.{Props}
use strata_qemu_testing.Smoke.{session_env_from_exports, install_smoke_command}
use strata_qemu_testing.RunTest.Exec.{◌>>=◌, ◌>>◌, pure, raise, lift}
use strata_qemu_testing.Steps.Remote.{
  StepError, smoke, timed_out, command_expired, os_error, value_error, no_rounds, Remote, Progress,
  Step, blob_of, env_prefix, ssh_run, scp_to_guest, require_script,
}
use strata_qemu_testing.Steps.Wait.{monotonic, wait_window, window_oracle}
use strata_qemu_testing.Steps.Screenshot.{
  capture_guest_screenshot, extra_qmp_screendump, ensure_screenshot_tool,
}
use strata_qemu_testing.Steps.SessionOnly.{StepResult, step, session_part}
use strata_qemu_testing.Steps.Version.{
  Intent, resolve_intended_version, parse_install_sh_sha256, run_version_oracle,
}
use strata_qemu_testing.Steps.About.{run_about_version_step}

-- The files of the repository that are uploaded.
pub record Scripts : Type 0 where
  pub session : Text
  pub install : Text
  pub update : Text
  pub about : Text
  pub omarchy_detect : Text
  pub omarchy_bindings : Text

-- The arguments of a flow that do not change: the guest, where the pictures go, and the time for the
-- session. `with_name` puts another file name beside the screenshot.
pub record FlowArgs : Type 0 where
  pub guest : Guest
  pub scripts : Scripts
  pub screenshot_dest : Text
  pub qmp_dest : Option Text
  pub session_timeout : ℕ
  pub with_name : Text → Text

-- The steps, and the keys that a flow adds to the result.
pub record Outcome : Type 0 where
  pub steps : List StepResult
  pub extras : Props

-- INSTALL_FROM_RELEASE_STEPS
abbrev pub install_from_release_steps : List Text
install_from_release_steps =
    codes "session"
    ∷ codes "install"
    ∷ codes "version"
    ∷ codes "desktop-entry"
    ∷ codes "window"
    ∷ codes "about-version"
    ∷ []

abbrev pub guest_archive_remote : Text
guest_archive_remote = codes "/tmp/strata-archive.tar.gz"

-- `_desktop_entry_probe_command`
abbrev pub desktop_entry_probe_command : Text
desktop_entry_probe_command =
    codes "test -f $HOME/.local/share/applications/io.github.lgse.Strata.desktop"
    ++ codes " && grep -E '^Exec=' $HOME/.local/share/applications/io.github.lgse.Strata.desktop"

abbrev pub launch_script : Text
launch_script =
    codes "if command -v gtk-launch >/dev/null 2>&1; then "
    ++ (codes "nohup gtk-launch io.github.lgse.Strata >/tmp/strata-launch.log 2>&1 & "
        ++ (codes "elif command -v gio >/dev/null 2>&1; then "
            ++ (codes
                  "nohup gio launch \"$HOME/.local/share/applications/io.github.lgse.Strata.desktop\" "
                ++ (codes ">/tmp/strata-launch.log 2>&1 & "
                    ++ (codes "else echo 'gtk-launch and gio launch missing' >&2; exit 1; fi; "
                        ++ codes "disown || true; sleep 1; exit 0")))))

-- A key with a value that may be missing.
abbrev pub extra : Text → Option Text → Props
extra key none = []
extra key (some value) = (key, value) ∷ []

-- `if about_step.get("status") == "pass"`
abbrev pub about_extra : Text → Text → StepResult → Props
about_extra key dest about = if about.passed then (key, dest) ∷ [] else []

-- Whether the installed program is there and can be run.
abbrev pub binary_command : Text
binary_command = codes "test -x \"$HOME/.local/bin/strata\""

module _ {W : Type 0} (fx : Remote W) where
  unfoldable pub launch_desktop_entry_command : Props → Text
  launch_desktop_entry_command env =
      env_prefix fx env ++ (codes " bash -lc " ++ fx.quote_ launch_script)

  unfoldable pub require_archive : Text → Option Text → Step W (Unit {0})
  require_archive source none =
      if text_eq source (codes "local-archive")
      then raise
          (smoke (codes "run-test: --install-from local-archive requires a host archive path"))
      else pure tt
  require_archive source (some path) =
      if text_eq source (codes "local-archive")
      then require_script fx (codes "run-test: archive not found: ") path
      else pure tt

  abbrev not_implemented : Text → Text → StepError
  not_implemented source id =
      smoke (codes "--install-from " ++ (source ++ (codes " is not implemented for " ++ id)))

  -- The tests before the guest is asked anything.
  unfoldable pub install_allowed : Guest → Text → Step W (Unit {0})
  install_allowed guest source =
      if supports_install_from_release guest.id
        && mem source (codes "release" ∷ codes "local-archive" ∷ [])
      then pure tt
      else raise (not_implemented source guest.id)

  -- `if archive is not None`: its digest, and the path in the guest.
  unfoldable pub upload_archive : Option Text → Step W (Option Text × Option Text)
  upload_archive none = pure (none, none)
  upload_archive (some path) = do
    digest ← (λ s. elim (fx.sha256_file path s.world) [
      | none ↦ (err (os_error path), s)
      | some digest ↦ (ok digest, s)
    ])
    scp_to_guest fx path guest_archive_remote
    pure (some digest, some guest_archive_remote)

  unfoldable pub check_binary : Step W (Unit {0})
  check_binary = do proc ← ssh_run fx binary_command 15000 true; pure tt

  -- The step `install`: its entry, the digest of the script, and that of the archive.
  unfoldable pub install_part : FlowArgs → Option Text → Step W (StepResult × (Text × Option Text))
  install_part a archive = do
    started ← monotonic fx
    require_script fx (codes "missing install smoke script ") a.scripts.install
    scp_to_guest fx a.scripts.install (codes "/tmp/smoke-install.sh")
    sent ← upload_archive archive
    proc ←
        ssh_run fx (install_smoke_command fx.quote_ sent.1 (text_eq a.guest.id (codes "arch")))
          180000 true
    digest ← lift (parse_install_sh_sha256 (blob_of proc))
    check_binary
    now ← monotonic fx
    pure (
      step (codes "install") (now - started) ((codes "install_sh_sha256", digest) ∷ []),
      (digest, sent.0),
    )

  -- The step `desktop-entry`
  unfoldable pub desktop_part : Step W StepResult
  desktop_part = do
    started ← monotonic fx
    entry ← ssh_run fx desktop_entry_probe_command 10000 true
    if contains (blob_of entry) (codes ".local/bin/strata")
        then (do now ← monotonic fx; pure (step (codes "desktop-entry") (now - started) []))
        else raise
            (smoke (codes "desktop Exec= does not point at ~/.local/bin/strata: " ++ blob_of entry))

  -- `except (TimeoutError, SessionSmokeError) as exc: window_error = exc`
  unfoldable pub window_caught :
      Result StepError (Unit {0}) × Progress W → Result StepError (Option StepError) × Progress W
  window_caught (ok u, s) = (ok none, s)
  window_caught (err (timed_out text), s) = (ok (some (timed_out text)), s)
  window_caught (err (smoke text), s) = (ok (some (smoke text)), s)
  window_caught (err (command_expired text), s) = (err (command_expired text), s)
  window_caught (err (os_error text), s) = (err (os_error text), s)
  window_caught (err (value_error text), s) = (err (value_error text), s)
  window_caught (err no_rounds, s) = (err no_rounds, s)

  unfoldable pub try_window : Props → Text → Step W (Option StepError)
  unfolding window_caught
  try_window env compositor s = window_caught (wait_window fx env compositor s)

  -- `if window_error is not None: raise window_error`
  unfoldable pub rethrow : Option StepError → Step W (Unit {0})
  rethrow none = pure tt
  rethrow (some e) = raise e

  -- The step `window`: the picture is taken in any case.
  unfoldable pub window_part : FlowArgs → Props → Text → Step W StepResult
  window_part a env compositor = do
    started ← monotonic fx
    ensure_screenshot_tool fx (screenshot_tool_for_compositor compositor)
    launched ← ssh_run fx (launch_desktop_entry_command env) 30000 true
    problem ← try_window env compositor
    capture_guest_screenshot fx env a.screenshot_dest (screenshot_tool_for_compositor compositor)
    extra_qmp_screendump fx a.qmp_dest
    rethrow problem
    now ← monotonic fx
    pure (
        step (codes "window") (now - started)
          ((codes "path", a.screenshot_dest) ∷ (codes "oracle", window_oracle fx compositor) ∷ []))

  unfoldable pub install_outcome :
      FlowArgs
      → Text
      → StepResult
      → StepResult × (Text × Option Text)
      → StepResult × Option Text
      → StepResult
      → StepResult
      → StepResult
      → Outcome
  install_outcome a intended session installed version desktop window about = record {
    steps = session ∷ installed.0 ∷ version.0 ∷ desktop ∷ window ∷ about ∷ [];
    extras =
        (codes "install_method", codes "install.sh")
        ∷ (codes "install_sh_sha256", installed.1.0)
        ∷ (codes "intended_version", intended)
        ∷ (codes "screenshot", a.screenshot_dest)
        ∷ (extra (codes "observed_version") version.1
            ++ (extra (codes "archive_sha256") installed.1.1
                ++ about_extra (codes "about_version") (a.with_name (codes "about-version.png"))
                    about));
  }

  -- What stands behind the choice of the version.
  unfoldable pub install_steps : FlowArgs → Option Text → Text → Step W Outcome
  install_steps a archive intended = do
    let compositor = compositor_process_name a.guest
    session ← session_part fx compositor a.scripts.session a.session_timeout
    let env = session_env_from_exports session.0
    installed ← install_part a archive
    version ← run_version_oracle fx intended (codes "version")
    desktop ← desktop_part
    window ← window_part a env compositor
    about ←
        run_about_version_step fx a.scripts.about env compositor
          (a.with_name (codes "about-version.png")) version.0.passed intended
          (codes "about-version")
    pure (install_outcome a intended session.1 installed version desktop window about)

  unfoldable pub run_install_from_release_steps : FlowArgs → Intent W → Step W Outcome
  run_install_from_release_steps a intent = do
    install_allowed a.guest intent.install_from
    require_archive intent.install_from intent.archive_path
    intended ← resolve_intended_version fx intent
    install_steps a intent.archive_path intended
