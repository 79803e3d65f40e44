-- ===== src/Steps/Update.antt =====
-- strataqemu/tests_spec.py: `run_update_from_steps`, in the parts that its steps give.
pub mod Contract
use strata_qemu_testing.Base.{
  List, ◌-◌, true, false, Option, none, some, [], ◌∷◌, ◌++◌, if◌then◌else◌, Result, ok, err,
}
use strata_qemu_testing.Base.Text.{Text, codes, text_eq}
use strata_qemu_testing.Guest.Recipe.{Guest}
use strata_qemu_testing.Guests.{
  compositor_process_name, screenshot_tool_for_compositor, supports_update_from,
}
use strata_qemu_testing.Session.Parse.{Props}
use strata_qemu_testing.Smoke.{
  SmokeError, unparseable_reply, not_printed, session_env_from_exports, update_smoke_command,
  parse_smoke_kv,
}
use strata_qemu_testing.Versions.{
  parse_update_from_version, versions_match, previous_release_archive_name, release_target,
}
use strata_qemu_testing.RunTest.Exec.{◌>>=◌, ◌>>◌, pure, raise, lift}
use strata_qemu_testing.Steps.Remote.{
  StepError, smoke, Remote, Step, blob_of, env_prefix, ssh_run, scp_to_guest, require_script,
}
use strata_qemu_testing.Steps.Wait.{monotonic, wait_strata_window}
use strata_qemu_testing.Steps.Screenshot.{ensure_screenshot_tool}
use strata_qemu_testing.Steps.SessionOnly.{StepResult, step, session_part}
use strata_qemu_testing.Steps.Version.{
  Intent, resolve_intended_version, parse_install_sh_sha256, run_version_oracle, smoke_of,
}
use strata_qemu_testing.Steps.About.{run_about_version_step}
use strata_qemu_testing.Steps.Install.{
  FlowArgs, Outcome, extra, about_extra, upload_archive, check_binary, desktop_part, window_part,
  launch_desktop_entry_command,
}

-- UPDATE_FROM_STEPS
abbrev pub update_from_steps : List Text
update_from_steps =
    codes "session"
    ∷ codes "install-previous"
    ∷ codes "version-previous"
    ∷ codes "about-version-before"
    ∷ codes "update"
    ∷ codes "version"
    ∷ codes "desktop-entry"
    ∷ codes "window"
    ∷ codes "about-version-after"
    ∷ []

-- A `SessionSmokeError` of the readers of the guest's output.
abbrev pub kv_smoke : Result SmokeError Text → Result StepError Text
kv_smoke (ok value) = ok value
kv_smoke (err (not_printed key)) = err (smoke (codes "smoke did not print " ++ (key ++ codes "=")))
kv_smoke (err (unparseable_reply reply)) =
    err (smoke (codes "unparseable NameHasOwner reply: " ++ reply))

module _ {W : Type 0} (fx : Remote W) where
  -- `Path` or none; a path has to be a file.
  unfoldable pub require_previous : Option Text → Step W (Unit {0})
  require_previous none = pure tt
  require_previous (some path) =
      require_script fx (codes "run-test: previous archive not found: ") path

  -- The versions before the guest is asked anything: the one to start from and the one to come to.
  unfoldable pub update_versions : Guest → Text → Option Text → Intent W → Step W (Text × Text)
  update_versions guest from_version previous intent = do
    if supports_update_from guest.id
        then pure tt
        else raise (
            smoke
              (codes "run-test: --update-from is not supported for this guest; use --session-only"))
    from_ver ← lift (smoke_of (parse_update_from_version from_version))
    require_previous previous
    intended ←
        resolve_intended_version fx
          (record intent { install_from = codes "release"; archive_path = none })
    if versions_match from_ver intended
        then raise (
            smoke (
              codes "run-test: --update-from version is already the latest release ("
              ++ (intended ++ codes ")")))
        else pure (from_ver, intended)

  -- The upload of the script and of a previous archive.
  unfoldable pub upload_update : FlowArgs → Option Text → Step W (Option Text × Option Text)
  upload_update a previous = do
    require_script fx (codes "missing update smoke script ") a.scripts.update
    scp_to_guest fx a.scripts.update (codes "/tmp/smoke-update.sh")
    upload_archive fx previous

  unfoldable pub check_seeded : Text → Text → Step W (Unit {0})
  check_seeded seeded from_ver =
      if versions_match seeded from_ver
      then pure tt
      else raise (
          smoke (
            codes "install-previous: FROM_VERSION "
            ++ (seeded ++ (codes ", expected " ++ from_ver))))

  -- The step `install-previous`
  unfoldable pub previous_part : FlowArgs → Text → Option Text → Step W StepResult
  previous_part a from_ver remote_archive = do
    started ← monotonic fx
    prev ←
        ssh_run fx
          (update_smoke_command fx.quote_ (codes "previous") (some from_ver) remote_archive
            (text_eq a.guest.id (codes "arch")))
          180000 true
    seeded ← lift (kv_smoke (parse_smoke_kv (blob_of prev) (codes "FROM_VERSION")))
    check_seeded seeded from_ver
    check_binary fx
    now ← monotonic fx
    pure (
        step (codes "install-previous") (now - started) (
          (codes "from_version", from_ver)
          ∷ (codes "archive", previous_release_archive_name from_ver release_target)
          ∷ []))

  -- `quit_strata`
  unfoldable pub quit_strata : Props → Step W (Unit {0})
  quit_strata env = do
    proc ← ssh_run fx (env_prefix fx env ++ codes " sh -c 'pkill -x strata || true'") 15000 false
    pure tt

  unfoldable pub launch_strata : Props → Step W (Unit {0})
  launch_strata env = do proc ← ssh_run fx (launch_desktop_entry_command fx env) 30000 true; pure tt

  -- The step `about-version-before`, in a window that is closed again.
  unfoldable pub before_part : FlowArgs → Props → Text → Text → Step W StepResult
  before_part a env compositor from_ver = do
    started ← monotonic fx
    ensure_screenshot_tool fx (screenshot_tool_for_compositor compositor)
    launch_strata env
    oracle ← wait_strata_window fx env compositor
    before ←
        run_about_version_step fx a.scripts.about env compositor
          (a.with_name (codes "about-version-before.png")) false from_ver
          (codes "about-version-before")
    quit_strata env
    now ← monotonic fx
    pure (record before { elapsed = now - started })

  -- The step `update`, with the digest of the script.
  unfoldable pub latest_part : FlowArgs → Step W (StepResult × Text)
  latest_part a = do
    started ← monotonic fx
    latest ←
        ssh_run fx
          (update_smoke_command fx.quote_ (codes "latest") none none
            (text_eq a.guest.id (codes "arch")))
          180000 true
    digest ← lift (parse_install_sh_sha256 (blob_of latest))
    check_binary fx
    now ← monotonic fx
    pure (
      step (codes "update") (now - started)
          ((codes "install_sh_sha256", digest) ∷ (codes "install_method", codes "install.sh") ∷ []),
      digest,
    )

  unfoldable pub update_extras :
      FlowArgs
      → Text
      → Text
      → Text
      → Option Text
      → Option Text
      → Option Text
      → StepResult
      → StepResult
      → Props
  update_extras a digest from_ver intended previous observed archive before after =
      (codes "install_method", codes "install.sh")
      ∷ (codes "install_sh_sha256", digest)
      ∷ (codes "from_version", from_ver)
      ∷ (codes "intended_version", intended)
      ∷ (codes "screenshot", a.screenshot_dest)
      ∷ (codes "update_from", from_ver)
      ∷ (extra (codes "observed_previous_version") previous
          ++ (extra (codes "observed_version") observed
              ++ (extra (codes "archive_sha256") archive
                  ++ (about_extra (codes "about_version_before")
                        (a.with_name (codes "about-version-before.png")) before
                      ++ about_extra (codes "about_version_after")
                          (a.with_name (codes "about-version-after.png")) after))))

  -- What stands behind the choice of the versions.
  unfoldable pub update_steps : FlowArgs → Option Text → Text → Text → Step W Outcome
  update_steps a previous from_ver intended = do
    let compositor = compositor_process_name a.guest
    session ← session_part fx compositor a.scripts.session a.session_timeout
    let env = session_env_from_exports session.0
    sent ← upload_update a previous
    seeded ← previous_part a from_ver sent.1
    old ← run_version_oracle fx from_ver (codes "version-previous")
    before ← before_part a env compositor from_ver
    latest ← latest_part a
    new ← run_version_oracle fx intended (codes "version")
    desktop ← desktop_part fx
    window ← window_part fx a env compositor
    after ←
        run_about_version_step fx a.scripts.about env compositor
          (a.with_name (codes "about-version-after.png")) false intended
          (codes "about-version-after")
    pure (record {
      steps =
          session.1 ∷ seeded ∷ old.0 ∷ before ∷ latest.0 ∷ new.0 ∷ desktop ∷ window ∷ after ∷ [];
      extras = update_extras a latest.1 from_ver intended old.1 new.1 sent.0 before after;
    })

  unfoldable pub run_update_from_steps : FlowArgs → Text → Option Text → Intent W → Step W Outcome
  run_update_from_steps a from_version previous intent = do
    versions ← update_versions a.guest from_version previous intent
    update_steps a previous versions.0 versions.1
