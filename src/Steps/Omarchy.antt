-- ===== src/Steps/Omarchy.antt =====
-- strataqemu/tests_spec.py: `run_omarchy_bindings_steps` with its oracles.
pub mod Contract
use strata_qemu_testing.Base.{
  ℕ, ◌-◌, ◌==◌, Bool, true, false, Option, none, some, List, [], ◌∷◌, ◌++◌, if◌then◌else◌,
}
use strata_qemu_testing.Base.Text.{Text, codes, text_eq, decimal}
use strata_qemu_testing.Guests.{compositor_process_name, omarchy_install_major}
use strata_qemu_testing.Session.Parse.{Props}
use strata_qemu_testing.Smoke.{
  session_env_from_exports, omarchy_detect_command, omarchy_bindings_command, parse_smoke_kv,
}
use strata_qemu_testing.RunTest.Exec.{◌>>=◌, ◌>>◌, pure, raise, lift}
use strata_qemu_testing.Steps.Remote.{
  smoke, Remote, Step, blob_of, ssh_run, scp_to_guest, require_script,
}
use strata_qemu_testing.Steps.Wait.{monotonic}
use strata_qemu_testing.Steps.SessionOnly.{StepResult, step, session_part, screenshot_part}
use strata_qemu_testing.Steps.Install.{FlowArgs, Outcome}
use strata_qemu_testing.Steps.Update.{kv_smoke}

-- OMARCHY_TOKEN_CASES: what a version command may print, and the major version it stands for.
abbrev pub omarchy_token_cases : List (Text × Text)
omarchy_token_cases =
    (codes "4.0.0-1", codes "4")
    ∷ (codes "4.0.0.alpha", codes "4")
    ∷ (codes "3.8.5", codes "3")
    ∷ (codes "1:4.0.0-1", codes "4")
    ∷ (codes "Omarchy 2.3.1", [])
    ∷ (codes "5.4.0", [])
    ∷ (codes "dev (b280f130)", [])
    ∷ []

-- OMARCHY_BINDINGS_STEPS
abbrev pub omarchy_bindings_steps : List Text
omarchy_bindings_steps =
    codes "session" ∷ codes "omarchy-detect" ∷ codes "omarchy-bindings" ∷ codes "screenshot" ∷ []

-- OMARCHY_DEV_HASH_OUTPUT
abbrev pub omarchy_dev_hash_output : Text
omarchy_dev_hash_output = codes "dev (b280f130)"

-- GUEST_INSTALL_SH_REMOTE
abbrev pub guest_install_sh_remote : Text
guest_install_sh_remote = codes "/tmp/strata-install.sh"

-- INSTALL_SH_URL
abbrev pub install_sh_url : Text
install_sh_url = codes "https://raw.githubusercontent.com/lgse/strata/main/install.sh"

module _ {W : Type 0} (fx : Remote W) where
  -- A command of the detect script, and the major version that it printed.
  unfoldable pub detected_major : Text → Option Text → Step W Text
  detected_major case_ output = do
    proc ←
        ssh_run fx (omarchy_detect_command fx.quote_ case_ guest_install_sh_remote output none)
          15000 true
    lift (kv_smoke (parse_smoke_kv (blob_of proc) (codes "DETECTED_MAJOR")))

  -- `if got != want: raise`
  unfoldable pub require_equal : Text → Text → Text → Step W (Unit {0})
  require_equal what got want =
      if text_eq got want
      then pure tt
      else raise (smoke (what ++ (got ++ (codes ", expected " ++ want))))

  -- The loop over the tokens.
  unfoldable pub probe_tokens : List (Text × Text) → Step W (Unit {0})
  probe_tokens [] = pure tt
  probe_tokens ((output, want) ∷ rest) = do
    got ← detected_major (codes "token") (some output)
    require_equal (codes "omarchy-detect: token detected ") got want
    probe_tokens rest

  -- `if probe_pr743`
  unfoldable pub probe_pr743 : Bool → Text → Step W Props
  probe_pr743 false expected = pure []
  probe_pr743 true expected = do
    probe_tokens omarchy_token_cases
    got ← detected_major (codes "command") (some omarchy_dev_hash_output)
    require_equal (codes "omarchy-detect: dev hash detected ") got expected
    pure ((codes "omarchy_pr743_probes", codes "pass") ∷ [])

  -- The step `omarchy-detect`: its entry, and what it adds to the result.
  unfoldable pub detect_part : Text → ℕ → Bool → Step W (StepResult × Props)
  detect_part script major probe = do
    require_script fx (codes "missing Omarchy detect smoke ") script
    scp_to_guest fx script (codes "/tmp/smoke-omarchy-detect.sh")
    started ← monotonic fx
    detected ← detected_major (codes "live") none
    require_equal (codes "omarchy-detect: live major ") detected (decimal major)
    probes ← probe_pr743 probe (decimal major)
    now ← monotonic fx
    pure (
      step (codes "omarchy-detect") (now - started) (
          (codes "detected_major", detected) ∷ (codes "oracle", codes "detect_omarchy_major") ∷ []),
      probes ++ ((codes "omarchy_major", detected) ∷ []),
    )

  abbrev pub wanted_kind : ℕ → Text
  wanted_kind major = if major == 4 then codes "lua" else codes "conf"

  -- The step `omarchy-bindings`
  unfoldable pub bindings_part : Text → ℕ → Bool → Step W (StepResult × Props)
  bindings_part script major write = do
    require_script fx (codes "missing Omarchy bindings smoke ") script
    scp_to_guest fx script (codes "/tmp/smoke-omarchy-bindings.sh")
    started ← monotonic fx
    proc ←
        ssh_run fx (omarchy_bindings_command fx.quote_ major write guest_install_sh_remote) 15000
          true
    kind ← lift (kv_smoke (parse_smoke_kv (blob_of proc) (codes "BINDINGS_KIND")))
    path ← lift (kv_smoke (parse_smoke_kv (blob_of proc) (codes "BINDINGS_PATH")))
    require_equal (codes "omarchy-bindings: kind ") kind (wanted_kind major)
    now ← monotonic fx
    pure (
      step (codes "omarchy-bindings") (now - started)
          ((codes "kind", kind) ∷ (codes "path", path) ∷ []),
      (codes "omarchy_bindings", kind) ∷ [],
    )

  unfoldable pub run_omarchy_install_oracles :
      Text → Text → ℕ → Bool → Bool → Step W (List StepResult × Props)
  run_omarchy_install_oracles detect_script bindings_script major probe write = do
    detect ← detect_part detect_script major probe
    bindings ← bindings_part bindings_script major write
    pure (detect.0 ∷ bindings.0 ∷ [], detect.1 ++ bindings.1)

  unfoldable pub stage_guest_install_sh : Option Text → Step W (Unit {0})
  stage_guest_install_sh none = do
    proc ←
        ssh_run fx
          (codes "curl -fsSL "
            ++ (fx.quote_ install_sh_url ++ (codes " -o " ++ fx.quote_ guest_install_sh_remote)))
          60000 true
    pure tt
  stage_guest_install_sh (some path) = do
    require_script fx (codes "run-test: install.sh not found: ") path
    scp_to_guest fx path guest_install_sh_remote

  -- `if major is None: raise`
  unfoldable pub require_major : Option ℕ → Step W ℕ
  require_major none =
      raise
        (smoke (codes "run-test: --omarchy-bindings is only supported for omarchy-3 and omarchy-4"))
  require_major (some major) = pure major

  unfoldable pub run_omarchy_bindings_steps : FlowArgs → Option Text → Step W Outcome
  run_omarchy_bindings_steps a install_sh_path = do
    major ← require_major (omarchy_install_major a.guest.id)
    let compositor = compositor_process_name a.guest
    session ← session_part fx compositor a.scripts.session a.session_timeout
    let env = session_env_from_exports session.0
    stage_guest_install_sh install_sh_path
    oracles ←
        run_omarchy_install_oracles a.scripts.omarchy_detect a.scripts.omarchy_bindings major true
          true
    shot ← screenshot_part fx env compositor a.screenshot_dest a.qmp_dest
    pure (record {
      steps = session.1 ∷ (oracles.0 ++ (shot ∷ []));
      extras = oracles.1 ++ ((codes "screenshot", a.screenshot_dest) ∷ []);
    })
