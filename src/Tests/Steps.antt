-- ===== src/Tests/Steps.antt =====
-- A guest on which every step of a flow passes, and the arguments of the flows.
pub mod Flows
use strata_qemu_testing.Base.{
  ℕ, zero, suc, ◌+◌, ◌<◌, ◌≤◌, ◌≡◌, refl, Bool, true, false, List, [], ◌∷◌, ◌++◌, Result, ok, err,
  none, some, if◌then◌else◌, map, arith, Option,
}
use strata_qemu_testing.RunTest.Exec.{◌>>=◌}
use native.Mathlib.Nat.{le_refl}
use strata_qemu_testing.Guest.Toml.{ℤ, pos}
use strata_qemu_testing.Guest.Recipe.{Guest, Session, Packages, User}
use strata_qemu_testing.Steps.Remote.{Proc, RunError, Machine, Remote, Progress, StepError}
use strata_qemu_testing.Steps.SessionOnly.{StepResult}
use strata_qemu_testing.Steps.Screenshot.Png.{IsPicture, capture_guest_screenshot-IsPicture}
use strata_qemu_testing.Steps.Version.{Intent}
use strata_qemu_testing.Steps.Version.Observed.{IsVersionStep, run_version_oracle-IsVersionStep}
use strata_qemu_testing.Steps.Wait.Loop.{IsSteady}
use strata_qemu_testing.Steps.Wait.Clock.{WindowEnds, wait_window-Ends}
use strata_qemu_testing.Steps.Install.{Scripts, FlowArgs, Outcome, install_from_release_steps}
use strata_qemu_testing.Steps.Install.Contract.{Keeps, install_skippable}
use strata_qemu_testing.Steps.Update.{update_from_steps}
use strata_qemu_testing.Steps.Update.Contract.{update_skippable}
use strata_qemu_testing.Steps.Omarchy.{omarchy_bindings_steps}
use strata_qemu_testing.Steps.Omarchy.Contract.{DetectsGuest, run_omarchy_bindings_steps-Keeps}
use strata_qemu_testing.Base.Text.{
  Text, codes, text_eq, mem, is_space, is_digit, lower_char, lower, lstrip, rstrip, strip,
  starts_with, contains, partition, lines_from, split_lines, digits, decimal, join,
}
use strata_qemu_testing.Smoke.{
  keep_wanted, export_line, export_rows, parse_session_exports, picked, session_env_from_exports,
  smoke_value, parse_smoke_kv, install_sh_argv, install_smoke_command, update_smoke_command,
  about_smoke_command, omarchy_detect_command, omarchy_bindings_command,
}
use strata_qemu_testing.Guests.{
  omarchy_install_major, supports_install_from_release, supports_update_from, process_name,
  compositor_process_name, screenshot_tool_for_compositor,
}
use strata_qemu_testing.Versions.{
  drop_v, strip_v_prefix, normalize_version, versions_match, dotted, is_version,
  parse_update_from_version, previous_release_archive_name,
}
use strata_qemu_testing.Versions.Archive.{
  cut_where, remove_ending, remove_first, drop_newline, group, drop_lower, match_archive,
  cut_marker, without_target, archive_version, parse_archive_version,
}
use strata_qemu_testing.Ssh.{openssh_opts, ssh_command, scp_command, scp_download_command}
use strata_qemu_testing.Guest.Fields.{is_hex, is_sha256}
use strata_qemu_testing.Session.Parse.{get_prop, has_key}
use strata_qemu_testing.Steps.Remote.{
  env_prefix, remember, machine_ssh, ssh_ended, ssh_checked, ssh_sent, ssh_run, scp_identity,
  scp_ended, scp_sent, scp_to_guest, ensure_parent, scp_from_guest, require_script,
}
use strata_qemu_testing.Steps.Wait.{
  nap, monotonic, next_round, rounds, wait_until, session_answer, session_probe, run_session_step,
  with_env, hyprctl_class_oracle_command, hyprland_answer, hyprland_probe, wait_hyprland_class,
  wait_window, window_oracle, wait_strata_window,
}
use strata_qemu_testing.Steps.Screenshot.{
  png_magic, is_png, png_ok, ensure_screenshot_tool, shoot, grabbed, try_shoot, vnc_fallback,
  shot_bytes, check_shot, take_shot, capture_guest_screenshot, dump_ended, extra_qmp_screendump,
}
use strata_qemu_testing.Steps.SessionOnly.{
  command_is_forbidden_for_session_only, assert_session_only_commands, session_part,
  screenshot_part, check_recorded, run_session_only_steps,
}
use strata_qemu_testing.Steps.Version.{
  first_line, drop_strata, is_version_line, strata_version_is_cli, parse_observed_version,
  digest_in, parse_install_sh_sha256, version_observed, version_step, resolve_source,
  resolve_called, resolve_given, resolve_intended_version, observed_or_skip, ask_version,
  observe_version, run_version_oracle,
}
use strata_qemu_testing.Steps.About.{
  key_sent, press, send_qmp_chords, navigate, after_script, by_qmp, about_ended, open_about,
  run_about_version_step,
}
use strata_qemu_testing.Steps.Install.{
  launch_desktop_entry_command, require_archive, install_allowed, upload_archive, check_binary,
  install_part, desktop_part, window_caught, try_window, rethrow, window_part, install_outcome,
  install_steps, run_install_from_release_steps,
}
use strata_qemu_testing.Steps.Update.{
  require_previous, update_versions, upload_update, check_seeded, previous_part, quit_strata,
  launch_strata, before_part, latest_part, update_extras, update_steps, run_update_from_steps,
}
use strata_qemu_testing.Steps.Omarchy.{
  detected_major, require_equal, probe_tokens, probe_pr743, detect_part, bindings_part,
  run_omarchy_install_oracles, stage_guest_install_sh, require_major, run_omarchy_bindings_steps,
}

abbrev pub last : List Text → Text
last [] = []
last (a ∷ []) = a
last (a ∷ b ∷ rest) = last (b ∷ rest)

abbrev pub digest : Text
digest = codes "0123456789abcdef0123456789abcdef0123456789abcdef0123456789abcdef"

abbrev pub printed : Text
printed =
    codes
      "WAYLAND_DISPLAY=wayland-1\nINPUT=wtype\nFROM_VERSION=0.14.0\nExec=.local/bin/strata\nBINDINGS_KIND=lua\nBINDINGS_PATH=b.lua\nINSTALL_SH_SHA256="
    ++ (digest ++ codes "\n")

-- What the guest prints for a command.
unfoldable pub answer : Text → Text
answer command =
    if contains command (codes "OMARCHY_CASE=token")
    then (if contains command (codes "OUTPUT=3")
        then codes "DETECTED_MAJOR=3"
        else if contains command (codes "4.0.0")
        then codes "DETECTED_MAJOR=4"
        else codes "DETECTED_MAJOR=")
    else if contains command (codes "OMARCHY_CASE")
    then codes "DETECTED_MAJOR=4"
    else if contains command (codes "--version")
    then codes "strata 0.15.0\n"
    else printed

unfoldable pub zeros : ℕ → Text
zeros zero = []
zeros (suc n) = 0 ∷ zeros n

-- A picture of 264 bytes.
unfoldable pub picture : Text
picture = png_magic ++ zeros 256

-- The world is the clock.
abbrev pub guest_fx : Remote ℕ
guest_fx = record {
  machine = record {
    ssh_port = 2222;
    vnc_port = none;
    identity = some (codes "key");
    user = codes "tester";
  };
  quote_ = λ t. t;
  run = λ argv timeout w.
      (ok (record { returncode = pos 0; stdout = answer (last argv); stderr = [] }), w + 5);
  is_file = λ path w. true;
  read_bytes = λ path w. some picture;
  monotonic = λ w. w;
  sleep = λ time w. w + time;
  vnc_framebuffer_png = λ dest display w. (false, w);
  qmp_screendump = λ dest w. (false, w);
  send_key = λ keys w. (true, w);
  sha256_file = λ path w. some digest;
  make_parent = λ dest w. w;
}

abbrev pub at_start : Progress ℕ
at_start = record { world = 0; commands = []; log = [] }

abbrev pub omarchy : Guest
omarchy = record {
  id = codes "omarchy-4";
  arch = codes "x86_64";
  firmware = codes "uefi";
  source_kind = codes "iso";
  source_url = codes "https://iso.example/omarchy.iso";
  source_sha256 = digest;
  download_name = codes "omarchy.iso";
  disk_gb = pos 40;
  memory_mib = pos 4096;
  cpus = pos 4;
  build_timeout_s = pos 3600;
  boot_timeout_s = pos 300;
  ovmf_code = none;
  ovmf_vars_template = none;
  session = record {
    kind = codes "hyprland";
    display_manager = codes "sddm";
    compositor = codes "hyprland";
    autologin = true;
    wayland = true;
  };
  packages = record { manager = codes "pacman"; snapshot_url = none; runtime = [] };
  user = record { name = codes "tester"; groups = [] };
  cidata = none;
  recipe_dir = codes "images/omarchy-4";
}

abbrev pub flow_args : FlowArgs
flow_args = record {
  guest = omarchy;
  scripts = record {
    session = codes "smoke-session.sh";
    install = codes "smoke-install.sh";
    update = codes "smoke-update.sh";
    about = codes "smoke-about.sh";
    omarchy_detect = codes "smoke-omarchy-detect.sh";
    omarchy_bindings = codes "smoke-omarchy-bindings.sh";
  };
  screenshot_dest = codes "window.png";
  qmp_dest = none;
  session_timeout = 60000;
  with_name = λ name. name;
}

abbrev pub intent : Intent ℕ
intent = record {
  install_from = codes "release";
  archive_path = none;
  intended_version = some (codes "v0.15.0");
  intended_version_fn = none;
  github_latest_version = λ s. (ok (codes "0.15.0"), s);
}

-- What a run has returned, if it has.
abbrev pub outcome_of : Result StepError Outcome × Progress ℕ → Outcome
outcome_of (ok o, s) = o
outcome_of (err e, s) = record { steps = []; extras = [] }

-- A guest whose Strata does not print its version.
abbrev pub mute_fx : Remote ℕ
mute_fx = record guest_fx {
  run =
      λ argv timeout w. (ok (record { returncode = pos 0; stdout = printed; stderr = [] }), w + 5);
}

-- What the runs compute with.
unfoldable pub opened : Unit {0}
unfolding ◌>>=◌ text_eq mem is_space is_digit lower_char lower lstrip rstrip strip starts_with
    contains partition lines_from split_lines digits decimal join keep_wanted export_line
    export_rows parse_session_exports picked session_env_from_exports smoke_value parse_smoke_kv
    install_sh_argv install_smoke_command update_smoke_command about_smoke_command
    omarchy_detect_command omarchy_bindings_command omarchy_install_major
    supports_install_from_release supports_update_from process_name compositor_process_name
    screenshot_tool_for_compositor drop_v strip_v_prefix normalize_version versions_match dotted
    is_version parse_update_from_version previous_release_archive_name cut_where remove_ending
    remove_first drop_newline group drop_lower match_archive cut_marker without_target
    archive_version parse_archive_version openssh_opts ssh_command scp_command scp_download_command
    is_hex is_sha256 get_prop has_key env_prefix remember machine_ssh ssh_ended ssh_checked ssh_sent
    ssh_run scp_identity scp_ended scp_sent scp_to_guest ensure_parent scp_from_guest require_script
    nap monotonic next_round rounds wait_until session_answer session_probe run_session_step
    with_env hyprctl_class_oracle_command hyprland_answer hyprland_probe wait_hyprland_class
    wait_window window_oracle wait_strata_window is_png png_ok ensure_screenshot_tool shoot grabbed
    try_shoot vnc_fallback shot_bytes check_shot take_shot capture_guest_screenshot dump_ended
    extra_qmp_screendump command_is_forbidden_for_session_only assert_session_only_commands
    session_part screenshot_part check_recorded run_session_only_steps first_line drop_strata
    is_version_line strata_version_is_cli parse_observed_version digest_in parse_install_sh_sha256
    version_observed version_step resolve_source resolve_called resolve_given
    resolve_intended_version observed_or_skip ask_version observe_version run_version_oracle
    key_sent press send_qmp_chords navigate after_script by_qmp about_ended open_about
    run_about_version_step launch_desktop_entry_command require_archive install_allowed
    upload_archive check_binary install_part desktop_part window_caught try_window rethrow
    window_part install_outcome install_steps run_install_from_release_steps require_previous
    update_versions upload_update check_seeded previous_part quit_strata launch_strata before_part
    latest_part update_extras update_steps run_update_from_steps detected_major require_equal
    probe_tokens probe_pr743 detect_part bindings_part run_omarchy_install_oracles
    stage_guest_install_sh require_major run_omarchy_bindings_steps answer zeros picture
opened = tt
