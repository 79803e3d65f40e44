-- ===== src/Tests/Build.antt =====
-- strataqemu/image_build.py at concrete inputs: a build of a cloud image on a host on which every part succeeds.
use strata_qemu_testing.Base.{
  ℕ, ◌+◌, ◌≤◌, ◌≡◌, refl, true, false, [], ◌∷◌, Result, ok, err, none, some, length,
}
use strata_qemu_testing.RunTest.Exec.{◌>>=◌}
use strata_qemu_testing.Guest.Toml.{pos}
use strata_qemu_testing.Guest.Recipe.{Guest}
use strata_qemu_testing.Base.Text.{Text, codes}
use strata_qemu_testing.Build.Bench.{Machine, BuildError, Builder, Bench}
use strata_qemu_testing.Qemu.Spawn.{Launcher}
use strata_qemu_testing.Build.Wait.{ssh_auth_reject_max}
use strata_qemu_testing.Build.Wait.Limit.{wait_ssh-limit}
use strata_qemu_testing.Build.Wait.Ready.{Answered, wait_ssh-Answered}
use strata_qemu_testing.Build.Wait.Version.{Printed, wait_iso_autoinstall-Printed}
use strata_qemu_testing.Build.Live.{
  spawned, orphan, stopped, removed_golden, Live, CheckHostResult, Site, Build,
}
use strata_qemu_testing.Build.Live.Phases.{phase, cleared}
use strata_qemu_testing.Build.Live.Cleanup.{Stops, build_live-Ended}
use strata_qemu_testing.Build.Live.Report.{Reported, golden_of, run_image_build-Reported}
use strata_qemu_testing.Base.Text.{
  text_eq, mem, is_space, is_digit, lower_char, lower, lstrip, rstrip, strip, starts_with, contains,
  partition, lines_from, split_lines, digits, decimal, join,
}
use strata_qemu_testing.Guest.Toml.{get, truthy, truthy_field, strings, string_list}
use strata_qemu_testing.Artifacts.{cache_dir, throwaway_paths}
use strata_qemu_testing.Ssh.{openssh_opts, ssh_command, scp_command, scp_download_command}
use strata_qemu_testing.Build.Facts.{
  inventory_basename, inventory_provenance_key, uses_iso_autoinstall, setup_ssh_command,
  golden_filename, golden_qcow2, golden_vars_fd, golden_symlink, provenance_path,
  required_free_bytes, source_size_bytes, ssh_auth_rejected, ssh_not_listening,
  default_max_attempts, cloud_init_is_done, omarchy3_skip_wizard_prepared,
  omarchy_version_ssh_command, convert_argv, resize_argv, create_blank_qcow2_argv,
  omarchy_major_for_guest, format_minutes, build_duration_note,
}
use strata_qemu_testing.Build.Facts.Version.{
  is_word, digit_run, dotted_here, named_here, search_from, version_major,
  omarchy_version_matches_major,
}
use strata_qemu_testing.Build.Bench.{
  touch, nap, machine_ssh, ssh_ended, ssh_sent, ssh_checked, ssh_run, scp_identity, scp_ended,
  scp_sent, scp_to_guest, scp_from_guest, capture_vnc, capture_build_timeout_evidence,
  check_process,
}
use strata_qemu_testing.Build.Wait.{
  next_round, rounds, ssh_refused, ssh_judged, ssh_caught, ssh_probe, ssh_body, wait_ssh,
  wait_cloud_init, pinged, qga_ping, qga_body, wait_qga, caught, try_ssh, version_judged,
  ask_version, ssh_answered, iso_round, iso_body, wait_iso_autoinstall,
}
use strata_qemu_testing.Build.Wait.Wizard.{
  require_file, read_script, written, write_script, executed, guest_exec, skip_judged, skip_wizard,
  kick_omarchy3_skip_wizard,
}
use strata_qemu_testing.Ports.Alloc.{
  vnc_raise, walk, allocate_fallback, allocate_port, allocate_ssh_port, vnc_walk, vnc_first,
  allocate_vnc_port,
}
use strata_qemu_testing.Ports.Retry.{
  is_address_already_in_use, after_call, retry_loop, retry_on_addr_in_use,
}
use strata_qemu_testing.Qemu.Argv.{check_config, qemu_args, build_qemu_argv}
use strata_qemu_testing.Qemu.Spawn.{
  ported, ssh_port_part, vnc_port_part, write_port, argv_of, launched, launch, settled, settle_part,
  exited, polled, check_started, attempt, spawn_ended, spawn,
}
use strata_qemu_testing.Build.Spawn.{working_config, working_launch, machine_of, spawn_qemu}
use strata_qemu_testing.Build.Live.{host_checked, acted, act, within, quiet, noting, noted}
use strata_qemu_testing.Build.Live.Prepare.{
  source_file, space_checked, assert_free_space, existing_download, first_space_check,
  bootstrap_env, bootstrapped, run_bootstrap, host_ran, run_checked, create_blank_qcow2,
  convert_and_resize, make_disk, pubkey_for, copy_template, firmware_part, prepare,
}
use strata_qemu_testing.Build.Live.Setup.{
  require_major, wait_guest, found_names, recipe_files_to_upload, upload, set_up, forgiven,
  fetch_version, fetch_inventory,
}
use strata_qemu_testing.Build.Live.Stop.{
  is_exception, rescued, killed, waited, finalized, shut_down, shutdown_asked, process_ended,
  shutdown_machine,
}
use strata_qemu_testing.Build.Live.Finish.{
  for_host, started, start_part, ended, stop_part, remove_part, unlink_part, install_symlink,
  keeps_vars, vars_path, vars_part, read, recorded_version, omarchy_fields, recorded_fields,
  version_fields, source_fields, provenance, write_provenance, install_part, guest_part, try_part,
  finally_ended, finally_with, finally_part, make_dirs, before_part, build_part, build_with,
  build_live,
}
use strata_qemu_testing.Build.Live.Entry.{
  failed, printed_path, build_status, with_status, on_host, for_guest, run_image_build,
}
use strata_qemu_testing.Build.Live.Phases.{next, phase_from}
use strata_qemu_testing.Session.Parse.{parse_int, parse_int_from}

-- The world is the clock.
abbrev builder_of : Text → Builder ℕ
builder_of printed = record {
  quote_ = λ t. t;
  str_expired = λ argv timeout. codes "timed out";
  run =
      λ argv timeout w. (ok (record { returncode = pos 0; stdout = printed; stderr = [] }), w + 5);
  monotonic = λ w. w;
  sleep = λ time w. w + time;
  poll = λ w. none;
  is_file = λ path w. true;
  read_text = λ path w. some (codes "text\n");
  make_dir = λ path w. w;
  make_parent = λ path w. w;
  vnc_framebuffer_png = λ dest display w. w;
  qmp_screendump = λ socket dest w. w;
  qga_guest_ping = λ socket w. (ok true, w);
  qga_guest_file_write = λ socket path text w. (true, w);
  qga_guest_exec = λ socket command timeout w. (none, w);
}

abbrev machine : Machine
machine = record {
  disk = codes "working.qcow2";
  root = codes "run";
  ssh_port = 2222;
  vnc_port = some 5901;
  identity = some (codes "key");
  user = codes "tester";
  has_process = true;
}

-- Every port is free, and the process starts and stays.
abbrev launcher : Launcher ℕ BuildError
launcher = record {
  bind = λ host port w. (ok port, w);
  resolve = λ path. path;
  write_text = λ path text w. w;
  popen = λ argv w. (ok tt, w);
  sleep = λ time w. (true, w + time);
  poll = λ w. none;
  read_text = λ path w. none;
}

abbrev sunny : Site ℕ
sunny = record {
  builder = builder_of (codes "status: done\n");
  disk_free = λ path w. some 1000000000000;
  file_size = λ path w. some 700000000;
  run_script =
      λ script env w. (ok (record { returncode = pos 0; stdout = []; stderr = [] }), w + 100);
  write_cidata = λ omarchy dest key w. (ok dest, w);
  find_ovmf_vars = λ w. some (codes "OVMF_VARS.fd");
  copy_uefi_vars = λ dest template w. (ok tt, w);
  launcher = launcher;
  shutdown = λ m w. (ok (codes "guest-agent"), w);
  wait_process = λ time w. (ok tt, w + 10);
  kill = λ m w. w;
  is_there = λ path w. true;
  unlink = λ path w. (ok tt, w);
  move = λ source dest w. (ok tt, w);
  chmod = λ path w. w;
  symlink_to = λ link name w. (ok tt, w);
  copyfile = λ source dest w. (ok tt, w);
  json_dumps = λ payload. [];
  write_text = λ path text w. (ok tt, w);
  rmtree = λ path w. w;
}

-- A host on which the set-up of the guest fails.
abbrev cloudy : Site ℕ
cloudy = record sunny { move = λ source dest w. (err (BuildError.os_error (codes "no space")), w) }

sunny-Stops : Stops sunny
sunny-Stops = record { shutdown_stops = λ m w. refl; wait_stops = λ time w. refl }

cloudy-Stops : Stops cloudy
cloudy-Stops = record { shutdown_stops = λ m w. refl; wait_stops = λ time w. refl }

abbrev noble : Guest
noble = record {
  id = codes "ubuntu-2404";
  arch = codes "x86_64";
  firmware = codes "uefi";
  source_kind = codes "cloud-image";
  source_url = codes "https://cloud.example/noble.img";
  source_sha256 = codes "0123";
  download_name = codes "noble.img";
  disk_gb = pos 20;
  memory_mib = pos 4096;
  cpus = pos 4;
  build_timeout_s = pos 3600;
  boot_timeout_s = pos 300;
  ovmf_code = none;
  ovmf_vars_template = none;
  session = record {
    kind = codes "gnome";
    display_manager = codes "gdm";
    compositor = codes "gnome-shell";
    autologin = true;
    wayland = true;
  };
  packages = record { manager = codes "apt"; snapshot_url = none; runtime = [] };
  user = record { name = codes "tester"; groups = [] };
  cidata = none;
  recipe_dir = codes "images/ubuntu-2404";
}

abbrev noble_build : Build
noble_build = record {
  guest = noble;
  golden_digest = codes "abcd";
  recipe_digest = codes "ef01";
  cache = codes "cache";
  ssh_key = [];
  ovmf_code = none;
  stamp = codes "20260101T000000Z";
}

abbrev host : CheckHostResult
host = record {
  passed = true;
  ovmf_code = some (codes "OVMF_CODE.fd");
  ssh_key = some (codes "key");
}

abbrev bench : Bench ℕ
bench = record { world = 0; log = [] }

abbrev live : Live ℕ
live = record { bench = bench; machine = none; trace = [] }

-- What the runs compute with.
unfoldable opened : Unit {0}
unfolding ◌>>=◌ text_eq mem is_space is_digit lower_char lower lstrip rstrip strip starts_with
    contains partition lines_from split_lines digits decimal join get truthy truthy_field strings
    string_list cache_dir throwaway_paths openssh_opts ssh_command scp_command scp_download_command
    inventory_basename inventory_provenance_key uses_iso_autoinstall setup_ssh_command
    golden_filename golden_qcow2 golden_vars_fd golden_symlink provenance_path required_free_bytes
    source_size_bytes ssh_auth_rejected ssh_not_listening default_max_attempts cloud_init_is_done
    omarchy3_skip_wizard_prepared omarchy_version_ssh_command convert_argv resize_argv
    create_blank_qcow2_argv omarchy_major_for_guest format_minutes build_duration_note is_word
    digit_run dotted_here named_here search_from version_major omarchy_version_matches_major touch
    nap machine_ssh ssh_ended ssh_sent ssh_checked ssh_run scp_identity scp_ended scp_sent
    scp_to_guest scp_from_guest capture_vnc capture_build_timeout_evidence check_process next_round
    rounds ssh_refused ssh_judged ssh_caught ssh_probe ssh_body wait_ssh wait_cloud_init pinged
    qga_ping qga_body wait_qga caught try_ssh version_judged ask_version ssh_answered iso_round
    iso_body wait_iso_autoinstall require_file read_script written write_script executed guest_exec
    skip_judged skip_wizard kick_omarchy3_skip_wizard vnc_raise walk allocate_fallback allocate_port
    allocate_ssh_port vnc_walk vnc_first allocate_vnc_port is_address_already_in_use after_call
    retry_loop retry_on_addr_in_use check_config qemu_args build_qemu_argv ported ssh_port_part
    vnc_port_part write_port argv_of launched launch settled settle_part exited polled check_started
    attempt spawn_ended spawn working_config working_launch machine_of spawn_qemu host_checked acted
    act within quiet noting noted source_file space_checked assert_free_space existing_download
    first_space_check bootstrap_env bootstrapped run_bootstrap host_ran run_checked
    create_blank_qcow2 convert_and_resize make_disk pubkey_for copy_template firmware_part prepare
    require_major wait_guest found_names recipe_files_to_upload upload set_up forgiven fetch_version
    fetch_inventory is_exception rescued killed waited finalized shut_down shutdown_asked
    process_ended shutdown_machine for_host started start_part ended stop_part remove_part
    unlink_part install_symlink keeps_vars vars_path vars_part read recorded_version omarchy_fields
    recorded_fields version_fields source_fields provenance write_provenance install_part guest_part
    try_part finally_ended finally_with finally_part make_dirs before_part build_part build_with
    build_live failed printed_path build_status with_status on_host for_guest run_image_build next
    phase_from parse_int parse_int_from
opened = tt

-- The build returns the golden image, and one that cannot be moved into its place does not.
sunny_returns : (build_live sunny noble_build host live).0 ≡ ok (golden_of noble_build)
unfolding opened
sunny_returns = refl

build_live-Ended_example :
    (phase (build_live sunny noble_build host live).1.trace ≡ cleared)
    × ((build_live sunny noble_build host live).1.machine ≡ none)
unfolding opened
build_live-Ended_example = build_live-Ended sunny sunny-Stops noble_build host bench

-- A build on a host on which an interrupt comes while QEMU settles, and what it leaves.
abbrev hasty : Site ℕ
hasty = record sunny { launcher = record launcher { sleep = λ time w. (false, w) } }

hasty_trace : (build_live hasty noble_build host live).1.trace ≡ orphan ∷ []
unfolding opened
hasty_trace = refl

-- What has been done when the golden image cannot be put in its place: the machine has stopped.
cloudy_trace :
    (build_live cloudy noble_build host live).1.trace ≡ spawned ∷ stopped ∷ removed_golden ∷ []
unfolding opened
cloudy_trace = refl

run_image_build-Reported_example :
    Reported sunny noble_build bench
      (run_image_build sunny (codes "ubuntu-2404") (ok noble_build) true host bench)
run_image_build-Reported_example =
    run_image_build-Reported sunny (codes "ubuntu-2404") noble_build true host bench sunny-Stops

wait_ssh-limit_example :
    length
      (wait_ssh (builder_of []) machine 300000 (ssh_auth_reject_max (builder_of [])) bench).1.log
    ≤ 0 + default_max_attempts 300000
wait_ssh-limit_example =
    wait_ssh-limit (builder_of []) machine 300000 (ssh_auth_reject_max (builder_of [])) bench

abbrev waited_for : Result BuildError (Unit {0}) × Bench ℕ
waited_for = wait_ssh (builder_of []) machine 300000 (ssh_auth_reject_max (builder_of [])) bench

waited_for_ok : waited_for ≡ (ok tt, waited_for.1)
unfolding opened
waited_for_ok = refl

wait_ssh-Answered_example : Answered (builder_of []) machine (codes "true") waited_for.1
wait_ssh-Answered_example =
    wait_ssh-Answered (builder_of []) machine 300000 (ssh_auth_reject_max (builder_of [])) bench
      waited_for.1 waited_for_ok

abbrev installed : Result BuildError Text × Bench ℕ
installed = wait_iso_autoinstall (builder_of (codes "4.0.2\n")) machine 4 3600000 bench

installed_ok : installed ≡ (ok (codes "4.0.2"), installed.1)
unfolding opened
installed_ok = refl

wait_iso_autoinstall-Printed_example :
    Printed (builder_of (codes "4.0.2\n")) machine 4 (codes "4.0.2") installed.1
wait_iso_autoinstall-Printed_example =
    wait_iso_autoinstall-Printed (builder_of (codes "4.0.2\n")) machine 4 3600000 bench installed.1
      (codes "4.0.2") installed_ok
