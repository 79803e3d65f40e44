-- ===== src/Tests/RunTest.antt =====
-- strataqemu/run_test.py at concrete inputs: a run whose steps fail after the machine is up.
use strata_qemu_testing.Base.{
  ℕ, suc, ◌≡◌, refl, Bool, true, false, [], Result, ok, err, none, some, ◌⊎◌,
}
use strata_qemu_testing.Base.Text.{
  Text, codes, text_eq, mem, is_digit, strip, lstrip, rstrip, is_space,
}
use strata_qemu_testing.Versions.{
  parse_update_from_version, normalize_version, strip_v_prefix, is_version, dotted,
}
use strata_qemu_testing.Guests.{
  supports_update_from, supports_install_from_release, supports_omarchy_bindings,
  omarchy_install_major,
}
use strata_qemu_testing.RunTest.Request.{
  Request, update, session, decide, check_exclusive, resolve_update, install_ok, resolve_archive,
  resolve_install_sh, choose_flow,
}
use strata_qemu_testing.RunTest.Request.Modes.{IsAllowed, decide-IsAllowed}
use strata_qemu_testing.Qemu.Spawn.{Launcher}
use strata_qemu_testing.RunTest.Spawn.{OverlayArgs}
use strata_qemu_testing.RunTest.Run.{Failure, listed, interrupted, Effects, Host, run_flow}
use strata_qemu_testing.RunTest.Run.Cleanup.{Ended, run_flow-Ended, is_success}
use strata_qemu_testing.RunTest.VmRun.{VmEffects, VmRequest, vm_run}
use strata_qemu_testing.RunTest.VmRun.Cleanup.{VmEnded, vm_run-Ended}

abbrev works : ℕ → Result Failure (Unit {0}) × ℕ
works n = (ok tt, suc n)

abbrev host : Host
host = record { passed = true; has_key = true; has_ovmf = true }

-- Every port is free, and the process starts and stays.
abbrev launcher : Launcher ℕ Failure
launcher = record {
  bind = λ host port n. (ok port, n);
  resolve = λ path. path;
  write_text = λ path text n. n;
  popen = λ argv n. (ok tt, n);
  sleep = λ time n. (true, n);
  poll = λ n. none;
  read_text = λ path n. none;
}

abbrev overlay_args : OverlayArgs
overlay_args = record {
  overlay = codes "overlay.qcow2";
  run_dir = codes "run";
  cpus = 4;
  memory_mib = 4096;
  ovmf_code = none;
  ovmf_vars = none;
}

abbrev failing_steps : Effects ℕ
failing_steps = record {
  check_host = λ n. (host, n);
  prepare_overlay = works;
  launcher = launcher;
  overlay_args = overlay_args;
  wait_ssh = works;
  run_steps = λ flow n. (err (listed (codes "smoke failed")), n);
  write_result = λ document n. works n;
  shutdown_machine = works;
  discard_disks = λ n. 0;
}

run_flow-Ended_example : Ended failing_steps session false (
    run_flow failing_steps false session
      (record { world = 3; machine = false; result_ok = false; trace = [] }))
run_flow-Ended_example = run_flow-Ended failing_steps session (λ w. refl) false 3

abbrev interrupted_vm : VmEffects ℕ
interrupted_vm = record {
  check_host = λ n. (host, n);
  display_help = codes "Available display backend types:\nnone\nsdl\n";
  prepare_overlay = works;
  launcher = launcher;
  overlay_args = overlay_args;
  wait_process = λ n. (err interrupted, n);
  shutdown_machine = works;
  remove_run_dir = λ n. 0;
}

abbrev window : VmRequest
window = record { graphical = true; keep = false; graphical_ui = none; wait = true; uefi = true }

vm_run-Ended_example :
    ((is_success (vm_run interrupted_vm (ok window) true 0).0 ≡ false)
      × ((vm_run interrupted_vm (ok window) true 0).1.trace ≡ []))
    ⊎ VmEnded interrupted_vm window false (vm_run interrupted_vm (ok window) true 0)
vm_run-Ended_example = vm_run-Ended interrupted_vm window (λ w. refl) true 0

abbrev update_request : Request
update_request = record {
  guest_id = codes "arch";
  session_only = false;
  install_from = none;
  archive_path = none;
  omarchy_bindings = false;
  update_from = some (codes "v1.2.0");
  install_sh_path = none;
  install_sh_env = none;
}

abbrev no_files : Text → Bool
no_files path = false

update_request_decided : decide no_files update_request ≡ ok (update (codes "1.2.0"))
unfolding decide check_exclusive resolve_update install_ok resolve_archive resolve_install_sh
    choose_flow parse_update_from_version normalize_version strip_v_prefix is_version dotted
    supports_update_from supports_install_from_release supports_omarchy_bindings
    omarchy_install_major text_eq mem is_digit strip lstrip rstrip is_space
update_request_decided = refl

decide-IsAllowed_example : IsAllowed no_files update_request (update (codes "1.2.0"))
decide-IsAllowed_example =
    decide-IsAllowed no_files update_request (update (codes "1.2.0")) update_request_decided
