-- ===== src/Tests/Qemu.antt =====
-- strataqemu/qemu.py at concrete inputs: an ISO install with UEFI and without a window.
use strata_qemu_testing.Base.{ℕ, ◌≡◌, refl, true, false, List, [], ◌∷◌, ◌++◌, ok, some, ◌↔◌}
use strata_qemu_testing.Base.Text.{Text, codes, text_eq, decimal}
use strata_qemu_testing.Artifacts
use strata_qemu_testing.Qemu.Argv.{Config, check_config, qemu_args, build_qemu_argv}
use strata_qemu_testing.Qemu.Argv.Values.{values}
use strata_qemu_testing.Qemu.Argv.Checks.{IsBuildable, build_qemu_argv-IsBuildable}
use strata_qemu_testing.Qemu.Argv.Drives.{firmware_drives, seed_drives, build_qemu_argv-drives}
use strata_qemu_testing.Qemu.Argv.Listeners.{vnc_values, build_qemu_argv-listeners}
use strata_qemu_testing.Qemu.Shutdown.{ShutdownHooks, run_shutdown}
use strata_qemu_testing.Qemu.Shutdown.Order.{logged, EndsAt, cascade, run_shutdown-EndsAt}

abbrev resolve : Text → Text
resolve path = codes "/work/" ++ path

abbrev iso_config : Config
iso_config = record {
  overlay = codes "overlay.qcow2";
  run_dir = codes "run";
  ssh_port = 2222;
  vnc_port = some 7;
  cpus = 2;
  memory_mib = 4096;
  graphical = false;
  graphical_ui = codes "gtk";
  disk_cache = codes "none";
  ovmf_code = some (codes "code.fd");
  ovmf_vars = some (codes "vars.fd");
  cidata_iso = some (codes "seed.img");
  install_iso = some (codes "install.iso");
  qemu_binary = codes "qemu-system-x86_64";
}

iso_config_checked : check_config iso_config ≡ ok tt
unfolding check_config text_eq
iso_config_checked = refl

iso_config_built : build_qemu_argv resolve iso_config ≡ ok (qemu_args resolve iso_config)
unfolding build_qemu_argv
iso_config_built = rw iso_config_checked refl

build_qemu_argv-IsBuildable_example :
    ((argv : List Text) × (build_qemu_argv resolve iso_config ≡ ok argv)) ↔ IsBuildable iso_config
build_qemu_argv-IsBuildable_example = build_qemu_argv-IsBuildable resolve iso_config

build_qemu_argv-drives_example :
    values (codes "-drive") (qemu_args resolve iso_config)
    ≡ codes "file=/work/overlay.qcow2,if=none,id=drive0,discard=unmap,cache=none"
      ∷ (firmware_drives resolve iso_config.ovmf_code iso_config.ovmf_vars
          ++ seed_drives resolve iso_config.install_iso iso_config.cidata_iso)
unfolding text_eq
build_qemu_argv-drives_example =
    build_qemu_argv-drives resolve iso_config (qemu_args resolve iso_config) refl iso_config_built

build_qemu_argv-listeners_example :
    (values (codes "-netdev") (qemu_args resolve iso_config)
      ≡ codes "user,id=net0,hostfwd=tcp:127.0.0.1:2222-:22" ∷ [])
    × (values (codes "-vnc") (qemu_args resolve iso_config) ≡ vnc_values iso_config)
    × (values (codes "-qmp") (qemu_args resolve iso_config)
        ≡ (codes "unix:"
            ++ (resolve (Artifacts.qmp_sock iso_config.run_dir) ++ codes ",server,wait=off"))
          ∷ [])
    × (values (codes "-chardev") (qemu_args resolve iso_config)
        ≡ (codes "socket,path="
            ++ (resolve (Artifacts.qga_sock iso_config.run_dir)
                ++ codes ",server=on,wait=off,id=qga"))
          ∷ [])
    × (values (codes "-serial") (qemu_args resolve iso_config)
        ≡ (codes "file:" ++ resolve (Artifacts.serial_log iso_config.run_dir)) ∷ [])
unfolding text_eq decimal
build_qemu_argv-listeners_example =
    build_qemu_argv-listeners resolve iso_config (qemu_args resolve iso_config) refl refl refl refl
      refl iso_config_built

-- The guest agent is absent; SSH works.
abbrev hooks : ShutdownHooks ℕ
hooks = record {
  guest_shutdown = λ n. (false, n);
  ssh_poweroff = λ n. (true, n);
  acpi_power_button = λ n. (true, n);
  kill = λ n. 0;
}

run_shutdown-EndsAt_example :
    EndsAt (run_shutdown (logged hooks) (5, [])).0 cascade (run_shutdown (logged hooks) (5, [])).1.1
run_shutdown-EndsAt_example = run_shutdown-EndsAt hooks 5
