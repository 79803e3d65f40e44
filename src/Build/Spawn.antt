-- ===== src/Build/Spawn.antt =====
-- strataqemu/image_build.py: `_spawn_qemu` with `working_qemu_argv`.
use strata_qemu_testing.Base.{ℕ, true, false, Option, some, Result, ok, err}
use strata_qemu_testing.Base.Text.{Text, codes}
use strata_qemu_testing.Guest.Recipe.{Guest}
use strata_qemu_testing.Qemu.Argv.{Config}
use strata_qemu_testing.Qemu.Spawn.{Raises, Launcher, SpawnFailure, MachinePorts, Launch, spawn}
use strata_qemu_testing.Qemu.Spawn.Left.{Spawned, spawn-Spawned}
use strata_qemu_testing.Build.Facts.{natural}
use strata_qemu_testing.Build.Bench.{Machine, BuildError, image_build}

-- The arguments of `_spawn_qemu`.
pub record SpawnArgs : Type 0 where
  pub guest : Guest
  pub disk : Text
  pub run_dir : Text
  pub ovmf_code : Option Text
  pub ovmf_vars : Option Text
  pub cidata_iso : Text
  pub identity : Text
  pub install_iso : Option Text

-- `working_qemu_argv`, as the configuration of `build_qemu_argv`
unfoldable pub working_config : SpawnArgs → ℕ → Option ℕ → Config
working_config a ssh_port vnc_port = record {
  overlay = a.disk;
  run_dir = a.run_dir;
  ssh_port = ssh_port;
  vnc_port = vnc_port;
  cpus = natural a.guest.cpus;
  memory_mib = natural a.guest.memory_mib;
  graphical = false;
  graphical_ui = codes "gtk";
  disk_cache = codes "writeback";
  ovmf_code = a.ovmf_code;
  ovmf_vars = a.ovmf_vars;
  cidata_iso = some a.cidata_iso;
  install_iso = a.install_iso;
  qemu_binary = codes "qemu-system-x86_64";
}

-- The exceptions of the build.
abbrev pub failures : Raises BuildError
failures = record {
  value = λ text. BuildError.value_error text;
  os = λ text. BuildError.os_error text;
  in_use = λ text. BuildError.address_in_use text;
  exited_at_once = λ text. image_build text;
}

-- `time.sleep(0.4)`, in milliseconds
abbrev pub settle_time : ℕ
settle_time = 400

unfoldable pub working_launch : SpawnArgs → Launch
working_launch a = record {
  run_dir = a.run_dir;
  headless = true;
  config = working_config a;
  settle = settle_time;
}

module _ {W : Type 0} where
  -- `Machine(…)`
  unfoldable pub machine_of :
      SpawnArgs
      → Result (SpawnFailure BuildError) MachinePorts × W
      → Result (SpawnFailure BuildError) Machine × W
  machine_of a (ok ports, w) = (
    ok (record {
      disk = a.disk;
      root = a.run_dir;
      ssh_port = ports.ssh_port;
      vnc_port = ports.vnc_port;
      identity = some a.identity;
      user = a.guest.user.name;
      has_process = true;
    }),
    w,
  )
  machine_of a (err e, w) = (err e, w)

  unfoldable pub spawn_qemu :
      Launcher W BuildError → SpawnArgs → W → Result (SpawnFailure BuildError) Machine × W
  unfolding working_launch machine_of
  spawn_qemu fx a w = machine_of a (spawn failures fx (working_launch a) w)

  machine_of-Spawned :
      (fx : Launcher W BuildError) (a : SpawnArgs)
      (q : Result (SpawnFailure BuildError) MachinePorts × W)
      → Spawned failures fx settle_time q.0
      → Spawned failures fx settle_time (machine_of a q).0
  unfolding machine_of
  machine_of-Spawned fx a (ok ports, w) h = tt
  machine_of-Spawned fx a (err e, w) h = h

  -- A spawn that leaves QEMU running was interrupted in the sleep behind the start.
  pub spawn_qemu-Spawned :
      (fx : Launcher W BuildError) (a : SpawnArgs) (w : W)
      → Spawned failures fx settle_time (spawn_qemu fx a w).0
  unfolding spawn_qemu working_launch
  spawn_qemu-Spawned fx a w =
      machine_of-Spawned fx a (spawn failures fx (working_launch a) w)
        (spawn-Spawned failures fx (working_launch a) w)
