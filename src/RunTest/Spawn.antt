-- ===== src/RunTest/Spawn.antt =====
-- strataqemu/run_test.py: `_spawn_overlay_vm` with `run_test_qemu_argv` and `vm_run_qemu_argv`. Where the standard
-- streams of the process go is left to the effect that starts it.
pub mod Left
use strata_qemu_testing.Base.{ℕ, Bool, true, false, not, Option, none, some, if◌then◌else◌, Result}
use strata_qemu_testing.Base.Text.{Text, codes}
use strata_qemu_testing.Qemu.Argv.{Config}
use strata_qemu_testing.Qemu.Spawn.{Raises, Launcher, Launch, SpawnFailure, MachinePorts, spawn}

-- The arguments that reach the command line.
pub record OverlayArgs : Type 0 where
  pub overlay : Text
  pub run_dir : Text
  pub cpus : ℕ
  pub memory_mib : ℕ
  pub ovmf_code : Option Text
  pub ovmf_vars : Option Text

-- The arguments of `build_qemu_argv` that both callers share.
abbrev throwaway_config : OverlayArgs → Bool → Text → ℕ → Option ℕ → Config
throwaway_config a graphical ui ssh_port vnc_port = record {
  overlay = a.overlay;
  run_dir = a.run_dir;
  ssh_port = ssh_port;
  vnc_port = vnc_port;
  cpus = a.cpus;
  memory_mib = a.memory_mib;
  graphical = graphical;
  graphical_ui = ui;
  disk_cache = codes "unsafe";
  ovmf_code = a.ovmf_code;
  ovmf_vars = a.ovmf_vars;
  cidata_iso = none;
  install_iso = none;
  qemu_binary = codes "qemu-system-x86_64";
}

-- `run_test_qemu_argv`
unfoldable pub run_test_config : OverlayArgs → ℕ → Option ℕ → Config
run_test_config a ssh_port vnc_port = throwaway_config a false (codes "gtk") ssh_port vnc_port

-- `vm_run_qemu_argv`
unfoldable pub vm_run_config : OverlayArgs → Bool → Text → ℕ → Option ℕ → Config
vm_run_config a graphical ui ssh_port vnc_port =
    throwaway_config a graphical ui ssh_port (if graphical then none else vnc_port)

-- SETTLE_S, in milliseconds
abbrev pub settle_time : ℕ
settle_time = 400

unfoldable pub overlay_launch : OverlayArgs → Bool → Text → Launch
unfolding run_test_config vm_run_config
overlay_launch a graphical ui = record {
  run_dir = a.run_dir;
  headless = not graphical;
  config = if graphical then vm_run_config a true ui else run_test_config a;
  settle = settle_time;
}

-- `_spawn_overlay_vm`
unfoldable pub spawn_overlay_vm :
    {W E : Type 0}
    → Raises E
    → Launcher W E
    → OverlayArgs
    → Bool
    → Text
    → W
    → Result (SpawnFailure E) MachinePorts × W
spawn_overlay_vm raises fx a graphical ui = spawn raises fx (overlay_launch a graphical ui)
