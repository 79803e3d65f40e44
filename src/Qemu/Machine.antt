-- ===== src/Qemu/Machine.antt =====
-- strataqemu/qemu.py: `Machine.kill`, `Machine._ssh_poweroff` and `Machine.shutdown` with the hooks it has by default.
-- The process, the subprocess of ssh and the two protocols are effects.
use strata_qemu_testing.Base.{
  ℕ, Bool, false, ◌||◌, Option, none, some, List, if◌then◌else◌, Result, ok, err, is_none, ◌==◌,
}
use strata_qemu_testing.Base.Text.{Text}
use strata_qemu_testing.Artifacts
use strata_qemu_testing.Guest.Toml.{ℤ, pos}
use strata_qemu_testing.Ssh.{default_host, ssh_poweroff_command}
use strata_qemu_testing.Qemu.Shutdown.{run_shutdown}
use strata_qemu_testing.Steps.Remote.{Proc, RunError}
use strata_qemu_testing.Build.Bench.{Machine}

pub record Process (W : Type 0) : Type 0 where
  -- `self._proc.poll()` and `self._proc.kill()`
  pub poll : W → Option ℤ
  pub kill_process : W → W
  pub run : List Text → ℕ → W → Result RunError Proc × W
  pub qga_guest_shutdown : Text → W → Bool × W
  pub qmp_system_powerdown : Text → W → Bool × W

-- `code in (0, 255)`
unfoldable pub is_off : ℤ → Bool
is_off (pos n) = n == 0 || n == 255
is_off _ = false

module _ {W : Type 0} (fx : Process W) where
  unfoldable pub kill : Machine → W → W
  kill m w = if m.has_process then (if is_none (fx.poll w) then fx.kill_process w else w) else w

  unfoldable pub powered_off : Result RunError Proc × W → Bool × W
  powered_off (ok proc, w) = (is_off proc.returncode, w)
  powered_off (err e, w) = (false, w)

  unfoldable pub ssh_poweroff : Machine → W → Bool × W
  unfolding powered_off
  ssh_poweroff m w = elim m.identity [
    | none ↦ (false, w)
    | some identity ↦
        powered_off (fx.run (ssh_poweroff_command m.ssh_port identity default_host m.user) 15000 w)
  ]

  unfoldable pub shutdown : Machine → W → Text × W
  shutdown m w =
      run_shutdown
        (record {
          guest_shutdown = fx.qga_guest_shutdown (Artifacts.qga_sock m.root);
          ssh_poweroff = ssh_poweroff m;
          acpi_power_button = fx.qmp_system_powerdown (Artifacts.qmp_sock m.root);
          kill = kill m;
        })
        w
