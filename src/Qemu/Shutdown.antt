-- ===== src/Qemu/Shutdown.antt =====
-- strataqemu/qemu.py: `run_shutdown`. The four hooks are parameters, over a world that is not described.
pub mod Order
use strata_qemu_testing.Base.{Bool, true, false, if◌then◌else◌}
use strata_qemu_testing.Base.Text.{Text, codes}

pub record ShutdownHooks (W : Type 0) : Type 0 where
  pub guest_shutdown : W → Bool × W
  pub ssh_poweroff : W → Bool × W
  pub acpi_power_button : W → Bool × W
  pub kill : W → W

-- The name of the path that ran, and what the hooks have left.
unfoldable pub run_shutdown : {W : Type 0} → ShutdownHooks W → W → Text × W
run_shutdown hooks w =
    let (qga, w₁) = hooks.guest_shutdown w in
    let (ssh, w₂) = hooks.ssh_poweroff w₁ in
    let (acpi, w₃) = hooks.acpi_power_button w₂ in
    if qga
    then (codes "qga", w₁)
    else if ssh
    then (codes "ssh", w₂)
    else if acpi
    then (codes "acpi", w₃)
    else (codes "kill", hooks.kill w₃)
