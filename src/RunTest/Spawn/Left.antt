-- ===== src/RunTest/Spawn/Left.antt =====
-- strataqemu/run_test.py: when `_spawn_overlay_vm` leaves QEMU running.
use strata_qemu_testing.Base.{Bool, err, ◌≡◌}
use mathlib.Core.Path.{subst}
use strata_qemu_testing.Base.Text.{Text}
use strata_qemu_testing.Qemu.Spawn.{Raises, Launcher, left_running}
use strata_qemu_testing.Qemu.Spawn.Left.{Interrupted, Spawned, spawn-Spawned}
use strata_qemu_testing.RunTest.Spawn.{OverlayArgs, overlay_launch, settle_time, spawn_overlay_vm}

module _ {W E : Type 0} (raises : Raises E) (fx : Launcher W E) where
  -- A machine that is left running was left by an interrupt in the sleep behind its start.
  pub spawn_overlay_vm-left :
      (a : OverlayArgs) (graphical : Bool) (ui : Text) (w : W)
      → (spawn_overlay_vm raises fx a graphical ui w).0 ≡ err left_running
      → Interrupted raises fx settle_time
  unfolding spawn_overlay_vm overlay_launch
  spawn_overlay_vm-left a graphical ui w h =
      subst (Spawned raises fx settle_time) h
        (spawn-Spawned raises fx (overlay_launch a graphical ui) w)
