-- ===== src/Build/Live/Stop.antt =====
-- strataqemu/image_build.py: the shut-down of the guest in `build_live`, and `_shutdown_machine`.
use strata_qemu_testing.Base.{ℕ, Bool, true, false, if◌then◌else◌, Result, ok, err}
use strata_qemu_testing.RunTest.Exec.{◌>>=◌, ◌>>◌, pure}
use strata_qemu_testing.Build.Bench.{Machine, BuildError, interrupted, Builder, Bench, Work, touch}
use strata_qemu_testing.Build.Live.{Site, act}

-- An exception that `except Exception` catches.
unfoldable pub is_exception : BuildError → Bool
is_exception interrupted = false
is_exception _ = true

module _ {W : Type 0} (site : Site W) where
  abbrev fx : Builder W
  fx = site.builder

  -- `except Exception: recover`
  unfoldable pub rescued :
      (A : Type 0) → Work W A → Result BuildError A × Bench W → Result BuildError A × Bench W
  rescued A recover (ok a, s) = (ok a, s)
  rescued A recover (err e, s) = if is_exception e then recover s else (err e, s)

  unfoldable pub killed : Machine → Work W (Unit {0})
  killed m = touch fx (site.kill m)

  unfoldable pub waited : Machine → ℕ → Work W (Unit {0})
  waited m time = if m.has_process then act (site.wait_process time) else pure tt

  -- `machine._proc.wait(timeout=60)`, or `machine.kill()` and another wait
  unfoldable pub finalized : Machine → Work W (Unit {0})
  unfolding rescued
  finalized m s = rescued (Unit {0}) (do killed m; waited m 15000) (waited m 60000 s)

  unfoldable pub shut_down : Machine → Work W (Unit {0})
  shut_down m = do path_used ← act (site.shutdown m); finalized m

  -- `_shutdown_machine`
  unfoldable pub shutdown_asked : Machine → Work W (Unit {0})
  unfolding rescued
  shutdown_asked m s = rescued (Unit {0}) (killed m) ((do path ← act (site.shutdown m); pure tt) s)

  unfoldable pub process_ended : Machine → Work W (Unit {0})
  unfolding rescued
  process_ended m s = rescued (Unit {0}) (killed m) (waited m 15000 s)

  unfoldable pub shutdown_machine : Machine → Work W (Unit {0})
  shutdown_machine m = do shutdown_asked m; process_ended m
