-- ===== src/Build/Live/Order.antt =====
-- strataqemu/image_build.py: each part of the `try` block of `build_live` keeps the order of `Phase`.
use strata_qemu_testing.Base.{Bool, true, false, Option, if◌then◌else◌, Result, ok, err, refl}
use strata_qemu_testing.Base.Text.{Text}
use strata_qemu_testing.RunTest.Exec.{Leaves, Triple, Triple-bind}
use strata_qemu_testing.Build.Bench.{Machine, BuildError, Bench}
use strata_qemu_testing.Qemu.Spawn.{SpawnFailure, spawn_raised, left_running}
use strata_qemu_testing.Qemu.Spawn.Left.{Interrupted, Spawned}
use strata_qemu_testing.Build.Spawn.{
  SpawnArgs, spawn_qemu, failures, settle_time, spawn_qemu-Spawned,
}
use strata_qemu_testing.Build.Live.{
  spawned, orphan, stopped, removed_golden, installed_golden, linked, copied_vars, wrote_provenance,
  removed_run, Live, Site, Build, act,
}
use strata_qemu_testing.Build.Live.Finish.{
  started, start_part, ended, stop_part, remove_part, vars_part, keeps_vars, install_part,
  guest_part, try_part,
}
use strata_qemu_testing.Build.Live.Stop.{shut_down}
use strata_qemu_testing.Build.Live.Phases.{
  next, Phase, before, running, halted, placed, listed, recorded, cleared, At, Open, open_,
  left_over, At-Going, At-event, quiet-At, noted-At,
}

module _ {W : Type 0} (site : Site W) where
  -- An interrupt came in the sleep behind the start of QEMU.
  abbrev pub Left : Type 0
  Left = Interrupted failures site.launcher settle_time

  started-At :
      (s : Live W) (q : Result (SpawnFailure BuildError) Machine × W)
      → Spawned failures site.launcher settle_time q.0
      → At before s
      → Leaves (At running) (Open Left) (started site s q)
  unfolding started next
  started-At s (ok m, w) left h = At-event before spawned s _ h refl refl
  started-At s (err (spawn_raised e), w) left h =
      open_ (At-Going before _ refl (record { reached = h.reached; machine_is = h.machine_is }))
  started-At s (err left_running, w) left h =
      left_over left (At-event before orphan s _ h refl h.machine_is)

  start_part-At :
      (args : SpawnArgs) → Triple (At before) (At running) (Open Left) (start_part site args)
  unfolding start_part
  start_part-At args = record {
    at = λ s h.
        started-At s (spawn_qemu site.launcher args s.bench.world)
          (spawn_qemu-Spawned site.launcher args s.bench.world) h;
  }

  ended-At :
      (s : Live W) (q : Result BuildError (Unit {0}) × Bench W)
      → At running s
      → Leaves (At halted) (Open Left) (ended site s q)
  unfolding ended next
  ended-At s (ok u, b) h = At-event running stopped s _ h refl refl
  ended-At s (err e, b) h =
      open_ (At-Going running _ refl (record { reached = h.reached; machine_is = h.machine_is }))

  stop_part-At : (m : Machine) → Triple (At running) (At halted) (Open Left) (stop_part site m)
  unfolding stop_part
  stop_part-At m = record { at = λ s h. ended-At s (shut_down site m s.bench) h }

  if-At :
      (p : Phase) (test : Bool) (q : Result BuildError (Unit {0}) × Live W) (s : Live W)
      → At p s
      → Leaves (At p) (Open Left) q
      → Leaves (At p) (Open Left) (if test then q else (ok tt, s))
  if-At p true q s h done = done
  if-At p false q s h done = h

  remove_part-At :
      (golden : Text) → Triple (At halted) (At halted) (Open Left) (remove_part site golden)
  unfolding remove_part next
  remove_part-At golden = record {
    at = λ s h.
        if-At halted (site.is_there golden s.bench.world) _ s h
          ((noted-At halted removed_golden (act (site.unlink golden)) refl refl).at s h);
  }

  vars_part-At :
      (b : Build) (vars : Option Text)
      → Triple (At listed) (At listed) (Open Left) (vars_part site b vars)
  unfolding vars_part next
  vars_part-At b vars = record {
    at = λ s h.
        if-At listed (keeps_vars site b vars s.bench.world) _ s h
          ((noted-At listed copied_vars _ refl refl).at s h);
  }

  install_part-At :
      (b : Build) (args : SpawnArgs) (golden version : Text)
      → Triple (At halted) (At cleared) (Open Left) (install_part site b args golden version)
  unfolding install_part next
  install_part-At b args golden version =
      Triple-bind (At halted) (Open Left) (At halted) _ _ (remove_part-At golden) λ _.
        Triple-bind (At placed) (Open Left) (At halted) _ _
          (noted-At halted installed_golden _ refl refl)
          λ _. Triple-bind (At placed) (Open Left) (At placed) _ _ (quiet-At placed _ refl) λ _.
            Triple-bind (At listed) (Open Left) (At placed) _ _ (noted-At placed linked _ refl refl)
              λ _.
                Triple-bind (At listed) (Open Left) (At listed) _ _ (vars_part-At b args.ovmf_vars)
                  λ _.
                    Triple-bind (At listed) (Open Left) (At listed) _ _ (quiet-At listed _ refl)
                      λ payload.
                        Triple-bind (At recorded) (Open Left) (At listed) _ _
                          (noted-At listed wrote_provenance _ refl refl)
                          λ _. noted-At recorded removed_run _ refl refl

  guest_part-At :
      (b : Build) (args : SpawnArgs)
      → Triple (At before) (At halted) (Open Left) (guest_part site b args)
  unfolding guest_part
  guest_part-At b args =
      Triple-bind (At running) (Open Left) (At before) _ _ (start_part-At args) λ m.
        Triple-bind (At running) (Open Left) (At running) _ _ (quiet-At running _ refl) λ version.
          Triple-bind (At running) (Open Left) (At running) _ _ (quiet-At running _ refl) λ _.
            Triple-bind (At running) (Open Left) (At running) _ _ (quiet-At running _ refl) λ _.
              Triple-bind (At halted) (Open Left) (At running) _ _ (stop_part-At m)
                λ _. record { at = λ s h. h }

  pub try_part-At : (b : Build) → Triple (At before) (At cleared) (Open Left) (try_part site b)
  unfolding try_part
  try_part-At b =
      Triple-bind (At before) (Open Left) (At before) _ _ (quiet-At before _ refl) λ args.
        Triple-bind (At halted) (Open Left) (At before) _ _ (guest_part-At b args) λ version.
          Triple-bind (At cleared) (Open Left) (At halted) _ _ (install_part-At b args _ version)
            λ _. record { at = λ s h. h }
