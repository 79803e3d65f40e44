-- ===== src/RunTest/VmRun/Cleanup.antt =====
-- strataqemu/run_test.py: a machine that `vm-run` has spawned is shut down, however the run ends, and
-- the exit status and the run directory agree.
use strata_qemu_testing.Base.{
  ℕ, Bool, true, false, not, [], if◌then◌else◌, Result, ok, err, ◌≡◌, refl, arith, inl, inr, ◌⊎◌,
  sym, ◌==◌, if-cases,
}
use mathlib.Core.Path.{subst}
use strata_qemu_testing.RunTest.Exec.{Leaves, Triple, Triple-bind}
use strata_qemu_testing.RunTest.Run.{
  Failure, interrupted, listed, unlisted, stopped, discarded, kept, State, Exit, status, host_ready,
  failures,
}
use strata_qemu_testing.Qemu.Spawn.Left.{Interrupted}
use strata_qemu_testing.RunTest.Spawn.{settle_time, spawn_overlay_vm}
use strata_qemu_testing.RunTest.Spawn.Left.{spawn_overlay_vm-left}
use strata_qemu_testing.RunTest.Run.Trace.{as_number, Counts, Counts-event, Counts-nil}
use strata_qemu_testing.RunTest.Run.Cleanup.{
  Phase, Orphan, HasRaised, weaken, note-nil, note_spawn-HasRaised, is_success,
}
use strata_qemu_testing.RunTest.VmRun.{
  VmEffects, VmRequest, prepare_vm, spawn_vm, wait_vm, try_vm, handle_vm, finish_vm, stopped_vm,
  finally_vm, vm_run, choose_ui,
}

module _ {W : Type 0} (fx : VmEffects W) (r : VmRequest) where
  -- An interrupt came in the sleep behind the start of QEMU.
  abbrev pub Left : Type 0
  Left = Interrupted failures fx.launcher settle_time

  try_vm-Phase : Triple (Phase false 0) (Phase true 0) (HasRaised Left) (try_vm fx r)
  unfolding try_vm prepare_vm spawn_vm wait_vm
  try_vm-Phase =
      Triple-bind (Phase false 0) (HasRaised Left) (Phase false 0) (prepare_vm fx) _
        (record {
          at = λ s h.
              weaken (Phase false 0) (Phase false 0) (HasRaised Left) (prepare_vm fx s)
                (note-nil false 0 (fx.prepare_overlay s.world) s h) (λ t k. inl k);
        })
        λ _.
          Triple-bind (Phase true 0) (HasRaised Left) (Phase false 0) (spawn_vm fx r) _
            (record {
              at = λ s h.
                  let ui = choose_ui r.graphical_ui r.graphical fx.display_help in
                  note_spawn-HasRaised Left
                    (spawn_overlay_vm failures fx.launcher fx.overlay_args r.graphical ui s.world) s
                    (spawn_overlay_vm-left failures fx.launcher fx.overlay_args r.graphical ui
                      s.world)
                    h;
            })
            λ _. record {
              at = λ s h.
                  weaken (Phase true 0) (Phase true 0) (HasRaised Left) (wait_vm fx r s)
                    (note-nil true 0 (if r.wait then fx.wait_process s.world else (ok tt, s.world))
                      s h)
                    (λ t k. inr (inl k));
            }

  abbrev Handled : (Exit × State W) × Bool → Type 0
  Handled ((exit, s), failed) =
      (is_success exit ≡ not failed)
      × ((Phase false 0 s × (failed ≡ true))
          ⊎ (Phase true 0 s ⊎ (Left × Orphan s × (failed ≡ true))))

  raised-Handled :
      (code : ℕ) (s : State W)
      → HasRaised Left s
      → (code == 0) ≡ false
      → Handled ((status code, s), true)
  raised-Handled code s (inl h) nonzero = (nonzero, inl (h, refl))
  raised-Handled code s (inr (inl h)) nonzero = (nonzero, inr (inl h))
  raised-Handled code s (inr (inr (left, h))) nonzero = (nonzero, inr (inr (left, h, refl)))

  handle_vm-Handled :
      (q : Result Failure (Unit {0}) × State W)
      → Leaves (Phase true 0) (HasRaised Left) q
      → Handled (handle_vm fx q)
  unfolding handle_vm
  handle_vm-Handled (ok u, s) h = (refl, inr (inl h))
  handle_vm-Handled (err interrupted, s) h = raised-Handled 130 s h refl
  handle_vm-Handled (err (listed message), s) h = raised-Handled 1 s h refl
  handle_vm-Handled (err (unlisted message), s) h = raised-Handled 1 s h refl

  -- What the last block leaves: as many stopped machines as spawned ones, unless an interrupt came in the
  -- sleep behind the start.
  abbrev pub VmEnded : Bool → Exit × State W → Type 0
  VmEnded keep q =
      ((is_success q.0 ≡ true) × Counts q.1.trace 1 1 0 (as_number keep) (as_number (not keep)))
      ⊎ ((is_success q.0 ≡ false)
          × (Counts q.1.trace 0 0 0 1 0
              ⊎ (Counts q.1.trace 1 1 0 1 0 ⊎ (Left × Counts q.1.trace 1 0 0 1 0))))

  finish_vm-passed :
      (keep : Bool) (s : State W)
      → Counts s.trace 1 1 0 0 0
      → Counts (finish_vm fx keep false s).trace 1 1 0 (as_number keep) (as_number (not keep))
  unfolding finish_vm
  finish_vm-passed true s h = Counts-event s.trace kept h
  finish_vm-passed false s h = Counts-event s.trace discarded h

  finish_vm-failed :
      (keep : Bool) (s : State W) {a b : ℕ}
      → Counts s.trace a b 0 0 0
      → Counts (finish_vm fx keep true s).trace a b 0 1 0
  unfolding finish_vm
  finish_vm-failed true s h = let more = Counts-event s.trace kept h in omega arith
  finish_vm-failed false s h = let more = Counts-event s.trace kept h in omega arith

  stopped_vm-Ended :
      (keep failed : Bool) (exit : Exit) (q : Result Failure (Unit {0}) × W) (s : State W)
      → q.0 ≡ ok tt
      → (is_success exit ≡ not failed) × Phase true 0 s
      → VmEnded keep (stopped_vm fx keep failed exit q s)
  unfolding stopped_vm
  stopped_vm-Ended keep false exit (ok u, w) s _ (success, (_, counts)) =
      inl (success, finish_vm-passed keep _ (Counts-event s.trace stopped counts))
  stopped_vm-Ended keep true exit (ok u, w) s _ (failure, (_, counts)) =
      inr (failure, inr (inl (finish_vm-failed keep _ (Counts-event s.trace stopped counts))))
  stopped_vm-Ended keep failed exit (err e, w) s raises _ = absurd (cc)

  abbrev last_step : Bool → Exit → State W → Bool → Bool → Exit × State W
  last_step keep exit s failed machine =
      if machine
      then stopped_vm fx keep failed exit (fx.shutdown_machine s.world) s
      else (exit, finish_vm fx keep failed s)

  module _ (stops : (w : W) → (fx.shutdown_machine w).0 ≡ ok tt) where
    last_step-Ended :
        (keep : Bool) (exit : Exit) (s : State W) (failed : Bool)
        → Handled ((exit, s), failed)
        → VmEnded keep (last_step keep exit s failed s.machine)
    last_step-Ended keep exit s true (z, inl ((m, counts), _)) =
        subst (λ b. VmEnded keep (last_step keep exit s true b)) (sym m)
          (inr (z, inl (finish_vm-failed keep s counts)))
    last_step-Ended keep exit s false (z, inl (_, f)) = absurd (cc)
    last_step-Ended keep exit s true (z, inr (inr (left, (m, counts), _))) =
        subst (λ b. VmEnded keep (last_step keep exit s true b)) (sym m)
          (inr (z, inr (inr (left, finish_vm-failed keep s counts))))
    last_step-Ended keep exit s false (z, inr (inr (_, _, f))) = absurd (cc)
    last_step-Ended keep exit s failed (z, inr (inl (m, counts))) =
        subst (λ b. VmEnded keep (last_step keep exit s failed b)) (sym m)
          (stopped_vm-Ended keep failed exit _ s (stops s.world) (z, (m, counts)))

    finally_vm-Ended :
        (keep : Bool) (q : (Exit × State W) × Bool)
        → Handled q
        → VmEnded keep (finally_vm fx keep q)
    unfolding finally_vm
    finally_vm-Ended keep ((exit, s), failed) h = last_step-Ended keep exit s failed h

    -- If stopping a machine never raises, `vm-run` on a guest either has refused before there is a run
    -- directory, with a failing status and no event, or ends in one of these ways. It exits with 0, has
    -- spawned and stopped one machine, and has kept the run directory if that is asked for and removed it
    -- otherwise. Or it fails and keeps the directory: then no machine was left by the spawn and none was
    -- stopped, or one was spawned and that one was stopped, or an interrupt came in the sleep of 0.4 s behind
    -- the start of QEMU, and the QEMU that was spawned is not stopped.
    pub vm_run-Ended :
        (golden : Bool) (w : W)
        → ((is_success (vm_run fx (ok r) golden w).0 ≡ false)
            × ((vm_run fx (ok r) golden w).1.trace ≡ []))
          ⊎ VmEnded r.keep (vm_run fx (ok r) golden w)
    unfolding vm_run
    vm_run-Ended false w = inl (refl, refl)
    vm_run-Ended true w =
        if-cases (λ q. ((is_success q.0 ≡ false) × (q.1.trace ≡ [])) ⊎ VmEnded r.keep q)
          (not (host_ready r.uefi (fx.check_host w).0)) _ _ (λ _. inl (refl, refl))
          (λ _. inr (
            finally_vm-Ended r.keep _ (handle_vm-Handled _ (try_vm-Phase.at _ (refl, Counts-nil)))))
