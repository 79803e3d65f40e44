-- ===== src/RunTest/Run/Cleanup.antt =====
-- strataqemu/run_test.py: a machine that was spawned is shut down, however the run ends, and the
-- exit status, the result file and the run directory agree.
use strata_qemu_testing.Base.{
  ℕ, Bool, true, false, not, [], ◌∷◌, if◌then◌else◌, Result, ok, err, ◌==◌, ◌≡◌, refl, arith, inl,
  inr, ◌⊎◌, ap,
}
use mathlib.Core.List.{append-nil}
use mathlib.Core.Path.{subst, sym}
use strata_qemu_testing.Base.Text.{Text, codes}
use strata_qemu_testing.RunTest.Run.Trace.{is_pass, as_number, Counts, Counts-event, Counts-nil}
use strata_qemu_testing.RunTest.Exec.{Leaves, Triple, Triple-bind}
use strata_qemu_testing.RunTest.Request.{Flow}
use strata_qemu_testing.RunTest.Run.{
  Failure, interrupted, listed, unlisted, Document, spawned, stopped, discarded, kept, wrote, State,
  Effects, Exit, status, raised, passing, prepare_part, spawn_part, wait_part, steps_part,
  write_part, pass_part, try_part, handled, handle, finish_run_dir, stopped_part, finally_part,
  run_flow, note, note_spawn, failures, failing,
}
use strata_qemu_testing.Qemu.Spawn.{SpawnFailure, spawn_raised, left_running, MachinePorts}
use strata_qemu_testing.Qemu.Spawn.Left.{Interrupted}
use strata_qemu_testing.RunTest.Spawn.{settle_time, spawn_overlay_vm}
use strata_qemu_testing.RunTest.Spawn.Left.{spawn_overlay_vm-left}

-- An exit by status 0.
abbrev pub is_success : Exit → Bool
is_success (status n) = n == 0
is_success (raised e) = false

module _ {W : Type 0} where
  -- Before the end: whether there is a machine, and how often a passing result was written: one without an error.
  abbrev pub Phase : Bool → ℕ → State W → Type 0
  Phase m c s = (s.machine ≡ m) × Counts s.trace (as_number m) 0 c 0 0

  -- QEMU was started, and the variable holds no machine.
  abbrev pub Orphan : State W → Type 0
  Orphan s = (s.machine ≡ false) × Counts s.trace 1 0 0 0 0

  -- Where a part has raised: no passing result has been written. The last case needs `Left`.
  abbrev pub HasRaised : Type 0 → State W → Type 0
  HasRaised Left s = Phase false 0 s ⊎ (Phase true 0 s ⊎ (Left × Orphan s))

  pub note-nil :
      (m : Bool) (c : ℕ) (q : Result Failure (Unit {0}) × W) (s : State W)
      → Phase m c s
      → Leaves (Phase m c) (Phase m c) (note [] s.machine q s)
  note-nil m c (ok u, w) s (machine, counts) = (machine, rw append-nil counts)
  note-nil m c (err e, w) s h = h

  -- What the result of a spawn says of `Left`.
  pub note_spawn-HasRaised :
      (Left : Type 0) (q : Result (SpawnFailure Failure) MachinePorts × W) (s : State W)
      → (q.0 ≡ err left_running → Left)
      → Phase false 0 s
      → Leaves (Phase true 0) (HasRaised Left) (note_spawn q s)
  unfolding note_spawn
  note_spawn-HasRaised Left (ok m, w) s k (machine, counts) =
      (refl, Counts-event s.trace spawned counts)
  note_spawn-HasRaised Left (err (spawn_raised e), w) s k h = inl h
  note_spawn-HasRaised Left (err left_running, w) s k (machine, counts) =
      inr (inr (k refl, (machine, Counts-event s.trace spawned counts)))

  note-wrote :
      (d : Document) (m : Bool) (q : Result Failure (Unit {0}) × W) (s : State W)
      → Phase m 0 s
      → Leaves
          (Phase m (as_number (is_pass (wrote d))))
          (Phase m 0)
          (note (wrote d ∷ []) s.machine q s)
  note-wrote d m (ok u, w) s (machine, counts) =
      let more = Counts-event s.trace (wrote d) counts in (machine, omega arith)
  note-wrote d m (err e, w) s h = h

  note-wrote-Orphan :
      (d : Document) (q : Result Failure (Unit {0}) × W) (s : State W)
      → is_pass (wrote d) ≡ false
      → Orphan s
      → Leaves Orphan Orphan (note (wrote d ∷ []) s.machine q s)
  note-wrote-Orphan d (ok u, w) s fails (machine, counts) =
      let more = Counts-event s.trace (wrote d) counts in
      let unpassed = ap as_number fails in (machine, omega arith)
  note-wrote-Orphan d (err e, w) s fails h = h

  pub Leaves-map :
      (Q R T V : State W → Type 0) (q : Result Failure (Unit {0}) × State W)
      → Leaves Q R q
      → ((s : State W) → Q s → T s)
      → ((s : State W) → R s → V s)
      → Leaves T V q
  Leaves-map Q R T V (ok u, s) h f g = f s h
  Leaves-map Q R T V (err e, s) h f g = g s h

  pub weaken :
      (Q R T : State W → Type 0) (q : Result Failure (Unit {0}) × State W)
      → Leaves Q R q
      → ((s : State W) → R s → T s)
      → Leaves Q T q
  weaken Q R T (ok u, s) h f = h
  weaken Q R T (err e, s) h f = f s h

module _ {W : Type 0} (fx : Effects W) (flow : Flow) where
  -- An interrupt came in the sleep behind the start of QEMU.
  abbrev pub Left : Type 0
  Left = Interrupted failures fx.launcher settle_time

  abbrev without : (s : State W) → Phase false 0 s → HasRaised Left s
  without s h = inl h

  abbrev with_machine : (s : State W) → Phase true 0 s → HasRaised Left s
  with_machine s h = inr (inl h)

  -- The `try` block leaves a machine and a passing result, or raises with no passing result.
  try_part-Phase : Triple (Phase false 0) (Phase true 1) (HasRaised Left) (try_part fx flow)
  unfolding try_part prepare_part spawn_part wait_part steps_part pass_part
  try_part-Phase =
      Triple-bind (Phase false 0) (HasRaised Left) (Phase false 0) (prepare_part fx) _
        (record {
          at = λ s h.
              weaken (Phase false 0) (Phase false 0) (HasRaised Left) (prepare_part fx s)
                (note-nil false 0 (fx.prepare_overlay s.world) s h) without;
        })
        λ _.
          Triple-bind (Phase true 0) (HasRaised Left) (Phase false 0) (spawn_part fx) _
            (record {
              at = λ s h.
                  note_spawn-HasRaised Left
                    (spawn_overlay_vm failures fx.launcher fx.overlay_args false (codes "gtk")
                      s.world)
                    s
                    (spawn_overlay_vm-left failures fx.launcher fx.overlay_args false (codes "gtk")
                      s.world)
                    h;
            })
            λ _.
              Triple-bind (Phase true 0) (HasRaised Left) (Phase true 0) (wait_part fx) _
                (record {
                  at = λ s h.
                      weaken (Phase true 0) (Phase true 0) (HasRaised Left) (wait_part fx s)
                        (note-nil true 0 (fx.wait_ssh s.world) s h) with_machine;
                })
                λ _.
                  Triple-bind (Phase true 0) (HasRaised Left) (Phase true 0) (steps_part fx flow) _
                    (record {
                      at = λ s h.
                          weaken (Phase true 0) (Phase true 0) (HasRaised Left)
                            (steps_part fx flow s) (note-nil true 0 (fx.run_steps flow s.world) s h)
                            with_machine;
                    })
                    λ _. record {
                      at = λ s h.
                          weaken (Phase true 1) (Phase true 0) (HasRaised Left) (pass_part fx s)
                            (note-wrote passing true (fx.write_result passing s.world)
                              (record s { result_ok = true }) h)
                            with_machine;
                    }

  -- The handlers: status 0 with one passing result and a machine, or a failure with none.
  abbrev Handled : (Exit × State W) × Bool → Type 0
  Handled ((exit, s), failed) =
      ((exit ≡ status 0) × (failed ≡ false) × Phase true 1 s)
      ⊎ ((is_success exit ≡ false) × (failed ≡ true) × HasRaised Left s)

  wrote-HasRaised :
      (passed : Bool) (message : Text) (commands : Bool) (s : State W)
      → HasRaised Left s
      → Leaves (HasRaised Left) (HasRaised Left) (write_part fx (failing passed message commands) s)
  unfolding write_part
  wrote-HasRaised passed message commands s (inl h) =
      let d = failing passed message commands in
      Leaves-map (Phase false 0) (Phase false 0) (HasRaised Left) (HasRaised Left)
        (note (wrote d ∷ []) s.machine (fx.write_result d s.world) s)
        (note-wrote d false (fx.write_result d s.world) s h) without without
  wrote-HasRaised passed message commands s (inr (inl h)) =
      let d = failing passed message commands in
      Leaves-map (Phase true 0) (Phase true 0) (HasRaised Left) (HasRaised Left)
        (note (wrote d ∷ []) s.machine (fx.write_result d s.world) s)
        (note-wrote d true (fx.write_result d s.world) s h) with_machine with_machine
  wrote-HasRaised passed message commands s (inr (inr (left, h))) =
      let d = failing passed message commands in
      Leaves-map Orphan Orphan (HasRaised Left) (HasRaised Left)
        (note (wrote d ∷ []) s.machine (fx.write_result d s.world) s)
        (note-wrote-Orphan d (fx.write_result d s.world) s refl h) (λ t k. inr (inr (left, k)))
        (λ t k. inr (inr (left, k)))

  handled-Handled :
      (code : ℕ) (q : Result Failure (Unit {0}) × State W)
      → Leaves (HasRaised Left) (HasRaised Left) q
      → (code == 0) ≡ false
      → Handled (handled fx code q, true)
  unfolding handled
  handled-Handled code (ok u, s) h positive = inr (positive, refl, h)
  handled-Handled code (err e, s) h positive = inr (refl, refl, h)

  handle-Handled :
      (q : Result Failure (Unit {0}) × State W)
      → Leaves (Phase true 1) (HasRaised Left) q
      → Handled (handle fx q)
  unfolding handle
  handle-Handled (ok u, s) h = inl (refl, refl, h)
  handle-Handled (err interrupted, s) h =
      handled-Handled 130 _ (wrote-HasRaised s.result_ok (codes "interrupted") false s h) refl
  handle-Handled (err (listed message), s) h =
      handled-Handled 1 _ (wrote-HasRaised s.result_ok message true s h) refl
  handle-Handled (err (unlisted message), s) h =
      handled-Handled 1 _ (wrote-HasRaised s.result_ok message false s h) refl

  -- The end of a run: status 0, the machine stopped, one passing result, and the disks kept when that
  -- is asked for and discarded otherwise. Or a failure: no passing result, the run directory kept,
  -- and a machine stopped if one was spawned, unless an interrupt came in the sleep behind its start.
  abbrev pub Ended : Bool → Exit × State W → Type 0
  Ended keep q =
      ((q.0 ≡ status 0) × Counts q.1.trace 1 1 1 (as_number keep) (as_number (not keep)))
      ⊎ ((is_success q.0 ≡ false)
          × (Counts q.1.trace 0 0 0 1 0
              ⊎ (Counts q.1.trace 1 1 0 1 0 ⊎ (Left × Counts q.1.trace 1 0 0 1 0))))

  finish_run_dir-passed :
      (keep : Bool) (s : State W)
      → Counts s.trace 1 1 1 0 0
      → Counts (finish_run_dir fx keep false s).trace 1 1 1 (as_number keep) (as_number (not keep))
  unfolding finish_run_dir
  finish_run_dir-passed true s h = Counts-event s.trace kept h
  finish_run_dir-passed false s h = Counts-event s.trace discarded h

  finish_run_dir-failed :
      (keep : Bool) (s : State W) {a b : ℕ}
      → Counts s.trace a b 0 0 0
      → Counts (finish_run_dir fx keep true s).trace a b 0 1 0
  unfolding finish_run_dir
  finish_run_dir-failed true s {a} {b} h = let more = Counts-event s.trace kept h in omega arith
  finish_run_dir-failed false s {a} {b} h = let more = Counts-event s.trace kept h in omega arith

  stopped_part-Ended :
      (keep : Bool) (exit : Exit) (q : Result Failure (Unit {0}) × W) (s : State W)
      → q.0 ≡ ok tt
      → (exit ≡ status 0) × Phase true 1 s
      → Ended keep (stopped_part fx keep false exit q s)
  unfolding stopped_part
  stopped_part-Ended keep exit (ok u, w) s _ (zero_exit, (_, counts)) =
      inl (zero_exit, finish_run_dir-passed keep _ (Counts-event s.trace stopped counts))
  stopped_part-Ended keep exit (err e, w) s raises _ = absurd (cc)

  stopped_part-Ended-failed :
      (keep : Bool) (exit : Exit) (q : Result Failure (Unit {0}) × W) (s : State W)
      → q.0 ≡ ok tt
      → (is_success exit ≡ false) × Phase true 0 s
      → Ended keep (stopped_part fx keep true exit q s)
  unfolding stopped_part
  stopped_part-Ended-failed keep exit (ok u, w) s _ (nonzero, (_, counts)) =
      inr (nonzero, inr (inl (finish_run_dir-failed keep _ (Counts-event s.trace stopped counts))))
  stopped_part-Ended-failed keep exit (err e, w) s raises _ = absurd (cc)

  -- The last step, by the two variables it tests.
  abbrev finish : Bool → Exit → State W → Bool → Bool → Exit × State W
  finish keep exit s machine failed =
      if machine
      then stopped_part fx keep failed exit (fx.shutdown_machine s.world) s
      else (exit, finish_run_dir fx keep failed s)

  module _ (stops : (w : W) → (fx.shutdown_machine w).0 ≡ ok tt) where
    finish-Ended :
        (keep : Bool) (exit : Exit) (s : State W) (failed : Bool)
        → Handled ((exit, s), failed)
        → Ended keep (finish keep exit s s.machine failed)
    finish-Ended keep exit s false (inl (z, f, (m, counts))) =
        subst (λ b. Ended keep (finish keep exit s b false)) (sym m)
          (stopped_part-Ended keep exit _ s (stops s.world) (z, (m, counts)))
    finish-Ended keep exit s true (inl (z, f, _)) = absurd (cc)
    finish-Ended keep exit s true (inr (z, f, inl (m, counts))) =
        subst (λ b. Ended keep (finish keep exit s b true)) (sym m)
          (inr (z, inl (finish_run_dir-failed keep s counts)))
    finish-Ended keep exit s true (inr (z, f, inr (inr (left, (m, counts))))) =
        subst (λ b. Ended keep (finish keep exit s b true)) (sym m)
          (inr (z, inr (inr (left, finish_run_dir-failed keep s counts))))
    finish-Ended keep exit s true (inr (z, f, inr (inl (m, counts)))) =
        subst (λ b. Ended keep (finish keep exit s b true)) (sym m)
          (stopped_part-Ended-failed keep exit _ s (stops s.world) (z, (m, counts)))
    finish-Ended keep exit s false (inr (z, f, _)) = absurd (cc)

    finally_part-Ended :
        (keep : Bool) (q : (Exit × State W) × Bool)
        → Handled q
        → Ended keep (finally_part fx keep q)
    unfolding finally_part
    finally_part-Ended keep ((exit, s), failed) h = finish-Ended keep exit s failed h

    -- If stopping a machine never raises, a run that starts without a machine ends in one of these ways.
    -- It exits with 0, has spawned and stopped one machine, has written one result that passes without
    -- an error, and the disks are kept if that is asked for and discarded otherwise. Or it exits with
    -- another status or an exception, has written no result that passes without an error, and the disks
    -- are kept: then no machine was left by the spawn and none was stopped, or one was spawned and that one
    -- was stopped, or an interrupt came in the sleep of 0.4 s behind the start of QEMU, and the QEMU that was
    -- spawned is not stopped.
    pub run_flow-Ended :
        (keep : Bool) (w : W)
        → Ended keep (
            run_flow fx keep flow
              (record { world = w; machine = false; result_ok = false; trace = [] }))
    unfolding run_flow
    run_flow-Ended keep w =
        finally_part-Ended keep _ (handle-Handled _ (try_part-Phase.at _ (refl, Counts-nil)))
