-- ===== src/RunTest/Run.antt =====
-- strataqemu/run_test.py: `run_run_test` behind the choice of the flow: the host check, the machine,
-- the steps, the result file, and what happens in every case at the end. QEMU is started by
-- `_spawn_overlay_vm`; its process, SSH and the file system are a record of effects on a world that is not described.
pub mod Trace
pub mod Cleanup
use strata_qemu_testing.Base.{
  ℕ, Bool, true, false, not, ◌&&◌, ◌||◌, Option, none, some, List, [], ◌∷◌, ◌++◌, if◌then◌else◌,
  Result, ok, err, is_none,
}
use strata_qemu_testing.Base.Text.{Text, codes, text_eq}
use strata_qemu_testing.RunTest.Exec.{Exec, ◌>>=◌, ◌>>◌}
use strata_qemu_testing.RunTest.Request.{Flow}
use strata_qemu_testing.Qemu.Spawn.{
  Raises, Launcher, SpawnFailure, spawn_raised, left_running, MachinePorts,
}
use strata_qemu_testing.RunTest.Spawn.{OverlayArgs, spawn_overlay_vm}

-- The exceptions by the handler that catches them: `KeyboardInterrupt`, the listed classes, any other
-- `Exception`.
pub data Failure : Type 0 where
  interrupted : Failure
  listed : Text → Failure
  unlisted : Text → Failure

-- The fields of `result` that depend on how the run went. `commands` is written in the second
-- handler only.
pub record Document : Type 0 where
  pub passed : Bool
  pub error : Option Text
  pub with_commands : Bool

-- The exceptions of `_spawn_overlay_vm`: `ValueError` and `AddressAlreadyInUse` are not listed.
abbrev pub failures : Raises Failure
failures = record {
  value = λ text. unlisted text;
  os = λ text. listed text;
  in_use = λ text. unlisted text;
  exited_at_once = λ text. listed text;
}

-- What can be seen of a run.
pub data Event : Type 0 where
  spawned stopped discarded kept : Event
  wrote : Document → Event

-- `machine` says whether the variable holds a machine, `result_ok` is `result["ok"]`.
pub record State (W : Type 0) : Type 0 where
  pub world : W
  pub machine : Bool
  pub result_ok : Bool
  pub trace : List Event

-- What `check_host` found, as far as the run asks.
pub record Host : Type 0 where
  pub passed : Bool
  pub has_key : Bool
  pub has_ovmf : Bool

pub record Effects (W : Type 0) : Type 0 where
  pub check_host : W → Host × W
  pub prepare_overlay : W → Result Failure (Unit {0}) × W
  -- What `_spawn_overlay_vm` uses and is given.
  pub launcher : Launcher W Failure
  pub overlay_args : OverlayArgs
  pub wait_ssh : W → Result Failure (Unit {0}) × W
  pub run_steps : Flow → W → Result Failure (Unit {0}) × W
  pub write_result : Document → W → Result Failure (Unit {0}) × W
  pub shutdown_machine : W → Result Failure (Unit {0}) × W
  pub discard_disks : W → W

-- How the function ends: by a status, or by an exception that no handler catches.
pub data Exit : Type 0 where
  status : ℕ → Exit
  raised : Failure → Exit

abbrev pub passing : Document
passing = record { passed = true; error = none; with_commands = false }

abbrev pub failing : Bool → Text → Bool → Document
failing passed message commands = record {
  passed = passed;
  error = some message;
  with_commands = commands;
}

-- What is checked of the host before the run directory is made.
unfoldable pub host_ready : Bool → Host → Bool
host_ready uefi host = host.passed && (host.has_key && not (uefi && not host.has_ovmf))

module _ {W : Type 0} where
  -- Run an effect, and note an event if it returns.
  abbrev pub note :
      List Event
      → Bool
      → Result Failure (Unit {0}) × W
      → State W
      → Result Failure (Unit {0}) × State W
  note events machine (ok u, w) s =
      (ok u, record s { world = w; machine = machine; trace = s.trace ++ events })
  note events machine (err e, w) s = (err e, record s { world = w })

  -- `machine = _spawn_overlay_vm(…)`: behind an interrupt QEMU has started, and the variable is not set.
  unfoldable pub note_spawn :
      Result (SpawnFailure Failure) MachinePorts × W → State W → Result Failure (Unit {0}) × State W
  note_spawn (ok m, w) s =
      (ok tt, record s { world = w; machine = true; trace = s.trace ++ (spawned ∷ []) })
  note_spawn (err (spawn_raised e), w) s = (err e, record s { world = w })
  note_spawn (err left_running, w) s =
      (err interrupted, record s { world = w; trace = s.trace ++ (spawned ∷ []) })

module _ {W : Type 0} (fx : Effects W) where
  pub prepare_part : Exec (State W) Failure (Unit {0})
  prepare_part s = note [] s.machine (fx.prepare_overlay s.world) s

  -- `run_test` has no window
  unfoldable pub spawn_part : Exec (State W) Failure (Unit {0})
  unfolding note_spawn
  spawn_part s =
      note_spawn (spawn_overlay_vm failures fx.launcher fx.overlay_args false (codes "gtk") s.world)
        s

  pub wait_part : Exec (State W) Failure (Unit {0})
  wait_part s = note [] s.machine (fx.wait_ssh s.world) s

  pub steps_part : Flow → Exec (State W) Failure (Unit {0})
  steps_part flow s = note [] s.machine (fx.run_steps flow s.world) s

  pub write_part : Document → Exec (State W) Failure (Unit {0})
  write_part d s = note (wrote d ∷ []) s.machine (fx.write_result d s.world) s

  -- `result.update({"ok": True, …})` and the result file: if the file cannot be written, the update
  -- stays.
  pub pass_part : Exec (State W) Failure (Unit {0})
  unfolding write_part
  pass_part s = write_part passing (record s { result_ok = true })

  -- The block under `try`.
  unfoldable pub try_part : Flow → Exec (State W) Failure (Unit {0})
  try_part flow = do prepare_part; spawn_part; wait_part; steps_part flow; pass_part

  -- The end of a handler: the status, unless the result file could not be written.
  unfoldable pub handled : ℕ → Result Failure (Unit {0}) × State W → Exit × State W
  handled code (ok u, s) = (status code, s)
  handled code (err e, s) = (raised e, s)

  -- The handlers, and whether `failed` is set.
  unfoldable pub handle : Result Failure (Unit {0}) × State W → (Exit × State W) × Bool
  unfolding handled
  handle (ok u, s) = ((status 0, s), false)
  handle (err interrupted, s) =
      (handled 130 (write_part (failing s.result_ok (codes "interrupted") false) s), true)
  handle (err (listed message), s) =
      (handled 1 (write_part (failing s.result_ok message true) s), true)
  handle (err (unlisted message), s) =
      (handled 1 (write_part (failing s.result_ok message false) s), true)

  -- `_finish_run_dir`
  unfoldable pub finish_run_dir : Bool → Bool → State W → State W
  finish_run_dir keep failed s =
      if keep || failed
      then record s { trace = s.trace ++ (kept ∷ []) }
      else record s { world = fx.discard_disks s.world; trace = s.trace ++ (discarded ∷ []) }

  -- Behind `_shutdown_machine`: an exception of it takes the place of the result, and the run
  -- directory is not finished.
  unfoldable pub stopped_part :
      Bool → Bool → Exit → Result Failure (Unit {0}) × W → State W → Exit × State W
  unfolding finish_run_dir
  stopped_part keep failed exit (ok u, w) s =
      (exit, finish_run_dir keep failed (record s { world = w; trace = s.trace ++ (stopped ∷ []) }))
  stopped_part keep failed exit (err e, w) s = (raised e, record s { world = w })

  -- The block under `finally`.
  unfoldable pub finally_part : Bool → (Exit × State W) × Bool → Exit × State W
  unfolding stopped_part
  finally_part keep ((exit, s), failed) =
      if s.machine
      then stopped_part keep failed exit (fx.shutdown_machine s.world) s
      else (exit, finish_run_dir keep failed s)

  unfoldable pub run_flow : Bool → Flow → State W → Exit × State W
  unfolding try_part handle finally_part
  run_flow keep flow s = finally_part keep (handle (try_part flow s))

  -- From the golden image to the end. `golden` says whether the image file exists.
  unfoldable pub run_test : Bool → Bool → Bool → Flow → W → Exit × State W
  unfolding host_ready run_flow
  run_test golden uefi keep flow w =
      if not golden
      then (status 1, record { world = w; machine = false; result_ok = false; trace = [] })
      else (let (host, w') = fx.check_host w in
          if not (host_ready uefi host)
          then (status 1, record { world = w'; machine = false; result_ok = false; trace = [] })
          else run_flow keep flow
              (record { world = w'; machine = false; result_ok = false; trace = [] }))
