-- ===== src/RunTest/VmRun.antt =====
-- strataqemu/run_test.py: `run_vm_run` and `choose_graphical_ui`. As in `run_run_test`,
-- the process and the file system are a record of effects on a world that is not described.
pub mod Cleanup
use strata_qemu_testing.Base.{
  ℕ, Bool, true, false, not, ◌&&◌, ◌||◌, Option, none, some, List, [], ◌∷◌, ◌++◌, if◌then◌else◌,
  Result, ok, err, is_none, ◌==◌,
}
use strata_qemu_testing.Base.Text.{
  Text, codes, text_eq, lower, words, split_lines, contains, is_empty,
}
use strata_qemu_testing.RunTest.Request.{is_text}
use strata_qemu_testing.RunTest.Exec.{Exec, ◌>>=◌, ◌>>◌}
use strata_qemu_testing.RunTest.Run.{
  Failure, interrupted, listed, unlisted, Event, spawned, stopped, discarded, kept, State, Host,
  Exit, status, raised, note, note_spawn, failures, host_ready,
}
use strata_qemu_testing.Qemu.Spawn.{Launcher}
use strata_qemu_testing.RunTest.Spawn.{OverlayArgs, spawn_overlay_vm}

-- `s.strip(",")`
unfoldable pub drop_commas : Text → Text
drop_commas [] = []
drop_commas (c ∷ s) = if c == b',' then drop_commas s else c ∷ s

unfoldable pub drop_commas_right : Text → Text
drop_commas_right [] = []
drop_commas_right (c ∷ s) =
    let r = drop_commas_right s in if is_empty r && (c == b',') then [] else c ∷ r

-- The first word of a line, without commas around it.
unfoldable pub display_name : List Text → Option Text
unfolding drop_commas drop_commas_right
display_name [] = none
display_name (token ∷ _) = some (drop_commas_right (drop_commas token))

-- Whether a line of the help is about the display `name`.
unfoldable pub names_display : Text → List Text → Bool
unfolding display_name
names_display name [] = false
names_display name (raw ∷ rest) = is_text (display_name (words raw)) name || names_display name rest

unfoldable pub choose_graphical_ui : Text → Text
unfolding names_display
choose_graphical_ui text =
    let lowered = lower text in
    let has_gtk = names_display (codes "gtk") (split_lines lowered) in
    let has_sdl = names_display (codes "sdl") (split_lines lowered) in
    let mentioned = contains lowered (codes "gtk") && (not has_sdl && not has_gtk) in
    if has_gtk || mentioned then codes "gtk" else if has_sdl then codes "sdl" else codes "gtk"

-- The local `ui`: what the caller gives, else a choice for a window, else gtk.
unfoldable pub choose_ui : Option Text → Bool → Text → Text
choose_ui (some ui) graphical help = ui
choose_ui none true help = choose_graphical_ui help
choose_ui none false help = codes "gtk"

pub record VmEffects (W : Type 0) : Type 0 where
  pub check_host : W → Host × W
  pub display_help : Text
  pub prepare_overlay : W → Result Failure (Unit {0}) × W
  pub launcher : Launcher W Failure
  pub overlay_args : OverlayArgs
  pub wait_process : W → Result Failure (Unit {0}) × W
  pub shutdown_machine : W → Result Failure (Unit {0}) × W
  pub remove_run_dir : W → W

-- The keyword arguments, and whether the guest boots by UEFI.
pub record VmRequest : Type 0 where
  pub graphical : Bool
  pub keep : Bool
  pub graphical_ui : Option Text
  pub wait : Bool
  pub uefi : Bool

module _ {W : Type 0} (fx : VmEffects W) where
  pub prepare_vm : Exec (State W) Failure (Unit {0})
  prepare_vm s = note [] s.machine (fx.prepare_overlay s.world) s

  unfoldable pub spawn_vm : VmRequest → Exec (State W) Failure (Unit {0})
  unfolding choose_ui note_spawn
  spawn_vm r s =
      let ui = choose_ui r.graphical_ui r.graphical fx.display_help in
      note_spawn (spawn_overlay_vm failures fx.launcher fx.overlay_args r.graphical ui s.world) s

  pub wait_vm : VmRequest → Exec (State W) Failure (Unit {0})
  wait_vm r s = note [] s.machine (if r.wait then fx.wait_process s.world else (ok tt, s.world)) s

  -- The block under `try`.
  unfoldable pub try_vm : VmRequest → Exec (State W) Failure (Unit {0})
  try_vm r = do prepare_vm; spawn_vm r; wait_vm r

  -- The handlers, and whether `failed` is set.
  unfoldable pub handle_vm : Result Failure (Unit {0}) × State W → (Exit × State W) × Bool
  handle_vm (ok u, s) = ((status 0, s), false)
  handle_vm (err interrupted, s) = ((status 130, s), true)
  handle_vm (err (listed message), s) = ((status 1, s), true)
  handle_vm (err (unlisted message), s) = ((status 1, s), true)

  unfoldable pub finish_vm : Bool → Bool → State W → State W
  finish_vm keep failed s =
      if not keep && not failed
      then record s { world = fx.remove_run_dir s.world; trace = s.trace ++ (discarded ∷ []) }
      else record s { trace = s.trace ++ (kept ∷ []) }

  -- Behind `_shutdown_machine`: an exception of it leaves the rest of the block out.
  unfoldable pub stopped_vm :
      Bool → Bool → Exit → Result Failure (Unit {0}) × W → State W → Exit × State W
  stopped_vm keep failed exit (ok u, w) s =
      (exit, finish_vm keep failed (record s { world = w; trace = s.trace ++ (stopped ∷ []) }))
  stopped_vm keep failed exit (err e, w) s = (raised e, record s { world = w })

  -- The block under `finally`.
  unfoldable pub finally_vm : Bool → (Exit × State W) × Bool → Exit × State W
  finally_vm keep ((exit, s), failed) =
      if s.machine
      then stopped_vm keep failed exit (fx.shutdown_machine s.world) s
      else (exit, finish_vm keep failed s)

  -- `loaded` is what `_load_or_usage` gives: a status, or a guest; `golden` says whether the image is
  -- there.
  unfoldable pub vm_run : Result ℕ VmRequest → Bool → W → Exit × State W
  unfolding host_ready
  vm_run (err code) golden w =
      (status code, record { world = w; machine = false; result_ok = false; trace = [] })
  vm_run (ok r) golden w =
      if not golden
      then (status 1, record { world = w; machine = false; result_ok = false; trace = [] })
      else (let (host, w') = fx.check_host w in
          if not (host_ready r.uefi host)
          then (status 1, record { world = w'; machine = false; result_ok = false; trace = [] })
          else finally_vm r.keep (
              handle_vm
                (try_vm r (record { world = w'; machine = false; result_ok = false; trace = [] }))))
