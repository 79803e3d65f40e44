-- ===== src/Qemu/Spawn.antt =====
-- `_spawn_qemu` of strataqemu/image_build.py and `_spawn_overlay_vm` of strataqemu/run_test.py, which have the same
-- body: the ports of strataqemu/ports.py, the command line of strataqemu/qemu.py, the process and its first
-- moments. They differ in the configuration, in the display and in the exceptions, which are parameters. The
-- process, the clock and the log file are effects. An interrupt from the keyboard can come in the sleep behind
-- the start: then QEMU runs, and no `Machine` is returned.
pub mod Left
use strata_qemu_testing.Base.{
  ℕ, Bool, true, false, Option, none, some, List, [], ◌∷◌, ◌++◌, if◌then◌else◌, Result, ok, err,
  length, drop, ◌-◌, ltb,
}
use strata_qemu_testing.Base.Text.{Text, codes, decimal}
use strata_qemu_testing.Artifacts
use strata_qemu_testing.Guest.Toml.{ℤ}
use strata_qemu_testing.Ports.Alloc.{
  Bind, PortError, value_error, os_error, no_free_port, allocate_ssh_port, allocate_vnc_port,
}
use strata_qemu_testing.Ports.Retry.{
  CallError, address_already_in_use, raised, bad_attempts, Outcome, is_address_already_in_use,
  retry_on_addr_in_use, max_port_retries,
}
use strata_qemu_testing.Qemu.Argv.{Config, ArgvError, build_qemu_argv}
use strata_qemu_testing.RunTest.Exec.{Exec, ◌>>=◌, ◌>>◌, pure, raise, lift}
use strata_qemu_testing.Steps.Remote.{int_text}

-- The exceptions of the caller: `ValueError`, `OSError`, `AddressAlreadyInUse`, and its own for a process that has
-- exited.
pub record Raises (E : Type 0) : Type 0 where
  pub value : Text → E
  pub os : Text → E
  pub in_use : Text → E
  pub exited_at_once : Text → E

pub record Launcher (W E : Type 0) : Type 0 where
  pub bind : Bind W
  -- `Path.resolve`
  pub resolve : Text → Text
  pub write_text : Text → Text → W → W
  -- `launcher(argv, …)`: the process, or the exception of the start
  pub popen : List Text → W → Result E (Unit {0}) × W
  -- `time.sleep`: whether it returns, or `KeyboardInterrupt` comes
  pub sleep : ℕ → W → Bool × W
  pub poll : W → Option ℤ
  pub read_text : Text → W → Option Text

-- An exception before QEMU runs or behind its end, or the interrupt that leaves it running.
pub data SpawnFailure (E : Type 0) : Type 0 where
  spawn_raised : E → SpawnFailure E
  left_running : SpawnFailure E

-- The ports of the machine.
pub record MachinePorts : Type 0 where
  pub ssh_port : ℕ
  pub vnc_port : Option ℕ

-- What a caller asks for; `config` gives the configuration for the ports.
pub record Launch : Type 0 where
  pub run_dir : Text
  pub headless : Bool
  pub config : ℕ → Option ℕ → Config
  pub settle : ℕ

-- The text of the exceptions of other modules.
abbrev port_text : PortError → Text
port_text value_error = codes "bind host must be 127.0.0.1"
port_text (os_error n) = codes "[Errno " ++ (decimal n ++ codes "]")
port_text (no_free_port a b) = codes "no free port in " ++ (decimal a ++ (codes "-" ++ decimal b))

abbrev text_or_empty : Option Text → Text
text_or_empty none = []
text_or_empty (some text) = text

module _ {W E : Type 0} (raises : Raises E) (fx : Launcher W E) where
  abbrev Attempt : Type 0 → Type 0
  Attempt A = Exec W (CallError (SpawnFailure E)) A

  unfoldable pub ported : Result PortError ℕ × W → Outcome (SpawnFailure E) ℕ × W
  ported (ok port, w) = (ok port, w)
  ported (err value_error, w) =
      (err (raised (spawn_raised (raises.value (port_text value_error)))), w)
  ported (err (os_error n), w) =
      (err (raised (spawn_raised (raises.os (port_text (os_error n))))), w)
  ported (err (no_free_port a b), w) =
      (err (raised (spawn_raised (raises.os (port_text (no_free_port a b))))), w)

  unfoldable pub ssh_port_part : Attempt ℕ
  unfolding ported
  ssh_port_part w = ported (allocate_ssh_port fx.bind w)

  unfoldable pub vnc_port_part : Bool → Attempt (Option ℕ)
  unfolding ported
  vnc_port_part headless =
      if headless
      then (do port ← (λ w. ported (allocate_vnc_port fx.bind w)); pure (some port))
      else pure none

  unfoldable pub write_port : Text → ℕ → Attempt (Unit {0})
  write_port run_dir port w =
      (ok tt, fx.write_text (Artifacts.ssh_port_file run_dir) (decimal port ++ codes "\n") w)

  unfoldable pub argv_of : Result ArgvError (List Text) → Outcome (SpawnFailure E) (List Text)
  argv_of (ok argv) = ok argv
  argv_of (err e) = err (raised (spawn_raised (raises.value (codes "qemu argv"))))

  unfoldable pub launched : Result E (Unit {0}) × W → Outcome (SpawnFailure E) (Unit {0}) × W
  launched (ok u, w) = (ok tt, w)
  launched (err e, w) = (err (raised (spawn_raised e)), w)

  unfoldable pub launch : List Text → Attempt (Unit {0})
  unfolding launched
  launch argv w = launched (fx.popen argv w)

  unfoldable pub settled : Bool × W → Outcome (SpawnFailure E) (Unit {0}) × W
  settled (true, w) = (ok tt, w)
  settled (false, w) = (err (raised left_running), w)

  -- `if settle_s > 0: time.sleep(settle_s)`
  unfoldable pub settle_part : ℕ → Attempt (Unit {0})
  unfolding settled
  settle_part time w = if ltb 0 time then settled (fx.sleep time w) else (ok tt, w)

  -- What the log of a process that is gone at once says.
  unfoldable pub exited : ℤ → Text → Outcome (SpawnFailure E) (Unit {0})
  exited code text =
      if is_address_already_in_use text
      then err (address_already_in_use text)
      else err (
          raised (
            spawn_raised (
              raises.exited_at_once (
                codes "qemu exited "
                ++ (int_text code ++ (codes " immediately\n" ++ drop (length text - 4000) text))))))

  -- `if proc.poll() is not None`
  unfoldable pub polled : Option ℤ → Text → Outcome (SpawnFailure E) (Unit {0})
  polled none text = ok tt
  polled (some code) text = exited code text

  unfoldable pub check_started : Text → Attempt (Unit {0})
  check_started run_dir w =
      (polled (fx.poll w) (text_or_empty (fx.read_text (Artifacts.qemu_log run_dir) w)), w)

  -- `attempt`
  unfoldable pub attempt : Launch → Attempt MachinePorts
  attempt a = do
    ssh_port ← ssh_port_part
    vnc_port ← vnc_port_part a.headless
    write_port a.run_dir ssh_port
    argv ← lift (argv_of (build_qemu_argv fx.resolve (a.config ssh_port vnc_port)))
    launch argv
    settle_part a.settle
    check_started a.run_dir
    pure (record { ssh_port = ssh_port; vnc_port = vnc_port })

  unfoldable pub spawn_ended :
      Outcome (SpawnFailure E) MachinePorts × W → Result (SpawnFailure E) MachinePorts × W
  spawn_ended (ok m, w) = (ok m, w)
  spawn_ended (err (address_already_in_use text), w) = (err (spawn_raised (raises.in_use text)), w)
  spawn_ended (err (raised e), w) = (err e, w)
  spawn_ended (err bad_attempts, w) =
      (err (spawn_raised (raises.value (codes "attempts must be >= 1"))), w)

  unfoldable pub spawn : Launch → W → Result (SpawnFailure E) MachinePorts × W
  unfolding attempt spawn_ended
  spawn a w = spawn_ended (retry_on_addr_in_use (attempt a) max_port_retries w)
