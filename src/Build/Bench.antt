-- ===== src/Build/Bench.antt =====
-- strataqemu/image_build.py: the state of a build, its exceptions, and `_ssh_run`, `_scp_to_guest` and
-- `_scp_from_guest`. Subprocesses, the clock, files and the guest's devices are a record of effects on a
-- world that is not described. Times are in milliseconds. The text of an exception leaves out the time
-- limit; making a directory and writing `ssh.log` do not raise; what goes to the log is left out.
use strata_qemu_testing.Base.{
  ℕ, Bool, false, not, ◌&&◌, Option, none, some, List, [], ◌∷◌, ◌++◌, if◌then◌else◌, Result, ok,
  err, length, drop, ◌-◌,
}
use strata_qemu_testing.Base.Text.{Text, codes, is_empty}
use strata_qemu_testing.Artifacts
use strata_qemu_testing.Artifacts.{◌/◌}
use strata_qemu_testing.Guest.Toml.{ℤ, zero_int}
use strata_qemu_testing.Ssh.{default_host, ssh_command, scp_command, scp_download_command}
use strata_qemu_testing.RunTest.Exec.{Exec, ◌>>=◌, ◌>>◌}
use strata_qemu_testing.Steps.Remote.{
  Proc, RunError, expired, os_failed, LogEntry, exit_entry, timeout_entry, blob_of, failed_text,
  int_text,
}

-- The fields of `Machine`.
pub record Machine : Type 0 where
  pub disk : Text
  pub root : Text
  pub ssh_port : ℕ
  pub vnc_port : Option ℕ
  pub identity : Option Text
  pub user : Text
  pub has_process : Bool

pub data BuildError : Type 0 where
  image_build timed_out command_expired os_error value_error process_failed address_in_use :
      Text → BuildError
  interrupted : BuildError

-- `GuestExecResult`
pub record ExecResult : Type 0 where
  pub exitcode : ℤ
  pub stdout : Text
  pub stderr : Text

pub record Builder (W : Type 0) : Type 0 where
  -- `shlex.quote`, and `str` of the `TimeoutExpired` of an argument list
  pub quote_ : Text → Text
  pub str_expired : List Text → ℕ → Text
  pub run : List Text → Option ℕ → W → Result RunError Proc × W
  pub monotonic : W → ℕ
  pub sleep : ℕ → W → W
  -- `machine._proc.poll()`
  pub poll : W → Option ℤ
  pub is_file : Text → W → Bool
  pub read_text : Text → W → Option Text
  -- `path.mkdir(parents=True, exist_ok=True)`, and that of `path.parent`
  pub make_dir : Text → W → W
  pub make_parent : Text → W → W
  -- The devices of the guest: what is caught inside is left out of the result.
  pub vnc_framebuffer_png : Text → ℕ → W → W
  pub qmp_screendump : Text → Text → W → W
  pub qga_guest_ping : Text → W → Result Text Bool × W
  pub qga_guest_file_write : Text → Text → Text → W → Bool × W
  pub qga_guest_exec : Text → Text → ℕ → W → Option ExecResult × W

-- The world, and what `ssh.log` has been given.
pub record Bench (W : Type 0) : Type 0 where
  pub world : W
  pub log : List LogEntry

abbrev pub Work : Type 0 → Type 0 → Type 0
Work W A = Exec (Bench W) BuildError A

-- `text[-n:]`
abbrev pub last_chars : ℕ → Text → Text
last_chars n text = drop (length text - n) text

abbrev pub text_or_empty : Option Text → Text
text_or_empty none = []
text_or_empty (some text) = text

module _ {W : Type 0} (fx : Builder W) where
  -- An effect that has no result.
  unfoldable pub touch : (W → W) → Work W (Unit {0})
  touch change s = (ok tt, record s { world = change s.world })

  unfoldable pub nap : ℕ → Work W (Unit {0})
  unfolding touch
  nap time = touch (fx.sleep time)

  unfoldable pub machine_ssh : Machine → Text → Work W (List Text)
  machine_ssh m command s = elim m.identity [
    | none ↦ (err (value_error (codes "identity is required for ssh")), s)
    | some identity ↦
        (ok (ssh_command m.ssh_port identity default_host m.user (some command) false), s)
  ]

  unfoldable pub ssh_ended :
      Text → List Text → ℕ → Bench W → Result RunError Proc × W → Result BuildError Proc × Bench W
  ssh_ended command argv timeout s (ok proc, w) = (
    ok proc,
    record s { world = w; log = s.log ++ (exit_entry command proc.returncode (blob_of proc) ∷ []) },
  )
  ssh_ended command argv timeout s (err (expired out), w) = (
    err (command_expired (fx.str_expired argv timeout)),
    record s { world = w; log = s.log ++ (timeout_entry command out ∷ []) },
  )
  ssh_ended command argv timeout s (err (os_failed text), w) =
      (err (os_error text), record s { world = w })

  unfoldable pub ssh_sent : Text → ℕ → List Text → Work W Proc
  unfolding ssh_ended
  ssh_sent command timeout argv s =
      ssh_ended command argv timeout s (fx.run argv (some timeout) s.world)

  unfoldable pub ssh_checked : Bool → Text → Proc → Work W Proc
  ssh_checked check command proc s =
      if check && not (zero_int proc.returncode)
      then (err (image_build (failed_text command proc)), s)
      else (ok proc, s)

  -- `_ssh_run`
  unfoldable pub ssh_run : Machine → Text → ℕ → Bool → Work W Proc
  ssh_run m command timeout check = do
    argv ← machine_ssh m command
    proc ← ssh_sent command timeout argv
    ssh_checked check command proc

  unfoldable pub scp_identity : Machine → Work W Text
  scp_identity m s = elim m.identity [
    | none ↦ (err (image_build (codes "identity is required for scp")), s)
    | some identity ↦ (ok identity, s)
  ]

  unfoldable pub scp_ended :
      Text
      → Text
      → List Text
      → Bench W
      → Result RunError Proc × W
      → Result BuildError (Unit {0}) × Bench W
  scp_ended note what argv s (ok proc, w) =
      let after = record s {
        world = w;
        log = s.log ++ (exit_entry note proc.returncode (blob_of proc) ∷ []);
      } in
      let message = if is_empty proc.stderr then proc.stdout else proc.stderr in
      if zero_int proc.returncode
      then (ok tt, after)
      else (err (image_build (what ++ message)), after)
  scp_ended note what argv s (err (expired out), w) =
      (err (command_expired (fx.str_expired argv 0)), record s { world = w })
  scp_ended note what argv s (err (os_failed text), w) =
      (err (os_error text), record s { world = w })

  unfoldable pub scp_sent : Text → Text → List Text → Work W (Unit {0})
  unfolding scp_ended
  scp_sent note what argv s = scp_ended note what argv s (fx.run argv none s.world)

  -- `_scp_to_guest`
  unfoldable pub scp_to_guest : Machine → Text → Text → Work W (Unit {0})
  scp_to_guest m source dest = do
    identity ← scp_identity m
    scp_sent (codes "scp " ++ (source ++ (codes " -> " ++ dest))) (codes "scp failed: ")
        (scp_command m.ssh_port identity source dest default_host m.user)

  -- `_scp_from_guest`
  unfoldable pub scp_from_guest : Machine → Text → Text → Work W (Unit {0})
  scp_from_guest m remote dest = do
    identity ← scp_identity m
    touch (fx.make_parent dest)
    scp_sent (codes "scp " ++ (remote ++ (codes " -> " ++ dest))) (codes "scp download failed: ")
        (scp_download_command m.ssh_port identity remote dest default_host m.user)

  -- `capture_build_timeout_evidence`
  unfoldable pub capture_vnc : Text → Option ℕ → W → W
  capture_vnc shot none w = w
  capture_vnc shot (some display) w = fx.vnc_framebuffer_png shot display w

  unfoldable pub capture_build_timeout_evidence : Machine → Work W (Unit {0})
  unfolding touch capture_vnc
  capture_build_timeout_evidence m = touch λ w.
      fx.qmp_screendump (Artifacts.qmp_sock m.root) (m.root / codes "qmp-timeout.png")
        (capture_vnc (m.root / codes "timeout.png") m.vnc_port w)

  -- `if machine._proc is not None and machine._proc.poll() is not None: raise`
  unfoldable pub check_process : Machine → Text → Bool → Work W (Unit {0})
  check_process m what with_log s = elim (fx.poll s.world) [
    | none ↦ (ok tt, s)
    | some code ↦
        if m.has_process
        then (
          err (
              image_build (
                codes "qemu exited "
                ++ (int_text code
                    ++ (what
                        ++ (if with_log
                            then codes "\n"
                              ++ last_chars 4000
                                  (text_or_empty (fx.read_text (Artifacts.qemu_log m.root) s.world))
                            else []))))),
          s,
        )
        else (ok tt, s)
  ]
