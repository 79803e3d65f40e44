-- ===== src/Steps/Remote.antt =====
-- strataqemu/tests_spec.py: `ssh_run`, `scp_to_guest` and `scp_from_guest`. Subprocesses, the clock,
-- files and the guest's devices are a record of effects on a world that is not described. Times are
-- in milliseconds. The text of an exception leaves out the time limit and the quotes of `!r`; making a
-- directory and writing `ssh.log` do not raise.
pub mod Answers
pub mod Logged
use strata_qemu_testing.Base.{
  ℕ, suc, Bool, false, not, ◌&&◌, Option, none, some, List, [], ◌∷◌, ◌++◌, if◌then◌else◌, Result,
  ok, err, map,
}
use strata_qemu_testing.Base.Text.{Text, codes, is_empty, decimal, strip, join}
use strata_qemu_testing.Guest.Toml.{ℤ, pos, negsuc, zero_int}
use strata_qemu_testing.Session.Parse.{Props}
use strata_qemu_testing.Ssh.{default_host, ssh_command, scp_command, scp_download_command}
use strata_qemu_testing.RunTest.Exec.{Exec, ◌>>=◌, ◌>>◌}

-- `subprocess.CompletedProcess`; a negative code is a signal
pub record Proc : Type 0 where
  pub returncode : ℤ
  pub stdout : Text
  pub stderr : Text

-- What `subprocess.run` may raise: `TimeoutExpired` with the output so far, or an `OSError`.
pub data RunError : Type 0 where
  expired : Text → RunError
  os_failed : Text → RunError

-- The exceptions of the steps. `no_rounds` is not one of them: it says that a loop was cut short.
pub data StepError : Type 0 where
  smoke timed_out command_expired os_error value_error : Text → StepError
  no_rounds : StepError

-- The fields of `Machine` that the steps read.
pub record Machine : Type 0 where
  pub ssh_port : ℕ
  pub vnc_port : Option ℕ
  pub identity : Option Text
  pub user : Text

pub record Remote (W : Type 0) : Type 0 where
  pub machine : Machine
  -- `shlex.quote`
  pub quote_ : Text → Text
  pub run : List Text → Option ℕ → W → Result RunError Proc × W
  pub is_file : Text → W → Bool
  pub read_bytes : Text → W → Option Text
  pub monotonic : W → ℕ
  pub sleep : ℕ → W → W
  pub vnc_framebuffer_png : Text → ℕ → W → Bool × W
  pub qmp_screendump : Text → W → Bool × W
  pub send_key : List Text → W → Bool × W
  pub sha256_file : Text → W → Option Text
  -- `dest.parent.mkdir(parents=True, exist_ok=True)`
  pub make_parent : Text → W → W

-- What `ssh.log` is given.
pub data LogEntry : Type 0 where
  exit_entry : Text → ℤ → Text → LogEntry
  timeout_entry : Text → Text → LogEntry

-- `commands` is the list that the callers pass on.
pub record Progress (W : Type 0) : Type 0 where
  pub world : W
  pub commands : List Text
  pub log : List LogEntry

abbrev pub Step : Type 0 → Type 0 → Type 0
Step W A = Exec (Progress W) StepError A

-- `f"{proc.stdout}{proc.stderr}"`
abbrev pub blob_of : Proc → Text
blob_of proc = proc.stdout ++ proc.stderr

-- `str(n)` of an integer
abbrev pub int_text : ℤ → Text
int_text (pos n) = decimal n
int_text (negsuc n) = b'-' ∷ decimal (suc n)

-- `blob.strip() or f"exit {proc.returncode}"`
abbrev pub last_words : Proc → Text
last_words proc =
    let text = strip (blob_of proc) in
    if is_empty text then codes "exit " ++ int_text proc.returncode else text

-- `f"ssh command failed ({proc.returncode}): {command}\n{proc.stdout}{proc.stderr}"`
abbrev pub failed_text : Text → Proc → Text
failed_text command proc =
    codes "ssh command failed ("
    ++ (int_text proc.returncode ++ (codes "): " ++ (command ++ (codes "\n" ++ blob_of proc))))

module _ {W : Type 0} (fx : Remote W) where
  -- `" ".join(f"{key}={shlex.quote(value)}" for key, value in env.items())`
  unfoldable pub env_prefix : Props → Text
  env_prefix env = join (codes " ") (map (λ pair. pair.0 ++ (codes "=" ++ fx.quote_ pair.1)) env)

  unfoldable pub remember : Text → Step W (Unit {0})
  remember command s = (ok tt, record s { commands = s.commands ++ (command ∷ []) })

  -- `machine.ssh(command)`
  unfoldable pub machine_ssh : Text → Step W (List Text)
  machine_ssh command s = elim fx.machine.identity [
    | none ↦ (err (value_error (codes "identity is required for ssh")), s)
    | some identity ↦ (
      ok (
          ssh_command fx.machine.ssh_port identity default_host fx.machine.user (some command)
            false),
      s,
    )
  ]

  -- The end of a command: the log, and `raise` for the exceptions.
  unfoldable pub ssh_ended :
      Text → Progress W → Result RunError Proc × W → Result StepError Proc × Progress W
  ssh_ended command s (ok proc, w) = (
    ok proc,
    record s { world = w; log = s.log ++ (exit_entry command proc.returncode (blob_of proc) ∷ []) },
  )
  ssh_ended command s (err (expired out), w) = (
    err (command_expired command),
    record s { world = w; log = s.log ++ (timeout_entry command out ∷ []) },
  )
  ssh_ended command s (err (os_failed text), w) = (err (os_error text), record s { world = w })

  -- `if check and proc.returncode != 0: raise`
  unfoldable pub ssh_checked : Bool → Text → Proc → Step W Proc
  ssh_checked check command proc s =
      if check && not (zero_int proc.returncode)
      then (err (smoke (failed_text command proc)), s)
      else (ok proc, s)

  unfoldable pub ssh_sent : Text → ℕ → List Text → Step W Proc
  unfolding ssh_ended
  ssh_sent command timeout argv s = ssh_ended command s (fx.run argv (some timeout) s.world)

  unfoldable pub ssh_run : Text → ℕ → Bool → Step W Proc
  ssh_run command timeout check = do
    remember command
    argv ← machine_ssh command
    proc ← ssh_sent command timeout argv
    ssh_checked check command proc

  -- `if machine.identity is None: raise`
  unfoldable pub scp_identity : Step W Text
  scp_identity s = elim fx.machine.identity [
    | none ↦ (err (smoke (codes "identity is required for scp")), s)
    | some identity ↦ (ok identity, s)
  ]

  unfoldable pub scp_ended :
      Text → Text → Progress W → Result RunError Proc × W → Result StepError (Unit {0}) × Progress W
  scp_ended note what s (ok proc, w) =
      let after = record s {
        world = w;
        log = s.log ++ (exit_entry note proc.returncode (blob_of proc) ∷ []);
      } in
      let message = if is_empty proc.stderr then proc.stdout else proc.stderr in
      if zero_int proc.returncode then (ok tt, after) else (err (smoke (what ++ message)), after)
  scp_ended note what s (err (expired out), w) =
      (err (command_expired note), record s { world = w })
  scp_ended note what s (err (os_failed text), w) = (err (os_error text), record s { world = w })

  unfoldable pub scp_sent : Text → Text → List Text → Step W (Unit {0})
  unfolding scp_ended
  scp_sent note what argv s = scp_ended note what s (fx.run argv none s.world)

  unfoldable pub scp_to_guest : Text → Text → Step W (Unit {0})
  scp_to_guest source dest = do
    identity ← scp_identity
    let note = codes "scp " ++ (source ++ (codes " " ++ dest))
    remember note
    scp_sent note (codes "scp failed: ")
        (scp_command fx.machine.ssh_port identity source dest default_host fx.machine.user)

  unfoldable pub ensure_parent : Text → Step W (Unit {0})
  ensure_parent dest s = (ok tt, record s { world = fx.make_parent dest s.world })

  unfoldable pub scp_from_guest : Text → Text → Step W (Unit {0})
  scp_from_guest remote dest = do
    identity ← scp_identity
    ensure_parent dest
    let note = codes "scp " ++ (remote ++ (codes " " ++ dest))
    remember note
    scp_sent note (codes "scp download failed: ")
        (scp_download_command fx.machine.ssh_port identity remote dest default_host fx.machine.user)

  -- `if not script.is_file(): raise`
  unfoldable pub require_script : Text → Text → Step W (Unit {0})
  require_script message path s =
      if fx.is_file path s.world then (ok tt, s) else (err (smoke (message ++ path)), s)
