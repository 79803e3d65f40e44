-- ===== src/Steps/Remote/Logged.antt =====
-- strataqemu/tests_spec.py: what stands in ssh.log was recorded as a command first.
use strata_qemu_testing.Base.{
  ℕ, Bool, true, false, not, ◌&&◌, Option, none, some, List, [], ◌∷◌, ◌++◌, if◌then◌else◌, Result,
  ok, err, All, All-append, ◌≡◌, refl,
}
use mathlib.Core.Path.{subst, sym}
use strata_qemu_testing.Base.Text.{Text}
use strata_qemu_testing.Guest.Toml.{zero_int}
use strata_qemu_testing.RunTest.Exec.{◌>>=◌, Leaves, Triple, Triple-bind}
use strata_qemu_testing.Steps.Remote.{
  Proc, RunError, expired, os_failed, StepError, LogEntry, exit_entry, timeout_entry, Remote,
  Progress, Step, remember, machine_ssh, ssh_ended, ssh_sent, ssh_checked, ssh_run, scp_identity,
  scp_ended, scp_sent, scp_to_guest, scp_from_guest, ensure_parent, require_script,
}

abbrev pub command_of : LogEntry → Text
command_of (exit_entry command code text) = command
command_of (timeout_entry command text) = command

module _ {A : Type 0} (P : A → Type 0) where
  All-left : (xs ys : List A) → All P (xs ++ ys) → All P xs
  All-left [] ys h = tt
  All-left (x ∷ xs) ys (p, h) = (p, All-left xs ys h)

  All-last : (xs : List A) (y : A) → All P (xs ++ (y ∷ [])) → P y
  All-last [] y (p, h) = p
  All-last (x ∷ xs) y (p, h) = All-last xs y h

module _ {W : Type 0} (fx : Remote W) (P : Text → Type 0) where
  -- If all commands of the list satisfy `P`, then so do those of the log.
  abbrev pub Logged : Progress W → Type 0
  Logged s = All P s.commands → All (λ e. P (command_of e)) s.log

  -- The same, and the list holds this command.
  abbrev Holds : Text → Progress W → Type 0
  Holds command s = Logged s × (All P s.commands → P command)

  -- Code that keeps it, whether it returns or raises.
  abbrev pub Keeps : {A : Type 0} → Step W A → Type 0
  Keeps m = Triple Logged Logged Logged m

  pub Keeps-bind :
      {A B : Type 0} (m : Step W A) (f : A → Step W B)
      → Keeps m
      → ((a : A) → Keeps (f a))
      → Keeps (m >>= f)
  Keeps-bind m f first rest = Triple-bind Logged Logged Logged m f first rest

  remember-Holds : (command : Text) → Triple Logged (Holds command) Logged (remember fx command)
  unfolding remember
  remember-Holds command = record {
    at = λ s h. (
      (λ all. h (All-left P s.commands (command ∷ []) all)),
      (λ all. All-last P s.commands command all),
    );
  }

  identity-Holds :
      {A B : Type 0} (command : Text) (o : Option A) (e : StepError) (f : A → B) (s : Progress W)
      → Holds command s
      → Leaves {F = StepError} {A = B}
          (Holds command)
          Logged
          (elim o [ none ↦ (err e, s) | some identity ↦ (ok (f identity), s) ])
  identity-Holds command none e f s h = h.0
  identity-Holds command (some identity) e f s h = h

  machine_ssh-Holds :
      (command : Text) → Triple (Holds command) (Holds command) Logged (machine_ssh fx command)
  unfolding machine_ssh
  machine_ssh-Holds command = record {
    at = λ s h. identity-Holds command fx.machine.identity _ _ s h;
  }

  entry-Logged :
      (command : Text) (s : Progress W) (e : LogEntry)
      → command_of e ≡ command
      → Holds command s
      → All P s.commands
      → All (λ e. P (command_of e)) (s.log ++ (e ∷ []))
  entry-Logged command s e same h all =
      All-append (λ e. P (command_of e)) s.log (e ∷ []) (h.0 all) (subst P (sym same) (h.1 all), tt)

  ssh_ended-Logged :
      (command : Text) (s : Progress W) (q : Result RunError Proc × W)
      → Holds command s
      → Leaves Logged Logged (ssh_ended fx command s q)
  unfolding ssh_ended
  ssh_ended-Logged command s (ok proc, w) h = entry-Logged command s _ refl h
  ssh_ended-Logged command s (err (expired out), w) h = entry-Logged command s _ refl h
  ssh_ended-Logged command s (err (os_failed text), w) h = h.0

  ssh_sent-Logged :
      (command : Text) (time : ℕ) (argv : List Text)
      → Triple (Holds command) Logged Logged (ssh_sent fx command time argv)
  unfolding ssh_sent
  ssh_sent-Logged command time argv = record {
    at = λ s h. ssh_ended-Logged command s (fx.run argv (some time) s.world) h;
  }

  -- A test that changes nothing.
  pub Keeps-test :
      {A : Type 0} (test : Bool) (r x : Result StepError A) (s : Progress W)
      → Logged s
      → Leaves Logged Logged (if test then (r, s) else (x, s))
  Keeps-test true (ok a) x s h = h
  Keeps-test true (err e) x s h = h
  Keeps-test false r (ok a) s h = h
  Keeps-test false r (err e) s h = h

  ssh_checked-Keeps :
      (check : Bool) (command : Text) (proc : Proc) → Keeps (ssh_checked fx check command proc)
  unfolding ssh_checked
  ssh_checked-Keeps check command proc = record {
    at = λ s h. Keeps-test (check && not (zero_int proc.returncode)) (err _) (ok proc) s h;
  }

  pub ssh_run-Keeps :
      (command : Text) (time : ℕ) (check : Bool) → Keeps (ssh_run fx command time check)
  unfolding ssh_run
  ssh_run-Keeps command time check =
      Triple-bind (Holds command) Logged Logged _ _ (remember-Holds command) λ _.
        Triple-bind (Holds command) Logged (Holds command) _ _ (machine_ssh-Holds command) λ argv.
          Triple-bind Logged Logged (Holds command) _ _ (ssh_sent-Logged command time argv)
            λ proc. ssh_checked-Keeps check command proc

  identity-Keeps :
      (o : Option Text) (e : StepError) (s : Progress W)
      → Logged s
      → Leaves {F = StepError} {A = Text} Logged Logged
          (elim o [ none ↦ (err e, s) | some identity ↦ (ok identity, s) ])
  identity-Keeps none e s h = h
  identity-Keeps (some identity) e s h = h

  scp_identity-Keeps : Keeps (scp_identity fx)
  unfolding scp_identity
  scp_identity-Keeps = record { at = λ s h. identity-Keeps fx.machine.identity _ s h }

  scp_ended-Logged :
      (note what : Text) (s : Progress W) (q : Result RunError Proc × W)
      → Holds note s
      → Leaves Logged Logged (scp_ended fx note what s q)
  unfolding scp_ended
  scp_ended-Logged note what s (ok proc, w) h =
      Keeps-test (zero_int proc.returncode) (ok tt) (err _) _ (entry-Logged note s _ refl h)
  scp_ended-Logged note what s (err (expired out), w) h = h.0
  scp_ended-Logged note what s (err (os_failed text), w) h = h.0

  scp_sent-Logged :
      (note what : Text) (argv : List Text)
      → Triple (Holds note) Logged Logged (scp_sent fx note what argv)
  unfolding scp_sent
  scp_sent-Logged note what argv = record {
    at = λ s h. scp_ended-Logged note what s (fx.run argv none s.world) h;
  }

  pub scp_to_guest-Keeps : (source dest : Text) → Keeps (scp_to_guest fx source dest)
  unfolding scp_to_guest
  scp_to_guest-Keeps source dest = Keeps-bind _ _ scp_identity-Keeps λ identity.
      Triple-bind (Holds _) Logged Logged _ _ (remember-Holds _) λ _. scp_sent-Logged _ _ _

  pub scp_from_guest-Keeps : (remote dest : Text) → Keeps (scp_from_guest fx remote dest)
  unfolding scp_from_guest ensure_parent
  scp_from_guest-Keeps remote dest = Keeps-bind _ _ scp_identity-Keeps λ identity.
      Keeps-bind _ _ (record { at = λ s h. h })
        λ _. Triple-bind (Holds _) Logged Logged _ _ (remember-Holds _) λ _. scp_sent-Logged _ _ _

  pub require_script-Keeps : (message path : Text) → Keeps (require_script fx message path)
  unfolding require_script
  require_script-Keeps message path = record {
    at = λ s h. Keeps-test (fx.is_file path s.world) (ok tt) (err _) s h;
  }
