-- ===== src/Steps/Install/Checked.antt =====
-- strataqemu/tests_spec.py: what the guest has answered when a part of the install or of the update returns.
use strata_qemu_testing.Base.{
  ok, err, Bool, true, false, Option, none, some, ◌≡◌, refl, ap, Result, if◌then◌else◌, ℕ,
}
use mathlib.Core.Path.{subst}
use strata_qemu_testing.Base.Text.{Text, codes, text_eq, contains}
use strata_qemu_testing.Session.Parse.{Props}
use strata_qemu_testing.Smoke.{install_smoke_command}
use strata_qemu_testing.RunTest.Exec.{
  Gives, Gives-bind, Gives-then, Gives-pure, Gives-raise, Gives-lift, Gives-self,
}
use strata_qemu_testing.Steps.Remote.{
  Proc, StepError, smoke, timed_out, command_expired, os_error, value_error, no_rounds, Remote,
  Progress, blob_of,
}
use strata_qemu_testing.Steps.Remote.Answers.{Succeeded, ssh_run-Succeeded}
use strata_qemu_testing.Steps.Wait.{wait_window, run_session_step}
use strata_qemu_testing.Steps.SessionOnly.{session_part}
use strata_qemu_testing.Steps.SessionOnly.Allowed.{Passed}
use strata_qemu_testing.Steps.Version.{parse_install_sh_sha256}
use strata_qemu_testing.Steps.Install.{
  desktop_entry_probe_command, FlowArgs, binary_command, check_binary, install_part, desktop_part,
  window_part, window_caught, try_window, rethrow, launch_desktop_entry_command,
}

module _ {W : Type 0} (fx : Remote W) where
  -- A wait for the exports of the session has returned.
  abbrev pub SessionCame : Text → Text → ℕ → Type 0
  SessionCame compositor script timeout =
      (s : Progress W) × (t : Progress W) × (exports : Props) × (run_session_step fx compositor
          script timeout s
        ≡ (ok exports, t))

  pub session_part-SessionCame :
      (compositor script : Text) (timeout : ℕ)
      → Gives
          (λ r. Passed (codes "session") r.1 × SessionCame compositor script timeout)
          (session_part fx compositor script timeout)
  unfolding session_part
  session_part-SessionCame compositor script timeout = Gives-then _ λ started.
      Gives-bind (Gives-self (run_session_step fx compositor script timeout)) λ exports came.
        Gives-then _ λ now. Gives-pure ((refl, refl), (came.0, came.1, exports, came.2))

  -- The installed program was there.
  abbrev pub HasBinary : Type 0
  HasBinary = (proc : Proc) × Succeeded fx binary_command proc

  pub check_binary-HasBinary : Gives (λ u. HasBinary) (check_binary fx)
  unfolding check_binary
  check_binary-HasBinary =
      Gives-bind (ssh_run-Succeeded fx binary_command 15000) λ proc p. Gives-pure (proc, p)

  -- The install script ran and printed this digest, and then the program was there.
  pub record Installed (a : FlowArgs) (digest : Text) : Type 0 where
    pub archive : Option Text
    pub proc : Proc
    pub script_ran :
        Succeeded fx
          (install_smoke_command fx.quote_ archive (text_eq a.guest.id (codes "arch")))
          proc
    pub digest_is : parse_install_sh_sha256 (blob_of proc) ≡ ok digest
    pub binary : HasBinary

  pub install_part-Installed :
      (a : FlowArgs) (archive : Option Text)
      → Gives (λ r. Passed (codes "install") r.0 × Installed a r.1.0) (install_part fx a archive)
  unfolding install_part
  install_part-Installed a archive = Gives-then _ λ started. Gives-then _ λ _. Gives-then _ λ _.
      Gives-then _ λ sent. Gives-bind (ssh_run-Succeeded fx _ 180000) λ proc ran.
        Gives-bind (Gives-lift _) λ digest printed. Gives-bind check_binary-HasBinary λ _ binary.
          Gives-then _ λ now. Gives-pure (
            (refl, refl),
            record {
              archive = sent.1;
              proc = proc;
              script_ran = ran;
              digest_is = printed;
              binary = binary;
            },
          )

  -- The desktop entry names the installed program.
  abbrev pub HasEntry : Type 0
  HasEntry =
      (proc : Proc) × Succeeded fx desktop_entry_probe_command proc
      × (contains (blob_of proc) (codes ".local/bin/strata") ≡ true)

  if-Gives :
      {A : Type 0} {P : A → Type 0} (test : Bool)
      {x y : Progress W → Result StepError A × Progress W}
      → (test ≡ true → Gives P x)
      → Gives P y
      → Gives P (if test then x else y)
  if-Gives true k g = k refl
  if-Gives false k g = g

  pub desktop_part-HasEntry :
      Gives (λ r. Passed (codes "desktop-entry") r × HasEntry) (desktop_part fx)
  unfolding desktop_part
  desktop_part-HasEntry = Gives-then _ λ started.
      Gives-bind (ssh_run-Succeeded fx desktop_entry_probe_command 10000) λ entry ran.
        if-Gives _ (λ names. Gives-then _ λ now. Gives-pure ((refl, refl), (entry, ran, names)))
          Gives-raise

  -- A wait for the window has returned.
  abbrev pub WindowCame : Props → Text → Type 0
  WindowCame env compositor =
      (s : Progress W) × (t : Progress W) × (wait_window fx env compositor s ≡ (ok tt, t))

  window_caught-none :
      (q : Result StepError (Unit {0}) × Progress W) (t : Progress W)
      → window_caught fx q ≡ (ok none, t)
      → q ≡ (ok tt, q.1)
  unfolding window_caught
  window_caught-none (ok u, s) t h = refl
  window_caught-none (err (timed_out text), s) t h = absurd (let e = ap (λ q. q.0) h in cc)
  window_caught-none (err (smoke text), s) t h = absurd (let e = ap (λ q. q.0) h in cc)
  window_caught-none (err (command_expired text), s) t h = absurd (let e = ap (λ q. q.0) h in cc)
  window_caught-none (err (os_error text), s) t h = absurd (let e = ap (λ q. q.0) h in cc)
  window_caught-none (err (value_error text), s) t h = absurd (let e = ap (λ q. q.0) h in cc)
  window_caught-none (err no_rounds, s) t h = absurd (let e = ap (λ q. q.0) h in cc)

  try_window-WindowCame :
      (env : Props) (compositor : Text)
      → Gives (λ problem. problem ≡ none → WindowCame env compositor) (try_window fx env compositor)
  unfolding try_window
  try_window-WindowCame env compositor = record {
    at = λ s t problem h missing. (
      s,
      (wait_window fx env compositor s).1,
      window_caught-none (wait_window fx env compositor s) t
          (subst (λ o. window_caught fx (wait_window fx env compositor s) ≡ (ok o, t)) missing h),
    );
  }

  rethrow-none : (problem : Option StepError) → Gives (λ u. problem ≡ none) (rethrow fx problem)
  unfolding rethrow
  rethrow-none none = Gives-pure refl
  rethrow-none (some e) = Gives-raise

  -- The desktop entry was launched, and the window came.
  pub record HasWindow (compositor : Text) : Type 0 where
    pub env : Props
    pub proc : Proc
    pub launched : Succeeded fx (launch_desktop_entry_command fx env) proc
    pub came : WindowCame env compositor

  pub window_part-HasWindow :
      (a : FlowArgs) (env : Props) (compositor : Text)
      → Gives
          (λ r. Passed (codes "window") r × HasWindow compositor)
          (window_part fx a env compositor)
  unfolding window_part
  window_part-HasWindow a env compositor = Gives-then _ λ started. Gives-then _ λ _.
      Gives-bind (ssh_run-Succeeded fx (launch_desktop_entry_command fx env) 30000) λ launched ran.
        Gives-bind (try_window-WindowCame env compositor) λ problem seen. Gives-then _ λ _.
          Gives-then _ λ _. Gives-bind (rethrow-none problem) λ _ missing. Gives-then _ λ now.
            Gives-pure (
              (refl, refl),
              record { env = env; proc = launched; launched = ran; came = seen missing },
            )
