-- ===== src/Steps/Remote/Answers.antt =====
-- strataqemu/tests_spec.py: what an `ssh_run` that returns says of the guest.
use strata_qemu_testing.Base.{
  ℕ, Bool, true, false, not, ◌&&◌, Option, none, some, List, if◌then◌else◌, Result, ok, err, ◌≡◌,
  refl, ap, ok-injective, sym, arith,
}
use mathlib.Core.Path.{subst}
use strata_qemu_testing.Base.Text.{Text}
use strata_qemu_testing.Guest.Toml.{zero_int}
use strata_qemu_testing.Ssh.{default_host, ssh_command}
use strata_qemu_testing.RunTest.Exec.{Gives, Gives-bind, Gives-then, Gives-map, returned}
use strata_qemu_testing.Steps.Remote.{
  Proc, RunError, expired, os_failed, StepError, Remote, Progress, machine_ssh, ssh_ended, ssh_sent,
  ssh_checked, ssh_run,
}

module _ {W : Type 0} (fx : Remote W) where
  -- The words of the command line that sends a command to the guest.
  abbrev pub sends : Text → Text → List Text
  sends identity command =
      ssh_command fx.machine.ssh_port identity default_host fx.machine.user (some command) false

  -- The process that sends this command to the guest was run, and this is its answer.
  pub record Answer (command : Text) (proc : Proc) : Type 0 where
    pub identity : Text
    pub has_identity : fx.machine.identity ≡ some identity
    pub time : ℕ
    pub world : W
    pub answered : (fx.run (sends identity command) (some time) world).0 ≡ ok proc

  -- The answer has exit status 0.
  abbrev pub Succeeded : Text → Proc → Type 0
  Succeeded command proc = Answer command proc × (zero_int proc.returncode ≡ true)

  abbrev Sends : Text → List Text → Type 0
  Sends command argv =
      (identity : Text) × (fx.machine.identity ≡ some identity) × (argv ≡ sends identity command)

  identity-Sends :
      (command : Text) (s t : Progress W) (argv : List Text) (o : Option Text) (e : StepError)
      → fx.machine.identity ≡ o
      → ◌≡◌ {A = Result StepError (List Text) × Progress W}
          (elim o [ none ↦ (err e, s) | some identity ↦ (ok (sends identity command), s) ])
          (ok argv, t)
      → Sends command argv
  identity-Sends command s t argv none e there h = absurd (let x = ap (λ q. q.0) h in cc)
  identity-Sends command s t argv (some identity) e there h =
      (identity, there, sym (ok-injective (sends identity command) argv (returned _ s h).0))

  machine_ssh-Sends : (command : Text) → Gives (Sends command) (machine_ssh fx command)
  unfolding machine_ssh
  machine_ssh-Sends command = record {
    at = λ s t argv h. identity-Sends command s t argv fx.machine.identity _ refl h;
  }

  ssh_ended-ok :
      (command : Text) (s : Progress W) (q : Result RunError Proc × W) (t : Progress W)
      (proc : Proc)
      → ssh_ended fx command s q ≡ (ok proc, t)
      → q.0 ≡ ok proc
  unfolding ssh_ended
  ssh_ended-ok command s (ok p, w) t proc h = ap ok (ok-injective p proc (ap (λ q. q.0) h))
  ssh_ended-ok command s (err (expired out), w) t proc h = absurd (let e = ap (λ q. q.0) h in cc)
  ssh_ended-ok command s (err (os_failed text), w) t proc h = absurd (let e = ap (λ q. q.0) h in cc)

  ssh_sent-Answer :
      (command : Text) (time : ℕ) (argv : List Text)
      → Sends command argv
      → Gives (Answer command) (ssh_sent fx command time argv)
  unfolding ssh_sent
  ssh_sent-Answer command time argv (identity, there, words) = record {
    at = λ s t proc h. record {
      identity = identity;
      has_identity = there;
      time = time;
      world = s.world;
      answered =
          subst (λ a. (fx.run a (some time) s.world).0 ≡ ok proc) words
            (ssh_ended-ok command s (fx.run argv (some time) s.world) t proc h);
    };
  }

  if-passed :
      (test : Bool) (e : StepError) (proc p : Proc) (s t : Progress W)
      → ◌≡◌ {A = Result StepError Proc × Progress W}
          (if test then (err e, s) else (ok proc, s))
          (ok p, t)
      → (test ≡ false) × (proc ≡ p)
  if-passed true e proc p s t h = absurd (let x = ap (λ q. q.0) h in cc)
  if-passed false e proc p s t h = (refl, ok-injective proc p (returned _ s h).0)

  ssh_checked-passed :
      (check : Bool) (command : Text) (proc : Proc)
      → Gives
          (λ p. (check && not (zero_int proc.returncode) ≡ false) × (proc ≡ p))
          (ssh_checked fx check command proc)
  unfolding ssh_checked
  ssh_checked-passed check command proc = record {
    at = λ s t p h. if-passed (check && not (zero_int proc.returncode)) _ proc p s t h;
  }

  not-false : (b : Bool) → true && not b ≡ false → b ≡ true
  not-false b h = ground arith

  -- What a command that returns gives was the answer of the guest to it.
  pub ssh_run-Answer :
      (command : Text) (time : ℕ) (check : Bool)
      → Gives (Answer command) (ssh_run fx command time check)
  unfolding ssh_run
  ssh_run-Answer command time check = Gives-then _ λ _.
      Gives-bind (machine_ssh-Sends command) λ argv words.
        Gives-bind (ssh_sent-Answer command time argv words) λ proc answer.
          Gives-map (λ p passed. subst (Answer command) passed.1 answer)
            (ssh_checked-passed check command proc)

  -- With `check=True`, it had exit status 0.
  pub ssh_run-Succeeded :
      (command : Text) (time : ℕ) → Gives (Succeeded command) (ssh_run fx command time true)
  unfolding ssh_run
  ssh_run-Succeeded command time = Gives-then _ λ _.
      Gives-bind (machine_ssh-Sends command) λ argv words.
        Gives-bind (ssh_sent-Answer command time argv words) λ proc answer.
          Gives-map
            (λ p passed.
              subst (Succeeded command) passed.1
                (answer, not-false (zero_int proc.returncode) passed.0))
            (ssh_checked-passed true command proc)
