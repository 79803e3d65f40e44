-- ===== src/Steps/Wait/Clock.antt =====
-- strataqemu/tests_spec.py: the probes of the polling loops do not turn the clock back, so that the
-- loops of the source end.
use strata_qemu_testing.Base.{
  ℕ, ◌+◌, ◌≤◌, Bool, true, false, none, some, List, Result, ok, err, arith, if-cases, if◌then◌else◌,
  ◌&&◌, not,
}
use native.Mathlib.Nat.{le_refl}
use strata_qemu_testing.Base.Text.{Text, codes, contains}
use strata_qemu_testing.Guest.Toml.{zero_int}
use strata_qemu_testing.Ssh.{ssh_command, default_host}
use strata_qemu_testing.Session.Parse.{Props, has_key}
use strata_qemu_testing.RunTest.Exec.{Triple, Triple-bind, Leaves}
use strata_qemu_testing.Steps.Remote.{
  Proc, RunError, expired, os_failed, StepError, value_error, Remote, Progress, Step, remember,
  machine_ssh, ssh_ended, ssh_sent, ssh_checked, ssh_run,
}
use strata_qemu_testing.Steps.Wait.{
  Answer, hyprland_probe, gnome_probe, session_probe, session_answer, wait_window,
  wait_hyprland_class, wait_gnome_bus_name, is_hyprland, window_timeout,
}
use strata_qemu_testing.Steps.Wait.Loop.{IsSteady, Ends, wait_until-Ends}

module _ {W : Type 0} (fx : Remote W) where
  -- The clock shows this time or a later one.
  abbrev pub Since : ℕ → Progress W → Type 0
  Since time s = time ≤ fx.monotonic s.world

  -- Code that does not turn the clock back, whether it returns or raises.
  abbrev pub Forward : {A : Type 0} → Step W A → Type 0
  Forward m = (time : ℕ) → Triple (Since time) (Since time) (Since time) m

  module _ {A : Type 0} (m : Step W A) (forward : Forward m) where
    Leaves-Since :
        (time : ℕ) (q : Result StepError A × Progress W)
        → Leaves (Since time) (Since time) q
        → time ≤ fx.monotonic q.1.world
    Leaves-Since time (ok a, s) h = h
    Leaves-Since time (err e, s) h = h

    pub Forward-later : (s : Progress W) → fx.monotonic s.world ≤ fx.monotonic (m s).1.world
    Forward-later s =
        Leaves-Since (fx.monotonic s.world) (m s)
          ((forward (fx.monotonic s.world)).at s (le_refl _))

module _ {W : Type 0} (fx : Remote W) (steady : IsSteady fx) where
  remember-Forward : (command : Text) → Forward fx (remember fx command)
  unfolding remember
  remember-Forward command time = record { at = λ s h. h }

  machine_ssh-Forward : (command : Text) → Forward fx (machine_ssh fx command)
  unfolding machine_ssh
  machine_ssh-Forward command time = record {
    at = λ s h.
        elim fx.machine.identity
          as (λ o.
            Leaves {S = Progress W} {F = StepError} {A = List Text} (Since fx time) (Since fx time)
              (elim o [
                | none ↦ (err (value_error (codes "identity is required for ssh")), s)
                | some identity ↦ (
                  ok (
                      ssh_command fx.machine.ssh_port identity default_host fx.machine.user
                        (some command) false),
                  s,
                )
              ])) [ none ↦ h | some identity ↦ h ];
  }

  ssh_ended-Since :
      (command : Text) (time : ℕ) (s : Progress W) (q : Result RunError Proc × W)
      → time ≤ fx.monotonic q.1
      → Leaves (Since fx time) (Since fx time) (ssh_ended fx command s q)
  unfolding ssh_ended
  ssh_ended-Since command time s (ok proc, w) h = h
  ssh_ended-Since command time s (err (expired out), w) h = h
  ssh_ended-Since command time s (err (os_failed text), w) h = h

  ssh_sent-Forward :
      (command : Text) (timeout : ℕ) (argv : List Text)
      → Forward fx (ssh_sent fx command timeout argv)
  unfolding ssh_sent
  ssh_sent-Forward command timeout argv time = record {
    at = λ s h.
        ssh_ended-Since command time s (fx.run argv (some timeout) s.world)
          (omega (arith, h, steady.run_later argv (some timeout) s.world));
  }

  ssh_checked-Forward :
      (check : Bool) (command : Text) (proc : Proc) → Forward fx (ssh_checked fx check command proc)
  unfolding ssh_checked
  ssh_checked-Forward check command proc time = record {
    at = λ s h.
        if-cases (Leaves (Since fx time) (Since fx time)) (check && not (zero_int proc.returncode))
          _ _ (λ _. h) (λ _. h);
  }

  pub ssh_run-Forward :
      (command : Text) (timeout : ℕ) (check : Bool) → Forward fx (ssh_run fx command timeout check)
  unfolding ssh_run
  ssh_run-Forward command timeout check time =
      Triple-bind _ _ _ _ _ (remember-Forward command time) λ _.
        Triple-bind _ _ _ _ _ (machine_ssh-Forward command time) λ argv.
          Triple-bind _ _ _ _ _ (ssh_sent-Forward command timeout argv time)
            λ proc. ssh_checked-Forward check command proc time

  hyprland_probe-Forward : (env : Props) → Forward fx (hyprland_probe fx env)
  unfolding hyprland_probe
  hyprland_probe-Forward env time =
      Triple-bind _ _ _ _ _ (ssh_run-Forward _ _ _ time) λ proc. record { at = λ s h. h }

  gnome_probe-Forward : (env : Props) → Forward fx (gnome_probe fx env)
  unfolding gnome_probe
  gnome_probe-Forward env time =
      Triple-bind _ _ _ _ _ (ssh_run-Forward _ _ _ time) λ proc. record { at = λ s h. h }

  session_answer-Forward : (proc : Proc) → Forward fx (session_answer fx proc)
  unfolding session_answer
  session_answer-Forward proc time = record {
    at = λ s h.
        if-cases (Leaves (Since fx time) (Since fx time)) (zero_int proc.returncode) _ _
          (λ _.
            if-cases (Leaves (Since fx time) (Since fx time)) (has_key _ _) _ _ (λ _. h) (λ _. h))
          (λ _.
            if-cases (Leaves (Since fx time) (Since fx time)) (contains _ _) _ _ (λ _. h) (λ _. h));
  }

  session_probe-Forward : (compositor : Text) → Forward fx (session_probe fx compositor)
  unfolding session_probe
  session_probe-Forward compositor time =
      Triple-bind _ _ _ _ _ (ssh_run-Forward _ _ _ time) λ proc. session_answer-Forward proc time

  -- The loop of the probe, in 45 seconds with a pause of one second.
  abbrev pub WindowEnds :
      Step W (Answer (Unit {0})) → Progress W → Result StepError (Unit {0}) × Progress W → Type 0
  WindowEnds probe s q =
      (late : Text → Text) × Ends fx probe (fx.monotonic s.world + window_timeout fx) 1000 late s
        (codes "no probe yet") q

  window-cases :
      (hyprland : Bool) (env : Props) (s : Progress W)
      → WindowEnds (if hyprland then hyprland_probe fx env else gnome_probe fx env) s (
          (if hyprland
              then wait_hyprland_class fx env (window_timeout fx)
              else wait_gnome_bus_name fx env (window_timeout fx))
            s)
  unfolding wait_hyprland_class wait_gnome_bus_name
  window-cases true env s = (
    _,
    wait_until-Ends fx steady (hyprland_probe fx env)
        (Forward-later fx _ (hyprland_probe-Forward env)) (window_timeout fx) 1000 _ s
        (omega arith),
  )
  window-cases false env s = (
    _,
    wait_until-Ends fx steady (gnome_probe fx env) (Forward-later fx _ (gnome_probe-Forward env))
        (window_timeout fx) 1000 _ s (omega arith),
  )

  -- On a clock that does not go back and in which a sleep takes its time, the wait for the window ends, as
  -- the loop of the source does, after a finite number of rounds of the probe of the compositor: by an
  -- answer, by an exception of the probe, or by a `TimeoutError` 45 seconds or more behind the start.
  pub wait_window-Ends :
      (env : Props) (compositor : Text) (s : Progress W)
      → WindowEnds
          (if is_hyprland fx compositor then hyprland_probe fx env else gnome_probe fx env)
          s
          (wait_window fx env compositor s)
  unfolding wait_window
  wait_window-Ends env compositor s = window-cases (is_hyprland fx compositor) env s
