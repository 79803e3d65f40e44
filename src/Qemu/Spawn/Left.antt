-- ===== src/Qemu/Spawn/Left.antt =====
-- `_spawn_qemu` and `_spawn_overlay_vm`: QEMU is left running only by an interrupt in the sleep behind its start.
use strata_qemu_testing.Base.{
  ℕ, zero, suc, Bool, true, false, Option, none, some, List, [], Result, ok, err, ◌≡◌, refl, ap,
  ltb, Bool-cases, inl, inr,
}
use strata_qemu_testing.Base.Text.{Text}
use strata_qemu_testing.Guest.Toml.{ℤ}
use strata_qemu_testing.Ports.Alloc.{
  PortError, value_error, os_error, no_free_port, allocate_ssh_port, allocate_vnc_port,
}
use strata_qemu_testing.Ports.Retry.{
  CallError, address_already_in_use, raised, bad_attempts, Outcome, after_call, retry_loop,
  retry_on_addr_in_use, is_address_already_in_use, max_port_retries,
}
use strata_qemu_testing.Qemu.Argv.{ArgvError, build_qemu_argv}
use strata_qemu_testing.RunTest.Exec.{Exec, ◌>>=◌, pure, follow}
use strata_qemu_testing.Qemu.Spawn.{
  Raises, Launcher, SpawnFailure, spawn_raised, left_running, MachinePorts, Launch, ported,
  ssh_port_part, vnc_port_part, write_port, argv_of, launched, launch, settled, settle_part, exited,
  polled, check_started, attempt, spawn_ended, spawn,
}

module _ {W E : Type 0} (raises : Raises E) (fx : Launcher W E) where
  -- An interrupt came in a sleep of this length.
  abbrev pub Interrupted : ℕ → Type 0
  Interrupted time = (w : W) × ((fx.sleep time w).0 ≡ false)

  -- An exception that leaves QEMU running comes with such an interrupt.
  abbrev pub Explained : ℕ → SpawnFailure E → Type 0
  Explained time (spawn_raised e) = Unit {0}
  Explained time left_running = Interrupted time

  abbrev Calls : {A : Type 0} → ℕ → Outcome (SpawnFailure E) A → Type 0
  Calls time (ok a) = Unit {0}
  Calls time (err (address_already_in_use text)) = Unit {0}
  Calls time (err (raised e)) = Explained time e
  Calls time (err bad_attempts) = Unit {0}

  module _ (time : ℕ) where
    bind-Calls :
        {A B : Type 0} (f : A → Exec W (CallError (SpawnFailure E)) B)
        (q : Outcome (SpawnFailure E) A × W)
        → Calls time q.0
        → ((a : A) (w : W) → Calls time (f a w).0)
        → Calls time (follow f q).0
    bind-Calls f (ok a, w) h k = k a w
    bind-Calls f (err (address_already_in_use text), w) h k = tt
    bind-Calls f (err (raised e), w) h k = h
    bind-Calls f (err bad_attempts, w) h k = tt

    ported-Calls : (q : Result PortError ℕ × W) → Calls time (ported raises fx q).0
    unfolding ported
    ported-Calls (ok port, w) = tt
    ported-Calls (err value_error, w) = tt
    ported-Calls (err (os_error n), w) = tt
    ported-Calls (err (no_free_port a b), w) = tt

    vnc_port_part-Calls :
        (headless : Bool) (w : W) → Calls time (vnc_port_part raises fx headless w).0
    unfolding vnc_port_part ◌>>=◌
    vnc_port_part-Calls true w =
        bind-Calls (λ port. pure (some port)) (ported raises fx (allocate_vnc_port fx.bind w))
          (ported-Calls (allocate_vnc_port fx.bind w)) λ port w1. tt
    vnc_port_part-Calls false w = tt

    argv_of-Calls : (r : Result ArgvError (List Text)) → Calls time (argv_of raises fx r)
    unfolding argv_of
    argv_of-Calls (ok argv) = tt
    argv_of-Calls (err e) = tt

    launched-Calls : (q : Result E (Unit {0}) × W) → Calls time (launched raises fx q).0
    unfolding launched
    launched-Calls (ok u, w) = tt
    launched-Calls (err e, w) = tt

    settled-Calls :
        (w : W) (q : Bool × W) → fx.sleep time w ≡ q → Calls time (settled raises fx q).0
    unfolding settled
    settled-Calls w (true, w1) h = tt
    settled-Calls w (false, w1) h = (w, ap (λ q. q.0) h)

    settle_part-Calls : (w : W) → Calls time (settle_part raises fx time w).0
    unfolding settle_part
    settle_part-Calls w = elim (Bool-cases (ltb 0 time)) [
      | inl some_ ↦ rw some_ (settled-Calls w (fx.sleep time w) refl)
      | inr never ↦ rw never tt
    ]

    exited-Calls : (code : ℤ) (text : Text) → Calls time (exited raises fx code text)
    unfolding exited
    exited-Calls code text = elim (Bool-cases (is_address_already_in_use text)) [
      | inl taken ↦ rw taken tt
      | inr other ↦ rw other tt
    ]

    polled-Calls : (o : Option ℤ) (text : Text) → Calls time (polled raises fx o text)
    unfolding polled
    polled-Calls none text = tt
    polled-Calls (some code) text = exited-Calls code text

    check_started-Calls :
        (run_dir : Text) (w : W) → Calls time (check_started raises fx run_dir w).0
    unfolding check_started
    check_started-Calls run_dir w = polled-Calls _ _

    ssh_port_part-Calls : (w : W) → Calls time (ssh_port_part raises fx w).0
    unfolding ssh_port_part
    ssh_port_part-Calls w = ported-Calls (allocate_ssh_port fx.bind w)

    launch-Calls : (argv : List Text) (w : W) → Calls time (launch raises fx argv w).0
    unfolding launch
    launch-Calls argv w = launched-Calls (fx.popen argv w)

    write_port-Calls :
        (run_dir : Text) (port : ℕ) (w : W) → Calls time (write_port raises fx run_dir port w).0
    unfolding write_port
    write_port-Calls run_dir port w = tt

  attempt-Calls : (a : Launch) (w : W) → Calls a.settle (attempt raises fx a w).0
  unfolding attempt ◌>>=◌
  attempt-Calls a w =
      bind-Calls a.settle _ (ssh_port_part raises fx w) (ssh_port_part-Calls a.settle w) λ port w1.
        bind-Calls a.settle _ (vnc_port_part raises fx a.headless w1)
          (vnc_port_part-Calls a.settle a.headless w1)
          λ vnc w2.
            bind-Calls a.settle _ (write_port raises fx a.run_dir port w2)
              (write_port-Calls a.settle a.run_dir port w2)
              λ _ w3.
                bind-Calls a.settle _
                  (argv_of raises fx (build_qemu_argv fx.resolve (a.config port vnc)), w3)
                  (argv_of-Calls a.settle (build_qemu_argv fx.resolve (a.config port vnc)))
                  λ argv w4.
                    bind-Calls a.settle _ (launch raises fx argv w4) (launch-Calls a.settle argv w4)
                      λ _ w5.
                        bind-Calls a.settle _ (settle_part raises fx a.settle w5)
                          (settle_part-Calls a.settle w5)
                          λ _ w6.
                            bind-Calls a.settle _ (check_started raises fx a.run_dir w6)
                              (check_started-Calls a.settle a.run_dir w6) λ _ w7. tt

  after_call-Calls :
      {A : Type 0} (time : ℕ) (again : Text → W → Outcome (SpawnFailure E) A × W)
      (q : Outcome (SpawnFailure E) A × W)
      → Calls time q.0
      → ((text : Text) (w : W) → Calls time (again text w).0)
      → Calls time (after_call again q).0
  unfolding after_call
  after_call-Calls time again (ok a, w) h k = tt
  after_call-Calls time again (err (address_already_in_use text), w) h k = k text w
  after_call-Calls time again (err (raised e), w) h k = h
  after_call-Calls time again (err bad_attempts, w) h k = tt

  retry_loop-Calls :
      (a : Launch) (n : ℕ) (last : Text) (w : W)
      → Calls a.settle (retry_loop (attempt raises fx a) n last w).0
  unfolding retry_loop
  retry_loop-Calls a zero last w = tt
  retry_loop-Calls a (suc n) last w =
      after_call-Calls a.settle (retry_loop (attempt raises fx a) n) (attempt raises fx a w)
        (attempt-Calls a w) (retry_loop-Calls a n)

  retry-Calls :
      (a : Launch) (n : ℕ) (w : W)
      → Calls a.settle (retry_on_addr_in_use (attempt raises fx a) n w).0
  unfolding retry_on_addr_in_use
  retry-Calls a n w = elim (Bool-cases (ltb n 1)) [
    | inl none_ ↦ rw none_ tt
    | inr some_ ↦ rw some_ (retry_loop-Calls a n [] w)
  ]

  -- What the result of a spawn says of an interrupt.
  abbrev pub Spawned : {A : Type 0} → ℕ → Result (SpawnFailure E) A → Type 0
  Spawned time (ok a) = Unit {0}
  Spawned time (err e) = Explained time e

  spawn_ended-Spawned :
      (time : ℕ) (q : Outcome (SpawnFailure E) MachinePorts × W)
      → Calls time q.0
      → Spawned time (spawn_ended raises fx q).0
  unfolding spawn_ended
  spawn_ended-Spawned time (ok m, w) h = tt
  spawn_ended-Spawned time (err (address_already_in_use text), w) h = tt
  spawn_ended-Spawned time (err (raised e), w) h = h
  spawn_ended-Spawned time (err bad_attempts, w) h = tt

  -- A spawn that leaves QEMU running was interrupted in the sleep behind the start.
  pub spawn-Spawned : (a : Launch) (w : W) → Spawned a.settle (spawn raises fx a w).0
  unfolding spawn
  spawn-Spawned a w =
      spawn_ended-Spawned a.settle (retry_on_addr_in_use (attempt raises fx a) max_port_retries w)
        (retry-Calls a max_port_retries w)
