-- ===== src/Build/Wait/Limit.antt =====
-- strataqemu/image_build.py: `wait_ssh` sends no more probes than its limit, and returns only behind one
-- that the guest has answered.
use strata_qemu_testing.Base.{
  ℕ, zero, suc, ◌+◌, ◌*◌, ◌≤◌, Bool, true, false, some, List, [], ◌∷◌, Result, ok, err, ltb, leb,
  length, length-append, arith, if-cases,
}
use native.Mathlib.Nat.{le_refl}
use strata_qemu_testing.Base.Text.{Text, codes}
use strata_qemu_testing.Guest.Toml.{zero_int}
use strata_qemu_testing.RunTest.Exec.{follow, ◌>>=◌}
use strata_qemu_testing.Steps.Remote.{
  Proc, RunError, expired, os_failed, exit_entry, timeout_entry, blob_of,
}
use strata_qemu_testing.Build.Facts.{default_max_attempts, ssh_wait_sleep, ssh_auth_rejected}
use strata_qemu_testing.Build.Bench.{
  Machine, BuildError, image_build, timed_out, command_expired, os_error, value_error,
  process_failed, address_in_use, interrupted, Builder, Bench, Work, touch, nap, machine_ssh,
  ssh_ended, ssh_sent, ssh_checked, ssh_run, capture_build_timeout_evidence, check_process,
}
use strata_qemu_testing.Build.Wait.{
  Round, finished, again, next_round, rounds, ssh_refused, ssh_judged, ssh_caught, ssh_probe,
  ssh_body, wait_ssh, ssh_exhausted, ssh_late,
}

module _ {W : Type 0} (fx : Builder W) where
  -- Code that adds no more than `n` entries to the log, however it ends.
  abbrev pub Grows : {A : Type 0} → ℕ → Work W A → Type 0
  Grows n m = (s : Bench W) → length (m s).1.log ≤ length s.log + n

  module _ {A B : Type 0} where
    follow-Grows :
        (b : ℕ) (f : A → Work W B) (q : Result BuildError A × Bench W)
        → ((a : A) → Grows b (f a))
        → length (follow f q).1.log ≤ length q.1.log + b
    follow-Grows b f (ok a, s) k = k a s
    follow-Grows b f (err e, s) k = omega arith

    pub Grows-bind :
        (a b : ℕ) (m : Work W A) (f : A → Work W B)
        → Grows a m
        → ((x : A) → Grows b (f x))
        → Grows (a + b) (m >>= f)
    unfolding ◌>>=◌
    Grows-bind a b m f first rest s = omega (arith, first s, follow-Grows b f (m s) rest)

  machine_ssh-Grows : (m : Machine) (command : Text) → Grows 0 (machine_ssh fx m command)
  unfolding machine_ssh
  machine_ssh-Grows m command s = ground arith

  ssh_ended-Grows :
      (command : Text) (argv : List Text) (timeout : ℕ) (s : Bench W) (q : Result RunError Proc × W)
      → length (ssh_ended fx command argv timeout s q).1.log ≤ length s.log + 1
  unfolding ssh_ended
  ssh_ended-Grows command argv timeout s (ok proc, w) =
      omega (arith, length-append s.log (exit_entry command proc.returncode (blob_of proc) ∷ []))
  ssh_ended-Grows command argv timeout s (err (expired out), w) =
      omega (arith, length-append s.log (timeout_entry command out ∷ []))
  ssh_ended-Grows command argv timeout s (err (os_failed text), w) = omega arith

  ssh_checked-Grows :
      (check : Bool) (command : Text) (proc : Proc) → Grows 0 (ssh_checked fx check command proc)
  unfolding ssh_checked
  ssh_checked-Grows check command proc s = ground arith

  pub ssh_run-Grows :
      (m : Machine) (command : Text) (timeout : ℕ) (check : Bool)
      → Grows 1 (ssh_run fx m command timeout check)
  unfolding ssh_run ssh_sent
  ssh_run-Grows m command timeout check = Grows-bind 0 1 _ _ (machine_ssh-Grows m command) λ argv.
      Grows-bind 1 0 _ _
        (λ s. ssh_ended-Grows command argv timeout s (fx.run argv (some timeout) s.world))
        λ proc. ssh_checked-Grows check command proc

  check_process-Grows :
      (m : Machine) (what : Text) (with_log : Bool) → Grows 0 (check_process fx m what with_log)
  unfolding check_process
  check_process-Grows m what with_log s = ground arith

  capture-Grows : (m : Machine) → Grows 0 (capture_build_timeout_evidence fx m)
  unfolding capture_build_timeout_evidence touch
  capture-Grows m s = omega arith

  ssh_refused-Grows :
      (m : Machine) (reject_max rejects : ℕ) (proc : Proc)
      → Grows 0 (ssh_refused fx m reject_max rejects proc)
  unfolding ssh_refused
  ssh_refused-Grows m reject_max rejects proc s =
      if-cases (λ (w : Work W (Round (ℕ × Text) (Unit {0}))). length (w s).1.log ≤ length s.log + 0)
        (ssh_auth_rejected proc.returncode _) _ _
        (λ _.
          if-cases
            (λ (w : Work W (Round (ℕ × Text) (Unit {0}))). length (w s).1.log ≤ length s.log + 0)
            (leb reject_max (rejects + 1)) _ _
            (λ _. Grows-bind 0 0 _ _ (capture-Grows m) (λ _ t. omega arith) s) (λ _. omega arith))
        (λ _. omega arith)

  ssh_judged-Grows :
      (m : Machine) (reject_max rejects : ℕ) (proc : Proc)
      → Grows 0 (ssh_judged fx m reject_max rejects proc)
  unfolding ssh_judged
  ssh_judged-Grows m reject_max rejects proc s =
      if-cases (λ (w : Work W (Round (ℕ × Text) (Unit {0}))). length (w s).1.log ≤ length s.log + 0)
        (zero_int proc.returncode) _ _ (λ _. omega arith)
        (λ _. ssh_refused-Grows m reject_max rejects proc s)

  ssh_caught-Grows :
      (judge : Proc → Work W (Round (ℕ × Text) (Unit {0}))) (rejects : ℕ)
      (q : Result BuildError Proc × Bench W)
      → ((proc : Proc) → Grows 0 (judge proc))
      → length (ssh_caught fx judge rejects q).1.log ≤ length q.1.log
  unfolding ssh_caught
  ssh_caught-Grows judge rejects (ok proc, s) k = omega (arith, k proc s)
  ssh_caught-Grows judge rejects (err (os_error text), s) k = le_refl _
  ssh_caught-Grows judge rejects (err (command_expired text), s) k = le_refl _
  ssh_caught-Grows judge rejects (err (image_build text), s) k = le_refl _
  ssh_caught-Grows judge rejects (err (timed_out text), s) k = le_refl _
  ssh_caught-Grows judge rejects (err (value_error text), s) k = le_refl _
  ssh_caught-Grows judge rejects (err (process_failed text), s) k = le_refl _
  ssh_caught-Grows judge rejects (err (address_in_use text), s) k = le_refl _
  ssh_caught-Grows judge rejects (err interrupted, s) k = le_refl _

  ssh_body-Grows :
      (m : Machine) (reject_max : ℕ) (v : ℕ × Text) → Grows 1 (ssh_body fx m reject_max v)
  unfolding ssh_body ssh_probe
  ssh_body-Grows m reject_max v = Grows-bind 0 1 _ _ (check_process-Grows m _ true) λ _ s. omega (
    arith,
    ssh_run-Grows m (codes "true") 15000 false s,
    ssh_caught-Grows (ssh_judged fx m reject_max v.0) v.0
        (ssh_run fx m (codes "true") 15000 false s) (ssh_judged-Grows m reject_max v.0),
  )

  module _ {S A : Type 0} (body : S → Work W (Round S A)) (deadline : ℕ)
      (exhausted late : S → Work W A) where
    next_round-Grows :
        (n : ℕ) (rest : S → Work W A)
        → ((v : S) → Grows n (rest v))
        → (r : Round S A) → Grows n (next_round fx body deadline exhausted late rest r)
    unfolding next_round nap touch ◌>>=◌
    next_round-Grows n rest k (finished a) s = omega arith
    next_round-Grows n rest k (again v) s =
        k v (record s { world = fx.sleep ssh_wait_sleep s.world })

    -- A loop adds no more than its attempts allow.
    rounds-Grows :
        (c : ℕ)
        → ((v : S) → Grows c (body v))
        → ((v : S) → Grows 0 (exhausted v))
        → ((v : S) → Grows 0 (late v))
        → (left : ℕ) (v : S) → Grows (c * left) (rounds fx body deadline exhausted late left v)
    unfolding rounds
    rounds-Grows c kb ke kl zero v s =
        if-cases (λ (q : Result BuildError A × Bench W). length q.1.log ≤ length s.log + c * 0)
          (ltb (fx.monotonic s.world) deadline) _ _ (λ _. omega (arith, ke v s))
          (λ _. omega (arith, kl v s))
    rounds-Grows c kb ke kl (suc left) v s =
        if-cases
          (λ (q : Result BuildError A × Bench W). length q.1.log ≤ length s.log + c * suc left)
          (ltb (fx.monotonic s.world) deadline) _ _
          (λ _. omega (
            arith,
            Grows-bind c (c * left) (body v)
                (next_round fx body deadline exhausted late
                  (rounds fx body deadline exhausted late left))
                (kb v) (next_round-Grows (c * left) _ (rounds-Grows c kb ke kl left)) s,
          ))
          (λ _. omega (arith, kl v s))

  -- Whatever the clock does, the wait for SSH sends no more probes than the attempts that its time gives.
  pub wait_ssh-limit :
      (m : Machine) (timeout reject_max : ℕ) (s : Bench W)
      → length (wait_ssh fx m timeout reject_max s).1.log
        ≤ length s.log + default_max_attempts timeout
  unfolding wait_ssh
  wait_ssh-limit m timeout reject_max s = omega (
    arith,
    rounds-Grows (ssh_body fx m reject_max) (fx.monotonic s.world + timeout)
        (ssh_exhausted fx (default_max_attempts timeout)) (ssh_late fx) 1
        (ssh_body-Grows m reject_max) (λ v t. omega arith) (λ v t. omega arith)
        (default_max_attempts timeout) (0, []) s,
  )
