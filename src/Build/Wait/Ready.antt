-- ===== src/Build/Wait/Ready.antt =====
-- strataqemu/image_build.py: `wait_ssh` and `wait_iso_autoinstall` return only behind an answer of the guest.
use strata_qemu_testing.Base.{
  ℕ, zero, suc, ◌+◌, ◌≡◌, refl, ap, true, false, [], Result, ok, err, ltb, leb, inl, inr,
  Bool-cases,
}
use mathlib.Core.Path.{subst}
use strata_qemu_testing.Base.Text.{Text, codes}
use strata_qemu_testing.Guest.Toml.{zero_int}
use strata_qemu_testing.RunTest.Exec.{exec_elim, pure-injective}
use strata_qemu_testing.Steps.Remote.{Proc}
use strata_qemu_testing.Build.Facts.{default_max_attempts, ssh_auth_rejected}
use strata_qemu_testing.Build.Bench.{
  Machine, BuildError, image_build, timed_out, command_expired, os_error, value_error,
  process_failed, address_in_use, interrupted, Builder, Bench, Work, nap, ssh_run, check_process,
  capture_build_timeout_evidence,
}
use strata_qemu_testing.Build.Wait.{
  Round, finished, again, next_round, rounds, ssh_refused, ssh_judged, ssh_caught, ssh_probe,
  ssh_body, wait_ssh, ssh_exhausted, ssh_late, Rejects, last_output,
}

module _ {W : Type 0} (fx : Builder W) where
  -- The guest has run this command with success, and the state is the one behind it.
  abbrev pub Answered : Machine → Text → Bench W → Type 0
  Answered m command t =
      (s : Bench W) × (proc : Proc) × (ssh_run fx m command 15000 false s ≡ (ok proc, t))
      × (zero_int proc.returncode ≡ true)

  module _ {S A : Type 0} (body : S → Work W (Round S A)) (deadline : ℕ)
      (exhausted late : S → Work W A) (P : A → Bench W → Type 0)
      (final : (v : S) (s t : Bench W) (a : A) → body v s ≡ (ok (finished a), t) → P a t)
      (no_exhausted : (v : S) (s t : Bench W) (a : A) → exhausted v s ≡ (ok a, t) → ⊥)
      (no_late : (v : S) (s t : Bench W) (a : A) → late v s ≡ (ok a, t) → ⊥) where
    next_round-P :
        (rest : S → Work W A)
        → ((v : S) (s t : Bench W) (a : A) → rest v s ≡ (ok a, t) → P a t)
        → (v : S) (s s1 t : Bench W) (r : Round S A) (a : A) → body v s ≡ (ok r, s1)
        → next_round fx body deadline exhausted late rest r s1 ≡ (ok a, t)
        → P a t
    unfolding next_round
    next_round-P rest k v s s1 t (finished x) a e h =
        let ends = pure-injective x s1 h in
        subst (λ y. P y t) ends.0 (subst (P x) ends.1 (final v s s1 x e))
    next_round-P rest k v s s1 t (again v') a e h =
        exec_elim (nap fx _) _ s1 h λ _ s2 _ h. k v' s2 t a h

    -- What a loop returns is what one of its rounds has finished with.
    pub rounds-P :
        (left : ℕ) (v : S) (s t : Bench W) (a : A)
        → rounds fx body deadline exhausted late left v s ≡ (ok a, t)
        → P a t
    unfolding rounds
    rounds-P zero v s t a h = elim (Bool-cases (ltb (fx.monotonic s.world) deadline)) [
      | inl early ↦ absurd (no_exhausted v s t a (rw early at h))
      | inr over ↦ absurd (no_late v s t a (rw over at h))
    ]
    rounds-P (suc left) v s t a h = elim (Bool-cases (ltb (fx.monotonic s.world) deadline)) [
      | inl early ↦ exec_elim (body v) _ s (rw early at h) λ r s1 e h.
          next_round-P (rounds fx body deadline exhausted late left) (rounds-P left) v s s1 t r a e
            h
      | inr over ↦ absurd (no_late v s t a (rw over at h))
    ]

  pub raised_not_ok :
      {A : Type 0} (e : BuildError) (s t : Bench W) (a : A)
      → ◌≡◌ {A = Result BuildError A × Bench W} (err e, s) (ok a, t)
      → ⊥
  raised_not_ok e s t a h = let x = ap (λ q. q.0) h in cc

  again_not_finished :
      (v : Rejects fx) (s t : Bench W)
      → ◌≡◌ {A = Result BuildError (Round (Rejects fx) (Unit {0})) × Bench W}
          (ok (again v), s)
          (ok (finished tt), t)
      → ⊥
  again_not_finished v s t h = let x = (pure-injective (again v) s h).0 in cc

  refused_not_finished :
      (m : Machine) (reject_max rejects : ℕ) (proc : Proc) (s t : Bench W)
      → ssh_refused fx m reject_max rejects proc s ≡ (ok (finished tt), t)
      → ⊥
  unfolding ssh_refused
  refused_not_finished m reject_max rejects proc s t h =
      elim (Bool-cases (ssh_auth_rejected proc.returncode (last_output fx proc))) [
        | inr other ↦ again_not_finished _ s t (rw other at h)
        | inl rejected ↦ elim (Bool-cases (leb reject_max (rejects + 1))) [
          | inr fewer ↦ again_not_finished _ s t (rw (rejected, fewer) at h)
          | inl enough ↦
              exec_elim (capture_build_timeout_evidence fx m) _ s (rw (rejected, enough) at h)
                λ _ s1 _ h. raised_not_ok _ s1 t (finished tt) h
        ]
      ]

  ssh_caught-Answered :
      (m : Machine) (reject_max rejects : ℕ) (s t : Bench W) (q : Result BuildError Proc × Bench W)
      → ssh_run fx m (codes "true") 15000 false s ≡ q
      → ssh_caught fx (ssh_judged fx m reject_max rejects) rejects q ≡ (ok (finished tt), t)
      → Answered m (codes "true") t
  unfolding ssh_caught ssh_judged
  ssh_caught-Answered m reject_max rejects s t (ok proc, s1) e h =
      elim (Bool-cases (zero_int proc.returncode)) [
        | inl success ↦
            let same = (pure-injective (finished tt) s1 (rw success at h)).1 in
            subst (Answered m (codes "true")) same (s, proc, e, success)
        | inr failed ↦ absurd (refused_not_finished m reject_max rejects proc s1 t (rw failed at h))
      ]
  ssh_caught-Answered m reject_max rejects s t (err (os_error text), s1) e h =
      absurd (again_not_finished _ s1 t h)
  ssh_caught-Answered m reject_max rejects s t (err (command_expired text), s1) e h =
      absurd (again_not_finished _ s1 t h)
  ssh_caught-Answered m reject_max rejects s t (err (image_build text), s1) e h =
      absurd (raised_not_ok _ s1 t (finished tt) h)
  ssh_caught-Answered m reject_max rejects s t (err (timed_out text), s1) e h =
      absurd (raised_not_ok _ s1 t (finished tt) h)
  ssh_caught-Answered m reject_max rejects s t (err (value_error text), s1) e h =
      absurd (raised_not_ok _ s1 t (finished tt) h)
  ssh_caught-Answered m reject_max rejects s t (err (process_failed text), s1) e h =
      absurd (raised_not_ok _ s1 t (finished tt) h)
  ssh_caught-Answered m reject_max rejects s t (err (address_in_use text), s1) e h =
      absurd (raised_not_ok _ s1 t (finished tt) h)
  ssh_caught-Answered m reject_max rejects s t (err interrupted, s1) e h =
      absurd (raised_not_ok _ s1 t (finished tt) h)

  ssh_body-Answered :
      (m : Machine) (reject_max : ℕ) (v : Rejects fx) (s t : Bench W) (u : Unit {0})
      → ssh_body fx m reject_max v s ≡ (ok (finished u), t)
      → Answered m (codes "true") t
  unfolding ssh_body ssh_probe
  ssh_body-Answered m reject_max v s t tt h =
      exec_elim (check_process fx m _ true) _ s h λ _ s1 _ h.
        ssh_caught-Answered m reject_max v.0 s1 t (ssh_run fx m (codes "true") 15000 false s1) refl
          h

  -- If the wait for SSH returns, then it does so behind a command that the guest has run with success.
  pub wait_ssh-Answered :
      (m : Machine) (timeout reject_max : ℕ) (s t : Bench W)
      → wait_ssh fx m timeout reject_max s ≡ (ok tt, t)
      → Answered m (codes "true") t
  unfolding wait_ssh
  wait_ssh-Answered m timeout reject_max s t h =
      rounds-P (ssh_body fx m reject_max) (fx.monotonic s.world + timeout)
        (ssh_exhausted fx (default_max_attempts timeout)) (ssh_late fx)
        (λ _ t. Answered m (codes "true") t) (λ v s t a. ssh_body-Answered m reject_max v s t a)
        (λ v s t a h. raised_not_ok _ s t a h) (λ v s t a h. raised_not_ok _ s t a h)
        (default_max_attempts timeout) (0, []) s t tt h
