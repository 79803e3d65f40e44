-- ===== src/Build/Wait/Version.antt =====
-- strataqemu/image_build.py: `wait_iso_autoinstall` returns only a version of the release that is installed.
use strata_qemu_testing.Base.{
  ℕ, ◌+◌, ◌≡◌, ap, Bool, true, false, [], Result, ok, err, ok-injective, inl, inr, Bool-cases,
}
use mathlib.Core.Path.{subst, sym}
use strata_qemu_testing.Base.Text.{Text, codes, strip}
use strata_qemu_testing.Guest.Toml.{zero_int}
use strata_qemu_testing.RunTest.Exec.{exec_elim, pure-injective}
use strata_qemu_testing.Steps.Remote.{Proc, blob_of}
use strata_qemu_testing.Build.Facts.{default_max_attempts, omarchy_version_ssh_command}
use strata_qemu_testing.Build.Facts.Version.{omarchy_version_matches_major}
use strata_qemu_testing.Build.Bench.{
  Machine, BuildError, image_build, timed_out, command_expired, os_error, value_error,
  process_failed, address_in_use, interrupted, Builder, Bench, ssh_run, check_process,
  capture_build_timeout_evidence,
}
use strata_qemu_testing.Build.Wait.{
  Round, finished, again, Progress, caught, try_ssh, version_judged, ask_version, ssh_answered,
  iso_round, iso_body, wait_iso_autoinstall, with_evidence,
}
use strata_qemu_testing.Build.Wait.Ready.{rounds-P, raised_not_ok}

-- What a round has finished with.
abbrev group_of : {S : Type 0} → Round S Text → Text
group_of (finished a) = a
group_of (again v) = []

module _ {W : Type 0} (fx : Builder W) where
  -- The text is what the command for the version has printed, and is one of this major version.
  abbrev pub Printed : Machine → ℕ → Text → Bench W → Type 0
  Printed m major version t =
      (s : Bench W) × (proc : Proc) × (ssh_run fx m omarchy_version_ssh_command 15000 false s
        ≡ (ok proc, t))
      × (omarchy_version_matches_major (blob_of proc) major ≡ true)
      × (version ≡ strip (blob_of proc))

  -- A result of `caught` that is a process is one of the probe.
  caught-ok :
      (q : Result BuildError Proc × Bench W) (proc : Proc) (t : Bench W)
      → caught fx q ≡ (ok (ok proc), t)
      → q ≡ (ok proc, t)
  unfolding caught
  caught-ok (ok p, s) proc t h =
      let ends = pure-injective (ok p) s h in let same = ok-injective p proc ends.0 in cc
  caught-ok (err (os_error text), s) proc t h =
      absurd (let x = (pure-injective (err text) s h).0 in cc)
  caught-ok (err (command_expired text), s) proc t h =
      absurd (let x = (pure-injective (err text) s h).0 in cc)
  caught-ok (err (image_build text), s) proc t h = absurd (raised_not_ok fx _ s t (ok proc) h)
  caught-ok (err (timed_out text), s) proc t h = absurd (raised_not_ok fx _ s t (ok proc) h)
  caught-ok (err (value_error text), s) proc t h = absurd (raised_not_ok fx _ s t (ok proc) h)
  caught-ok (err (process_failed text), s) proc t h = absurd (raised_not_ok fx _ s t (ok proc) h)
  caught-ok (err (address_in_use text), s) proc t h = absurd (raised_not_ok fx _ s t (ok proc) h)
  caught-ok (err interrupted, s) proc t h = absurd (raised_not_ok fx _ s t (ok proc) h)

  again_not :
      (v : Progress fx) (s t : Bench W) (a : Text)
      → ◌≡◌ {A = Result BuildError (Round (Progress fx) Text) × Bench W}
          (ok (again v), s)
          (ok (finished a), t)
      → ⊥
  again_not v s t a h = let x = (pure-injective (again v) s h).0 in cc

  judged-Printed :
      (m : Machine) (major : ℕ) (answer : Result Text Proc) (s s1 t : Bench W) (a : Text)
      → try_ssh fx m omarchy_version_ssh_command s ≡ (ok answer, s1)
      → ◌≡◌ {A = Result BuildError (Round (Progress fx) Text) × Bench W}
          (ok (version_judged fx major answer), s1)
          (ok (finished a), t)
      → Printed m major a t
  unfolding version_judged try_ssh
  judged-Printed m major (err text) s s1 t a e h = absurd (again_not _ s1 t a h)
  judged-Printed m major (ok proc) s s1 t a e h =
      elim (Bool-cases (omarchy_version_matches_major (blob_of proc) major)) [
        | inr other ↦ absurd (again_not _ s1 t a (rw other at h))
        | inl matches ↦
            let ends = pure-injective (finished (strip (blob_of proc))) s1 (rw matches at h) in
            let same : strip (blob_of proc) ≡ a = ap group_of ends.0 in
            subst (Printed m major a) ends.1 (
              s,
              proc,
              caught-ok (ssh_run fx m omarchy_version_ssh_command 15000 false s) proc s1 e,
              matches,
              sym same,
            )
      ]

  ask_version-Printed :
      (m : Machine) (major : ℕ) (s t : Bench W) (a : Text)
      → ask_version fx m major s ≡ (ok (finished a), t)
      → Printed m major a t
  unfolding ask_version
  ask_version-Printed m major s t a h =
      exec_elim (try_ssh fx m omarchy_version_ssh_command) _ s h
        λ answer s1 e h. judged-Printed m major answer s s1 t a e h

  ssh_answered-Printed :
      (m : Machine) (major : ℕ) (answer : Result Text Proc) (s t : Bench W) (a : Text)
      → ssh_answered fx m major answer s ≡ (ok (finished a), t)
      → Printed m major a t
  unfolding ssh_answered
  ssh_answered-Printed m major (err text) s t a h = absurd (again_not _ s t a h)
  ssh_answered-Printed m major (ok proc) s t a h = elim (Bool-cases (zero_int proc.returncode)) [
    | inl success ↦ ask_version-Printed m major s t a (rw success at h)
    | inr failed ↦ absurd (again_not _ s t a (rw failed at h))
  ]

  iso_round-Printed :
      (m : Machine) (major : ℕ) (ready : Bool) (s t : Bench W) (a : Text)
      → iso_round fx m major ready s ≡ (ok (finished a), t)
      → Printed m major a t
  unfolding iso_round
  iso_round-Printed m major true s t a h = ask_version-Printed m major s t a h
  iso_round-Printed m major false s t a h =
      exec_elim (try_ssh fx m (codes "true")) _ s h
        λ answer s1 _ h. ssh_answered-Printed m major answer s1 t a h

  iso_body-Printed :
      (m : Machine) (major : ℕ) (v : Progress fx) (s t : Bench W) (a : Text)
      → iso_body fx m major v s ≡ (ok (finished a), t)
      → Printed m major a t
  unfolding iso_body
  iso_body-Printed m major v s t a h =
      exec_elim (check_process fx m _ true) _ s h λ _ s1 _ h. iso_round-Printed m major v.0 s1 t a h

  evidence_not_ok :
      (m : Machine) (text : Text) (s t : Bench W) (a : Text)
      → with_evidence fx m text s ≡ (ok a, t)
      → ⊥
  evidence_not_ok m text s t a h =
      exec_elim (capture_build_timeout_evidence fx m) _ s h λ _ s1 _ h. raised_not_ok fx _ s1 t a h

  -- If the wait for an autoinstall returns a text, then the guest has printed it, stripped, as its version,
  -- and it is one of the major version that is installed.
  pub wait_iso_autoinstall-Printed :
      (m : Machine) (major timeout : ℕ) (s t : Bench W) (version : Text)
      → wait_iso_autoinstall fx m major timeout s ≡ (ok version, t)
      → Printed m major version t
  unfolding wait_iso_autoinstall
  wait_iso_autoinstall-Printed m major timeout s t version h =
      rounds-P fx (iso_body fx m major) (fx.monotonic s.world + timeout) _ _ (Printed m major)
        (iso_body-Printed m major) (λ v s t a h. evidence_not_ok m _ s t a h)
        (λ v s t a h. evidence_not_ok m _ s t a h) (default_max_attempts timeout) (false, []) s t
        version h
