-- ===== src/Build/Live/Report.antt =====
-- strataqemu/image_build.py: what `run_image_build` reports is what `build_live` has done.
use strata_qemu_testing.Base.{
  ℕ, Bool, true, false, not, ◌&&◌, Option, none, some, [], if◌then◌else◌, Result, ok, err, ◌≡◌,
  refl, ap, Bool-cases, inl, inr, ◌⊎◌, ◌≤◌, arith, is_none,
}
use strata_qemu_testing.Base.Text.{Text, is_empty}
use strata_qemu_testing.Build.Facts.{golden_qcow2}
use strata_qemu_testing.RunTest.Exec.{follow, Exec, ◌>>=◌, raise, Gives, Gives-then, Gives-pure}
use strata_qemu_testing.Build.Bench.{Machine, BuildError, Bench}
use strata_qemu_testing.Build.Live.{Live, CheckHostResult, Site, Build, is_uefi}
use strata_qemu_testing.Build.Live.Finish.{
  try_part, finally_part, finally_with, finally_ended, for_host, before_part, build_part,
  build_with, build_live,
}
use strata_qemu_testing.Build.Live.Stop.{is_exception, shutdown_machine}
use strata_qemu_testing.Build.Live.Phases.{phase_from, phase, cleared}
use strata_qemu_testing.Build.Live.Cleanup.{Stops, Raised, Ended, build_live-Ended}
use strata_qemu_testing.Build.Live.Entry.{
  Exit, failed, printed_path, build_status, with_status, on_host, for_guest, run_image_build,
}

abbrev pub golden_of : Build → Text
golden_of b = golden_qcow2 b.guest b.golden_digest b.cache

abbrev pub fresh_of : {W : Type 0} → Bench W → Live W
fresh_of start = record { bench = start; machine = none; trace = [] }

-- A build that returns returns this path.
abbrev Yields : {W : Type 0} → Text → Result BuildError Text × Live W → Type 0
Yields golden (ok g, s) = g ≡ golden
Yields golden (err e, s) = Unit {0}

module _ {W : Type 0} (site : Site W) where
  finally_ended-Yields :
      (golden : Text) (r : Result BuildError Text) (s : Live W)
      (q : Result BuildError (Unit {0}) × Bench W)
      → Yields {W = W} golden (r, s)
      → Yields golden (finally_ended site r s q)
  unfolding finally_ended
  finally_ended-Yields golden (ok g) s (ok u, b) h = h
  finally_ended-Yields golden (err e) s (ok u, b) h = tt
  finally_ended-Yields golden r s (err e, b) h = tt

  finally_with-Yields :
      (golden : Text) (o : Option Machine) (r : Result BuildError Text) (s : Live W)
      → Yields {W = W} golden (r, s)
      → Yields golden (finally_with site o r s)
  unfolding finally_with
  finally_with-Yields golden none r s h = h
  finally_with-Yields golden (some m) r s h =
      finally_ended-Yields golden r s (shutdown_machine site m s.bench) h

  finally_part-Yields :
      (golden : Text) (q : Result BuildError Text × Live W)
      → Yields golden q
      → Yields golden (finally_part site q)
  unfolding finally_part
  finally_part-Yields golden (r, s) h = finally_with-Yields golden s.machine r s h

  Gives-Yields :
      (golden : Text) (q : Result BuildError Text × Live W)
      → ((a : Text) (t : Live W) → q ≡ (ok a, t) → a ≡ golden)
      → Yields golden q
  Gives-Yields golden (ok a, t) h = h a t refl
  Gives-Yields golden (err e, t) h = tt

  follow-Yields :
      {A : Type 0} (golden : Text) (f : A → Exec (Live W) BuildError Text)
      (q : Result BuildError A × Live W)
      → ((a : A) (t : Live W) → Yields golden (f a t))
      → Yields golden (follow f q)
  follow-Yields golden f (ok a, t) k = k a t
  follow-Yields golden f (err e, t) k = tt

  try_part-Gives : (b : Build) → Gives (λ g. g ≡ golden_of b) (try_part site b)
  unfolding try_part
  try_part-Gives b = Gives-then _ λ args. Gives-then _ λ version. Gives-then _ λ _. Gives-pure refl

  build_part-Yields : (b : Build) (s : Live W) → Yields (golden_of b) (build_part site b s)
  unfolding build_part ◌>>=◌
  build_part-Yields b s = follow-Yields (golden_of b) _ (before_part site b s) λ _ t.
      finally_part-Yields (golden_of b) (try_part site b t)
        (Gives-Yields (golden_of b) (try_part site b t) λ a u e. (try_part-Gives b).at t u a e)

  if-Yields :
      (golden : Text) (test : Bool) (e : BuildError) (m : Exec (Live W) BuildError Text)
      (s : Live W)
      → Yields golden (m s)
      → Yields golden ((if test then raise e else m) s)
  if-Yields golden true e m s h = tt
  if-Yields golden false e m s h = h

  build_with-Yields :
      (b : Build) (host : CheckHostResult) (key : Option Text) (s : Live W)
      → Yields (golden_of b) (build_with site b host key s)
  unfolding build_with for_host
  build_with-Yields b host none s = tt
  build_with-Yields b host (some key) s =
      if-Yields (golden_of b) (is_uefi b.guest && is_none host.ovmf_code) _
        (build_part site (for_host b host key)) s (build_part-Yields (for_host b host key) s)

  -- Status 0 and the resolved path of the golden image, that was there or that the build has installed; or
  -- another status, no path, and what a build that has raised leaves.
  abbrev pub Reported : Build → Bench W → Exit × Live W → Type 0
  Reported b start (exit, s) =
      ((exit.code ≡ 0)
        × (exit.printed ≡ some (site.launcher.resolve (golden_of b)))
        × (((site.builder.is_file (golden_of b) start.world ≡ true) × (s.trace ≡ []))
            ⊎ (phase s.trace ≡ cleared)))
      ⊎ ((1 ≤ exit.code) × (exit.printed ≡ none) × Raised site s)

  with_status-Reported :
      (b : Build) (start : Bench W) (q : Result BuildError Text × Live W)
      → Yields (golden_of b) q
      → Ended site q
      → Reported b start (with_status site q)
  unfolding with_status build_status failed printed_path
  with_status-Reported b start (ok golden, s) y h =
      inl (refl, ap (λ g. some (site.launcher.resolve g)) y, inr h.0)
  with_status-Reported b start (err e, s) y h = elim (Bool-cases (is_exception e)) [
    | inl holds ↦ rw holds (inr (omega arith, refl, h))
    | inr fails ↦ rw fails (inr (omega arith, refl, h))
  ]

  unseen :
      (b : Build) (start : Bench W) (n : ℕ) → 1 ≤ n → Reported b start (failed n, fresh_of start)
  unfolding failed phase_from
  unseen b start n h =
      inr (h, refl, inl (record { going = refl; stopped_is = refl; machine_gone = refl }))

  if-Reported :
      (b : Build) (start : Bench W) (test : Bool) (q r : Exit × Live W)
      → Reported b start q
      → Reported b start r
      → Reported b start (if test then q else r)
  if-Reported b start true q r hq hr = hq
  if-Reported b start false q r hq hr = hr

  on_host-Reported :
      (b : Build) (host : CheckHostResult) (start : Bench W)
      → Stops site
      → Reported b start (on_host site b host start)
  unfolding on_host build_live
  on_host-Reported b host start stops =
      if-Reported b start (not host.passed) _ _ (unseen b start 1 (omega arith)) (
        with_status-Reported b start (build_live site b host (fresh_of start))
          (build_with-Yields b host host.ssh_key (fresh_of start))
          (build_live-Ended site stops b host start))

  for_guest-Reported :
      (b : Build) (force : Bool) (host : CheckHostResult) (start : Bench W)
      → Stops site
      → Reported b start (for_guest site b force host start)
  unfolding for_guest printed_path
  for_guest-Reported b force host start stops =
      let golden = golden_of b in
      elim (Bool-cases (site.builder.is_file golden start.world && not force)) [
        | inl holds ↦ rw holds (inl (refl, refl, inl (ground arith, refl)))
        | inr fails ↦ rw fails (on_host-Reported b host start stops)
      ]

  -- If no interrupt comes while a machine is shut down: the image build of a recipe that loads exits by 0 exactly
  -- with the resolved path of the golden image of the guest, which was there before and nothing was started, or which
  -- this build has installed, with its link and its provenance; otherwise it exits by a positive status,
  -- prints no path and leaves no machine, except for the QEMU that an interrupt in the sleep of 0.4 s behind its
  -- start leaves running.
  pub run_image_build-Reported :
      (guest_id : Text) (b : Build) (force : Bool) (host : CheckHostResult) (start : Bench W)
      → Stops site
      → Reported b start (run_image_build site guest_id (ok b) force host start)
  unfolding run_image_build
  run_image_build-Reported guest_id b force host start stops =
      elim (Bool-cases (is_empty guest_id)) [
        | inl holds ↦ rw holds (unseen b start 2 (omega arith))
        | inr fails ↦ rw fails (for_guest-Reported b force host start stops)
      ]
