-- ===== src/Build/Live/Cleanup.antt =====
-- strataqemu/image_build.py: how `build_live` ends.
use strata_qemu_testing.Base.{
  Bool, true, false, not, Option, none, some, [], if◌then◌else◌, Result, ok, err, is_none, ◌≡◌,
  refl, ap, ℕ, ◌&&◌, Bool-cases, inl, inr, ◌⊎◌,
}
use mathlib.Core.Path.{subst, sym}
use strata_qemu_testing.Base.Text.{Text}
use strata_qemu_testing.RunTest.Exec.{◌>>=◌, pure, follow, Exec, Leaves, Triple, Triple-bind}
use strata_qemu_testing.Build.Bench.{Machine, BuildError, Work, Bench, touch}
use strata_qemu_testing.Build.Live.{
  stopped, Live, CheckHostResult, Site, Build, is_uefi, act, acted,
}
use strata_qemu_testing.Build.Live.Finish.{
  finally_ended, finally_with, finally_part, before_part, build_part, for_host, build_with,
  build_live, try_part,
}
use strata_qemu_testing.Build.Live.Stop.{
  is_exception, rescued, killed, waited, shutdown_asked, process_ended, shutdown_machine,
}
use strata_qemu_testing.Build.Live.Phases.{
  phase_from, next, phase, is_running, is_open, quiet-same, Phase, before, running, halted, placed,
  listed, recorded, cleared, broken, orphaned, At, Open, open_, left_over, At-event,
}
use strata_qemu_testing.Build.Live.Order.{Left, try_part-At}

-- Not an interrupt of the build.
abbrev pub uninterrupted : {A : Type 0} → Result BuildError A → Bool
uninterrupted (ok a) = true
uninterrupted (err e) = is_exception e

abbrev is_ok : {A : Type 0} → Result BuildError A → Bool
is_ok (ok a) = true
is_ok (err e) = false

-- No interrupt comes while a machine is shut down.
pub record Stops {W : Type 0} (site : Site W) : Type 0 where
  pub shutdown_stops : (m : Machine) (w : W) → uninterrupted (site.shutdown m w).0 ≡ true
  pub wait_stops : (time : ℕ) (w : W) → uninterrupted (site.wait_process time w).0 ≡ true

-- No machine, and the run directory is there.
pub record Rests {W : Type 0} (s : Live W) : Type 0 where
  pub going : is_open (phase s.trace) ≡ true
  pub stopped_is : is_running (phase s.trace) ≡ false
  pub machine_gone : s.machine ≡ none

-- A build that has raised rests, or it was left in the sleep behind the start of QEMU.
abbrev pub Raised : {W : Type 0} → Site W → Live W → Type 0
Raised site s = Rests s ⊎ (Left site × (phase s.trace ≡ orphaned) × (s.machine ≡ none))

-- A build that returns has cleared up.
abbrev pub Ended : {W : Type 0} → Site W → Result BuildError Text × Live W → Type 0
Ended site (ok golden, s) = (phase s.trace ≡ cleared) × (s.machine ≡ none)
Ended site (err e, s) = Raised site s

no_machine : {A : Type 0} (o : Option A) → is_none o ≡ true → o ≡ none
no_machine none h = refl
no_machine (some a) h = absurd cc

is_running-lem : (p : Phase) → is_running p ≡ true → p ≡ running
is_running-lem running h = refl
is_running-lem before h = absurd cc
is_running-lem orphaned h = absurd cc
is_running-lem halted h = absurd cc
is_running-lem placed h = absurd cc
is_running-lem listed h = absurd cc
is_running-lem recorded h = absurd cc
is_running-lem cleared h = absurd cc
is_running-lem broken h = absurd cc

not-injective : (a b : Bool) → not a ≡ not b → a ≡ b
not-injective true true h = refl
not-injective false false h = refl
not-injective true false h = absurd cc
not-injective false true h = absurd cc

module _ {W : Type 0} (site : Site W) (stops : Stops site) where
  rescued-ok :
      (m : Machine) (q : Result BuildError (Unit {0}) × Bench W)
      → uninterrupted q.0 ≡ true
      → is_ok (rescued site (Unit {0}) (killed site m) q).0 ≡ true
  unfolding rescued killed touch
  rescued-ok m (ok u, s) h = refl
  rescued-ok m (err e, s) h = rw h refl

  acted-uninterrupted :
      (m : Machine) (s : Bench W) (q : Result BuildError Text × W)
      → uninterrupted q.0 ≡ true
      → uninterrupted (follow (λ path. pure tt) (acted s q)).0 ≡ true
  unfolding acted
  acted-uninterrupted m s (ok a, w) h = refl
  acted-uninterrupted m s (err e, w) h = h

  shutdown_asked-ok : (m : Machine) (s : Bench W) → is_ok (shutdown_asked site m s).0 ≡ true
  unfolding shutdown_asked ◌>>=◌ act
  shutdown_asked-ok m s =
      rescued-ok m _
        (acted-uninterrupted m s (site.shutdown m s.world) (stops.shutdown_stops m s.world))

  waited-uninterrupted :
      (b : Bool) (s : Bench W) (time : ℕ)
      → uninterrupted ((if b then act (site.wait_process time) else pure tt) s).0 ≡ true
  unfolding act acted
  waited-uninterrupted true s time = stops.wait_stops time s.world
  waited-uninterrupted false s time = refl

  process_ended-ok : (m : Machine) (s : Bench W) → is_ok (process_ended site m s).0 ≡ true
  unfolding process_ended waited
  process_ended-ok m s = rescued-ok m _ (waited-uninterrupted m.has_process s 15000)

  follow-ok :
      {A B : Type 0} (f : A → Work W B) (q : Result BuildError A × Bench W)
      → is_ok q.0 ≡ true
      → ((a : A) (t : Bench W) → is_ok (f a t).0 ≡ true)
      → is_ok (follow f q).0 ≡ true
  follow-ok f (ok a, t) h k = k a t
  follow-ok f (err e, t) h k = absurd cc

  shutdown_machine-ok : (m : Machine) (s : Bench W) → is_ok (shutdown_machine site m s).0 ≡ true
  unfolding shutdown_machine ◌>>=◌
  shutdown_machine-ok m s =
      follow-ok _ (shutdown_asked site m s) (shutdown_asked-ok m s) λ _ t. process_ended-ok m t

  At-Rests : (p : Phase) (s : Live W) → is_open p ≡ true → is_running p ≡ false → At p s → Rests s
  At-Rests p s ahead still h = record {
    going = subst (λ q. is_open q ≡ true) (sym h.reached) ahead;
    stopped_is = subst (λ q. is_running q ≡ false) (sym h.reached) still;
    machine_gone = no_machine s.machine (let m = h.machine_is in cc);
  }

  finally_ended-Ended :
      (e : BuildError) (s : Live W) (q : Result BuildError (Unit {0}) × Bench W)
      → is_ok q.0 ≡ true
      → At running s
      → Ended site (finally_ended site (err e) s q)
  unfolding finally_ended next
  finally_ended-Ended e s (ok u, b) h at =
      inl (At-Rests halted _ refl refl (At-event running stopped s _ at refl refl))
  finally_ended-Ended e s (err x, b) h at = absurd cc

  finally_with-Rests :
      (o : Option Machine) (e : BuildError) (s : Live W)
      → s.machine ≡ o
      → Open (Left site) s
      → Ended site (finally_with site o (err e) s)
  unfolding finally_with
  finally_with-Rests none e s m (left_over left h) = inr (left, h.reached, m)
  finally_with-Rests (some machine) e s m (left_over left h) =
      absurd (let is = h.machine_is in let some_is = ap is_none m in cc)
  finally_with-Rests none e s m (open_ h) = inl (record {
    going = h.going;
    stopped_is = not-injective _ false (let is = h.machine_is in let none_is = ap is_none m in cc);
    machine_gone = m;
  })
  finally_with-Rests (some machine) e s m (open_ h) =
      let run : is_running (phase s.trace) ≡ true =
        not-injective _ true (let is = h.machine_is in let some_is = ap is_none m in cc) in
      finally_ended-Ended e s (shutdown_machine site machine s.bench)
        (shutdown_machine-ok machine s.bench)
        (record { reached = is_running-lem _ run; machine_is = ap is_none m })

  finally_with-ok :
      (o : Option Machine) (golden : Text) (s : Live W)
      → s.machine ≡ o
      → At cleared s
      → Ended site (finally_with site o (ok golden) s)
  unfolding finally_with
  finally_with-ok none golden s m h = (h.reached, m)
  finally_with-ok (some machine) golden s m h =
      absurd (let is = h.machine_is in let some_is = ap is_none m in cc)

  finally_part-Ended :
      (q : Result BuildError Text × Live W)
      → Leaves (At cleared) (Open (Left site)) q
      → Ended site (finally_part site q)
  unfolding finally_part
  finally_part-Ended (ok golden, s) h = finally_with-ok s.machine golden s refl h
  finally_part-Ended (err e, s) h = finally_with-Rests s.machine e s refl h

  follow-Ended :
      {A : Type 0} (f : A → Exec (Live W) BuildError Text) (q : Result BuildError A × Live W)
      → Leaves (At before) (At before) q
      → ((a : A) (t : Live W) → At before t → Ended site (f a t))
      → Ended site (follow f q)
  follow-Ended f (ok a, t) h k = k a t h
  follow-Ended f (err e, t) h k = inl (At-Rests before t refl refl h)

  before_part-At : (b : Build) → Triple (At before) (At before) (At before) (before_part site b)
  unfolding before_part
  before_part-At b = Triple-bind (At before) (At before) (At before) _ _ (quiet-same before _) λ _.
      Triple-bind (At before) (At before) (At before) _ _ (quiet-same before _)
        λ _. quiet-same before _

  build_part-Ended : (b : Build) (s : Live W) → At before s → Ended site (build_part site b s)
  unfolding build_part ◌>>=◌
  build_part-Ended b s h =
      follow-Ended _ (before_part site b s) ((before_part-At b).at s h)
        λ _ t at. finally_part-Ended (try_part site b t) ((try_part-At site b).at t at)

  build_with-Ended :
      (b : Build) (host : CheckHostResult) (key : Option Text) (s : Live W)
      → At before s
      → Ended site (build_with site b host key s)
  unfolding build_with
  build_with-Ended b host none s h = inl (At-Rests before s refl refl h)
  build_with-Ended b host (some key) s h =
      elim (Bool-cases (is_uefi b.guest && is_none host.ovmf_code)) [
        | inl holds ↦ rw holds (inl (At-Rests before s refl refl h))
        | inr fails ↦ rw fails (build_part-Ended (for_host b host key) s h)
      ]

  -- From a state without a machine in which nothing has been seen, and if no interrupt comes while a machine is
  -- shut down: a build that returns has put the golden image in its place behind the end of the machine, then
  -- its link, its provenance and the removal of the run directory. A build that raises has kept the run
  -- directory, has done its part of that in the same order, and leaves no machine, running or not; except that
  -- an interrupt in the sleep of 0.4 s behind the start of QEMU leaves that QEMU running, and then nothing else
  -- has been done.
  pub build_live-Ended :
      (b : Build) (host : CheckHostResult) (start : Bench W)
      → Ended site (build_live site b host (record { bench = start; machine = none; trace = [] }))
  unfolding build_live phase_from
  build_live-Ended b host start =
      build_with-Ended b host host.ssh_key _ (record { reached = refl; machine_is = refl })
