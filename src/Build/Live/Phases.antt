-- ===== src/Build/Live/Phases.antt =====
-- strataqemu/image_build.py: the order in which `build_live` does what can be seen, as an automaton.
use strata_qemu_testing.Base.{
  Bool, true, false, not, List, [], ◌∷◌, ◌++◌, Result, ok, err, is_none, ◌≡◌, refl,
}
use mathlib.Core.Path.{subst, sym}
use strata_qemu_testing.RunTest.Exec.{Leaves, Triple}
use strata_qemu_testing.Build.Bench.{BuildError, Work, Bench}
use strata_qemu_testing.Build.Live.{
  Event, spawned, orphan, stopped, removed_golden, installed_golden, linked, copied_vars,
  wrote_provenance, removed_run, Live, within, quiet, noting, noted,
}

-- No machine yet; the machine runs; QEMU runs without a `Machine`; the machine has stopped; the golden image is in its place, has its link, has its
-- provenance; the run directory is gone; out of order.
pub data Phase : Type 0 where
  before running orphaned halted placed listed recorded cleared broken : Phase

unfoldable pub next : Phase → Event → Phase
next before spawned = running
next before orphan = orphaned
next running stopped = halted
next halted removed_golden = halted
next halted installed_golden = placed
next placed linked = listed
next listed copied_vars = listed
next listed wrote_provenance = recorded
next recorded removed_run = cleared
next _ _ = broken

unfoldable pub phase_from : Phase → List Event → Phase
phase_from p [] = p
phase_from p (e ∷ es) = phase_from (next p e) es

abbrev pub phase : List Event → Phase
phase trace = phase_from before trace

-- A `Machine` runs.
abbrev pub is_running : Phase → Bool
is_running running = true
is_running _ = false

-- The work may go on: not at its end, not behind a start that was interrupted, and in order.
abbrev pub is_open : Phase → Bool
is_open cleared = false
is_open orphaned = false
is_open broken = false
is_open _ = true

phase_from-append :
    (p : Phase) (es : List Event) (e : Event)
    → phase_from p (es ++ (e ∷ [])) ≡ next (phase_from p es) e
unfolding phase_from
phase_from-append p [] e = refl
phase_from-append p (f ∷ es) e = phase_from-append (next p f) es e

module _ {W : Type 0} where
  -- The events so far, and whether there is a machine.
  pub record At (p : Phase) (s : Live W) : Type 0 where
    pub reached : phase s.trace ≡ p
    pub machine_is : is_none s.machine ≡ not (is_running p)

  -- Where a part has raised, and no QEMU is left.
  pub record Going (s : Live W) : Type 0 where
    pub going : is_open (phase s.trace) ≡ true
    pub machine_is : is_none s.machine ≡ not (is_running (phase s.trace))

  pub At-Going : (p : Phase) (s : Live W) → is_open p ≡ true → At p s → Going s
  At-Going p s ahead h = record {
    going = subst (λ q. is_open q ≡ true) (sym h.reached) ahead;
    machine_is = subst (λ q. is_none s.machine ≡ not (is_running q)) (sym h.reached) h.machine_is;
  }

  -- Where a part has raised; a QEMU is left only if `Left` holds.
  pub data Open (Left : Type 0) (s : Live W) : Type 0 where
    open_ : Going s → Open Left s
    left_over : Left → At orphaned s → Open Left s

  pub At-event :
      (p : Phase) (e : Event) (s t : Live W)
      → At p s
      → t.trace ≡ s.trace ++ (e ∷ [])
      → is_none t.machine ≡ not (is_running (next p e))
      → At (next p e) t
  At-event p e s t h trace machine = record {
    reached = let last = phase_from-append before s.trace e in let at = h.reached in cc;
    machine_is = machine;
  }

  module _ {A : Type 0} where
    within-At :
        (Left : Type 0) (p : Phase) (s : Live W) (q : Result BuildError A × Bench W)
        → is_open p ≡ true
        → At p s
        → Leaves (At p) (Open Left) (within s q)
    unfolding within
    within-At Left p s (ok a, b) ahead h = record { reached = h.reached; machine_is = h.machine_is }
    within-At Left p s (err e, b) ahead h =
        open_ (At-Going p _ ahead (record { reached = h.reached; machine_is = h.machine_is }))

    pub quiet-At :
        {Left : Type 0} (p : Phase) (m : Work W A)
        → is_open p ≡ true
        → Triple (At p) (At p) (Open Left) (quiet m)
    unfolding quiet
    quiet-At {Left} p m ahead = record { at = λ s h. within-At Left p s (m s.bench) ahead h }

    within-same :
        (p : Phase) (s : Live W) (q : Result BuildError A × Bench W)
        → At p s
        → Leaves (At p) (At p) (within s q)
    unfolding within
    within-same p s (ok a, b) h = record { reached = h.reached; machine_is = h.machine_is }
    within-same p s (err e, b) h = record { reached = h.reached; machine_is = h.machine_is }

    pub quiet-same : (p : Phase) (m : Work W A) → Triple (At p) (At p) (At p) (quiet m)
    unfolding quiet
    quiet-same p m = record { at = λ s h. within-same p s (m s.bench) h }

    noting-At :
        (Left : Type 0) (p : Phase) (e : Event) (s : Live W) (q : Result BuildError A × Bench W)
        → is_open p ≡ true
        → is_running p ≡ is_running (next p e)
        → At p s
        → Leaves (At (next p e)) (Open Left) (noting e s q)
    unfolding noting
    noting-At Left p e s (ok a, b) ahead same h =
        At-event p e s _ h refl (subst (λ r. is_none s.machine ≡ not r) same h.machine_is)
    noting-At Left p e s (err x, b) ahead same h =
        open_ (At-Going p _ ahead (record { reached = h.reached; machine_is = h.machine_is }))

    pub noted-At :
        {Left : Type 0} (p : Phase) (e : Event) (m : Work W A)
        → is_open p ≡ true
        → is_running p ≡ is_running (next p e)
        → Triple (At p) (At (next p e)) (Open Left) (noted e m)
    unfolding noted
    noted-At {Left} p e m ahead same = record {
      at = λ s h. noting-At Left p e s (m s.bench) ahead same h;
    }
