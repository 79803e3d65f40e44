-- ===== src/Steps/Wait/Loop.antt =====
-- strataqemu/tests_spec.py: the polling loops as a relation, and that they end.
use strata_qemu_testing.Base.{
  ℕ, zero, suc, ◌+◌, ◌≤◌, ◌<◌, ◌≡◌, refl, Result, ok, err, ltb, arith, if-cases, ap,
}
use strata_qemu_testing.Base.Text.{Text, codes}
use strata_qemu_testing.RunTest.Exec.{◌>>=◌, follow}
use strata_qemu_testing.Steps.Remote.{StepError, timed_out, Remote, Progress, Step}
use strata_qemu_testing.Steps.Wait.{Answer, found, again, nap, next_round, rounds, wait_until}

-- What is documented of the clock: it does not go back, and a sleep takes its time at least.
pub record IsSteady {W : Type 0} (fx : Remote W) : Type 0 where
  pub run_later :
      (argv : _) (timeout : _) (w : W) → fx.monotonic w ≤ fx.monotonic (fx.run argv timeout w).1
  pub sleep_later : (time : ℕ) (w : W) → fx.monotonic w + time ≤ fx.monotonic (fx.sleep time w)

module _ {W A : Type 0} (fx : Remote W) (probe : Step W (Answer A)) (deadline pause : ℕ)
    (late : Text → Text) where
  -- A state behind the pause.
  abbrev pub rested : Progress W → Progress W
  rested s = record s { world = fx.sleep pause s.world }

  -- How a loop that starts with these last words ends: by the deadline, by an answer, by an exception
  -- of the probe, or after a pause and one more such loop.
  pub data Ends : Progress W → Text → Result StepError A × Progress W → Type 0 where
    at_deadline :
        (s : Progress W) (last : Text)
        → deadline ≤ fx.monotonic s.world
        → Ends s last (err (timed_out (late last)), s)
    answered :
        (s t : Progress W) (last : Text) (a : A)
        → fx.monotonic s.world < deadline
        → probe s ≡ (ok (found a), t)
        → Ends s last (ok a, t)
    raised :
        (s t : Progress W) (last : Text) (e : StepError)
        → fx.monotonic s.world < deadline
        → probe s ≡ (err e, t)
        → Ends s last (err e, t)
    next :
        (s t : Progress W) (last words : Text) (q : Result StepError A × Progress W)
        → fx.monotonic s.world < deadline
        → probe s ≡ (ok (again words), t)
        → Ends (rested t) words q
        → Ends s last q

module _ {W A : Type 0} (fx : Remote W) (probe : Step W (Answer A)) (deadline pause : ℕ)
    (late : Text → Text) (steady : IsSteady fx) (positive : 0 < pause)
    (probe_later : (s : Progress W) → fx.monotonic s.world ≤ fx.monotonic (probe s).1.world) where
  after_probe :
      (fuel : ℕ) (s : Progress W) (last : Text) (q : Result StepError (Answer A) × Progress W)
      → probe s ≡ q
      → fx.monotonic s.world < deadline
      → deadline ≤ fx.monotonic s.world + fuel
      → ((words : Text) (t : Progress W)
          → fx.monotonic s.world + 1 ≤ fx.monotonic t.world
          → Ends fx probe deadline pause late t words
              (rounds fx probe deadline pause late fuel words t))
      → Ends fx probe deadline pause late s last (
          follow
            (next_round fx probe deadline pause late (rounds fx probe deadline pause late fuel))
            q)
  unfolding next_round nap ◌>>=◌
  after_probe fuel s last (ok (found a), t) e early bound rest = answered s t last a early e
  after_probe fuel s last (err x, t) e early bound rest = raised s t last x early e
  after_probe fuel s last (ok (again words), t) e early bound rest =
      next s t last words _ early e (rest words (rested fx probe deadline pause late t) later)
    where
      later : fx.monotonic s.world + 1 ≤ fx.monotonic (fx.sleep pause t.world)
      later =
          let same : (probe s).1.world ≡ t.world = ap (λ q. q.1.world) e in
          omega (arith, steady.sleep_later pause t.world, rw same at (probe_later s))

  rounds-Ends :
      (fuel : ℕ) (last : Text) (s : Progress W)
      → deadline ≤ fx.monotonic s.world + fuel
      → Ends fx probe deadline pause late s last
          (rounds fx probe deadline pause late (suc fuel) last s)
  unfolding rounds ◌>>=◌
  rounds-Ends zero last s bound =
      if-cases (Ends fx probe deadline pause late s last) (ltb (fx.monotonic s.world) deadline) _ _
        (λ early. absurd (ground (arith, early, bound)))
        (λ over. at_deadline s last (ground (arith, over)))
  rounds-Ends (suc fuel) last s bound =
      if-cases (Ends fx probe deadline pause late s last) (ltb (fx.monotonic s.world) deadline) _ _
        (λ early.
          after_probe (suc fuel) s last (probe s) refl (ground (arith, early)) bound
            λ words t later. rounds-Ends fuel words t (omega (arith, later, bound)))
        (λ over. at_deadline s last (ground (arith, over)))

module _ {W A : Type 0} (fx : Remote W) (steady : IsSteady fx) (probe : Step W (Answer A))
    (probe_later : (s : Progress W) → fx.monotonic s.world ≤ fx.monotonic (probe s).1.world) where
  -- On a clock that does not go back, a wait ends, as the loop of the source does, after a finite number
  -- of rounds: by the deadline, by an answer, or by an exception of the probe.
  pub wait_until-Ends :
      (timeout pause : ℕ) (late : Text → Text) (s : Progress W)
      → 0 < pause
      → Ends fx probe
          (fx.monotonic s.world + timeout)
          pause
          late
          s
          (codes "no probe yet")
          (wait_until fx probe timeout pause late s)
  unfolding wait_until
  wait_until-Ends timeout pause late s positive =
      rounds-Ends fx probe (fx.monotonic s.world + timeout) pause late steady positive probe_later
        timeout (codes "no probe yet") s (omega arith)
