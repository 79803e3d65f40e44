-- ===== src/RunTest/Run/Trace.antt =====
-- strataqemu/run_test.py: how often each event stands in the trace of a run.
use strata_qemu_testing.Base.{
  is_none, ℕ, suc, ◌+◌, Bool, true, false, ◌&&◌, List, [], ◌∷◌, ◌++◌, if◌then◌else◌, ◌≡◌, refl,
  arith, Bool-cases, inl, inr,
}
use strata_qemu_testing.RunTest.Run.{Event, spawned, stopped, discarded, kept, wrote}

abbrev pub is_spawned : Event → Bool
is_spawned spawned = true
is_spawned _ = false

abbrev pub is_stopped : Event → Bool
is_stopped stopped = true
is_stopped _ = false

-- A result file that says that the run passed, and names no error.
abbrev pub is_pass : Event → Bool
is_pass (wrote d) = is_none d.error && d.passed
is_pass _ = false

abbrev pub is_kept : Event → Bool
is_kept kept = true
is_kept _ = false

abbrev pub is_discarded : Event → Bool
is_discarded discarded = true
is_discarded _ = false

unfoldable pub occurrences : (Event → Bool) → List Event → ℕ
occurrences p [] = 0
occurrences p (e ∷ es) = if p e then suc (occurrences p es) else occurrences p es

occurrences-append :
    (p : Event → Bool) (es fs : List Event)
    → occurrences p (es ++ fs) ≡ occurrences p es + occurrences p fs
unfolding occurrences
occurrences-append p [] fs = omega arith
occurrences-append p (e ∷ es) fs = ground (arith, occurrences-append p es fs)

abbrev pub as_number : Bool → ℕ
as_number true = 1
as_number false = 0

-- The counts of a trace: spawned, stopped, passed, kept, discarded.
pub record Counts (trace : List Event) (a b c d e : ℕ) : Type 0 where
  pub spawned_count : occurrences is_spawned trace ≡ a
  pub stopped_count : occurrences is_stopped trace ≡ b
  pub pass_count : occurrences is_pass trace ≡ c
  pub kept_count : occurrences is_kept trace ≡ d
  pub discarded_count : occurrences is_discarded trace ≡ e

occurrences-one : (p : Event → Bool) (e : Event) → occurrences p (e ∷ []) ≡ as_number (p e)
unfolding occurrences
occurrences-one p e = elim (Bool-cases (p e)) [ inl holds ↦ rw holds | inr fails ↦ rw fails ]

occurrences-event :
    (p : Event → Bool) (t : List Event) (e : Event) {n : ℕ}
    → occurrences p t ≡ n
    → occurrences p (t ++ (e ∷ [])) ≡ n + as_number (p e)
occurrences-event p t e h = omega (arith, occurrences-append p t (e ∷ []), occurrences-one p e)

pub Counts-event :
    (t : List Event) (ev : Event) {a b c d e : ℕ}
    → Counts t a b c d e
    → Counts
        (t ++ (ev ∷ []))
        (a + as_number (is_spawned ev))
        (b + as_number (is_stopped ev))
        (c + as_number (is_pass ev))
        (d + as_number (is_kept ev))
        (e + as_number (is_discarded ev))
Counts-event t ev h = record {
  spawned_count = occurrences-event is_spawned t ev h.spawned_count;
  stopped_count = occurrences-event is_stopped t ev h.stopped_count;
  pass_count = occurrences-event is_pass t ev h.pass_count;
  kept_count = occurrences-event is_kept t ev h.kept_count;
  discarded_count = occurrences-event is_discarded t ev h.discarded_count;
}

pub Counts-nil : Counts [] 0 0 0 0 0
unfolding occurrences
Counts-nil = record {
  spawned_count = refl;
  stopped_count = refl;
  pass_count = refl;
  kept_count = refl;
  discarded_count = refl;
}
