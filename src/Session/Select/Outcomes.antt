-- ===== src/Session/Select/Outcomes.antt =====
-- strataqemu/session.py: which session is selected, and when the selection fails.
use strata_qemu_testing.Base.{
  ℕ, Option, none, some, List, [], ◌∷◌, ◌≡◌, ◌≢◌, refl, Result, ok, err, inl, inr, ◌⊎◌, All,
  Bool-cases, false,
}
use strata_qemu_testing.Base.Text.{Text}
use strata_qemu_testing.Session.Parse.{ListedSession, parse_list_sessions}
use strata_qemu_testing.Session.Select.{
  SessionError, skip, hard_fail, ShowSession, is_ssh, judge, select_loop, select_end, select_rows,
  select_wayland_session,
}
use strata_qemu_testing.Session.Select.Judge.{
  Verdict-cases, IsEligible, IsX11, judge-qualifies, judge-hard_fail, judge-x11, judge-eligible,
}

module _ (show : ShowSession) (uid : ℕ) (ssh : Option Text) where
  -- `sid` is the first eligible session of the list.
  abbrev pub FirstEligible : Text → List ListedSession → Type 0
  FirstEligible sid [] = ⊥
  FirstEligible sid (row ∷ rest) =
      ((row.sid ≡ sid) × IsEligible show uid ssh row)
      ⊎ ((¬ IsEligible show uid ssh row) × FirstEligible sid rest)

  abbrev pub NoX11 : List ListedSession → Type 0
  NoX11 = All (λ row. ¬ IsX11 show uid row)

  skip-not-IsEligible :
      (row : ListedSession) → judge show uid ssh row ≡ skip → ¬ IsEligible show uid ssh row
  skip-not-IsEligible row h e = cc (h, judge-eligible show uid ssh row e)

  judge-no-IsX11 : (row : ListedSession) → judge show uid ssh row ≢ hard_fail → ¬ IsX11 show uid row
  judge-no-IsX11 row h e = h (judge-x11 show uid ssh row e)

  -- The loop keeps the session that it chose first.
  select_loop-some :
      (rows : List ListedSession) (chosen : Text) {r : Option Text}
      → select_loop show uid ssh rows (some chosen) ≡ ok r
      → (r ≡ some chosen) × NoX11 rows
  unfolding select_loop
  select_loop-some [] chosen h = (cc, tt)
  select_loop-some (row ∷ rows) chosen {r} h = elim (Verdict-cases (judge show uid ssh row)) [
    | inl e ↦
        let rest = select_loop-some rows chosen {r = r} (rw (e, select_loop) at h) in
        (rest.0, (judge-no-IsX11 row (λ x. cc), rest.1))
    | inr (inl e) ↦ let stopped = rw (e, select_loop) at h in cc
    | inr (inr e) ↦
        let rest = select_loop-some rows chosen {r = r} (rw (e, select_loop) at h) in
        (rest.0, (judge-no-IsX11 row (λ x. cc), rest.1))
  ]

  select_loop-none :
      (rows : List ListedSession) {sid : Text}
      → select_loop show uid ssh rows none ≡ ok (some sid)
      → FirstEligible sid rows × NoX11 rows
  unfolding select_loop
  select_loop-none [] h = cc
  select_loop-none (row ∷ rows) {sid} h = elim (Verdict-cases (judge show uid ssh row)) [
    | inl e ↦
        let rest = select_loop-none rows {sid = sid} (rw (e, select_loop) at h) in
        (inr (skip-not-IsEligible row e, rest.0), (judge-no-IsX11 row (λ x. cc), rest.1))
    | inr (inl e) ↦ let stopped = rw (e, select_loop) at h in cc
    | inr (inr e) ↦
        let rest = select_loop-some rows row.sid {r = some sid} (rw (e, select_loop) at h) in
        (
          inl (cc (rest.0), judge-qualifies show uid ssh row e),
          (judge-no-IsX11 row (λ x. cc), rest.1),
        )
  ]

  select_end-eq-ok :
      (q : Result SessionError (Option Text)) {sid : Text}
      → select_end show uid ssh q ≡ ok sid
      → (q ≡ ok (some sid)) × (is_ssh ssh sid ≡ false)
  unfolding select_end
  select_end-eq-ok (err e) h = cc
  select_end-eq-ok (ok none) h = cc
  select_end-eq-ok (ok (some chosen)) {sid} h = elim (Bool-cases (is_ssh ssh chosen)) [
    | inl same ↦ let refused = rw same at h in cc
    | inr other ↦ let done = rw other at h in (cc, cc)
  ]

  -- A session that `select_wayland_session` returns is the first eligible one of the list: the
  -- user's own, active and graphical on seat0, and not the SSH session; and no session of the user
  -- in the list runs X11.
  pub select_wayland_session_sound :
      (text sid : Text)
      → select_wayland_session show uid ssh text ≡ ok sid
      → FirstEligible sid (parse_list_sessions text) × NoX11 (parse_list_sessions text)
  unfolding select_wayland_session select_rows
  select_wayland_session_sound text sid h =
      select_loop-none (parse_list_sessions text) (select_end-eq-ok _ h).0

  -- The loop on a list without X11 sessions does not fail.
  pub select_loop-chosen :
      (rows : List ListedSession) (chosen : Text)
      → NoX11 rows
      → select_loop show uid ssh rows (some chosen) ≡ ok (some chosen)
  unfolding select_loop
  select_loop-chosen [] chosen _ = refl
  select_loop-chosen (row ∷ rows) chosen (no_x11, more) =
      elim (Verdict-cases (judge show uid ssh row)) [
        | inl e ↦ rw (e, select_loop) (select_loop-chosen rows chosen more)
        | inr (inl e) ↦ absurd (no_x11 (judge-hard_fail show uid ssh row e))
        | inr (inr e) ↦ rw (e, select_loop) (select_loop-chosen rows chosen more)
      ]
