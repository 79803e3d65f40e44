-- ===== src/Session/Select/Complete.antt =====
-- strataqemu/session.py: the selection finds an eligible session, and what it raises otherwise.
use strata_qemu_testing.Base.{
  ℕ, Option, none, some, List, [], ◌∷◌, ◌≡◌, refl, ok, err, inl, inr, All, Any, false,
}
use strata_qemu_testing.Base.Text.{Text}
use strata_qemu_testing.Session.Parse.{ListedSession, parse_list_sessions}
use strata_qemu_testing.Session.Select.{
  type_x11, choose, no_active_session, ShowSession, is_ssh, judge, select_loop, select_end,
  select_rows, select_wayland_session,
}
use strata_qemu_testing.Session.Select.Judge.{
  Verdict-cases, IsEligible, IsX11, judge-qualifies, judge-hard_fail, judge-x11, judge-eligible,
}
use strata_qemu_testing.Session.Select.Outcomes.{NoX11, select_loop-chosen}

module _ (show : ShowSession) (uid : ℕ) (ssh : Option Text) where
  select_loop-eligible :
      (rows : List ListedSession)
      → NoX11 show uid ssh rows
      → Any (IsEligible show uid ssh) rows
      → (sid : Text) × (select_loop show uid ssh rows none ≡ ok (some sid))
        × (is_ssh ssh sid ≡ false)
  unfolding select_loop
  select_loop-eligible [] _ h = absurd h
  select_loop-eligible (row ∷ rows) (no_x11, more) (inl e) =
      let found = judge-eligible show uid ssh row e in
      (row.sid, rw (found, select_loop) (select_loop-chosen show uid ssh rows row.sid more), e.2)
  select_loop-eligible (row ∷ rows) (no_x11, more) (inr later) =
      elim (Verdict-cases (judge show uid ssh row)) [
        | inl e ↦
            let rest = select_loop-eligible rows more later in
            (rest.0, rw (e, select_loop) rest.1, rest.2)
        | inr (inl e) ↦ absurd (no_x11 (judge-hard_fail show uid ssh row e))
        | inr (inr e) ↦ (
          row.sid,
          rw (e, select_loop) (select_loop-chosen show uid ssh rows row.sid more),
          (judge-qualifies show uid ssh row e).2,
        )
      ]

  -- If no session of the user runs X11 and one is eligible, then a session is returned.
  pub select_wayland_session_complete :
      (text : Text)
      → NoX11 show uid ssh (parse_list_sessions text)
      → Any (IsEligible show uid ssh) (parse_list_sessions text)
      → (sid : Text) × (select_wayland_session show uid ssh text ≡ ok sid)
  unfolding select_wayland_session select_rows select_end
  select_wayland_session_complete text no_x11 one =
      let found = select_loop-eligible (parse_list_sessions text) no_x11 one in
      (found.0, rw (found.1, found.2))

  select_loop-nothing :
      (rows : List ListedSession)
      → NoX11 show uid ssh rows
      → All (λ row. ¬ IsEligible show uid ssh row) rows
      → select_loop show uid ssh rows none ≡ ok none
  unfolding select_loop
  select_loop-nothing [] _ _ = refl
  select_loop-nothing (row ∷ rows) (no_x11, more) (bad, worse) =
      elim (Verdict-cases (judge show uid ssh row)) [
        | inl e ↦ rw (e, select_loop) (select_loop-nothing rows more worse)
        | inr (inl e) ↦ absurd (no_x11 (judge-hard_fail show uid ssh row e))
        | inr (inr e) ↦ absurd (bad (judge-qualifies show uid ssh row e))
      ]

  select_loop-x11 :
      (rows : List ListedSession) (chosen : Option Text)
      → Any (IsX11 show uid) rows
      → (sid : Text) × (select_loop show uid ssh rows chosen ≡ err (type_x11 sid))
  unfolding select_loop
  select_loop-x11 [] chosen h = absurd h
  select_loop-x11 (row ∷ rows) chosen (inl e) =
      (row.sid, rw (judge-x11 show uid ssh row e, select_loop))
  select_loop-x11 (row ∷ rows) chosen (inr later) = elim (Verdict-cases (judge show uid ssh row)) [
    | inl e ↦ let rest = select_loop-x11 rows chosen later in (rest.0, rw (e, select_loop) rest.1)
    | inr (inl e) ↦ (row.sid, rw (e, select_loop))
    | inr (inr e) ↦
        let rest = select_loop-x11 rows (choose show uid ssh chosen row.sid) later in
        (rest.0, rw (e, select_loop) rest.1)
  ]

  -- If one session of the user runs X11, whatever else is listed, then the selection raises the hard
  -- failure.
  pub select_wayland_session-x11 :
      (text : Text)
      → Any (IsX11 show uid) (parse_list_sessions text)
      → (sid : Text) × (select_wayland_session show uid ssh text ≡ err (type_x11 sid))
  unfolding select_wayland_session select_rows select_end
  select_wayland_session-x11 text x11 =
      let raised = select_loop-x11 (parse_list_sessions text) none x11 in (raised.0, rw raised.1)

  -- If no session of the user runs X11 and none is eligible, then the selection raises that there is
  -- no active session.
  pub select_wayland_session-nothing :
      (text : Text)
      → NoX11 show uid ssh (parse_list_sessions text)
      → All (λ row. ¬ IsEligible show uid ssh row) (parse_list_sessions text)
      → select_wayland_session show uid ssh text ≡ err no_active_session
  unfolding select_wayland_session select_rows select_end
  select_wayland_session-nothing text no_x11 bad =
      rw (select_loop-nothing (parse_list_sessions text) no_x11 bad)
