-- ===== src/Session/Select/Judge.antt =====
-- strataqemu/session.py: what the tests of the loop in `select_wayland_session` decide.
use strata_qemu_testing.Base.{
  ℕ, true, false, Option, none, some, ◌≡◌, refl, arith, inl, inr, Bool-cases, ◌⊎◌, ◌==◌,
}
use strata_qemu_testing.Base.Text.{Text, codes, text_eq}
use strata_qemu_testing.Base.Text.Laws.{text_eq_sound}
use strata_qemu_testing.Session.Parse.{ListedSession, parse_show_session}
use strata_qemu_testing.Session.Select.{
  Verdict, skip, hard_fail, qualifies, ShowSession, typ, is_graphical, is_ssh, judge_props,
  judge_shown, judge,
}

pub Verdict-cases : (v : Verdict) → (v ≡ skip) ⊎ ((v ≡ hard_fail) ⊎ (v ≡ qualifies))
Verdict-cases skip = inl refl
Verdict-cases hard_fail = inr (inl refl)
Verdict-cases qualifies = inr (inr refl)

-- A session that may be handed out: the user's own, active and graphical on seat0, and not the SSH
-- session's.
abbrev pub IsEligible : ShowSession → ℕ → Option Text → ListedSession → Type 0
IsEligible show uid ssh row =
    (row.uid ≡ uid)
    × ((raw : Text) × (show row.sid ≡ some raw)
        × (is_graphical (parse_show_session raw) row ≡ true))
    × (is_ssh ssh row.sid ≡ false)

-- One of the user's sessions runs X11.
abbrev pub IsX11 : ShowSession → ℕ → ListedSession → Type 0
IsX11 show uid row =
    (row.uid ≡ uid)
    × ((raw : Text) × (show row.sid ≡ some raw)
        × (text_eq (typ (parse_show_session raw)) (codes "x11") ≡ true))

module _ (show : ShowSession) (uid : ℕ) (ssh : Option Text) where
  judge_props-qualifies :
      (row : ListedSession) (raw : Text)
      → judge_props ssh row (parse_show_session raw) ≡ qualifies
      → (is_graphical (parse_show_session raw) row ≡ true) × (is_ssh ssh row.sid ≡ false)
  unfolding judge_props
  judge_props-qualifies row raw h = ground arith

  judge_shown-qualifies :
      (row : ListedSession) (shown : Option Text)
      → judge_shown ssh row shown ≡ qualifies
      → ((raw : Text) × (shown ≡ some raw) × (is_graphical (parse_show_session raw) row ≡ true))
        × (is_ssh ssh row.sid ≡ false)
  unfolding judge_shown
  judge_shown-qualifies row none h = cc
  judge_shown-qualifies row (some raw) h =
      let both = judge_props-qualifies row raw h in ((raw, refl, both.0), both.1)

  pub judge-qualifies :
      (row : ListedSession) → judge show uid ssh row ≡ qualifies → IsEligible show uid ssh row
  unfolding judge
  judge-qualifies row h = elim (Bool-cases (row.uid == uid)) [
    | inl own ↦
        let parts = judge_shown-qualifies row (show row.sid) (rw own at h) in
        (ground arith, parts.0, parts.1)
    | inr other ↦ ground (arith, rw other at h)
  ]

  judge_props-x11 :
      (row : ListedSession) (raw : Text)
      → judge_props ssh row (parse_show_session raw) ≡ hard_fail
      → text_eq (typ (parse_show_session raw)) (codes "x11") ≡ true
  unfolding judge_props
  judge_props-x11 row raw h = ground arith

  judge_shown-x11 :
      (row : ListedSession) (o : Option Text)
      → judge_shown ssh row o ≡ hard_fail
      → (raw : Text) × (o ≡ some raw)
        × (text_eq (typ (parse_show_session raw)) (codes "x11") ≡ true)
  unfolding judge_shown
  judge_shown-x11 row none e = cc
  judge_shown-x11 row (some raw) e = (raw, refl, judge_props-x11 row raw e)

  pub judge-hard_fail :
      (row : ListedSession) → judge show uid ssh row ≡ hard_fail → IsX11 show uid row
  unfolding judge
  judge-hard_fail row h = elim (Bool-cases (row.uid == uid)) [
    | inl own ↦ (ground arith, judge_shown-x11 row (show row.sid) (rw own at h))
    | inr other ↦ absurd (ground (arith, rw other at h))
  ]

  pub judge-x11 : (row : ListedSession) → IsX11 show uid row → judge show uid ssh row ≡ hard_fail
  unfolding judge judge_shown judge_props
  judge-x11 row (own, (raw, shown, x11)) = ground arith

  wayland_not_x11 :
      (t : Text) → text_eq t (codes "wayland") ≡ true → text_eq t (codes "x11") ≡ false
  unfolding text_eq
  wayland_not_x11 t h = rw (text_eq_sound t (codes "wayland") h)

  pub judge-eligible :
      (row : ListedSession) → IsEligible show uid ssh row → judge show uid ssh row ≡ qualifies
  unfolding judge judge_shown judge_props is_graphical
  judge-eligible row (own, (raw, shown, graphical), other) =
      ground (arith, wayland_not_x11 (typ (parse_show_session raw)))
