-- ===== src/Session/Select.antt =====
-- strataqemu/session.py: `select_wayland_session`.
pub mod Judge
pub mod Outcomes
pub mod Complete
use strata_qemu_testing.Base.{
  ℕ, Bool, true, false, ◌&&◌, ◌||◌, not, Option, none, some, List, [], ◌∷◌, ◌==◌, if◌then◌else◌,
  Result, ok, err,
}
use strata_qemu_testing.Base.Text.{Text, codes, text_eq, is_empty, strip, lower}
use strata_qemu_testing.Session.Parse.{
  ListedSession, parse_list_sessions, parse_show_session, Props, get_prop,
}

-- `SessionError`, one constructor for each place that raises it.
pub data SessionError : Type 0 where
  type_x11 : Text → SessionError
  no_active_session : SessionError
  refusing_ssh_session : SessionError
  no_wayland_socket : SessionError

-- What one listed session is to the loop.
pub data Verdict : Type 0 where
  skip hard_fail qualifies : Verdict

-- `show_session_by_sid.get(sid)`, the property text of a session
abbrev pub ShowSession : Type 0
ShowSession = Text → Option Text

abbrev pub typ : Props → Text
typ props = lower (strip (get_prop (codes "Type") [] props))

abbrev class_ : Props → Text
class_ props = lower (strip (get_prop (codes "Class") [] props))

abbrev state : Props → Text
state props = lower (strip (get_prop (codes "State") [] props))

-- `(props.get("Seat", "") or row.seat).strip()`
abbrev seat : Props → ListedSession → Text
seat props row =
    let listed = get_prop (codes "Seat") [] props in
    strip (if is_empty listed then row.seat else listed)

-- `Type=wayland`, `Class=user`, `State=active`, `Seat=seat0`
unfoldable pub is_graphical : Props → ListedSession → Bool
is_graphical props row =
    text_eq (typ props) (codes "wayland")
    && (text_eq (class_ props) (codes "user")
        && (text_eq (state props) (codes "active") && text_eq (seat props row) (codes "seat0")))

-- `ssh_session_id is not None and sid == ssh_session_id`
unfoldable pub is_ssh : Option Text → Text → Bool
is_ssh none sid = false
is_ssh (some ssh) sid = text_eq sid ssh

unfoldable pub judge_props : Option Text → ListedSession → Props → Verdict
judge_props ssh row props =
    if text_eq (typ props) (codes "x11")
    then hard_fail
    else if not (is_graphical props row)
    then skip
    else if is_ssh ssh row.sid
    then skip
    else qualifies

unfoldable pub judge_shown : Option Text → ListedSession → Option Text → Verdict
unfolding judge_props
judge_shown ssh row none = skip
judge_shown ssh row (some raw) = judge_props ssh row (parse_show_session raw)

module _ (show : ShowSession) (uid : ℕ) (ssh : Option Text) where
  -- The tests of the loop's body, in its order.
  unfoldable pub judge : ListedSession → Verdict
  unfolding judge_shown
  judge row = if not (row.uid == uid) then skip else judge_shown ssh row (show row.sid)

  -- `if chosen is None: chosen = row.sid`
  abbrev pub choose : Option Text → Text → Option Text
  choose none sid = some sid
  choose (some chosen) sid = some chosen

  unfoldable pub select_loop : List ListedSession → Option Text → Result SessionError (Option Text)
  select_loop [] chosen = ok chosen
  select_loop (row ∷ rest) chosen = elim (judge row) [
    | skip ↦ select_loop rest chosen
    | hard_fail ↦ err (type_x11 row.sid)
    | qualifies ↦ select_loop rest (choose chosen row.sid)
  ]

  -- The tests behind the loop.
  unfoldable pub select_end : Result SessionError (Option Text) → Result SessionError Text
  select_end (err e) = err e
  select_end (ok none) = err no_active_session
  select_end (ok (some chosen)) = if is_ssh ssh chosen then err refusing_ssh_session else ok chosen

  unfoldable pub select_rows : List ListedSession → Result SessionError Text
  unfolding select_loop select_end
  select_rows rows = select_end (select_loop rows none)

  unfoldable pub select_wayland_session : Text → Result SessionError Text
  unfolding select_rows
  select_wayland_session list_sessions_text = select_rows (parse_list_sessions list_sessions_text)
