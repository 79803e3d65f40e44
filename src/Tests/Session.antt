-- ===== src/Tests/Session.antt =====
-- strataqemu/session.py at concrete inputs: an SSH session and a Wayland session on seat0.
use strata_qemu_testing.Base.{
  ℕ, Bool, ◌≡◌, refl, sym, List, [], ◌∷◌, ok, err, none, some, arith, All, Any, inl, inr, true,
  false, if◌then◌else◌,
}
use mathlib.Core.Path.{subst}
use strata_qemu_testing.Base.Text.{
  Text, codes, text_eq, mem, is_space, is_digit, is_line_break, lower_char, lower, lstrip, rstrip,
  strip, starts_with, contains, partition, words_from, words, lines_from, split_lines,
}
use strata_qemu_testing.Session.Parse.{
  ListedSession, parse_list_sessions, list_rows, listed_line, listed, parse_int, parse_int_from,
  parse_show_session, show_rows, show_line, get_prop,
}
use strata_qemu_testing.Session.Select.{
  ShowSession, type_x11, no_active_session, select_wayland_session, select_rows, select_loop,
  select_end, judge, judge_shown, judge_props, is_graphical, is_ssh,
}
use strata_qemu_testing.Session.Select.Judge.{IsEligible, IsX11}
use strata_qemu_testing.Session.Select.Outcomes.{FirstEligible, NoX11, select_wayland_session_sound}
use strata_qemu_testing.Session.Select.Complete.{
  select_wayland_session_complete, select_wayland_session-x11, select_wayland_session-nothing,
}
use strata_qemu_testing.Session.Env.{FsEntry, choose_hyprland_instance, newest, dirs, newest_name}
use strata_qemu_testing.Session.Env.Newest.{IsNewestDir, choose_hyprland_instance-newest}

abbrev listing : Text
listing = codes "3 1000 tester - - -\n2 1000 tester seat0 tty2 -\n"

abbrev show : ShowSession
show sid =
    if text_eq sid (codes "2")
    then some (codes "Type=wayland\nClass=user\nState=active\nSeat=seat0\n")
    else some (codes "Type=tty\nClass=user\nState=active\n")

select_wayland_session_run :
    select_wayland_session show 1000 (some (codes "3")) listing ≡ ok (codes "2")
unfolding select_wayland_session select_rows select_loop select_end judge judge_shown judge_props
    text_eq parse_list_sessions list_rows listed_line listed parse_int parse_int_from split_lines
    lines_from words words_from is_space is_digit is_line_break is_graphical is_ssh
    parse_show_session show_rows show_line get_prop strip lstrip rstrip lower lower_char partition
    starts_with contains mem
select_wayland_session_run = refl

select_wayland_session_sound_example :
    FirstEligible show 1000 (some (codes "3")) (codes "2") (parse_list_sessions listing)
    × NoX11 show 1000 (some (codes "3")) (parse_list_sessions listing)
select_wayland_session_sound_example =
    select_wayland_session_sound show 1000 (some (codes "3")) listing (codes "2")
      select_wayland_session_run

abbrev ssh_row : ListedSession
ssh_row = record { sid = codes "3"; uid = 1000; user = codes "tester"; seat = []; tty = [] }

abbrev seat_row : ListedSession
seat_row = record {
  sid = codes "2";
  uid = 1000;
  user = codes "tester";
  seat = codes "seat0";
  tty = codes "tty2";
}

listing_rows : parse_list_sessions listing ≡ ssh_row ∷ seat_row ∷ []
unfolding parse_list_sessions list_rows listed_line listed parse_int parse_int_from split_lines
    lines_from words words_from is_space is_digit is_line_break text_eq mem strip starts_with lower
listing_rows = refl

seat_row-IsEligible : IsEligible show 1000 (some (codes "3")) seat_row
unfolding is_graphical is_ssh parse_show_session show_rows show_line get_prop strip lstrip rstrip
    lower lower_char partition starts_with contains mem text_eq split_lines lines_from words
    words_from is_space is_line_break
seat_row-IsEligible =
    (refl, (codes "Type=wayland\nClass=user\nState=active\nSeat=seat0\n", refl, refl), refl)

IsEligible-there : Any (IsEligible show 1000 (some (codes "3"))) (parse_list_sessions listing)
IsEligible-there =
    subst (Any (IsEligible show 1000 (some (codes "3")))) (sym listing_rows)
      (inr (inl seat_row-IsEligible))

select_wayland_session_complete_example :
    (sid : Text) × (select_wayland_session show 1000 (some (codes "3")) listing ≡ ok sid)
select_wayland_session_complete_example =
    select_wayland_session_complete show 1000 (some (codes "3")) listing
      select_wayland_session_sound_example.1 IsEligible-there

-- A session of another user.
abbrev other_user : Text
other_user = codes "5 1001 guest seat0 tty3 -\n"

abbrev other_row : ListedSession
other_row = record {
  sid = codes "5";
  uid = 1001;
  user = codes "guest";
  seat = codes "seat0";
  tty = codes "tty3";
}

other_rows : parse_list_sessions other_user ≡ other_row ∷ []
unfolding parse_list_sessions list_rows listed_line listed parse_int parse_int_from split_lines
    lines_from words words_from is_space is_digit is_line_break text_eq mem strip starts_with lower
other_rows = refl

other_user_x11 : NoX11 show 1000 none (parse_list_sessions other_user)
other_user_x11 = subst (NoX11 show 1000 none) (sym other_rows) (λ e. omega (arith, e.0), tt)

other_user-IsEligible :
    All (λ row. ¬ IsEligible show 1000 none row) (parse_list_sessions other_user)
other_user-IsEligible =
    subst (All (λ row. ¬ IsEligible show 1000 none row)) (sym other_rows)
      (λ e. omega (arith, e.0), tt)

select_wayland_session-nothing_example :
    select_wayland_session show 1000 none other_user ≡ err no_active_session
select_wayland_session-nothing_example =
    select_wayland_session-nothing show 1000 none other_user other_user_x11 other_user-IsEligible

abbrev show_x11 : ShowSession
show_x11 sid = some (codes "Type=x11\nClass=user\nState=active\n")

ssh_row-IsX11 : IsX11 show_x11 1000 ssh_row
unfolding is_graphical is_ssh parse_show_session show_rows show_line get_prop strip lstrip rstrip
    lower lower_char partition starts_with contains mem text_eq split_lines lines_from words
    words_from is_space is_line_break
ssh_row-IsX11 = (refl, (codes "Type=x11\nClass=user\nState=active\n", refl, refl))

IsX11-there : Any (IsX11 show_x11 1000) (parse_list_sessions listing)
IsX11-there = subst (Any (IsX11 show_x11 1000)) (sym listing_rows) (inl ssh_row-IsX11)

select_wayland_session-x11_example :
    (sid : Text) × (select_wayland_session show_x11 1000 none listing ≡ err (type_x11 sid))
select_wayland_session-x11_example =
    select_wayland_session-x11 show_x11 1000 none listing IsX11-there

abbrev entry : Text → Bool → ℕ → FsEntry
entry name is_dir mtime = record { name = name; is_socket = false; is_dir = is_dir; mtime = mtime }

abbrev instances : List FsEntry
instances =
    entry (codes "old") true 3 ∷ entry (codes "new") true 8 ∷ entry (codes "lock") false 9 ∷ []

choose_hyprland_instance_run : choose_hyprland_instance instances ≡ some (codes "new")
unfolding choose_hyprland_instance newest dirs newest_name
choose_hyprland_instance_run = refl

choose_hyprland_instance-newest_example :
    (e : FsEntry) × (e.name ≡ codes "new") × IsNewestDir e instances
choose_hyprland_instance-newest_example =
    choose_hyprland_instance-newest instances (codes "new") choose_hyprland_instance_run
