-- ===== src/Session/Parse.antt =====
-- strataqemu/session.py: `parse_list_sessions` and `parse_show_session`.
use strata_qemu_testing.Base.{
  Bool, false, ◌||◌, ℕ, zero, suc, ◌+◌, ◌-◌, ◌*◌, ◌||◌, Option, none, some, List, [], ◌∷◌,
  if◌then◌else◌,
}
use strata_qemu_testing.Base.Text.{
  Text, codes, text_eq, is_empty, is_digit, strip, lower, starts_with, words, split_lines,
  partition,
}

-- A row of `loginctl --no-legend list-sessions`.
pub record ListedSession : Type 0 where
  pub sid : Text
  pub uid : ℕ
  pub user : Text
  pub seat : Text
  pub tty : Text

-- `int(text)` on a word of digits; any other word is a `ValueError`. A sign or an underscore,
-- which Python takes too, does not occur in a user id.
unfoldable pub parse_int_from : ℕ → Text → Option ℕ
parse_int_from n [] = some n
parse_int_from n (c ∷ s) = if is_digit c then parse_int_from (n * 10 + (c - b'0')) s else none

unfoldable pub parse_int : Text → Option ℕ
unfolding parse_int_from
parse_int s = if is_empty s then none else parse_int_from 0 s

-- `parts[i] if len(parts) > i else ""`
abbrev column : ℕ → List Text → Text
column i [] = []
column zero (p ∷ ps) = p
column (suc i) (p ∷ ps) = column i ps

-- the same, with `-` read as nothing
abbrev dash_column : ℕ → List Text → Text
dash_column i ps = if text_eq (column i ps) (codes "-") then [] else column i ps

-- The row of a line's words, unless there are fewer than two or the second is no number.
unfoldable pub listed : List Text → Option ListedSession
unfolding parse_int
listed [] = none
listed (sid ∷ []) = none
listed (sid ∷ uid ∷ rest) = elim (parse_int uid) [
  | none ↦ none
  | some n ↦ some (record {
    sid = sid;
    uid = n;
    user = column 0 rest;
    seat = dash_column 1 rest;
    tty = dash_column 2 rest;
  })
]

-- One round of the loop over the lines.
unfoldable pub listed_line : Text → Option ListedSession
unfolding listed
listed_line raw =
    let line = strip raw in
    if is_empty line || starts_with (lower line) (codes "session")
    then none
    else listed (words line)

unfoldable pub list_rows : List Text → List ListedSession
unfolding listed_line
list_rows [] = []
list_rows (raw ∷ rest) = elim (listed_line raw) [
  | none ↦ list_rows rest
  | some row ↦ row ∷ list_rows rest
]

unfoldable pub parse_list_sessions : Text → List ListedSession
unfolding list_rows
parse_list_sessions text = list_rows (split_lines text)

-- A dict, with the pair that was written last at the head: a lookup finds the last value.
abbrev pub Props : Type 0
Props = List (Text × Text)

-- `props.get(key, default)`
unfoldable pub get_prop : Text → Text → Props → Text
get_prop key default [] = default
get_prop key default ((k, v) ∷ rest) = if text_eq key k then v else get_prop key default rest

-- `key in props`
unfoldable pub has_key : Text → Props → Bool
has_key key [] = false
has_key key ((k, v) ∷ rest) = text_eq key k || has_key key rest

-- One round of the loop of `parse_show_session`.
unfoldable pub show_line : Text → Props → Props
show_line raw props =
    let line = strip raw in
    if is_empty line || starts_with line (codes "#")
    then props
    else elim (partition b'=' line) [ none ↦ props | some pair ↦ pair ∷ props ]

unfoldable pub show_rows : List Text → Props → Props
unfolding show_line
show_rows [] props = props
show_rows (raw ∷ rest) props = show_rows rest (show_line raw props)

unfoldable pub parse_show_session : Text → Props
unfolding show_rows
parse_show_session text = show_rows (split_lines text) []
