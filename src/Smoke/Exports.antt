-- ===== src/Smoke/Exports.antt =====
-- strataqemu/tests_spec.py: which variables `parse_session_exports` lets through.
use strata_qemu_testing.Base.{true, ◌||◌, Option, none, some, List, [], ◌∷◌, ◌≡◌, All, if-cases}
use strata_qemu_testing.Base.Text.{
  Text, codes, mem, is_empty, strip, starts_with, partition, split_lines,
}
use strata_qemu_testing.Session.Parse.{Props}
use strata_qemu_testing.Smoke.{wanted, keep_wanted, export_line, export_rows, parse_session_exports}

abbrev pub AllWanted : Props → Type 0
AllWanted = All (λ pair. mem pair.0 wanted ≡ true)

keep_wanted-AllWanted :
    (pair : Text × Text) (env : Props) → AllWanted env → AllWanted (keep_wanted pair env)
unfolding keep_wanted
keep_wanted-AllWanted (key, value) env h =
    if-cases AllWanted (mem key wanted) ((key, value) ∷ env) env (λ known. (known, h)) (λ _. h)

found-AllWanted :
    (found : Option (Text × Text)) (env : Props)
    → AllWanted env
    → AllWanted (elim found [ none ↦ env | some pair ↦ keep_wanted pair env ])
found-AllWanted none env h = h
found-AllWanted (some pair) env h = keep_wanted-AllWanted pair env h

export_line-AllWanted : (raw : Text) (env : Props) → AllWanted env → AllWanted (export_line raw env)
unfolding export_line
export_line-AllWanted raw env h =
    if-cases AllWanted (is_empty (strip raw) || starts_with (strip raw) (codes "#")) _ _ (λ _. h)
      (λ _. found-AllWanted (partition b'=' (strip raw)) env h)

export_rows-AllWanted :
    (rows : List Text) (env : Props) → AllWanted env → AllWanted (export_rows rows env)
unfolding export_rows
export_rows-AllWanted [] env h = h
export_rows-AllWanted (raw ∷ rest) env h =
    export_rows-AllWanted rest (export_line raw env) (export_line-AllWanted raw env h)

-- Whatever the guest prints, only the five variables of a session are read from it.
pub parse_session_exports-AllWanted : (text : Text) → AllWanted (parse_session_exports text)
unfolding parse_session_exports
parse_session_exports-AllWanted text = export_rows-AllWanted (split_lines text) [] tt
