-- ===== src/Versions/Archive.antt =====
-- strataqemu/tests_spec.py: `parse_archive_version`.
pub mod RoundTrip
use strata_qemu_testing.Base.{
  ℕ, Bool, true, false, not, ◌&&◌, ◌||◌, Option, none, some, List, [], ◌∷◌, ◌++◌, ◌==◌,
  if◌then◌else◌, Result, ok, err, any,
}
use strata_qemu_testing.Base.Text.{
  Text, codes, text_eq, is_empty, strip, lower, starts_with, ends_with,
}
use strata_qemu_testing.Guest.Fields.{path_name}
use strata_qemu_testing.Versions.{VersionError, bad_archive_name, is_version, is_v}

-- The text before its first tail of which the lowered text satisfies a test.
unfoldable pub cut_where : (Text → Bool) → Text → Option Text
cut_where test [] = if test [] then some [] else none
cut_where test (c ∷ s) =
    let rest = cut_where test s in
    if test (lower (c ∷ s))
    then some []
    else (elim rest [ none ↦ none | some before ↦ some (c ∷ before) ])

-- `if name.lower().endswith(ext): name[: -len(ext)]`; an ending stands at one place only
unfoldable pub remove_ending : Text → Text → Option Text
remove_ending ending name = cut_where (λ tail. text_eq tail ending) name

abbrev pub extensions : List Text
extensions = codes ".tar.gz" ∷ codes ".tar.xz" ∷ codes ".tgz" ∷ codes ".zip" ∷ codes ".tar" ∷ []

-- The first ending of the list that the name has, taken off.
unfoldable pub remove_first : List Text → Text → Option Text
remove_first [] name = none
remove_first (ending ∷ rest) name = elim (remove_ending ending name) [
  | some short ↦ some short
  | none ↦ remove_first rest name
]

abbrev or_same : Text → Option Text → Text
or_same name none = name
or_same name (some short) = short

-- `$` of the expression stands before a newline that ends the text, and `.` is no newline.
unfoldable pub drop_newline : Text → Text
drop_newline [] = []
drop_newline (c ∷ s) = if is_empty s && (c == 10) then [] else c ∷ drop_newline s

abbrev has_newline : Text → Bool
has_newline s = any (λ c. c == 10) s

-- `v?(.+)`: a `v` is left out of the group where something follows it
unfoldable pub group : Text → Option Text
group [] = none
group (c ∷ []) = some (c ∷ [])
group (c ∷ d ∷ s) = some (if is_v c then d ∷ s else c ∷ d ∷ s)

-- The text behind a prefix that the lowered text has.
unfoldable pub drop_lower : Text → Text → Option Text
drop_lower [] s = some s
drop_lower (b ∷ p) [] = none
drop_lower (b ∷ p) (a ∷ s) = if starts_with (lower (a ∷ [])) (b ∷ []) then drop_lower p s else none

-- ARCHIVE_VERSION_RE.match, by its group
unfoldable pub match_archive : Text → Option Text
match_archive name = elim (drop_lower (codes "strata-") (drop_newline name)) [
  | none ↦ none
  | some rest ↦ if has_newline rest then none else group rest
]

-- _ARCHIVE_TARGET_MARKERS
abbrev pub target_markers : List Text
target_markers =
    codes "-x86_64-"
    ∷ codes "-aarch64-"
    ∷ codes "-arm64-"
    ∷ codes "-x86_64."
    ∷ codes "-aarch64."
    ∷ codes "-arm64."
    ∷ []

-- `rest[: rest.lower().find(marker)]` for the first marker that is found
unfoldable pub cut_marker : List Text → Text → Option Text
cut_marker [] rest = none
cut_marker (marker ∷ more) rest = elim (cut_where (λ tail. starts_with tail marker) rest) [
  | some before ↦ some before
  | none ↦ cut_marker more rest
]

-- The targets that may end a name with nothing behind them.
abbrev pub bare_targets : List Text
bare_targets = codes "-x86_64" ∷ codes "-aarch64" ∷ codes "-arm64" ∷ []

unfoldable pub without_target : Text → Text
without_target rest = elim (cut_marker target_markers rest) [
  | some before ↦ before
  | none ↦ or_same rest (remove_first bare_targets rest)
]

-- The end of the function, behind the match.
unfoldable pub archive_version : Text → Option Text → Result VersionError Text
archive_version filename none = err (bad_archive_name (path_name filename))
archive_version filename (some rest) =
    let version = strip (without_target rest) in
    if is_version version then ok version else err (bad_archive_name (path_name filename))

unfoldable pub parse_archive_version : Text → Result VersionError Text
parse_archive_version filename =
    let name = path_name filename in
    archive_version filename (match_archive (or_same name (remove_first extensions name)))
