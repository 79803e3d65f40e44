-- ===== src/Versions.antt =====
-- strataqemu/tests_spec.py: version texts, and the names of release archives.
pub mod Normal
pub mod Lists
pub mod Archive
use strata_qemu_testing.Base.{
  ℕ, Bool, true, false, not, ◌&&◌, ◌||◌, Option, none, some, List, [], ◌∷◌, ◌++◌, ◌==◌, ◌-◌,
  if◌then◌else◌, Result, ok, err, ◌>>=◌, ◌>>◌, guard, length, take, any, all,
}
use strata_qemu_testing.Base.Text.{
  Text, codes, text_eq, is_empty, is_digit, is_space, strip, lower, starts_with, ends_with,
  split_on, mem, split_lines,
}
use strata_qemu_testing.Guest.Fields.{path_name}

-- `SessionSmokeError`, one constructor for each place of these functions that raises it.
pub data VersionError : Type 0 where
  missing_version : VersionError
  bad_version : Text → VersionError
  empty_list : VersionError
  bad_archive_name : Text → VersionError
  empty_output : VersionError

abbrev is_v : ℕ → Bool
is_v c = (c == b'v') || (c == b'V')

-- The tests of `_strip_v_prefix` on a stripped text.
unfoldable pub drop_v : Text → Text
drop_v [] = []
drop_v (c ∷ []) = c ∷ []
drop_v (c ∷ d ∷ s) = if is_v c && is_digit d then d ∷ s else c ∷ d ∷ s

-- `_strip_v_prefix`
unfoldable pub strip_v_prefix : Text → Text
unfolding drop_v
strip_v_prefix value = drop_v (strip value)

unfoldable pub normalize_version : Text → Text
unfolding strip_v_prefix
normalize_version value = strip_v_prefix (strip value)

unfoldable pub versions_match : Text → Text → Bool
unfolding normalize_version
versions_match observed intended = text_eq (normalize_version observed) (normalize_version intended)

-- Behind a digit: more digits, a dot, and a digit.
unfoldable pub dotted : Text → Bool
dotted [] = false
dotted (c ∷ s) = if is_digit c then dotted s else (c == b'.') && starts_digit s
  where
    starts_digit : Text → Bool
    starts_digit [] = false
    starts_digit (d ∷ _) = is_digit d

-- `re.match(r"\d+\.\d+", s)`
unfoldable pub is_version : Text → Bool
unfolding dotted
is_version [] = false
is_version (c ∷ s) = is_digit c && dotted s

unfoldable pub parse_update_from_version : Text → Result VersionError Text
parse_update_from_version value =
    let text = strip value in
    if is_empty text
    then err missing_version
    else if is_version (normalize_version text)
    then ok (normalize_version text)
    else err (bad_version value)

-- One round of the loop of `parse_update_from_versions`.
unfoldable pub add_version : List Text → Text → List Text
add_version versions ver = if mem ver versions then versions else versions ++ (ver ∷ [])

unfoldable pub collect_versions : List Text → List Text → Result VersionError (List Text)
collect_versions [] versions = ok versions
collect_versions (part ∷ rest) versions = elim (is_empty (strip part)) [
  | true ↦ collect_versions rest versions
  | false ↦ elim (parse_update_from_version (strip part)) [
    | err e ↦ err e
    | ok ver ↦ collect_versions rest (add_version versions ver)
  ]
]

-- DEFAULT_UPDATE_FROM_VERSIONS
abbrev pub default_versions : List Text
default_versions = codes "0.15.0" ∷ codes "0.14.0" ∷ []

unfoldable pub non_empty_list : List Text → Result VersionError (List Text)
non_empty_list [] = err empty_list
non_empty_list (v ∷ vs) = ok (v ∷ vs)

unfoldable pub parse_versions_text : Text → Result VersionError (List Text)
unfolding collect_versions non_empty_list
parse_versions_text raw = do
  versions ← collect_versions (split_on b',' raw) []
  non_empty_list versions

unfoldable pub parse_update_from_versions : Option Text → Result VersionError (List Text)
unfolding parse_versions_text
parse_update_from_versions none = ok default_versions
parse_update_from_versions (some raw) =
    if is_empty (strip raw) then ok default_versions else parse_versions_text raw

-- STRATA_RELEASE_TARGET
abbrev pub release_target : Text
release_target = codes "x86_64-unknown-linux-gnu"

unfoldable pub previous_release_archive_name : Text → Text → Text
previous_release_archive_name version target =
    codes "strata-" ++ (normalize_version version ++ (b'-' ∷ (target ++ codes ".tar.gz")))

unfoldable pub previous_release_url : Text → Text → Text
unfolding previous_release_archive_name
previous_release_url version target =
    codes "https://github.com/lgse/strata/releases/download/v"
    ++ (normalize_version version
        ++ (b'/' ∷ previous_release_archive_name (normalize_version version) target))
