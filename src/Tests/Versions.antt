-- ===== src/Tests/Versions.antt =====
-- strataqemu/tests_spec.py at concrete inputs: versions with a prefix and white space.
use strata_qemu_testing.Base.{◌≡◌, ◌≢◌, refl, true, List, [], ◌∷◌, ok, some}
use strata_qemu_testing.Base.Text.{
  Text, codes, text_eq, mem, is_digit, strip, lstrip, rstrip, is_space, split_on,
}
use strata_qemu_testing.Versions.{
  parse_update_from_version, normalize_version, strip_v_prefix, drop_v, is_version, dotted,
  versions_match, parse_update_from_versions, parse_versions_text, collect_versions, add_version,
  non_empty_list, previous_release_archive_name, release_target,
}
use strata_qemu_testing.Versions.Normal.{
  normalize_version_idem, versions_match-normalize, parse_update_from_version_lem,
}
use strata_qemu_testing.Versions.Lists.{IsVersionList, parse_update_from_versions-IsVersionList}
use strata_qemu_testing.Versions.Archive.{parse_archive_version}
use strata_qemu_testing.Versions.Archive.RoundTrip.{
  parse_archive_version-previous_release_archive_name,
}

abbrev spoken : Text
spoken = codes " v1.2.0\n"

normalize_version_idem_example :
    normalize_version (normalize_version spoken) ≡ normalize_version spoken
normalize_version_idem_example = normalize_version_idem spoken

versions_match-normalize_example : versions_match (normalize_version spoken) spoken ≡ true
versions_match-normalize_example = versions_match-normalize spoken

spoken_accepted : parse_update_from_version spoken ≡ ok (codes "1.2.0")
unfolding parse_update_from_version normalize_version strip_v_prefix drop_v is_version dotted
    is_digit strip lstrip rstrip is_space
spoken_accepted = refl

parse_update_from_version_lem_example :
    (codes "1.2.0" ≡ normalize_version spoken)
    × (is_version (codes "1.2.0") ≡ true)
    × (versions_match (codes "1.2.0") spoken ≡ true)
parse_update_from_version_lem_example =
    parse_update_from_version_lem spoken (codes "1.2.0") spoken_accepted

abbrev two_versions : List Text
two_versions = codes "1.1.0" ∷ codes "1.2.0" ∷ []

two_versions_read :
    parse_update_from_versions (some (codes "v1.1.0, 1.2.0,1.1.0")) ≡ ok two_versions
unfolding parse_update_from_versions parse_versions_text collect_versions add_version non_empty_list
    parse_update_from_version normalize_version strip_v_prefix drop_v is_version dotted is_digit
    strip lstrip rstrip is_space split_on mem text_eq
two_versions_read = refl

parse_update_from_versions-IsVersionList_example : IsVersionList two_versions × (two_versions ≢ [])
parse_update_from_versions-IsVersionList_example =
    parse_update_from_versions-IsVersionList (some (codes "v1.1.0, 1.2.0,1.1.0")) two_versions
      two_versions_read

parse_archive_version-previous_release_archive_name_example :
    parse_archive_version (previous_release_archive_name (codes "v1.2.0") release_target)
    ≡ ok (normalize_version (codes "v1.2.0"))
unfolding normalize_version strip_v_prefix drop_v is_version dotted is_digit strip lstrip rstrip
    is_space
parse_archive_version-previous_release_archive_name_example =
    parse_archive_version-previous_release_archive_name (codes "v1.2.0") refl
      (refl, (refl, (refl, (refl, (refl, tt)))))
