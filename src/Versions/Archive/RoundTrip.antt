-- ===== src/Versions/Archive/RoundTrip.antt =====
-- strataqemu/tests_spec.py: the archive names that the host makes are read back.
use strata_qemu_testing.Base.{
  ℕ, suc, ◌<◌, true, false, ◌||◌, some, List, [], ◌∷◌, ◌++◌, ◌==◌, ok, ◌≡◌, refl, arith, All,
  All-append, Bool-cases, inl, inr, ◌≢◌, ap, sym, length, length-append,
}
use mathlib.Core.List.{append_assoc}
use strata_qemu_testing.Base.Text.{
  Text, codes, text_eq, is_digit, is_space, lower, lower_char, starts_with, split_on,
}
use strata_qemu_testing.Base.Text.Strip.{strip-All}
use strata_qemu_testing.Base.Text.Laws.{text_eq_sound, text_eq_refl}
use strata_qemu_testing.Guest.Fields.{path_name, last_component}
use strata_qemu_testing.Versions.{
  is_version, normalize_version, previous_release_archive_name, release_target,
}
use strata_qemu_testing.Versions.Archive.{
  parse_archive_version, archive_version, match_archive, remove_first, remove_ending, extensions,
  cut_where, drop_newline, drop_lower, group, without_target, cut_marker, has_newline,
}

-- A character of a release tag: a digit or a dot.
abbrev pub IsTagChar : ℕ → Type 0
IsTagChar c = (is_digit c || (c == b'.')) ≡ true

-- No slash and no newline.
abbrev IsNameChar : ℕ → Type 0
IsNameChar c = (c ≢ b'/') × (c ≢ 10)

tag-IsNameChar : (c : ℕ) → IsTagChar c → IsNameChar c
unfolding is_digit
tag-IsNameChar c h = (ground arith, ground arith)

tag-not_space : (c : ℕ) → IsTagChar c → is_space c ≡ false
unfolding is_digit is_space
tag-not_space c h = ground arith

All-map : (P Q : ℕ → Type 0) (f : (c : ℕ) → P c → Q c) (s : Text) → All P s → All Q s
All-map P Q f [] _ = tt
All-map P Q f (c ∷ s) (p, more) = (f c p, All-map P Q f s more)

split_on-none : (s : Text) → All IsNameChar s → split_on b'/' s ≡ s ∷ []
unfolding split_on
split_on-none [] _ = refl
split_on-none (c ∷ s) (h, more) =
    let other : (c == b'/') ≡ false = ground (arith, h.0) in rw (other, split_on-none s more)

drop_newline-none : (s : Text) → All IsNameChar s → drop_newline s ≡ s
unfolding drop_newline
drop_newline-none [] _ = refl
drop_newline-none (c ∷ s) (h, more) = ground (arith, h.1, drop_newline-none s more)

no_newline : (s : Text) → All IsNameChar s → has_newline s ≡ false
no_newline [] _ = refl
no_newline (c ∷ s) (h, more) = ground (arith, h.1, no_newline s more)

length-lower : (s : Text) → length (lower s) ≡ length s
unfolding lower
length-lower [] = refl
length-lower (c ∷ s) = ap suc (length-lower s)

differ_by_length : (s t : Text) → length t < length s → text_eq s t ≡ false
differ_by_length s t h = elim (Bool-cases (text_eq s t)) [
  | inr differ ↦ differ
  | inl same ↦ absurd (omega (arith, ap length (text_eq_sound s t same)))
]

longer : (ending : Text) (c : ℕ) (a : Text) → text_eq (lower (c ∷ (a ++ ending))) ending ≡ false
longer ending c a =
    differ_by_length (lower (c ∷ (a ++ ending))) ending
      (omega (arith, length-lower (c ∷ (a ++ ending)), length-append a ending))

-- An ending is found only where nothing stands behind it.
remove_ending-append :
    (ending a : Text) → lower ending ≡ ending → remove_ending ending (a ++ ending) ≡ some a
unfolding remove_ending cut_where
remove_ending-append [] [] l = unfold text_eq in refl
remove_ending-append (e ∷ es) [] l = rw (l, text_eq_refl (e ∷ es))
remove_ending-append ending (c ∷ a) l = rw (longer ending c a, remove_ending-append ending a l)

-- A marker is not found in a tag.
cut_where-tag :
    (marker tail tag : Text)
    → All IsTagChar tag
    → cut_where (λ t. starts_with t (b'-' ∷ marker)) tail ≡ some []
    → cut_where (λ t. starts_with t (b'-' ∷ marker)) (tag ++ tail) ≡ some tag
unfolding cut_where lower lower_char starts_with is_digit
cut_where-tag marker tail [] _ h = h
cut_where-tag marker tail (c ∷ tag) (p, more) h =
    ground (arith, cut_where-tag marker tail tag more h)

-- The stem of an archive's name, for a tag: what stands before the ending.
abbrev stem : Text → Text
stem tag = codes "strata-" ++ (tag ++ (b'-' ∷ release_target))

abbrev ending : Text
ending = codes ".tar.gz"

name_chars : (tag : Text) → All IsTagChar tag → All IsNameChar (stem tag ++ ending)
name_chars tag h =
    All-append IsNameChar (stem tag) ending
      (All-append IsNameChar (codes "strata-") (tag ++ (b'-' ∷ release_target)) (omega arith) (
        All-append IsNameChar tag (b'-' ∷ release_target)
          (All-map IsTagChar IsNameChar tag-IsNameChar tag h) (omega arith)))
      (omega arith)

stem_chars : (tag : Text) → All IsTagChar tag → All IsNameChar (stem tag)
stem_chars tag h =
    All-append IsNameChar (codes "strata-") (tag ++ (b'-' ∷ release_target)) (omega arith) (
      All-append IsNameChar tag (b'-' ∷ release_target)
        (All-map IsTagChar IsNameChar tag-IsNameChar tag h) (omega arith))

path_name-name :
    (tag : Text) → All IsTagChar tag → path_name (stem tag ++ ending) ≡ stem tag ++ ending
unfolding path_name last_component text_eq
path_name-name tag h = rw (split_on-none (stem tag ++ ending) (name_chars tag h))

lower-ending : lower ending ≡ ending
unfolding lower lower_char
lower-ending = refl

remove_first-found :
    (e name : Text) (more : List Text) {short : Text}
    → remove_ending e name ≡ some short
    → remove_first (e ∷ more) name ≡ some short
unfolding remove_first
remove_first-found e name more h = rw (h, remove_first)

remove_first-name : (tag : Text) → remove_first extensions (stem tag ++ ending) ≡ some (stem tag)
remove_first-name tag =
    remove_first-found ending (stem tag ++ ending) _ {short = stem tag}
      (remove_ending-append ending (stem tag) lower-ending)

-- A tag that begins with a digit is the group of the expression, with what follows it.
group-tag :
    (tag rest : Text)
    → is_version tag ≡ true
    → group (tag ++ (b'-' ∷ rest)) ≡ some (tag ++ (b'-' ∷ rest))
unfolding group is_version is_digit
group-tag [] rest h = cc
group-tag (c ∷ []) rest h = ground arith
group-tag (c ∷ d ∷ s) rest h = ground arith

drop_lower-stem : (rest : Text) → drop_lower (codes "strata-") (codes "strata-" ++ rest) ≡ some rest
unfolding drop_lower starts_with lower lower_char
drop_lower-stem rest = refl

match_archive-stem :
    (tag : Text)
    → All IsTagChar tag
    → is_version tag ≡ true
    → match_archive (stem tag) ≡ some (tag ++ (b'-' ∷ release_target))
unfolding match_archive
match_archive-stem tag h v = rw (
  drop_newline-none (stem tag) (stem_chars tag h),
  drop_lower-stem (tag ++ (b'-' ∷ release_target)),
  no_newline (tag ++ (b'-' ∷ release_target)) (
      All-append IsNameChar tag (b'-' ∷ release_target)
        (All-map IsTagChar IsNameChar tag-IsNameChar tag h) (omega arith)),
  group-tag tag release_target v,
  match_archive,
)

marker_found : cut_where (λ t. starts_with t (codes "-x86_64-")) (b'-' ∷ release_target) ≡ some []
unfolding cut_where starts_with lower lower_char
marker_found = refl

without_target-tag :
    (tag : Text) → All IsTagChar tag → without_target (tag ++ (b'-' ∷ release_target)) ≡ tag
unfolding without_target cut_marker
without_target-tag tag h =
    rw (cut_where-tag (codes "x86_64-") (b'-' ∷ release_target) tag h marker_found, without_target)

-- The name that the host gives to the archive of a previous release is read back as the version, for
-- every version whose normal form is a number, a dot, a digit and then digits and dots.
pub parse_archive_version-previous_release_archive_name :
    (version : Text)
    → is_version (normalize_version version) ≡ true
    → All IsTagChar (normalize_version version)
    → parse_archive_version (previous_release_archive_name version release_target)
      ≡ ok (normalize_version version)
parse_archive_version-previous_release_archive_name version v h =
    let tag = normalize_version version in rw (name-stem version) (read tag v h)
  where
    name-stem :
        (version : Text)
        → previous_release_archive_name version release_target
          ≡ stem (normalize_version version) ++ ending
    name-stem version =
        unfold previous_release_archive_name in
        sym (
          ap (λ t. codes "strata-" ++ t)
            (append_assoc (normalize_version version) (b'-' ∷ release_target) ending))

    read :
        (tag : Text)
        → is_version tag ≡ true
        → All IsTagChar tag
        → parse_archive_version (stem tag ++ ending) ≡ ok tag
    read tag v h =
        unfold parse_archive_version archive_version in
        rw (
          path_name-name tag h,
          remove_first-name tag,
          match_archive-stem tag h v,
          without_target-tag tag h,
          strip-All tag (All-map IsTagChar (λ c. is_space c ≡ false) tag-not_space tag h),
          v,
        )
