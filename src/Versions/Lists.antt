-- ===== src/Versions/Lists.antt =====
-- strataqemu/tests_spec.py: the list of previous versions of `parse_update_from_versions`.
use strata_qemu_testing.Base.{
  true, false, ◌||◌, Option, none, some, List, [], ◌∷◌, ◌++◌, ok, ◌≡◌, ◌≢◌, refl, ◌∙◌, arith, inl,
  inr, Bool-cases, sym, All, All-append, bind_elim, Result-cases, ok-injective,
}
use mathlib.Core.Path.{subst}
use strata_qemu_testing.Base.Text.{Text, text_eq, mem, is_empty, strip, split_on, is_digit}
use strata_qemu_testing.Base.Text.Laws.{text_eq_iff}
use strata_qemu_testing.Versions.{
  is_version, dotted, parse_update_from_version, add_version, collect_versions, non_empty_list,
  parse_versions_text, parse_update_from_versions, default_versions,
}
use strata_qemu_testing.Versions.Normal.{parse_update_from_version_lem}

-- No text stands twice in the list.
abbrev pub IsNodup : List Text → Type 0
IsNodup [] = Unit
IsNodup (v ∷ vs) = (mem v vs ≡ false) × IsNodup vs

mem-concat : (a b : Text) (vs : List Text) → mem a (vs ++ (b ∷ [])) ≡ (mem a vs || text_eq a b)
unfolding mem
mem-concat a b [] = ground arith
mem-concat a b (v ∷ vs) = ground (arith, mem-concat a b vs)

IsNodup-concat :
    (v : Text) (vs : List Text) → mem v vs ≡ false → IsNodup vs → IsNodup (vs ++ (v ∷ []))
unfolding mem
IsNodup-concat v [] h n = (refl, tt)
IsNodup-concat v (w ∷ vs) h (fresh, n) = (
  ground (arith, mem-concat w v vs, text_eq_iff w v, text_eq_iff v w),
  IsNodup-concat v vs (ground arith) n,
)

-- What the list of versions is at each round of the loop.
abbrev pub IsVersionList : List Text → Type 0
IsVersionList vs = IsNodup vs × All (λ v. is_version v ≡ true) vs

add_version-IsVersionList :
    (vs : List Text) (v : Text)
    → is_version v ≡ true
    → IsVersionList vs
    → IsVersionList (add_version vs v)
unfolding add_version
add_version-IsVersionList vs v h (n, a) = elim (Bool-cases (mem v vs)) [
  | inl old ↦ rw old (n, a)
  | inr fresh ↦
      rw fresh
        (IsNodup-concat v vs fresh n, All-append (λ v. is_version v ≡ true) vs (v ∷ []) a (h, tt))
]

collect_versions-IsVersionList :
    (parts vs : List Text) {r : List Text}
    → IsVersionList vs
    → collect_versions parts vs ≡ ok r
    → IsVersionList r
unfolding collect_versions
collect_versions-IsVersionList [] vs {r} l h = subst IsVersionList (ok-injective vs r h) l
collect_versions-IsVersionList (part ∷ rest) vs {r} l h =
    elim (Bool-cases (is_empty (strip part))) [
      | inl blank ↦
          collect_versions-IsVersionList rest vs {r = r} l (rw (blank, collect_versions) at h)
      | inr given ↦ elim (Result-cases (parse_update_from_version (strip part))) [
        | inl (v, parsed) ↦
            collect_versions-IsVersionList rest (add_version vs v) {r = r}
              (add_version-IsVersionList vs v
                (parse_update_from_version_lem (strip part) v parsed).1 l)
              (rw (given, collect_versions, parsed) at h)
        | inr (e, refused) ↦ let bad = rw (given, collect_versions, refused) at h in cc
      ]
    ]

non_empty_list-eq-ok :
    (vs : List Text) {r : List Text} → non_empty_list vs ≡ ok r → (r ≡ vs) × (vs ≢ [])
unfolding non_empty_list
non_empty_list-eq-ok [] h = cc
non_empty_list-eq-ok (v ∷ vs) h = (cc, λ e. cc)

parse_versions_text-IsVersionList :
    (raw : Text) {r : List Text} → parse_versions_text raw ≡ ok r → IsVersionList r × (r ≢ [])
unfolding parse_versions_text
parse_versions_text-IsVersionList raw {r} h =
    bind_elim (collect_versions (split_on b',' raw) []) _ h λ vs collected h.
      let ends = non_empty_list-eq-ok vs {r = r} h in
      (
        rw ends.0
            (collect_versions-IsVersionList (split_on b',' raw) [] {r = vs} (tt, tt) collected),
        λ e. ends.1 (sym ends.0 ∙ e),
      )

default_versions-IsVersionList : IsVersionList default_versions × (default_versions ≢ [])
unfolding mem text_eq is_version dotted is_digit
default_versions-IsVersionList = (((refl, (refl, tt)), (refl, (refl, tt))), λ e. cc)

-- The list of previous versions is not empty, names no version twice, and holds only texts that
-- start with a number, a dot and a digit.
pub parse_update_from_versions-IsVersionList :
    (raw : Option Text) (versions : List Text)
    → parse_update_from_versions raw ≡ ok versions
    → IsVersionList versions × (versions ≢ [])
unfolding parse_update_from_versions
parse_update_from_versions-IsVersionList none vs h =
    subst (λ r. IsVersionList r × (r ≢ [])) (ok-injective default_versions vs h)
      default_versions-IsVersionList
parse_update_from_versions-IsVersionList (some raw) vs h =
    elim (Bool-cases (is_empty (strip raw))) [
      | inl blank ↦
          subst (λ r. IsVersionList r × (r ≢ [])) (ok-injective default_versions vs (rw blank at h))
            default_versions-IsVersionList
      | inr given ↦ parse_versions_text-IsVersionList raw {r = vs} (rw given at h)
    ]
