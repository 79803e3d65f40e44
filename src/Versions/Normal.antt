-- ===== src/Versions/Normal.antt =====
-- strataqemu/tests_spec.py: normal forms of versions.
use strata_qemu_testing.Base.{
  ℕ, true, false, ◌&&◌, [], ◌∷◌, ok, ◌≡◌, refl, ◌∙◌, arith, ap, inl, inr, Bool-cases,
}
use strata_qemu_testing.Base.Text.{Text, is_digit, is_space, strip}
use strata_qemu_testing.Base.Text.Strip.{
  IsTrimmed, strip-IsTrimmed, strip_trimmed, rstrip_tail, lstrip_cons,
}
use strata_qemu_testing.Base.Text.Laws.{text_eq_complete}
use strata_qemu_testing.Versions.{
  drop_v, is_v, strip_v_prefix, normalize_version, versions_match, is_version,
  parse_update_from_version,
}

digit-not_space : (c : ℕ) → is_digit c ≡ true → is_space c ≡ false
unfolding is_digit is_space
digit-not_space c h = ground arith

drop_v-IsTrimmed : (s : Text) → IsTrimmed s → IsTrimmed (drop_v s)
unfolding drop_v
drop_v-IsTrimmed [] t = t
drop_v-IsTrimmed (c ∷ []) t = t
drop_v-IsTrimmed (c ∷ d ∷ s) t = elim (Bool-cases (is_v c && is_digit d)) [
  | inr kept ↦ rw kept t
  | inl dropped ↦
      rw dropped (lstrip_cons d s (digit-not_space d (ground arith)), rstrip_tail c (d ∷ s) t.1)
]

drop_v-drop_v : (s : Text) → drop_v (drop_v s) ≡ drop_v s
unfolding drop_v is_digit
drop_v-drop_v [] = refl
drop_v-drop_v (c ∷ []) = refl
drop_v-drop_v (c ∷ d ∷ []) = ground arith
drop_v-drop_v (c ∷ d ∷ e ∷ s) = ground arith

pub normalize_version-IsTrimmed : (v : Text) → IsTrimmed (normalize_version v)
unfolding normalize_version strip_v_prefix
normalize_version-IsTrimmed v = drop_v-IsTrimmed (strip (strip v)) (strip-IsTrimmed (strip v))

-- Normalizing a version again changes nothing.
pub normalize_version_idem :
    (v : Text) → normalize_version (normalize_version v) ≡ normalize_version v
normalize_version_idem v =
    normal_of_trimmed (normalize_version v) (normalize_version-IsTrimmed v) ∙ again v
  where
    normal_of_trimmed : (t : Text) → IsTrimmed t → normalize_version t ≡ drop_v t
    normal_of_trimmed t h = unfold normalize_version in rw (strip_trimmed t h, strip_trimmed t h)

    again : (v : Text) → drop_v (normalize_version v) ≡ normalize_version v
    again v = unfold normalize_version in drop_v-drop_v (strip (strip v))

normalize_version-strip : (v : Text) → normalize_version (strip v) ≡ normalize_version v
unfolding normalize_version
normalize_version-strip v = ap strip_v_prefix (strip_trimmed (strip v) (strip-IsTrimmed v))

-- A version matches its normal form.
pub versions_match-normalize : (v : Text) → versions_match (normalize_version v) v ≡ true
unfolding versions_match
versions_match-normalize v = text_eq_complete _ _ (normalize_version_idem v)

-- A version that `--update-from` accepts is the normal form of its argument, starts with a number, a
-- dot and a digit, and matches the argument.
pub parse_update_from_version_lem :
    (value version : Text)
    → parse_update_from_version value ≡ ok version
    → (version ≡ normalize_version value)
      × (is_version version ≡ true)
      × (versions_match version value ≡ true)
unfolding parse_update_from_version
parse_update_from_version_lem value version h =
    let facts = accepted (strip value) refl in
    let normal = facts.0 ∙ normalize_version-strip value in
    (normal, facts.1, rw normal (versions_match-normalize value))
  where
    accepted :
        (t : Text)
        → t ≡ strip value
        → (version ≡ normalize_version (strip value)) × (is_version version ≡ true)
    accepted t e = (ground arith, ground arith)
