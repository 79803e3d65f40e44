-- ===== src/Cli/InstallFrom.antt =====
-- strataqemu/cli.py: which sources and paths `parse_install_from` gives.
use strata_qemu_testing.Base.{
  Option, none, some, List, [], ◌∷◌, ok, ◌≡◌, refl, inl, inr, ◌⊎◌, Bool-cases, ok-injective,
}
use mathlib.Core.Path.{subst}
use strata_qemu_testing.Base.Text.{Text, codes, text_eq}
use strata_qemu_testing.Base.Text.Laws.{text_eq_sound}
use strata_qemu_testing.Cli.{archive_of, no_path, parse_install_from}

-- Nothing, a release without a path, or a local archive with at most one.
abbrev pub IsInstallFrom : Option Text × Option Text → Type 0
IsInstallFrom (none, path) = path ≡ none
IsInstallFrom (some source, path) =
    ((source ≡ codes "release") × (path ≡ none)) ⊎ (source ≡ codes "local-archive")

archive_of-IsInstallFrom :
    (source : Text) (rest : List Text) (r : Option Text × Option Text)
    → source ≡ codes "local-archive"
    → archive_of source rest ≡ ok r
    → IsInstallFrom r
archive_of-IsInstallFrom source [] r is h =
    subst IsInstallFrom (ok-injective (some source, none) r h) (inr is)
archive_of-IsInstallFrom source (path ∷ []) r is h =
    subst IsInstallFrom (ok-injective (some source, some path) r h) (inr is)
archive_of-IsInstallFrom source (path ∷ extra ∷ rest) r is h = absurd (cc)

no_path-IsInstallFrom :
    (source : Text) (rest : List Text) (r : Option Text × Option Text)
    → source ≡ codes "release"
    → no_path source rest ≡ ok r
    → IsInstallFrom r
no_path-IsInstallFrom source [] r is h =
    subst IsInstallFrom (ok-injective (some source, none) r h) (inl (is, refl))
no_path-IsInstallFrom source (path ∷ rest) r is h = absurd (cc)

-- What the option gives is nothing, a release without a path, or a local archive.
pub parse_install_from-IsInstallFrom :
    (raw : List Text) (r : Option Text × Option Text)
    → parse_install_from raw ≡ ok r
    → IsInstallFrom r
unfolding parse_install_from
parse_install_from-IsInstallFrom [] r h = subst IsInstallFrom (ok-injective (none, none) r h) refl
parse_install_from-IsInstallFrom (source ∷ rest) r h =
    elim (Bool-cases (text_eq source (codes "local-archive"))) [
      | inl local ↦
          archive_of-IsInstallFrom source rest r (text_eq_sound source _ local) (rw local at h)
      | inr other ↦ elim (Bool-cases (text_eq source (codes "release"))) [
        | inl released ↦
            no_path-IsInstallFrom source rest r (text_eq_sound source _ released)
              (rw (other, released) at h)
        | inr neither ↦ absurd (let x = rw (other, neither) at h in cc)
      ]
    ]
