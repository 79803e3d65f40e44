-- ===== src/Cli.antt =====
-- strataqemu/cli.py: the arguments of `--install-from`.
pub mod InstallFrom
pub mod Host
use strata_qemu_testing.Base.{
  Bool, true, false, not, ◌||◌, Option, none, some, List, [], ◌∷◌, if◌then◌else◌, Result, ok, err,
}
use strata_qemu_testing.Base.Text.{Text, codes, text_eq, join}

-- The texts of the errors, with what the first one names.
pub data InstallFromError : Type 0 where
  extra_arguments : Text → InstallFromError
  unknown_source path_for_release : InstallFromError

-- `normalize_cli_argv`
unfoldable pub normalize_cli_argv : List Text → List Text
normalize_cli_argv [] = []
normalize_cli_argv (a ∷ rest) =
    let more = normalize_cli_argv rest in if text_eq a (codes "--") then more else a ∷ more

-- The path of a local archive.
abbrev pub archive_of : Text → List Text → Result InstallFromError (Option Text × Option Text)
archive_of source [] = ok (some source, none)
archive_of source (path ∷ []) = ok (some source, some path)
archive_of source (path ∷ extra ∷ rest) = err (extra_arguments (join (codes " ") (extra ∷ rest)))

abbrev pub no_path : Text → List Text → Result InstallFromError (Option Text × Option Text)
no_path source [] = ok (some source, none)
no_path source (_ ∷ _) = err path_for_release

-- The source and the path, or the error; an absent option counts as no words.
unfoldable pub parse_install_from : List Text → Result InstallFromError (Option Text × Option Text)
parse_install_from [] = ok (none, none)
parse_install_from (source ∷ rest) =
    if text_eq source (codes "local-archive")
    then archive_of source rest
    else if text_eq source (codes "release")
    then no_path source rest
    else err unknown_source
