-- ===== src/Tests/Commands.antt =====
-- strataqemu/tests_spec.py, overlay.py and cli.py at concrete inputs.
use strata_qemu_testing.Base.{◌≡◌, refl, List, [], ◌∷◌, ◌++◌, some, ok}
use strata_qemu_testing.Base.Text.{Text, codes, text_eq}
use strata_qemu_testing.Smoke.{parse_session_exports}
use strata_qemu_testing.Smoke.Exports.{AllWanted, parse_session_exports-AllWanted}
use strata_qemu_testing.Overlay.{create_overlay_argv, without_backing_file_strict}
use strata_qemu_testing.Overlay.Fallback.{without_backing_file_strict-create_overlay_argv}
use strata_qemu_testing.Cli.{parse_install_from}
use strata_qemu_testing.Cli.InstallFrom.{IsInstallFrom, parse_install_from-IsInstallFrom}

abbrev printed : Text
printed = codes "SESSION_ID=2\nLD_PRELOAD=/tmp/x.so\nWAYLAND_DISPLAY=wayland-1\n"

parse_session_exports-AllWanted_example : AllWanted (parse_session_exports printed)
parse_session_exports-AllWanted_example = parse_session_exports-AllWanted printed

abbrev rooted : Text → Text
rooted path = codes "/cache/" ++ path

abbrev relaxed : List Text
relaxed =
    codes "qemu-img"
    ∷ codes "create"
    ∷ codes "-f"
    ∷ codes "qcow2"
    ∷ codes "-F"
    ∷ codes "qcow2"
    ∷ codes "-b"
    ∷ codes "/cache/golden.qcow2"
    ∷ codes "overlay.qcow2"
    ∷ []

without_backing_file_strict-create_overlay_argv_example :
    without_backing_file_strict
      (create_overlay_argv rooted (codes "golden.qcow2") (codes "overlay.qcow2") (codes "qemu-img"))
    ≡ relaxed
unfolding text_eq
without_backing_file_strict-create_overlay_argv_example =
    without_backing_file_strict-create_overlay_argv rooted (codes "golden.qcow2")
      (codes "overlay.qcow2") (codes "qemu-img") refl refl

abbrev local_words : List Text
local_words = codes "local-archive" ∷ codes "strata.tar.gz" ∷ []

local_words_read :
    parse_install_from local_words ≡ ok (some (codes "local-archive"), some (codes "strata.tar.gz"))
unfolding parse_install_from text_eq
local_words_read = refl

parse_install_from-IsInstallFrom_example :
    IsInstallFrom (some (codes "local-archive"), some (codes "strata.tar.gz"))
parse_install_from-IsInstallFrom_example =
    parse_install_from-IsInstallFrom local_words
      (some (codes "local-archive"), some (codes "strata.tar.gz")) local_words_read
