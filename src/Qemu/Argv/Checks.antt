-- ===== src/Qemu/Argv/Checks.antt =====
-- strataqemu/qemu.py: which configurations `build_qemu_argv` accepts.
use strata_qemu_testing.Base.{
  ◌≡◌, true, ◌||◌, List, is_none, is_some, ok, arith, inl, inr, ◌⊎◌, ◌↔◌, >>=-eq-ok,
}
use strata_qemu_testing.Base.Text.{Text, codes, text_eq}
use strata_qemu_testing.Base.Text.Laws.{text_eq_complete}
use strata_qemu_testing.Qemu.Argv.{Config, check_config, qemu_args, build_qemu_argv}
use strata_qemu_testing.Qemu.Argv.Values.{IsUi, check_config-IsUi}

-- What a configuration has to give: a known window toolkit, a VNC display unless there is a window,
-- a seed beside an install ISO, and both parts of the firmware or neither.
abbrev pub IsBuildable : Config → Type 0
IsBuildable c =
    IsUi c.graphical_ui
    × ((c.graphical ≡ true) ⊎ (is_some c.vnc_port ≡ true))
    × ((is_none c.install_iso ≡ true) ⊎ (is_some c.cidata_iso ≡ true))
    × (is_some c.ovmf_code ≡ is_some c.ovmf_vars)

ui_test : (ui : Text) → IsUi ui → (text_eq ui (codes "gtk") || text_eq ui (codes "sdl")) ≡ true
ui_test ui (inl gtk) = ground (arith, text_eq_complete ui (codes "gtk"))
ui_test ui (inr sdl) = ground (arith, text_eq_complete ui (codes "sdl"))

check_config_sound : (c : Config) → check_config c ≡ ok tt → IsBuildable c
unfolding check_config
check_config_sound c h = (check_config-IsUi c h, ground arith, ground arith, ground arith)

check_config_complete : (c : Config) → IsBuildable c → check_config c ≡ ok tt
unfolding check_config
check_config_complete c v = ground (arith, ui_test c.graphical_ui v.0)

-- A command line is built exactly for the buildable configurations; for all others one of the
-- `ValueError`s is raised.
pub build_qemu_argv-IsBuildable :
    (resolve : Text → Text) (c : Config)
    → ((argv : List Text) × (build_qemu_argv resolve c ≡ ok argv)) ↔ IsBuildable c
unfolding build_qemu_argv
build_qemu_argv-IsBuildable resolve c = (
  λ built. check_config_sound c (>>=-eq-ok (check_config c) _ built.1).1,
  λ v. (qemu_args resolve c, rw (check_config_complete c v)),
)
