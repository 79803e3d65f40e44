-- ===== src/Smoke.antt =====
-- strataqemu/tests_spec.py: what the host reads from the guest's smoke scripts, and the commands that
-- start them. `shlex.quote` is a parameter.
pub mod Exports
use strata_qemu_testing.Base.{
  ℕ, Bool, true, false, not, ◌||◌, Option, none, some, List, [], ◌∷◌, ◌++◌, if◌then◌else◌, Result,
  ok, err, map,
}
use strata_qemu_testing.Base.Text.{
  Text, codes, text_eq, mem, is_empty, lower, strip, rstrip, starts_with, contains, partition,
  split_lines, decimal, join,
}
use strata_qemu_testing.Session.Parse.{Props, get_prop}

pub data SmokeError : Type 0 where
  unparseable_reply not_printed : Text → SmokeError

-- The keys of `parse_session_exports`.
abbrev pub wanted : List Text
wanted =
    codes "SESSION_ID"
    ∷ codes "XDG_RUNTIME_DIR"
    ∷ codes "DBUS_SESSION_BUS_ADDRESS"
    ∷ codes "WAYLAND_DISPLAY"
    ∷ codes "HYPRLAND_INSTANCE_SIGNATURE"
    ∷ []

-- `if key in wanted: env[key] = value`
unfoldable pub keep_wanted : Text × Text → Props → Props
keep_wanted (key, value) env = if mem key wanted then (key, value) ∷ env else env

-- One round of the loop.
unfoldable pub export_line : Text → Props → Props
export_line raw env =
    let line = strip raw in
    if is_empty line || starts_with line (codes "#")
    then env
    else elim (partition b'=' line) [ none ↦ env | some pair ↦ keep_wanted pair env ]

unfoldable pub export_rows : List Text → Props → Props
export_rows [] env = env
export_rows (raw ∷ rest) env = export_rows rest (export_line raw env)

unfoldable pub parse_session_exports : Text → Props
parse_session_exports text = export_rows (split_lines text) []

-- The texts under the keys, in the order of the keys, without empty ones.
unfoldable pub picked : List Text → Props → Props
picked [] exports = []
picked (key ∷ keys) exports =
    let value = get_prop key [] exports in
    let rest = picked keys exports in if is_empty value then rest else (key, value) ∷ rest

unfoldable pub session_env_from_exports : Props → Props
session_env_from_exports exports =
    picked
      (codes "XDG_RUNTIME_DIR"
        ∷ codes "DBUS_SESSION_BUS_ADDRESS"
        ∷ codes "WAYLAND_DISPLAY"
        ∷ codes "HYPRLAND_INSTANCE_SIGNATURE"
        ∷ [])
      exports

unfoldable pub parse_name_has_owner : Text → Result SmokeError Bool
parse_name_has_owner output =
    if contains (lower output) (codes "true")
    then ok true
    else if contains (lower output) (codes "false")
    then ok false
    else err (unparseable_reply output)

-- The text behind `KEY=` in the first line that starts with it.
unfoldable pub smoke_value : Text → List Text → Result SmokeError Text
smoke_value key [] = err (not_printed key)
smoke_value key (raw ∷ rest) =
    let line = strip raw in
    if starts_with line (key ++ codes "=")
    then (elim (partition b'=' line) [ none ↦ ok [] | some pair ↦ ok pair.1 ])
    else smoke_value key rest

unfoldable pub parse_smoke_kv : Text → Text → Result SmokeError Text
parse_smoke_kv text key = smoke_value key (split_lines text)

-- GDBUS_NAME_HAS_OWNER_ARGV
abbrev pub gdbus_name_has_owner_argv : List Text
gdbus_name_has_owner_argv =
    codes "gdbus"
    ∷ codes "call"
    ∷ codes "--session"
    ∷ codes "--dest"
    ∷ codes "org.freedesktop.DBus"
    ∷ codes "--object-path"
    ∷ codes "/org/freedesktop/DBus"
    ∷ codes "--method"
    ∷ codes "org.freedesktop.DBus.NameHasOwner"
    ∷ codes "io.github.lgse.Strata"
    ∷ []

-- INSTALL_SH_FLAGS
abbrev pub install_sh_flags : List Text
install_sh_flags =
    codes "--non-interactive" ∷ codes "--with-desktop-entry" ∷ codes "--without-file-chooser" ∷ []

-- A text that is given and not empty, as a part of a command.
abbrev part_of : Option Text → (Text → List Text) → List Text
part_of none f = []
part_of (some s) f = if is_empty s then [] else f s

unfoldable pub install_sh_argv : Option Text → List Text
install_sh_argv archive = install_sh_flags ++ part_of archive λ a. codes "--archive" ∷ a ∷ []

abbrev pub about_sidebar_tabs : ℕ
about_sidebar_tabs = 5

module _ (quote_ : Text → Text) where
  unfoldable pub install_smoke_command : Option Text → Bool → Text
  install_smoke_command archive forbid_omarchy =
      let prefix = if forbid_omarchy then codes "SMOKE_FORBID_OMARCHY=1 " else [] in
      let flags = join (codes " ") (map quote_ (install_sh_argv archive)) in
      rstrip (prefix ++ (codes "bash /tmp/smoke-install.sh " ++ flags))

  unfoldable pub update_smoke_command : Text → Option Text → Option Text → Bool → Text
  update_smoke_command phase from_version archive forbid_omarchy = join (codes " ") (
      (codes "SMOKE_UPDATE_PHASE=" ++ quote_ phase)
      ∷ (part_of from_version (λ v. (codes "UPDATE_FROM_VERSION=" ++ quote_ v) ∷ [])
          ++ (part_of archive (λ a. (codes "UPDATE_FROM_ARCHIVE=" ++ quote_ a) ∷ [])
              ++ ((if forbid_omarchy then codes "SMOKE_FORBID_OMARCHY=1" ∷ [] else [])
                  ++ (codes "bash /tmp/smoke-update.sh" ∷ [])))))

  unfoldable pub about_smoke_command : Text → Text
  about_smoke_command compositor =
      codes "SMOKE_COMPOSITOR="
      ++ (quote_ compositor
          ++ (codes " SMOKE_ABOUT_TABS="
              ++ (decimal about_sidebar_tabs ++ codes " bash /tmp/smoke-about.sh")))

  -- `if value is not None`
  abbrev assigned : Text → Option Text → List Text
  assigned name none = []
  assigned name (some value) = (name ++ quote_ value) ∷ []

  unfoldable pub omarchy_detect_command : Text → Text → Option Text → Option Text → Text
  omarchy_detect_command case_ install_sh output user_version = join (codes " ") (
      (codes "INSTALL_SH=" ++ quote_ install_sh)
      ∷ (codes "SMOKE_OMARCHY_CASE=" ++ quote_ case_)
      ∷ (assigned (codes "SMOKE_OMARCHY_OUTPUT=") output
          ++ (assigned (codes "SMOKE_USER_VERSION=") user_version
              ++ (codes "bash /tmp/smoke-omarchy-detect.sh" ∷ []))))

  unfoldable pub omarchy_bindings_command : ℕ → Bool → Text → Text
  omarchy_bindings_command major write install_sh = join (codes " ") (
      (codes "SMOKE_OMARCHY_MAJOR=" ++ decimal major)
      ∷ ((if write
            then codes "SMOKE_WRITE_BINDINGS=1" ∷ (codes "INSTALL_SH=" ++ quote_ install_sh) ∷ []
            else [])
          ++ (codes "bash /tmp/smoke-omarchy-bindings.sh" ∷ [])))
