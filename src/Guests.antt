-- ===== src/Guests.antt =====
-- strataqemu/tests_spec.py: what the tests know of each guest, and the steps of each flow.
use strata_qemu_testing.Base.{
  ℕ, Bool, ◌||◌, Option, none, some, List, [], ◌∷◌, if◌then◌else◌, is_some,
}
use strata_qemu_testing.Base.Text.{Text, codes, text_eq, mem, lower, is_empty}
use strata_qemu_testing.Guest.Recipe.{Guest}

-- `omarchy_install_major`
unfoldable pub omarchy_install_major : Text → Option ℕ
omarchy_install_major guest_id =
    if text_eq guest_id (codes "omarchy-4")
    then some 4
    else if text_eq guest_id (codes "omarchy-3")
    then some 3
    else none

unfoldable pub supports_omarchy_bindings : Text → Bool
supports_omarchy_bindings guest_id = is_some (omarchy_install_major guest_id)

-- INSTALL_FROM_RELEASE_GUESTS
abbrev pub install_from_release_guests : List Text
install_from_release_guests =
    codes "arch"
    ∷ codes "ubuntu-2404"
    ∷ codes "fedora-workstation"
    ∷ codes "omarchy-4"
    ∷ codes "omarchy-3"
    ∷ []

unfoldable pub supports_install_from_release : Text → Bool
supports_install_from_release guest_id = mem guest_id install_from_release_guests

unfoldable pub supports_update_from : Text → Bool
unfolding supports_install_from_release
supports_update_from guest_id = supports_install_from_release guest_id

-- `compositor_process_name`, by the id, the session's kind and its compositor
unfoldable pub process_name : Text → Text → Text → Text
process_name guest_id kind compositor =
    if text_eq guest_id (codes "ubuntu-2404")
      || (text_eq kind (codes "gnome") || text_eq compositor (codes "mutter"))
    then codes "gnome-shell"
    else if mem guest_id (codes "arch" ∷ codes "omarchy-4" ∷ codes "omarchy-3" ∷ [])
        || (text_eq compositor (codes "hyprland") || text_eq kind (codes "hyprland"))
    then codes "Hyprland"
    else if is_empty compositor
    then codes "gnome-shell"
    else compositor

unfoldable pub compositor_process_name : Guest → Text
unfolding process_name
compositor_process_name guest =
    process_name guest.id (lower guest.session.kind) (lower guest.session.compositor)

unfoldable pub screenshot_tool_for_compositor : Text → Text
screenshot_tool_for_compositor compositor =
    if text_eq compositor (codes "Hyprland") then codes "grim" else codes "gnome-screenshot"
