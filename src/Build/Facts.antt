-- ===== src/Build/Facts.antt =====
-- strataqemu/image_build.py: names, commands and tests on the output of the guest. `shlex.quote` and the
-- digest of a golden image are parameters; a negative number of a recipe counts as 0.
pub mod Version
use strata_qemu_testing.Base.{
  ℕ, ◌+◌, ◌*◌, Bool, true, false, not, ◌&&◌, ◌||◌, Option, none, some, List, [], ◌∷◌, ◌++◌,
  if◌then◌else◌, any, ◌==◌, ltb, leb, drop,
}
use strata_qemu_testing.Base.Text.{
  Text, codes, text_eq, mem, is_empty, is_digit, is_space, lower, strip, lstrip, starts_with,
  contains, decimal,
}
use Prim.Native.Nat.{◌/◌ as divide}
use strata_qemu_testing.Artifacts.{◌/◌, images_dir}
use strata_qemu_testing.Guest.Recipe.{Guest}
use strata_qemu_testing.Guest.Toml.{ℤ, pos, negsuc, zero_int}
use strata_qemu_testing.Session.Parse.{parse_int}
use strata_qemu_testing.Steps.Remote.{int_text}

-- A number of the recipe. The loader lets a negative one pass, with which Python would go on; here it counts as 0.
abbrev pub natural : ℤ → ℕ
natural (pos n) = n
natural (negsuc n) = 0

-- The last of the two branches of `inventory_basename` and of `inventory_provenance_key`.
unfoldable pub inventory_basename : Guest → Text
inventory_basename guest =
    if text_eq guest.packages.manager (codes "dnf") then codes "rpm.txt" else codes "dpkg.txt"

unfoldable pub inventory_provenance_key : Guest → Text
inventory_provenance_key guest =
    if text_eq guest.packages.manager (codes "dnf") then codes "rpm" else codes "dpkg"

-- WELL_KNOWN_TEST_PASSWORD
abbrev pub well_known_test_password : Text
well_known_test_password = codes "foobar"

abbrev pub is_autoinstall_source : Guest → Bool
is_autoinstall_source guest = text_eq guest.source_kind (codes "iso-autoinstall")

-- ISO_AUTOINSTALL_GUESTS, and `uses_iso_autoinstall` of strataqemu/qemu.py
unfoldable pub uses_iso_autoinstall : Text → Bool
uses_iso_autoinstall guest_id = mem guest_id (codes "omarchy-3" ∷ codes "omarchy-4" ∷ [])

module _ (quote_ : Text → Text) where
  -- `if guest.packages.snapshot_url`
  abbrev snapshot_prefix : Option Text → Text
  snapshot_prefix none = []
  snapshot_prefix (some url) =
      if is_empty url then [] else codes "SNAPSHOT_URL=" ++ (quote_ url ++ codes " ")

  unfoldable pub setup_ssh_command : Guest → Text
  setup_ssh_command guest =
      let prefix = snapshot_prefix guest.packages.snapshot_url in
      if is_autoinstall_source guest
      then prefix
        ++ (codes "printf '%s\\n' "
            ++ (quote_ well_known_test_password ++ codes " | sudo -S -p '' bash /tmp/setup.sh"))
      else prefix ++ codes "sudo -n bash /tmp/setup.sh"

-- `golden_filename`; `digest` is `guest.golden_digest()`
unfoldable pub golden_filename : Guest → Text → Text
golden_filename guest digest = guest.id ++ (codes "-" ++ (digest ++ codes ".qcow2"))

unfoldable pub golden_qcow2 : Guest → Text → Text → Text
golden_qcow2 guest digest cache = images_dir cache / golden_filename guest digest

unfoldable pub golden_vars_fd : Guest → Text → Text
golden_vars_fd guest cache = images_dir cache / (guest.id ++ codes ".vars.fd")

unfoldable pub golden_symlink : Guest → Text → Text
golden_symlink guest cache = images_dir cache / (guest.id ++ codes ".qcow2")

unfoldable pub provenance_path : Guest → Text → Text
provenance_path guest cache = images_dir cache / (guest.id ++ codes ".json")

-- GIB
abbrev pub gib : ℕ
gib = 1073741824

unfoldable pub required_free_bytes : ℕ → ℕ → ℕ
required_free_bytes disk_gb source_bytes = (2 * disk_gb + 10) * gib + source_bytes

-- UNKNOWN_SOURCE_BYTES; `size` is that of the download, if it is a file that can be asked
unfoldable pub source_size_bytes : Option ℕ → ℕ
source_size_bytes none = gib
source_size_bytes (some size) = size

unfoldable pub ssh_auth_rejected : ℤ → Text → Bool
ssh_auth_rejected returncode output =
    let blob = lower output in
    not (zero_int returncode)
    && (contains blob (codes "permission denied")
        || (contains blob (codes "connection closed") || contains blob (codes "connection reset")))

unfoldable pub ssh_not_listening : Text → Bool
ssh_not_listening output =
    let blob = lower output in
    contains blob (codes "connection refused")
    || ((contains blob (codes "timed out") || contains blob (codes "timeout"))
        || contains blob (codes "banner"))

-- SSH_WAIT_SLEEP_S, in milliseconds
abbrev pub ssh_wait_sleep : ℕ
ssh_wait_sleep = 2000

-- `_default_max_attempts`; `timeout` is in milliseconds, and the quotient and one is at least one
unfoldable pub default_max_attempts : ℕ → ℕ
default_max_attempts timeout = divide timeout ssh_wait_sleep + 1

unfoldable pub cloud_init_is_done : ℤ → Text → Bool
cloud_init_is_done returncode output =
    contains (lower output) (codes "status: done") || zero_int returncode

-- `_omarchy3_skip_wizard_prepared`
unfoldable pub omarchy3_skip_wizard_prepared : Text → Bool
omarchy3_skip_wizard_prepared blob =
    any (λ needle. contains (lower blob) needle)
      (codes "patched authorized_keys"
        ∷ codes "hook already present"
        ∷ codes "tty1 killed"
        ∷ codes "omarchy-cidata-load present"
        ∷ codes "archinstall already running"
        ∷ codes "already completed"
        ∷ codes "skip reboot prompt"
        ∷ [])

unfoldable pub omarchy_version_ssh_command : Text
omarchy_version_ssh_command =
    codes "if command -v omarchy >/dev/null 2>&1; then omarchy version; else "
    ++ (codes "export OMARCHY_PATH=\"${OMARCHY_PATH:-$HOME/.local/share/omarchy}\"; "
        ++ codes "export PATH=\"$OMARCHY_PATH/bin:$PATH\"; omarchy version; fi")

unfoldable pub convert_argv : Text → Text → List Text
convert_argv src dest =
    codes "qemu-img" ∷ codes "convert" ∷ codes "-O" ∷ codes "qcow2" ∷ src ∷ dest ∷ []

unfoldable pub resize_argv : Text → ℤ → List Text
resize_argv dest disk_gb =
    codes "qemu-img" ∷ codes "resize" ∷ dest ∷ (int_text disk_gb ++ codes "G") ∷ []

unfoldable pub create_blank_qcow2_argv : Text → ℤ → Text → List Text
create_blank_qcow2_argv dest disk_gb qemu_img =
    qemu_img
    ∷ codes "create"
    ∷ codes "-f"
    ∷ codes "qcow2"
    ∷ dest
    ∷ (int_text disk_gb ++ codes "G")
    ∷ []

-- `omarchy_major_for_guest`, without its exception
unfoldable pub omarchy_major_for_guest : Text → Option ℕ
omarchy_major_for_guest guest_id =
    if text_eq guest_id (codes "omarchy-4")
    then some 4
    else if text_eq guest_id (codes "omarchy-3")
    then some 3
    else none

-- `_format_minutes`, for seconds that are not negative
unfoldable pub format_minutes : ℕ → Text
format_minutes seconds =
    let minutes = (if ltb (divide (seconds + 59) 60) 1 then 1 else divide (seconds + 59) 60) in
    if minutes == 1 then codes "1 minute" else decimal minutes ++ codes " minutes"

unfoldable pub build_duration_note : Guest → Text
build_duration_note guest =
    let autoinstall = is_autoinstall_source guest in
    let what =
      if autoinstall
      then codes "ISO autoinstall and setup"
      else codes "download, first boot, package install, and setup" in
    let typical = if autoinstall then codes "10-30 minutes" else codes "5-20 minutes" in
    codes "image-build: building "
    ++ (guest.id
        ++ (codes " ("
            ++ (what
                ++ (codes "). Usually "
                    ++ (typical
                        ++ (codes ", timeout "
                            ++ (format_minutes (natural guest.build_timeout_s)
                                ++ codes
                                    ". Progress is written to the run dir under $CACHE/runs/, not the terminal.")))))))
