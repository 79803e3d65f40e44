-- ===== src/Cloudinit/Validate.antt =====
-- strataqemu/cloudinit.py: `validate_omarchy_configuration`, `validate_omarchy_credentials` and the
-- bootloader schema. `json.dumps` is a parameter.
use strata_qemu_testing.Base.{
  ℕ, ◌*◌, Bool, true, false, not, Option, none, some, List, [], ◌∷◌, is_none, ◌==◌, if◌then◌else◌,
  Result, ok, err, ◌>>=◌, ◌>>◌, guard,
}
use strata_qemu_testing.Base.Text.{Text, codes, is_empty, lower, strip, contains, starts_with}
use strata_qemu_testing.Cloudinit.Json.{
  Json, bool, number, negative, float, string, list, object, Items, nil, cons, Fields, get,
  as_object, is_string, is_missing, as_items, is_multiple,
}

-- `not_iterable` is Python's `TypeError` for a loop over a number or `True`.
pub data CloudInitError : Type 0 where
  not_object encrypted no_disk_config wrong_config_type no_modifications : CloudInitError
  wrong_disk not_iterable no_omarchy_install wrong_mode wrong_bootloader : CloudInitError
  unexpected_omarchy_install no_bootloader no_users no_tester wrong_root_hash : CloudInitError
  wrong_unit misaligned forbidden_token : Text → CloudInitError

abbrev pub Checked {ℓ} : Type ℓ → Type ℓ
Checked A = Result CloudInitError A

-- TOKEN_NEEDLES
abbrev pub token_needles : List Text
token_needles =
    codes "ghp_"
    ∷ codes "github_pat_"
    ∷ codes "gho_"
    ∷ codes "ghu_"
    ∷ codes "ghs_"
    ∷ codes "ghr_"
    ∷ codes "GH_TOKEN"
    ∷ codes "GITHUB_TOKEN"
    ∷ codes "gh auth"
    ∷ codes "tskey-"
    ∷ codes "TS_AUTHKEY"
    ∷ codes "tailscale_authkey"
    ∷ codes "TAILSCALE"
    ∷ []

-- The first of the needles in a text that is in lower case.
unfoldable pub first_token : List Text → Text → Option Text
first_token [] lowered = none
first_token (needle ∷ rest) lowered =
    if contains lowered (lower needle) then some needle else first_token rest lowered

-- `_blob_has_forbidden_token`
unfoldable pub blob_has_forbidden_token : Text → Option Text
unfolding first_token
blob_has_forbidden_token blob = first_token token_needles (lower blob)

abbrev pub no_token : Option Text → Checked (Unit {0})
no_token none = ok tt
no_token (some needle) = err (forbidden_token needle)

abbrev pub require {ℓ} : {A : Type ℓ} → Option A → CloudInitError → Checked A
require none e = err e
require (some a) e = ok a

-- `isinstance(value, str) and value.strip()`
abbrev pub says_something : Option Json → Bool
says_something (some (string s)) = not (is_empty (strip s))
says_something _ = false

unfoldable pub validate_omarchy_install : Option Fields → Checked (Unit {0})
validate_omarchy_install none = err no_omarchy_install
validate_omarchy_install (some install) =
    guard (is_string (get (codes "mode") install) (codes "full_disk")) wrong_mode

-- `_validate_omarchy_bootloader_schema`, by the three fields
unfoldable pub validate_bootloaders : Option Fields → Option Json → Option Json → Checked (Unit {0})
validate_bootloaders (some config) bootloader install = validate_omarchy_install (as_object install)
validate_bootloaders none bootloader install = do
  guard (says_something bootloader) no_bootloader
  guard (is_string bootloader (codes "Limine")) wrong_bootloader
  guard (is_missing install) unexpected_omarchy_install

unfoldable pub validate_omarchy_bootloader_schema : Fields → Checked (Unit {0})
validate_omarchy_bootloader_schema data_ =
    validate_bootloaders (as_object (get (codes "bootloader_config") data_))
      (get (codes "bootloader") data_) (get (codes "omarchy_install") data_)

abbrev pub mib : ℕ
mib = 1024 * 1024

-- One round of the loop over `("start", "size")`.
unfoldable pub validate_extent : Fields → Text → Checked (Unit {0})
validate_extent part key = do
  blob ← require (as_object (get key part)) (wrong_unit key)
  guard (is_string (get (codes "unit") blob) (codes "B")) (wrong_unit key)
  guard (is_multiple mib (get (codes "value") blob)) (misaligned key)

unfoldable pub validate_created : Bool → Fields → Checked (Unit {0})
validate_created false part = ok tt
validate_created true part = do
  validate_extent part (codes "start")
  validate_extent part (codes "size")

unfoldable pub validate_partition : Json → Checked (Unit {0})
validate_partition (object part) =
    validate_created (is_string (get (codes "status") part) (codes "create")) part
validate_partition _ = ok tt

unfoldable pub validate_each : Items → Checked (Unit {0})
validate_each nil = ok tt
validate_each (cons part rest) = do validate_partition part; validate_each rest

-- The loop over `item.get("partitions") or []`: the items of a text or a dictionary are texts, which
-- the loop passes over.
unfoldable pub validate_partitions : Option Json → Checked (Unit {0})
validate_partitions (some (list parts)) = validate_each parts
validate_partitions (some (number n)) = guard (n == 0) not_iterable
validate_partitions (some (negative n)) = err not_iterable
validate_partitions (some (float b)) = guard (not b) not_iterable
validate_partitions (some (bool b)) = guard (not b) not_iterable
validate_partitions _ = ok tt

unfoldable pub validate_item : Json → Checked (Unit {0})
validate_item (object item) = validate_partitions (get (codes "partitions") item)
validate_item _ = ok tt

unfoldable pub validate_items : Items → Checked (Unit {0})
validate_items nil = ok tt
validate_items (cons item rest) = do validate_item item; validate_items rest

-- `disk in [item.get("device") for item in mods if isinstance(item, dict)]`, and the same for names
unfoldable pub any_has : Text → Text → Items → Bool
any_has key text nil = false
any_has key text (cons (object item) rest) =
    let more = any_has key text rest in if is_string (get key item) text then true else more
any_has key text (cons _ rest) = any_has key text rest

unfoldable pub validate_config : Text → Fields → Checked (Unit {0})
validate_config disk config = do
  guard (is_none (get (codes "disk_encryption") config)) encrypted
  guard (is_string (get (codes "config_type") config) (codes "default_layout")) wrong_config_type
  mods ← require (as_items (get (codes "device_modifications") config)) no_modifications
  guard (any_has (codes "device") disk mods) wrong_disk
  validate_items mods

module _ (dumps : Json → Text) where
  unfoldable pub validate_omarchy_configuration : Json → Text → Checked (Unit {0})
  validate_omarchy_configuration data_ disk = do
    fields ← require (as_object (some data_)) not_object
    guard (is_none (get (codes "disk_encryption") fields)) encrypted
    config ← require (as_object (get (codes "disk_config") fields)) no_disk_config
    validate_config disk config
    validate_omarchy_bootloader_schema fields
    no_token (blob_has_forbidden_token (dumps data_))

  abbrev pub is_hash : Option Json → Bool
  is_hash (some (string s)) = starts_with s (codes "$6$")
  is_hash _ = false

  unfoldable pub validate_omarchy_credentials : Json → Checked (Unit {0})
  validate_omarchy_credentials data_ = do
    fields ← require (as_object (some data_)) not_object
    guard (is_none (get (codes "disk_encryption") fields)) encrypted
    users ← require (as_items (get (codes "users") fields)) no_users
    guard (any_has (codes "username") (codes "tester") users) no_tester
    guard (is_hash (get (codes "root_enc_password") fields)) wrong_root_hash
    no_token (blob_has_forbidden_token (dumps data_))
