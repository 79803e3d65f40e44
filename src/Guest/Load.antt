-- ===== src/Guest/Load.antt =====
-- strataqemu/guest.py: `Guest.load` and `load_guest`. The file system is a parameter: which files
-- there are, what `tomllib.loads` makes of a file (nothing if it raises), and `Path.resolve`.
use strata_qemu_testing.Base.{
  Bool, not, ◌||◌, Option, none, some, List, [], ◌∷◌, if◌then◌else◌, ok, err, ◌>>=◌, ◌>>◌, guard,
}
use strata_qemu_testing.Base.Text.{Text, codes, text_eq, is_empty, strip, contains}
use strata_qemu_testing.Artifacts.{◌/◌}
use strata_qemu_testing.Guest.Toml.{Value, str, table, Fields, get, truthy_field, string_list}
use strata_qemu_testing.Guest.Fields.{
  GuestError, Loaded, missing_file, invalid_toml, not_a_table, bad_firmware, bad_source_kind,
  undated_url, cidata_required, cidata_not_table, cidata_encrypted, cidata_disk, missing_table,
  bad_runtime, bad_groups, bad_snapshot, bad_ovmf_code, bad_ovmf_vars, no_recipe, id_mismatch,
  require_str, require_int, parse_download_name, parse_source_sha256, parse_id,
}
use strata_qemu_testing.Guest.Recipe.{Cidata, Guest}

pub record Files : Type 0 where
  pub is_file : Text → Bool
  pub load_toml : Text → Option Value
  pub resolve : Text → Text

-- ISO_CIDATA_REQUIRED
abbrev pub iso_cidata_required : List Text
iso_cidata_required =
    codes "user_configuration.json"
    ∷ codes "user_credentials.json.tmpl"
    ∷ codes "user_encrypt_installation.txt"
    ∷ codes "authorized_keys.tmpl"
    ∷ []

-- ISO_AUTOINSTALL_DISK
abbrev pub iso_autoinstall_disk : Text
iso_autoinstall_disk = codes "/dev/vda"

abbrev pub is_iso : Text → Bool
is_iso source_kind = text_eq source_kind (codes "iso-autoinstall")

abbrev pub is_cloud : Text → Bool
is_cloud source_kind = text_eq source_kind (codes "cloud-image")

-- The fields that identify the source.
pub record Source : Type 0 where
  pub id : Text
  pub firmware : Text
  pub source_kind : Text
  pub source_url : Text
  pub source_sha256 : Text
  pub download_name : Text

unfoldable pub load_source : Fields → Loaded Source
load_source fields = do
  raw_id ← require_str fields (codes "id")
  guest_id ← parse_id raw_id
  firmware ← require_str fields (codes "firmware")
  guard (text_eq firmware (codes "uefi") || text_eq firmware (codes "bios")) bad_firmware
  source_kind ← require_str fields (codes "source_kind")
  guard (is_cloud source_kind || is_iso source_kind) bad_source_kind
  source_url ← require_str fields (codes "source_url")
  guard (not (contains source_url (codes "/current/") || contains source_url (codes "/latest/")))
      undated_url
  source_sha256 ← parse_source_sha256 (get (codes "source_sha256") fields)
  download_name ← parse_download_name (get (codes "source_filename") fields) source_url
  ok (record {
    id = guest_id;
    firmware = firmware;
    source_kind = source_kind;
    source_url = source_url;
    source_sha256 = source_sha256;
    download_name = download_name;
  })

-- `isinstance(value, dict)`
unfoldable pub as_table : GuestError → Option Value → Loaded Fields
as_table e (some (table t)) = ok t
as_table e _ = err e

-- `isinstance(value, str)` of a value that may be missing; an empty text counts as missing later
unfoldable pub optional_str : GuestError → Option Value → Loaded (Option Text)
optional_str e none = ok none
optional_str e (some (str s)) = ok (some s)
optional_str e (some _) = err e

-- `value or None`
abbrev pub or_none : Option Text → Option Text
or_none none = none
or_none (some s) = if is_empty s then none else some s

-- `snapshot.strip()` of a text
abbrev strip_option : Option Text → Option Text
strip_option none = none
strip_option (some s) = some (strip s)

unfoldable pub string_list_or : GuestError → Option Value → Loaded (List Text)
string_list_or e v = elim (string_list v) [ none ↦ err e | some ss ↦ ok ss ]

-- The tests on the table `[cidata]`, which stand only for an ISO guest.
unfoldable pub check_cidata : Text → Cidata → Loaded (Unit {0})
check_cidata source_kind cidata =
    if is_iso source_kind
    then (do
      guard (not cidata.encrypt) cidata_encrypted
      guard (text_eq cidata.disk iso_autoinstall_disk) cidata_disk)
    else ok tt

unfoldable pub load_cidata : Text → Option Value → Loaded (Option Cidata)
unfolding as_table
load_cidata source_kind none = ok none
load_cidata source_kind (some v) = do
  raw ← as_table cidata_not_table (some v)
  disk ← require_str raw (codes "disk")
  let cidata : Cidata = record { disk = disk; encrypt = truthy_field (get (codes "encrypt") raw) }
  check_cidata source_kind cidata
  ok (some cidata)

-- The dict that the file holds.
unfoldable pub as_document : Option Value → Loaded Fields
as_document none = err invalid_toml
as_document (some (table fields)) = ok fields
as_document (some _) = err not_a_table

module _ (files : Files) where
  -- `for name in …: if not (dir / name).is_file(): raise`
  unfoldable pub require_files : Text → List Text → Loaded (Unit {0})
  require_files dir [] = ok tt
  require_files dir (name ∷ rest) =
      if files.is_file (dir / name) then require_files dir rest else err (missing_file name)

  -- The files that the kind of source asks for.
  unfoldable pub require_source_files : Text → Text → Fields → Loaded (Unit {0})
  unfolding require_files
  require_source_files dir source_kind fields = do
    require_files dir (codes "bootstrap.sh" ∷ codes "setup.sh" ∷ [])
    if is_cloud source_kind
        then require_files dir (codes "user-data.yaml.tmpl" ∷ [])
        else if is_iso source_kind
        then (do
          _ ← as_table cidata_required (get (codes "cidata") fields)
          require_files (dir / codes "cidata") iso_cidata_required)
        else ok tt

  -- What stands behind the files in `Guest.load`.
  unfoldable pub load_rest : Text → Fields → Source → Loaded Guest
  load_rest dir fields source = do
    session_raw ← as_table (missing_table (codes "session")) (get (codes "session") fields)
    packages_raw ← as_table (missing_table (codes "packages")) (get (codes "packages") fields)
    user_raw ← as_table (missing_table (codes "user")) (get (codes "user") fields)
    runtime ← string_list_or bad_runtime (get (codes "runtime") packages_raw)
    groups ← string_list_or bad_groups (get (codes "groups") user_raw)
    snapshot ← optional_str bad_snapshot (get (codes "snapshot_url") packages_raw)
    cidata ← load_cidata source.source_kind (get (codes "cidata") fields)
    ovmf_code ← optional_str bad_ovmf_code (get (codes "ovmf_code") fields)
    ovmf_vars ← optional_str bad_ovmf_vars (get (codes "ovmf_vars_template") fields)
    arch ← require_str fields (codes "arch")
    disk_gb ← require_int fields (codes "disk_gb")
    memory_mib ← require_int fields (codes "memory_mib")
    cpus ← require_int fields (codes "cpus")
    build_timeout_s ← require_int fields (codes "build_timeout_s")
    boot_timeout_s ← require_int fields (codes "boot_timeout_s")
    kind ← require_str session_raw (codes "kind")
    display_manager ← require_str session_raw (codes "display_manager")
    compositor ← require_str session_raw (codes "compositor")
    manager ← require_str packages_raw (codes "manager")
    name ← require_str user_raw (codes "name")
    ok (record {
      id = source.id;
      arch = arch;
      firmware = source.firmware;
      source_kind = source.source_kind;
      source_url = source.source_url;
      source_sha256 = source.source_sha256;
      download_name = source.download_name;
      disk_gb = disk_gb;
      memory_mib = memory_mib;
      cpus = cpus;
      build_timeout_s = build_timeout_s;
      boot_timeout_s = boot_timeout_s;
      ovmf_code = or_none ovmf_code;
      ovmf_vars_template = or_none ovmf_vars;
      session = record {
        kind = kind;
        display_manager = display_manager;
        compositor = compositor;
        autologin = truthy_field (get (codes "autologin") session_raw);
        wayland = truthy_field (get (codes "wayland") session_raw);
      };
      packages = record {
        manager = manager;
        snapshot_url = strip_option snapshot;
        runtime = runtime;
      };
      user = record { name = name; groups = groups };
      cidata = cidata;
      recipe_dir = files.resolve dir;
    })

  unfoldable pub load_fields : Text → Fields → Loaded Guest
  load_fields dir fields = do
    source ← load_source fields
    require_source_files dir source.source_kind fields
    load_rest dir fields source

  unfoldable pub load : Text → Loaded Guest
  unfolding as_document
  load dir = do
    guard (files.is_file (dir / codes "image.toml")) (missing_file (codes "image.toml"))
    fields ← as_document (files.load_toml (dir / codes "image.toml"))
    load_fields dir fields

  -- `load_guest`, with the root of the recipes
  unfoldable pub load_guest : Text → Text → Loaded Guest
  load_guest root raw_id = do
    guest_id ← parse_id raw_id
    guard (files.is_file (root / guest_id / codes "image.toml")) (no_recipe guest_id)
    guest ← load (root / guest_id)
    guard (text_eq guest.id guest_id) (id_mismatch guest.id)
    ok guest
