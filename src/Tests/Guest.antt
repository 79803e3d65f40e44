-- ===== src/Tests/Guest.antt =====
-- strataqemu/guest.py at concrete inputs: the recipe of a guest that is installed from an ISO.
use strata_qemu_testing.Base.{ℕ, ◌≡◌, refl, true, false, [], ok, none, some}
use strata_qemu_testing.Base.Text.{
  Text, codes, text_eq, contains, starts_with, ends_with, lower, lower_char, strip, lstrip, rstrip,
  is_space, partition, split_on,
}
use strata_qemu_testing.Artifacts.{◌/◌}
use strata_qemu_testing.Guest.Toml.{
  str, int, table, bool, Fields, field, end, get, pos, truthy_field, truthy, string_list, strings,
}
use strata_qemu_testing.Guest.Recipe.{Guest}
use strata_qemu_testing.Guest.Fields.{
  require_str, require_str_value, require_int, require_int_value, has_separator,
  parse_download_name, parse_source_sha256, is_sha256, is_hex, parse_id, url_name, path_name,
  last_component, before_query, rstrip_slash,
}
use strata_qemu_testing.Guest.Load.{
  Files, load_source, as_table, optional_str, string_list_or, check_cidata, load_cidata,
  as_document, require_files, require_source_files, load_rest, load_fields, load, load_guest,
}
use strata_qemu_testing.Guest.Readers.{is_plain_id}
use strata_qemu_testing.Guest.WellFormed.{IsWellFormed, load_guest-IsWellFormed}

abbrev checksum : Text
checksum = codes "0123456789abcdef0123456789abcdef0123456789abcdef0123456789abcdef"

abbrev text_field : Text → Text → Fields → Fields
text_field key text rest = field key (str text) rest

abbrev number_field : Text → ℕ → Fields → Fields
number_field key n rest = field key (int (pos n)) rest

abbrev session_table : Fields
session_table = text_field (codes "kind") (codes "hyprland") (
    text_field (codes "display_manager") (codes "sddm") (
      text_field (codes "compositor") (codes "Hyprland")
        (field (codes "autologin") (bool true) (field (codes "wayland") (bool true) end))))

abbrev recipe : Fields
recipe = text_field (codes "id") (codes "omarchy-4") (
    text_field (codes "firmware") (codes "uefi") (
      text_field (codes "source_kind") (codes "iso-autoinstall") (
        text_field (codes "source_url") (codes "https://example.org/4.0/omarchy.iso") (
          text_field (codes "source_sha256") checksum (
            text_field (codes "arch") (codes "x86_64") (
              number_field (codes "disk_gb") 40 (
                number_field (codes "memory_mib") 8192 (
                  number_field (codes "cpus") 4 (
                    number_field (codes "build_timeout_s") 3600 (
                      number_field (codes "boot_timeout_s") 300 (
                        field (codes "session") (table session_table) (
                          field (codes "packages")
                            (table (text_field (codes "manager") (codes "pacman") end))
                            (field (codes "user")
                              (table (text_field (codes "name") (codes "tester") end))
                              (field (codes "cidata")
                                (table (text_field (codes "disk") (codes "/dev/vda") end))
                                end))))))))))))))

abbrev files : Files
files = record {
  is_file = λ path. true;
  load_toml = λ path. some (table recipe);
  resolve = λ path. path;
}

abbrev guest : Guest
guest = record {
  id = codes "omarchy-4";
  arch = codes "x86_64";
  firmware = codes "uefi";
  source_kind = codes "iso-autoinstall";
  source_url = codes "https://example.org/4.0/omarchy.iso";
  source_sha256 = checksum;
  download_name = codes "omarchy.iso";
  disk_gb = pos 40;
  memory_mib = pos 8192;
  cpus = pos 4;
  build_timeout_s = pos 3600;
  boot_timeout_s = pos 300;
  ovmf_code = none;
  ovmf_vars_template = none;
  session = record {
    kind = codes "hyprland";
    display_manager = codes "sddm";
    compositor = codes "Hyprland";
    autologin = true;
    wayland = true;
  };
  packages = record { manager = codes "pacman"; snapshot_url = none; runtime = [] };
  user = record { name = codes "tester"; groups = [] };
  cidata = some (record { disk = codes "/dev/vda"; encrypt = false });
  recipe_dir = codes "images" / codes "omarchy-4";
}

guest_loaded : load_guest files (codes "images") (codes "omarchy-4") ≡ ok guest
unfolding load_guest load load_fields load_rest load_source require_source_files require_files
    as_document as_table optional_str string_list_or load_cidata check_cidata require_str
    require_str_value require_int require_int_value parse_download_name parse_source_sha256
    is_sha256 is_hex parse_id has_separator url_name path_name last_component before_query
    rstrip_slash get truthy_field truthy string_list strings text_eq contains starts_with ends_with
    lower lower_char strip lstrip rstrip is_space partition split_on
guest_loaded = refl

load_guest-IsWellFormed_example :
    (guest.id ≡ codes "omarchy-4")
    × (is_plain_id (codes "omarchy-4") ≡ true)
    × IsWellFormed files (codes "images" / codes "omarchy-4") guest
load_guest-IsWellFormed_example =
    load_guest-IsWellFormed files (codes "images") (codes "omarchy-4") guest guest_loaded
