-- ===== src/Tests/Cloudinit.antt =====
-- strataqemu/cloudinit.py at concrete inputs: a 4.x dump with one aligned partition.
use strata_qemu_testing.Base.{ℕ, ◌≡◌, refl, ◌*◌, ok}
use strata_qemu_testing.Base.Text.{Text, codes, text_eq, contains, starts_with, lower, lower_char}
use strata_qemu_testing.Cloudinit.Json.{
  Json, number, string, list, object, nil, cons, Fields, end, field, get,
}
use strata_qemu_testing.Cloudinit.Validate.{
  validate_omarchy_configuration, validate_config, validate_items, validate_item,
  validate_partitions, validate_each, validate_partition, validate_created, validate_extent,
  any_has, validate_omarchy_bootloader_schema, validate_bootloaders, validate_omarchy_install,
  blob_has_forbidden_token, first_token, mib,
}
use strata_qemu_testing.Cloudinit.Accepted.{IsAccepted, validate_omarchy_configuration-IsAccepted}

-- A document without a token.
abbrev dumps : Json → Text
dumps json = codes "{}"

abbrev bytes : ℕ → Json
bytes n = object (field (codes "unit") (string (codes "B")) (field (codes "value") (number n) end))

abbrev partition : Json
partition = object (
    field (codes "status") (string (codes "create"))
      (field (codes "start") (bytes mib) (field (codes "size") (bytes (2048 * mib)) end)))

abbrev device : Json
device = object (
    field (codes "device") (string (codes "/dev/vda"))
      (field (codes "partitions") (list (cons partition nil)) end))

abbrev disk_config : Json
disk_config = object (
    field (codes "config_type") (string (codes "default_layout"))
      (field (codes "device_modifications") (list (cons device nil)) end))

abbrev configuration : Fields
configuration = field (codes "disk_config") disk_config (
    field (codes "bootloader_config") (object end) (
      field (codes "omarchy_install")
        (object (field (codes "mode") (string (codes "full_disk")) end)) end))

configuration_passes :
    validate_omarchy_configuration dumps (object configuration) (codes "/dev/vda") ≡ ok tt
unfolding validate_omarchy_configuration validate_config validate_items validate_item
    validate_partitions validate_each validate_partition validate_created validate_extent any_has
    validate_omarchy_bootloader_schema validate_bootloaders validate_omarchy_install
    blob_has_forbidden_token first_token get text_eq contains starts_with lower lower_char
configuration_passes = refl

validate_omarchy_configuration-IsAccepted_example :
    (fields : Fields) × (object configuration ≡ object fields)
    × IsAccepted (dumps (object configuration)) (codes "/dev/vda") fields
validate_omarchy_configuration-IsAccepted_example =
    validate_omarchy_configuration-IsAccepted dumps (object configuration) (codes "/dev/vda")
      configuration_passes
