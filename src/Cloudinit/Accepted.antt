-- ===== src/Cloudinit/Accepted.antt =====
-- strataqemu/cloudinit.py: what a configuration and credentials that pass the checks have.
use strata_qemu_testing.Base.{
  true, false, ap, Option, none, some, List, [], ◌∷◌, is_none, ok, ◌≡◌, refl, ◌⊎◌, inl, inr,
  bind_elim, guard_elim, guard-eq-ok, arith, Bool-cases, Option-cases,
}
use strata_qemu_testing.Base.Text.{Text, codes, mem, lower, contains, text_eq}
use strata_qemu_testing.Base.Text.Laws.{text_eq_sound}
use strata_qemu_testing.Cloudinit.Json.{
  Json, list, object, Items, Fields, get, as_object, is_string, is_missing, as_items,
}
use strata_qemu_testing.Cloudinit.Validate.{
  token_needles, first_token, blob_has_forbidden_token, no_token, require, says_something,
  validate_omarchy_install, validate_bootloaders, validate_omarchy_bootloader_schema, any_has,
  validate_config, validate_omarchy_configuration, no_disk_config, not_object, no_modifications,
}
use strata_qemu_testing.Cloudinit.Aligned.{
  AllAligned, require-object, require-items, validate_items-AllAligned,
}

-- The layout of the disk: not encrypted, for the given disk, aligned.
pub record IsLayout (disk : Text) (config : Fields) : Type 0 where
  pub layout_unencrypted : is_none (get (codes "disk_encryption") config) ≡ true
  pub default_layout : is_string (get (codes "config_type") config) (codes "default_layout") ≡ true
  pub mods : Items
  pub is_mods : get (codes "device_modifications") config ≡ some (list mods)
  pub targets : any_has (codes "device") disk mods ≡ true
  pub aligned : AllAligned mods

validate_config-IsLayout :
    (disk : Text) (config : Fields) {u : Unit {0}}
    → validate_config disk config ≡ ok u
    → IsLayout disk config
unfolding validate_config
validate_config-IsLayout disk config {u} h =
    guard_elim (is_none (get (codes "disk_encryption") config)) _ _ h λ plain h.
      guard_elim (is_string (get (codes "config_type") config) (codes "default_layout")) _ _ h
        λ default_type h.
          bind_elim
            (require (as_items (get (codes "device_modifications") config)) no_modifications) _ h
            λ mods is_mods h. guard_elim (any_has (codes "device") disk mods) _ _ h λ targets h.
              record {
                layout_unencrypted = plain;
                default_layout = default_type;
                mods = mods;
                is_mods =
                    require-items (get (codes "device_modifications") config) no_modifications
                      {items = mods} is_mods;
                targets = targets;
                aligned = validate_items-AllAligned mods {u = u} h;
              }

-- The two schemas of the boot loader: 4.x has an object and a full-disk install, 3.x the word Limine
-- and no install.
abbrev pub HasBootloader : Fields → Type 0
HasBootloader data_ =
    ((config install : Fields) × (get (codes "bootloader_config") data_ ≡ some (object config))
      × (get (codes "omarchy_install") data_ ≡ some (object install))
      × (is_string (get (codes "mode") install) (codes "full_disk") ≡ true))
    ⊎ ((is_string (get (codes "bootloader") data_) (codes "Limine") ≡ true)
        × (is_missing (get (codes "omarchy_install") data_) ≡ true))

-- No needle occurs, whatever the case of the letters.
abbrev pub HasNoToken : Text → Type 0
HasNoToken blob =
    (needle : Text) → mem needle token_needles ≡ true → contains (lower blob) (lower needle) ≡ false

first_token-none :
    (needles : List Text) (lowered needle : Text)
    → first_token needles lowered ≡ none
    → mem needle needles ≡ true
    → contains lowered (lower needle) ≡ false
unfolding first_token mem
first_token-none [] lowered needle h m = absurd (cc)
first_token-none (n ∷ rest) lowered needle h m = elim (Bool-cases (contains lowered (lower n))) [
  | inl found ↦ absurd (let x = rw found at h in cc)
  | inr missed ↦ elim (Bool-cases (text_eq needle n)) [
    | inl same ↦ rw (text_eq_sound needle n same, missed) refl
    | inr differ ↦ first_token-none rest lowered needle (rw missed at h) (rw differ at m)
  ]
]

no_token-none : (o : Option Text) {u : Unit {0}} → no_token o ≡ ok u → o ≡ none
no_token-none none h = refl
no_token-none (some n) h = cc

object_some : (o : Option Json) {f : Fields} → as_object o ≡ some f → o ≡ some (object f)
object_some none h = cc
object_some (some (object f)) h = ground arith
object_some (some _) h = cc

three_schema :
    (bootloader install : Option Json) {u : Unit {0}}
    → validate_bootloaders none bootloader install ≡ ok u
    → (is_string bootloader (codes "Limine") ≡ true) × (is_missing install ≡ true)
unfolding validate_bootloaders
three_schema bootloader install {u} h = guard_elim (says_something bootloader) _ _ h λ _ h.
    guard_elim (is_string bootloader (codes "Limine")) _ _ h
      λ limine h. (limine, guard-eq-ok _ _ {u = u} h)

four_schema :
    (config : Fields) (bootloader install : Option Json) {u : Unit {0}}
    → validate_bootloaders (some config) bootloader install ≡ ok u
    → (f : Fields) × (install ≡ some (object f))
      × (is_string (get (codes "mode") f) (codes "full_disk") ≡ true)
unfolding validate_bootloaders validate_omarchy_install
four_schema config bootloader install {u} h = elim (Option-cases (as_object install)) [
  | inl none_there ↦ absurd (let x = rw none_there at h in cc)
  | inr (f, there_is) ↦
      (f, object_some install there_is, guard-eq-ok _ _ {u = u} (rw there_is at h))
]

no_token-HasNoToken :
    (blob : Text) {u : Unit {0}} → no_token (blob_has_forbidden_token blob) ≡ ok u → HasNoToken blob
unfolding blob_has_forbidden_token
no_token-HasNoToken blob h needle m =
    first_token-none token_needles (lower blob) needle
      (no_token-none (first_token token_needles (lower blob)) h) m

validate_bootloaders-HasBootloader :
    (data_ : Fields) {u : Unit {0}}
    → validate_omarchy_bootloader_schema data_ ≡ ok u
    → HasBootloader data_
unfolding validate_omarchy_bootloader_schema
validate_bootloaders-HasBootloader data_ {u} h =
    elim (Option-cases (as_object (get (codes "bootloader_config") data_))) [
      | inl none_there ↦ inr (three_schema _ _ {u = u} (rw none_there at h))
      | inr (config, there_is) ↦
          let (install, is_install, mode) = four_schema config _ _ {u = u} (rw there_is at h) in
          inl (config, install, object_some _ there_is, is_install, mode)
    ]

some_or : {A : Type 0} → A → Option A → A
some_or a none = a
some_or a (some b) = b

-- What an accepted configuration has.
pub record IsAccepted (blob disk : Text) (fields : Fields) : Type 0 where
  pub unencrypted : is_none (get (codes "disk_encryption") fields) ≡ true
  pub config : Fields
  pub is_config : get (codes "disk_config") fields ≡ some (object config)
  pub layout : IsLayout disk config
  pub bootloader : HasBootloader fields
  pub no_tokens : HasNoToken blob

module _ (dumps : Json → Text) where
  -- A configuration that passes the check is an object without a key for encryption, whose disk layout
  -- is the default one, not encrypted, for the given disk, with every partition to be created starting
  -- and ending on a whole mebibyte. It follows the 4.x or the 3.x schema of the boot loader, and its
  -- text holds no forbidden token, whatever the case of the letters.
  pub validate_omarchy_configuration-IsAccepted :
      (data_ : Json) (disk : Text)
      → validate_omarchy_configuration dumps data_ disk ≡ ok tt
      → (fields : Fields) × (data_ ≡ object fields) × IsAccepted (dumps data_) disk fields
  unfolding validate_omarchy_configuration some_or
  validate_omarchy_configuration-IsAccepted data_ disk h =
      bind_elim (require (as_object (some data_)) not_object) _ h λ fields is_fields h.
        let whole = require-object (some data_) not_object {f = fields} is_fields in
        (
          fields,
          ap (λ o. some_or data_ o) whole,
          guard_elim (is_none (get (codes "disk_encryption") fields)) _ _ h λ plain h.
              bind_elim (require (as_object (get (codes "disk_config") fields)) no_disk_config) _ h
                λ config is_config h. bind_elim (validate_config disk config) _ h λ u layout h.
                  bind_elim (validate_omarchy_bootloader_schema fields) _ h λ v schema h. record {
                    unencrypted = plain;
                    config = config;
                    is_config =
                        require-object (get (codes "disk_config") fields) no_disk_config
                          {f = config} is_config;
                    layout = validate_config-IsLayout disk config {u = u} layout;
                    bootloader = validate_bootloaders-HasBootloader fields {u = v} schema;
                    no_tokens = no_token-HasNoToken (dumps data_) {u = tt} h;
                  },
        )
