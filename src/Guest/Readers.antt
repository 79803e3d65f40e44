-- ===== src/Guest/Readers.antt =====
-- strataqemu/guest.py: what the readers of the source, of `[cidata]` and of the rest guarantee.
use strata_qemu_testing.Base.{
  Bool, true, false, not, ◌&&◌, ◌||◌, Option, none, some, ok, ◌≡◌, arith, refl, any, ◌==◌,
  bind_elim, guard_elim, ok-injective,
}
use mathlib.Core.Path.{subst}
use strata_qemu_testing.Base.Text.{Text, codes, text_eq, is_empty, contains}
use strata_qemu_testing.Guest.Toml.{Value, table, truthy_field, Fields, get}
use strata_qemu_testing.Guest.Fields.{
  missing_table, bad_runtime, bad_groups, bad_snapshot, bad_ovmf_code, bad_ovmf_vars, require_int,
  bad_firmware, bad_source_kind, undated_url, is_sha256, parse_source_sha256, parse_id,
  has_separator, require_str, parse_download_name,
}
use strata_qemu_testing.Guest.Recipe.{Cidata, Guest}
use strata_qemu_testing.Guest.Load.{
  Files, Source, load_source, load_rest, as_table, string_list_or, optional_str, is_iso, is_cloud,
  check_cidata, load_cidata, iso_autoinstall_disk,
}

-- The test of `parse_id`, as one.
abbrev pub is_plain_id : Text → Bool
is_plain_id s = not (is_empty s) && (not (any (λ c. c == b'.') s) && not (has_separator s))

pub parse_id-plain :
    (raw : Text) {id : Text} → parse_id raw ≡ ok id → (id ≡ raw) × (is_plain_id raw ≡ true)
unfolding parse_id
parse_id-plain raw h = (ground arith, ground arith)

parse_sha256-hex : (v : Option Value) {s : Text} → parse_source_sha256 v ≡ ok s → is_sha256 s ≡ true
unfolding parse_source_sha256
parse_sha256-hex v h = ground arith

-- What the source fields of a recipe satisfy.
pub record IsSource (s : Source) : Type 0 where
  pub id_plain : is_plain_id s.id ≡ true
  pub firmware_known :
      (text_eq s.firmware (codes "uefi") || text_eq s.firmware (codes "bios")) ≡ true
  pub kind_known : (is_cloud s.source_kind || is_iso s.source_kind) ≡ true
  pub dated :
      (contains s.source_url (codes "/current/") || contains s.source_url (codes "/latest/"))
      ≡ false
  pub sha256_hex : is_sha256 s.source_sha256 ≡ true

pub load_source-IsSource : (fields : Fields) {s : Source} → load_source fields ≡ ok s → IsSource s
unfolding load_source
load_source-IsSource fields {s} h = bind_elim (require_str fields (codes "id")) _ h λ raw_id _ h.
    bind_elim (parse_id raw_id) _ h λ id plain h.
      bind_elim (require_str fields (codes "firmware")) _ h λ firmware _ h.
        guard_elim (text_eq firmware (codes "uefi") || text_eq firmware (codes "bios")) bad_firmware
          _ h
          λ firmware_ok h. bind_elim (require_str fields (codes "source_kind")) _ h λ kind _ h.
            guard_elim (is_cloud kind || is_iso kind) bad_source_kind _ h λ kind_ok h.
              bind_elim (require_str fields (codes "source_url")) _ h λ url _ h.
                guard_elim
                  (not (contains url (codes "/current/") || contains url (codes "/latest/")))
                  undated_url _ h
                  λ url_ok h.
                    bind_elim (parse_source_sha256 (get (codes "source_sha256") fields)) _ h
                      λ sha hex h.
                        bind_elim (parse_download_name (get (codes "source_filename") fields) url) _
                          h
                          λ name _ h. subst IsSource (ok-injective _ s h) (record {
                            id_plain =
                                rw (parse_id-plain raw_id {id = id} plain).0
                                  (parse_id-plain raw_id {id = id} plain).1;
                            firmware_known = firmware_ok;
                            kind_known = kind_ok;
                            dated = ground arith;
                            sha256_hex = parse_sha256-hex _ {s = sha} hex;
                          })

-- An ISO guest is set up unencrypted on the disk that the installer finds.
abbrev pub IsSafeCidata : Option Cidata → Type 0
IsSafeCidata none = ⊥
IsSafeCidata (some c) = (c.encrypt ≡ false) × (text_eq c.disk iso_autoinstall_disk ≡ true)

check_cidata-iso :
    (kind : Text) (c : Cidata) {u : Unit {0}}
    → is_iso kind ≡ true
    → check_cidata kind c ≡ ok u
    → IsSafeCidata (some c)
unfolding check_cidata
check_cidata-iso kind c iso h = (ground arith, ground arith)

pub load_cidata-iso :
    (kind : Text) (raw : Fields) {c : Option Cidata}
    → is_iso kind ≡ true
    → load_cidata kind (some (table raw)) ≡ ok c
    → IsSafeCidata c
unfolding load_cidata
load_cidata-iso kind raw {c} iso h = bind_elim (require_str raw (codes "disk")) _ h λ disk _ h.
    let built : Cidata = record {
      disk = disk;
      encrypt = truthy_field (get (codes "encrypt") raw);
    } in
    bind_elim (check_cidata kind built) _ h λ u checked h.
      subst IsSafeCidata (ok-injective _ c h) (check_cidata-iso kind built iso checked)

-- The source fields of a guest.
abbrev pub source_of : Guest → Source
source_of g = record {
  id = g.id;
  firmware = g.firmware;
  source_kind = g.source_kind;
  source_url = g.source_url;
  source_sha256 = g.source_sha256;
  download_name = g.download_name;
}

-- A guest has the source fields that were read, and the `[cidata]` that was read.
pub record IsFrom (source : Source) (seed : Option Cidata) (g : Guest) : Type 0 where
  pub from_source : source_of g ≡ source
  pub from_seed : g.cidata ≡ seed

module _ (files : Files) where
  pub load_rest-IsFrom :
      (dir : Text) (fields : Fields) (source : Source) {g : Guest}
      → load_rest files dir fields source ≡ ok g
      → (c : Option Cidata) × (load_cidata source.source_kind (get (codes "cidata") fields) ≡ ok c)
        × IsFrom source c g
  unfolding load_rest
  load_rest-IsFrom dir fields source {g} h =
      bind_elim (as_table (missing_table (codes "session")) (get (codes "session") fields)) _ h
        λ session _ h.
          bind_elim (as_table (missing_table (codes "packages")) (get (codes "packages") fields)) _
            h
            λ packages _ h.
              bind_elim (as_table (missing_table (codes "user")) (get (codes "user") fields)) _ h
                λ user _ h.
                  bind_elim (string_list_or bad_runtime (get (codes "runtime") packages)) _ h
                    λ runtime _ h.
                      bind_elim (string_list_or bad_groups (get (codes "groups") user)) _ h
                        λ groups _ h.
                          bind_elim
                            (optional_str bad_snapshot (get (codes "snapshot_url") packages)) _ h
                            λ snapshot _ h.
                              bind_elim
                                (load_cidata source.source_kind (get (codes "cidata") fields)) _ h
                                λ cidata read h.
                                  bind_elim
                                    (optional_str bad_ovmf_code (get (codes "ovmf_code") fields)) _
                                    h
                                    λ code _ h.
                                      bind_elim
                                        (optional_str bad_ovmf_vars
                                          (get (codes "ovmf_vars_template") fields))
                                        _ h
                                        λ vars _ h.
                                          bind_elim (require_str fields (codes "arch")) _ h
                                            λ arch _ h.
                                              bind_elim (require_int fields (codes "disk_gb")) _ h
                                                λ disk_gb _ h.
                                                  bind_elim
                                                    (require_int fields (codes "memory_mib")) _ h
                                                    λ memory_mib _ h.
                                                      bind_elim (require_int fields (codes "cpus"))
                                                        _ h
                                                        λ cpus _ h.
                                                          bind_elim
                                                            (require_int fields
                                                            (codes "build_timeout_s"))
                                                            _ h
                                                            λ build_timeout_s _ h.
                                                            bind_elim
                                                            (require_int fields
                                                            (codes "boot_timeout_s"))
                                                            _ h
                                                            λ boot_timeout_s _ h.
                                                            bind_elim
                                                            (require_str session (codes "kind")) _ h
                                                            λ kind _ h.
                                                            bind_elim
                                                            (require_str session
                                                            (codes "display_manager"))
                                                            _ h
                                                            λ manager _ h.
                                                            bind_elim
                                                            (require_str session
                                                            (codes "compositor"))
                                                            _ h
                                                            λ compositor _ h.
                                                            bind_elim
                                                            (require_str packages (codes "manager"))
                                                            _ h
                                                            λ package_manager _ h.
                                                            bind_elim
                                                            (require_str user (codes "name")) _ h
                                                            λ name _ h. (
                                                            cidata,
                                                            read,
                                                            subst (IsFrom source cidata)
                                                            (ok-injective _ g h)
                                                            (record {
                                                            from_source = refl;
                                                            from_seed = refl;
                                                            }),
                                                            )
