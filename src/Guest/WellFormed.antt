-- ===== src/Guest/WellFormed.antt =====
-- strataqemu/guest.py: what holds of every guest that is loaded.
use strata_qemu_testing.Base.{
  true, false, Option, none, some, List, [], ◌∷◌, ok, ◌≡◌, arith, All, bind_elim, guard_elim,
  ok-injective, sym, ◌∙◌, ap,
}
use mathlib.Core.Path.{subst}
use strata_qemu_testing.Base.Text.{Text, codes, text_eq}
use strata_qemu_testing.Base.Text.Laws.{text_eq_sound}
use strata_qemu_testing.Artifacts.{◌/◌}
use strata_qemu_testing.Guest.Toml.{Value, table, Fields, get}
use strata_qemu_testing.Guest.Fields.{
  GuestError, missing_file, no_recipe, id_mismatch, parse_id, cidata_required,
}
use strata_qemu_testing.Guest.Recipe.{Guest}
use strata_qemu_testing.Guest.Load.{
  Files, load_source, load_fields, load, load_guest, is_iso, is_cloud, require_files,
  require_source_files, as_table, as_document, iso_cidata_required,
}
use strata_qemu_testing.Guest.Readers.{
  IsSource, IsSafeCidata, source_of, load_source-IsSource, load_cidata-iso, load_rest-IsFrom,
  parse_id-plain, is_plain_id,
}

module _ (files : Files) where
  -- All of these are files of the directory.
  abbrev pub AllFiles : Text → List Text → Type 0
  AllFiles dir = All (λ name. files.is_file (dir / name) ≡ true)

  require_files-AllFiles :
      (dir : Text) (names : List Text) {u : Unit {0}}
      → require_files files dir names ≡ ok u
      → AllFiles dir names
  unfolding require_files
  require_files-AllFiles dir [] h = tt
  require_files-AllFiles dir (name ∷ rest) {u} h =
      ground (arith, require_files-AllFiles dir rest {u = u})

  -- A recipe that has been loaded from `dir`.
  pub record IsWellFormed (dir : Text) (g : Guest) : Type 0 where
    pub source : IsSource (source_of g)
    pub scripts : AllFiles dir (codes "bootstrap.sh" ∷ codes "setup.sh" ∷ [])
    pub iso_files :
        is_iso g.source_kind ≡ true → AllFiles (dir / codes "cidata") iso_cidata_required
    pub iso_safe : is_iso g.source_kind ≡ true → IsSafeCidata g.cidata

  as_table-some :
      (e : GuestError) (v : Option Value) {t : Fields} → as_table e v ≡ ok t → v ≡ some (table t)
  unfolding as_table
  as_table-some e none h = cc
  as_table-some e (some (table t)) h = ground arith
  as_table-some e (some _) h = cc

  iso_not_cloud : (kind : Text) → is_iso kind ≡ true → is_cloud kind ≡ false
  unfolding text_eq
  iso_not_cloud kind iso = rw (text_eq_sound kind (codes "iso-autoinstall") iso)

  -- An ISO guest has a table `[cidata]`, and the seed's files.
  iso_files :
      (dir kind : Text) (fields : Fields) {u : Unit {0}}
      → is_iso kind ≡ true
      → require_source_files files dir kind fields ≡ ok u
      → AllFiles (dir / codes "cidata") iso_cidata_required
        × ((t : Fields) × (get (codes "cidata") fields ≡ some (table t)))
  unfolding require_source_files
  iso_files dir kind fields {u} iso h =
      bind_elim (require_files files dir (codes "bootstrap.sh" ∷ codes "setup.sh" ∷ [])) _ h
        λ _ _ h.
          let h = rw (iso_not_cloud kind iso, iso) at h in
          bind_elim (as_table cidata_required (get (codes "cidata") fields)) _ h λ t seed h. (
            require_files-AllFiles (dir / codes "cidata") iso_cidata_required {u = u} h,
            (t, as_table-some cidata_required (get (codes "cidata") fields) {t = t} seed),
          )

  script_files :
      (dir kind : Text) (fields : Fields) {u : Unit {0}}
      → require_source_files files dir kind fields ≡ ok u
      → AllFiles dir (codes "bootstrap.sh" ∷ codes "setup.sh" ∷ [])
  unfolding require_source_files
  script_files dir kind fields h =
      bind_elim (require_files files dir (codes "bootstrap.sh" ∷ codes "setup.sh" ∷ [])) _ h
        λ u present _.
          require_files-AllFiles dir (codes "bootstrap.sh" ∷ codes "setup.sh" ∷ []) {u = u} present

  load_fields-IsWellFormed :
      (dir : Text) (fields : Fields) {g : Guest}
      → load_fields files dir fields ≡ ok g
      → IsWellFormed dir g
  unfolding load_fields
  load_fields-IsWellFormed dir fields {g} h = bind_elim (load_source fields) _ h λ source read h.
      bind_elim (require_source_files files dir source.source_kind fields) _ h λ u present h.
        let (seed, seed_read, from) = load_rest-IsFrom files dir fields source {g = g} h in
        let kind : g.source_kind ≡ source.source_kind = ap (λ s. s.source_kind) from.from_source in
        record {
          source = rw from.from_source (load_source-IsSource fields read);
          scripts = script_files dir source.source_kind fields {u = u} present;
          iso_files = λ iso.
              (iso_files dir source.source_kind fields {u = u} (sym (ap is_iso kind) ∙ iso)
                present).0;
          iso_safe = λ iso.
              let iso_source = sym (ap is_iso kind) ∙ iso in
              let (t, is_t) =
                (iso_files dir source.source_kind fields {u = u} iso_source present).1 in
              rw from.from_seed
                (load_cidata-iso source.source_kind t {c = seed} iso_source (rw is_t at seed_read));
        }

  -- Every guest that `Guest.load` returns is well formed: a plain id, a known firmware and kind of
  -- source, a dated URL, a checksum of 64 hexadecimal digits, its scripts, and for an ISO guest the
  -- seed's files and an unencrypted install on the disk /dev/vda.
  pub load-IsWellFormed : (dir : Text) (g : Guest) → load files dir ≡ ok g → IsWellFormed dir g
  unfolding load
  load-IsWellFormed dir g h =
      guard_elim (files.is_file (dir / codes "image.toml")) (missing_file (codes "image.toml")) _ h
        λ _ h.
          bind_elim (as_document (files.load_toml (dir / codes "image.toml"))) _ h
            λ fields _ h. load_fields-IsWellFormed dir fields {g = g} h

  -- A guest that `load_guest` returns has the id that was asked for; the id is not empty and has
  -- neither a dot nor a separator, so the recipe lies directly below the root; and the guest is well
  -- formed.
  pub load_guest-IsWellFormed :
      (root guest_id : Text) (g : Guest)
      → load_guest files root guest_id ≡ ok g
      → (g.id ≡ guest_id) × (is_plain_id guest_id ≡ true) × IsWellFormed (root / guest_id) g
  unfolding load_guest
  load_guest-IsWellFormed root guest_id g h = bind_elim (parse_id guest_id) _ h λ id parsed h.
      let plain = parse_id-plain guest_id {id = id} parsed in
      guard_elim (files.is_file (root / id / codes "image.toml")) (no_recipe id) _ h λ _ h.
        bind_elim (load files (root / id)) _ h λ guest loaded h.
          guard_elim (text_eq guest.id id) (id_mismatch guest.id) _ h λ same h.
            let found : guest ≡ g = ok-injective guest g h in
            subst
              (λ x.
                (x.id ≡ guest_id)
                × (is_plain_id guest_id ≡ true)
                × IsWellFormed (root / guest_id) x)
              found
              (
                text_eq_sound guest.id id same ∙ plain.0,
                plain.1,
                rw (← plain.0) (load-IsWellFormed (root / id) guest loaded),
              )
