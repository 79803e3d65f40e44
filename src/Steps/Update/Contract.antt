-- ===== src/Steps/Update/Contract.antt =====
-- strataqemu/tests_spec.py: the entries of an update that returns.
use strata_qemu_testing.Base.{true, none, some, ok, List, [], ◌∷◌, Option, ◌≡◌}
use strata_qemu_testing.Base.Text.{Text, codes, text_eq}
use strata_qemu_testing.Steps.Remote.{Proc, Remote, blob_of}
use strata_qemu_testing.Steps.Remote.Answers.{Succeeded}
use strata_qemu_testing.Guest.Recipe.{Guest}
use strata_qemu_testing.Guests.{compositor_process_name}
use strata_qemu_testing.Smoke.{update_smoke_command, parse_smoke_kv}
use strata_qemu_testing.Versions.{versions_match, parse_update_from_version}
use strata_qemu_testing.Steps.Install.Checked.{HasBinary, SessionCame, HasEntry, HasWindow}
use strata_qemu_testing.Steps.Version.{smoke_of, parse_install_sh_sha256}
use strata_qemu_testing.Steps.Install.{FlowArgs, Outcome}
use strata_qemu_testing.Steps.Install.Contract.{Keeps}
use strata_qemu_testing.Steps.Update.{update_from_steps, kv_smoke}

-- The entries of an update that may be skipped.
abbrev pub update_skippable : List Text
update_skippable =
    codes "version-previous"
    ∷ codes "about-version-before"
    ∷ codes "version"
    ∷ codes "about-version-after"
    ∷ []

module _ {W : Type 0} (fx : Remote W) where
  -- The script has put a version in place that matches the one to start from, and the program was there.
  pub record Seeded (a : FlowArgs) (from_ver : Text) : Type 0 where
    pub archive : Option Text
    pub proc : Proc
    pub script_ran :
        Succeeded fx
          (update_smoke_command fx.quote_
            (codes "previous")
            (some from_ver)
            archive
            (text_eq a.guest.id (codes "arch")))
          proc
    pub seeded : Text
    pub seeded_is : kv_smoke (parse_smoke_kv (blob_of proc) (codes "FROM_VERSION")) ≡ ok seeded
    pub same : versions_match seeded from_ver ≡ true
    pub binary : HasBinary fx

  -- The script has brought the latest version and printed its digest, and the program was there.
  abbrev pub Updated : FlowArgs → Type 0
  Updated a =
      (proc : Proc) × (digest : Text) × Succeeded fx
        (update_smoke_command fx.quote_ (codes "latest") none none
          (text_eq a.guest.id (codes "arch")))
        proc
      × (parse_install_sh_sha256 (blob_of proc) ≡ ok digest)
      × HasBinary fx

  -- What stands behind the entries of an update that starts from this version.
  pub record UpdateVerified (a : FlowArgs) (from_ver : Text) : Type 0 where
    pub session :
        SessionCame fx (compositor_process_name a.guest) a.scripts.session a.session_timeout
    pub seeded : Seeded a from_ver
    pub updated : Updated a
    pub entry : HasEntry fx
    pub window : HasWindow fx (compositor_process_name a.guest)

  abbrev UpdateSteps : FlowArgs → Text → Outcome → Type 0
  UpdateSteps a from_ver outcome =
      Keeps update_from_steps update_skippable outcome × UpdateVerified a from_ver

  -- The version to start from is what the text of the caller names.
  abbrev pub UpdateKeeps : FlowArgs → Text → Outcome → Type 0
  UpdateKeeps a from_version outcome =
      (from_ver : Text) × (smoke_of (parse_update_from_version from_version) ≡ ok from_ver)
      × UpdateSteps a from_ver outcome
