-- ===== src/RunTest/Request.antt =====
-- strataqemu/run_test.py: `run_run_test` up to the choice of the flow. A refusal prints its message
-- and exits with status 2. What files there are is a parameter.
pub mod Modes
use strata_qemu_testing.Base.{
  ℕ, Bool, true, false, not, ◌&&◌, ◌||◌, Option, none, some, List, [], ◌∷◌, if◌then◌else◌, Result,
  ok, err, ◌>>=◌, ◌>>◌, guard, is_some,
}
use strata_qemu_testing.Base.Text.{Text, codes, text_eq, mem, is_empty}
use strata_qemu_testing.Guests.{
  supports_omarchy_bindings, supports_install_from_release, supports_update_from,
}
use strata_qemu_testing.Versions.{VersionError, parse_update_from_version}

-- The keyword arguments of `run_run_test` that choose the flow. `install_sh_env` is what
-- `config.install_sh_from_env` gives.
pub record Request : Type 0 where
  pub guest_id : Text
  pub session_only : Bool
  pub install_from : Option Text
  pub archive_path : Option Text
  pub omarchy_bindings : Bool
  pub update_from : Option Text
  pub install_sh_path : Option Text
  pub install_sh_env : Option Text

-- The places that return 2, in their order.
pub data Refusal : Type 0 where
  bindings_exclusive bindings_fail_closed update_exclusive : Refusal
  update_version : VersionError → Refusal
  update_fail_closed install_fail_closed archive_not_allowed missing_archive_path : Refusal
  archive_not_found install_sh_missing : Text → Refusal
  no_mode : Refusal

-- The flow that runs: its source and archive, its version, or its `install.sh`.
pub data Flow : Type 0 where
  install : Text → Option Text → Flow
  update : Text → Flow
  bindings : Option Text → Flow
  session : Flow

abbrev pub Decided {ℓ} : Type ℓ → Type ℓ
Decided A = Result Refusal A

-- The truth value of a text that may be `None`.
abbrev pub given : Option Text → Bool
given none = false
given (some s) = not (is_empty s)

-- `o == text`
abbrev pub is_text : Option Text → Text → Bool
is_text none t = false
is_text (some s) t = text_eq s t

abbrev pub local_archive : Text
local_archive = codes "local-archive"

unfoldable pub check_exclusive : Request → Decided (Unit {0})
check_exclusive r = do
  guard
      (not
        (r.omarchy_bindings && (r.session_only || (given r.install_from || given r.update_from))))
      bindings_exclusive
  guard (not (r.omarchy_bindings && not (supports_omarchy_bindings r.guest_id)))
      bindings_fail_closed
  guard
      (not
        (given r.update_from && (r.session_only || (given r.install_from || r.omarchy_bindings))))
      update_exclusive

-- A `SessionSmokeError` of the parse becomes a refusal.
abbrev refuse_version : Result VersionError Text → Decided Text
refuse_version (ok v) = ok v
refuse_version (err e) = err (update_version e)

-- `resolved_from`
unfoldable pub resolve_update : Text → Option Text → Decided (Option Text)
resolve_update guest_id none = ok none
resolve_update guest_id (some value) = do
  version ← refuse_version (parse_update_from_version value)
  guard (supports_update_from guest_id) update_fail_closed
  ok (some version)

unfoldable pub install_ok : Request → Bool
install_ok r =
    (is_text r.install_from (codes "release") || is_text r.install_from local_archive)
    && (supports_install_from_release r.guest_id
        && (not r.session_only && (not r.omarchy_bindings && not (given r.update_from))))

module _ (is_file : Text → Bool) where
  unfoldable pub existing_archive : Option Text → Decided (Option Text)
  existing_archive none = err missing_archive_path
  existing_archive (some path) =
      if is_empty path
      then err missing_archive_path
      else if is_file path
      then ok (some path)
      else err (archive_not_found path)

  unfoldable pub resolve_archive : Request → Decided (Option Text)
  unfolding existing_archive
  resolve_archive r =
      if install_ok r && is_text r.install_from local_archive
      then existing_archive r.archive_path
      else ok none

  unfoldable pub existing_script : Option Text → Decided (Option Text)
  existing_script none = ok none
  existing_script (some path) =
      if is_file path then ok (some path) else err (install_sh_missing path)

  -- `install_sh_path`, or that of the environment
  abbrev chosen_script : Request → Option Text
  chosen_script r = elim r.install_sh_path [ none ↦ r.install_sh_env | some path ↦ some path ]

  unfoldable pub resolve_install_sh : Request → Decided (Option Text)
  unfolding existing_script
  resolve_install_sh r = if r.omarchy_bindings then existing_script (chosen_script r) else ok none

  -- `install_from or "release"`
  abbrev pub source_of : Option Text → Text
  source_of none = codes "release"
  source_of (some s) = if is_empty s then codes "release" else s

  -- `if install_ok: … elif resolved_from: … elif omarchy_bindings: … else: …`
  unfoldable pub choose_flow : Request → Option Text → Option Text → Option Text → Flow
  choose_flow r (some version) archive script =
      if install_ok r
      then install (source_of r.install_from) archive
      else if not (is_empty version)
      then update version
      else if r.omarchy_bindings
      then bindings script
      else session
  choose_flow r none archive script =
      if install_ok r
      then install (source_of r.install_from) archive
      else if r.omarchy_bindings
      then bindings script
      else session

  unfoldable pub decide : Request → Decided Flow
  decide r = do
    check_exclusive r
    resolved ← resolve_update r.guest_id r.update_from
    guard (not (given r.install_from && (not r.session_only && not (install_ok r))))
        install_fail_closed
    guard (not (given r.archive_path && not (is_text r.install_from local_archive)))
        archive_not_allowed
    archive ← resolve_archive r
    script ← resolve_install_sh r
    guard (r.session_only || (install_ok r || (r.omarchy_bindings || given resolved))) no_mode
    ok (choose_flow r resolved archive script)
