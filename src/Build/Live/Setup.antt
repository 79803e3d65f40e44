-- ===== src/Build/Live/Setup.antt =====
-- strataqemu/image_build.py: `build_live` with the machine: waiting for the guest, its set-up and its inventory.
use strata_qemu_testing.Base.{
  ℕ, true, Option, none, some, List, [], ◌∷◌, ◌++◌, ◌*◌, if◌then◌else◌, Result, ok, err,
}
use strata_qemu_testing.Base.Text.{Text, codes}
use strata_qemu_testing.Artifacts.{◌/◌}
use strata_qemu_testing.Guest.Recipe.{Guest}
use strata_qemu_testing.RunTest.Exec.{◌>>=◌, ◌>>◌, pure, raise}
use strata_qemu_testing.Build.Facts.{
  natural, inventory_basename, setup_ssh_command, omarchy_major_for_guest,
}
use strata_qemu_testing.Build.Bench.{
  Machine, BuildError, image_build, timed_out, command_expired, os_error, value_error,
  process_failed, address_in_use, interrupted, Builder, Bench, Work, ssh_run, scp_to_guest,
  scp_from_guest, touch,
}
use strata_qemu_testing.Build.Wait.{
  wait_ssh, ssh_auth_reject_max, wait_cloud_init, wait_iso_autoinstall,
}
use strata_qemu_testing.Build.Wait.Wizard.{kick_omarchy3_skip_wizard}
use strata_qemu_testing.Build.Live.{Site, Build, recipe_upload_names, is_iso}

module _ {W : Type 0} (site : Site W) where
  abbrev fx : Builder W
  fx = site.builder

  -- `omarchy_major_for_guest`
  unfoldable pub require_major : Text → Option ℕ → Work W ℕ
  require_major id none = raise (image_build (id ++ codes " is not an ISO autoinstall guest"))
  require_major id (some major) = pure major

  -- CLOUD_INIT_TIMEOUT_S
  abbrev pub cloud_init_timeout : ℕ
  cloud_init_timeout = 600000

  -- The guest is up: the version of Omarchy, or nothing.
  unfoldable pub wait_guest : Build → Machine → Work W Text
  wait_guest b m =
      if is_iso b
      then (do
        kick_omarchy3_skip_wizard fx m b.guest
        major ← require_major b.guest.id (omarchy_major_for_guest b.guest.id)
        wait_iso_autoinstall fx m major (natural b.guest.build_timeout_s * 1000))
      else (do
        wait_ssh fx m (natural b.guest.boot_timeout_s * 1000) (ssh_auth_reject_max fx)
        wait_cloud_init fx m cloud_init_timeout
        pure [])

  -- `recipe_files_to_upload`
  unfoldable pub found_names : Text → List Text → W → List Text
  found_names dir [] w = []
  found_names dir (name ∷ rest) w =
      let more = found_names dir rest w in if fx.is_file (dir / name) w then name ∷ more else more

  unfoldable pub recipe_files_to_upload : Guest → Work W (List Text)
  recipe_files_to_upload guest s =
      let found = found_names guest.recipe_dir recipe_upload_names s.world in
      if fx.is_file (guest.recipe_dir / codes "setup.sh") s.world
      then (ok found, s)
      else (err (image_build (codes "missing setup.sh in " ++ guest.recipe_dir)), s)

  unfoldable pub upload : Machine → Text → List Text → Work W (Unit {0})
  upload m dir [] = pure tt
  upload m dir (name ∷ rest) = do
    scp_to_guest fx m (dir / name) (codes "/tmp/" ++ name)
    upload m dir rest

  unfoldable pub set_up : Build → Machine → Work W (Unit {0})
  set_up b m = do
    files ← recipe_files_to_upload b.guest
    upload m b.guest.recipe_dir files
    proc ←
        ssh_run fx m (setup_ssh_command fx.quote_ b.guest) (natural b.guest.build_timeout_s * 1000)
          true
    pure tt

  -- `except ImageBuildError: pass`
  unfoldable pub forgiven :
      Result BuildError (Unit {0}) × Bench W → Result BuildError (Unit {0}) × Bench W
  forgiven (err (image_build text), s) = (ok tt, s)
  forgiven (err (timed_out text), s) = (err (timed_out text), s)
  forgiven (err (command_expired text), s) = (err (command_expired text), s)
  forgiven (err (os_error text), s) = (err (os_error text), s)
  forgiven (err (value_error text), s) = (err (value_error text), s)
  forgiven (err (process_failed text), s) = (err (process_failed text), s)
  forgiven (err (address_in_use text), s) = (err (address_in_use text), s)
  forgiven (err interrupted, s) = (err interrupted, s)
  forgiven (ok u, s) = (ok tt, s)

  unfoldable pub fetch_version : Build → Machine → Text → Work W (Unit {0})
  unfolding forgiven
  fetch_version b m dir s =
      if is_iso b
      then forgiven (
          scp_from_guest fx m (codes "/var/tmp/strata-omarchy-version.txt")
            (dir / codes "omarchy-version.txt") s)
      else (ok tt, s)

  unfoldable pub fetch_inventory : Build → Machine → Text → Work W (Unit {0})
  fetch_inventory b m dir = do
    touch fx (fx.make_dir dir)
    scp_from_guest fx m (codes "/var/tmp/strata-inventory.txt") (dir / inventory_basename b.guest)
    scp_from_guest fx m (codes "/var/tmp/strata-glibc.txt") (dir / codes "glibc.txt")
    scp_from_guest fx m (codes "/var/tmp/strata-gtk.txt") (dir / codes "gtk.txt")
    fetch_version b m dir
