-- ===== src/Build/Live/Prepare.antt =====
-- strataqemu/image_build.py: `build_live` before the machine: the free space, the download, the disk, the seed
-- and the firmware.
use strata_qemu_testing.Base.{
  ℕ, not, Option, none, some, List, [], ◌∷◌, ◌++◌, if◌then◌else◌, Result, ok, err, ltb,
}
use strata_qemu_testing.Base.Text.{Text, codes, is_empty}
use strata_qemu_testing.Artifacts
use strata_qemu_testing.Artifacts.{◌/◌, images_dir, runs_dir, downloads_dir}
use strata_qemu_testing.Guest.Toml.{ℤ, zero_int}
use strata_qemu_testing.Session.Parse.{Props}
use strata_qemu_testing.RunTest.Exec.{◌>>=◌, ◌>>◌, pure, raise}
use strata_qemu_testing.Steps.Remote.{Proc, RunError, expired, os_failed, int_text}
use strata_qemu_testing.Build.Facts.{
  natural, required_free_bytes, source_size_bytes, convert_argv, resize_argv,
  create_blank_qcow2_argv,
}
use strata_qemu_testing.Build.Bench.{
  BuildError, image_build, command_expired, os_error, Builder, Bench, Work, touch,
}
use strata_qemu_testing.Build.Spawn.{SpawnArgs}
use strata_qemu_testing.Build.Live.{Site, Build, run_dir_of, is_iso, is_uefi, host_checked, act}

module _ {W : Type 0} (site : Site W) where
  abbrev fx : Builder W
  fx = site.builder

  unfoldable pub source_file : Build → Text
  source_file b = downloads_dir b.cache / b.guest.download_name

  -- `_assert_free_space`, with the download if it is there
  unfoldable pub space_checked : ℕ → Option ℕ → Result BuildError (Unit {0})
  space_checked needed none = err (image_build (codes "could not measure free space"))
  space_checked needed (some free) =
      if ltb free needed then err (image_build (codes "not enough free space")) else ok tt

  unfoldable pub assert_free_space : Build → Option Text → Work W (Unit {0})
  assert_free_space b download s =
      let size : Option ℕ = elim download [
        | none ↦ none
        | some path ↦ site.file_size path s.world
      ] in
      let needed = required_free_bytes (natural b.guest.disk_gb) (source_size_bytes size) in
      (space_checked needed (site.disk_free b.cache s.world), s)

  unfoldable pub existing_download : Build → W → Option Text
  existing_download b w = if fx.is_file (source_file b) w then some (source_file b) else none

  unfoldable pub first_space_check : Build → Work W (Unit {0})
  first_space_check b s = assert_free_space b (existing_download b s.world) s

  -- `run_bootstrap`
  unfoldable pub bootstrap_env : Build → Props
  bootstrap_env b =
      (codes "STRATA_QEMU_CACHE", b.cache)
      ∷ (codes "SOURCE_URL", b.guest.source_url)
      ∷ (codes "SOURCE_SHA256", b.guest.source_sha256)
      ∷ (codes "SOURCE_FILENAME", b.guest.download_name)
      ∷ []

  unfoldable pub bootstrapped :
      Text → Bench W → Result RunError Proc × W → Result BuildError Text × Bench W
  bootstrapped dest s (ok proc, w) =
      let after = record s { world = w } in
      if not (zero_int proc.returncode)
      then (
        err (
            image_build (
              codes "bootstrap.sh failed ("
              ++ (int_text proc.returncode
                  ++ (codes "): "
                      ++ (if is_empty proc.stderr then proc.stdout else proc.stderr))))),
        after,
      )
      else if fx.is_file dest w
      then (ok dest, after)
      else (err (image_build (codes "bootstrap.sh did not produce " ++ dest)), after)
  bootstrapped dest s (err (expired out), w) = (err (command_expired out), record s { world = w })
  bootstrapped dest s (err (os_failed text), w) = (err (os_error text), record s { world = w })

  unfoldable pub run_bootstrap : Build → Work W Text
  unfolding bootstrapped
  run_bootstrap b s =
      bootstrapped (source_file b) s
        (site.run_script (b.guest.recipe_dir / codes "bootstrap.sh") (bootstrap_env b) s.world)

  unfoldable pub host_ran :
      Bench W → Result RunError Proc × W → Result BuildError (Unit {0}) × Bench W
  host_ran s (r, w) = (host_checked r, record s { world = w })

  unfoldable pub run_checked : List Text → Work W (Unit {0})
  unfolding host_ran
  run_checked argv s = host_ran s (fx.run argv none s.world)

  -- `create_blank_qcow2`, `convert_and_resize`
  unfoldable pub create_blank_qcow2 : Text → ℤ → Work W (Unit {0})
  create_blank_qcow2 dest disk_gb = do
    touch fx (fx.make_parent dest)
    run_checked (create_blank_qcow2_argv dest disk_gb (codes "qemu-img"))

  unfoldable pub convert_and_resize : Text → Text → ℤ → Work W (Unit {0})
  convert_and_resize src dest disk_gb = do
    touch fx (fx.make_parent dest)
    run_checked (convert_argv src dest)
    run_checked (resize_argv dest disk_gb)

  unfoldable pub make_disk : Build → Text → Text → Work W (Option Text)
  make_disk b blob working =
      if is_iso b
      then (do create_blank_qcow2 working b.guest.disk_gb; pure (some blob))
      else (do convert_and_resize blob working b.guest.disk_gb; pure none)

  -- `_pubkey_for`
  unfoldable pub pubkey_for : Text → Work W Text
  pubkey_for key s =
      let pub_file = key ++ codes ".pub" in
      if fx.is_file pub_file s.world
      then (elim (fx.read_text pub_file s.world) [
        | none ↦ (err (os_error pub_file), s)
        | some text ↦ (ok text, s)
      ])
      else (err (image_build (codes "missing SSH public key " ++ pub_file)), s)

  -- The firmware of a UEFI guest: its code, and a fresh copy of the template of its variables.
  unfoldable pub copy_template : Text → Option Text → Work W (Option Text)
  copy_template dest none = raise (image_build (codes "OVMF_VARS template not found"))
  copy_template dest (some template) = do act (site.copy_uefi_vars dest template); pure (some dest)

  unfoldable pub firmware_part : Build → Text → Work W (Option Text × Option Text)
  firmware_part b run_dir =
      if is_uefi b.guest
      then (do
        vars ← (λ s. copy_template (Artifacts.ovmf_vars run_dir) (site.find_ovmf_vars s.world) s)
        pure (b.ovmf_code, vars))
      else pure (none, none)

  -- Everything before the machine: what it is started with.
  unfoldable pub prepare : Build → Work W SpawnArgs
  prepare b = do
    blob ← run_bootstrap b
    assert_free_space b (some blob)
    let run_dir = run_dir_of b
    let working = run_dir / codes "working.qcow2"
    install_iso ← make_disk b blob working
    pubkey ← pubkey_for b.ssh_key
    cidata ← act (site.write_cidata (is_iso b) (run_dir / codes "cidata.iso") pubkey)
    firmware ← firmware_part b run_dir
    pure (record {
      guest = b.guest;
      disk = working;
      run_dir = run_dir;
      ovmf_code = firmware.0;
      ovmf_vars = firmware.1;
      cidata_iso = cidata;
      identity = b.ssh_key;
      install_iso = install_iso;
    })
