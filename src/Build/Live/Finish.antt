-- ===== src/Build/Live/Finish.antt =====
-- strataqemu/image_build.py: `build_live` from the shut-down of the guest to the golden image, its provenance and the
-- end of the run directory; the `finally` of `build_live`, and `run_image_build`.
use strata_qemu_testing.Base.{
  Bool, false, not, ◌&&◌, Option, none, some, List, [], ◌∷◌, ◌++◌, if◌then◌else◌, Result, ok, err,
  is_none,
}
use strata_qemu_testing.Base.Text.{Text, codes, is_empty, strip}
use strata_qemu_testing.Artifacts.{◌/◌, images_dir, downloads_dir}
use strata_qemu_testing.Guest.Recipe.{Guest}
use strata_qemu_testing.Session.Parse.{Props}
use strata_qemu_testing.RunTest.Exec.{Exec, ◌>>=◌, ◌>>◌, pure, raise}
use strata_qemu_testing.Build.Facts.{
  inventory_basename, inventory_provenance_key, golden_filename, golden_qcow2, golden_vars_fd,
  golden_symlink, provenance_path,
}
use strata_qemu_testing.Build.Bench.{
  Machine, BuildError, image_build, os_error, interrupted, Builder, Bench, Work, touch,
}
use strata_qemu_testing.Qemu.Spawn.{SpawnFailure, spawn_raised, left_running}
use strata_qemu_testing.Build.Spawn.{SpawnArgs, spawn_qemu}
use strata_qemu_testing.Build.Live.{
  spawned, orphan, stopped, removed_golden, installed_golden, linked, copied_vars, wrote_provenance,
  removed_run, Live, CheckHostResult, Field, string, table, Site, Build, run_dir_of, is_iso,
  is_uefi, act, quiet, noted,
}
use strata_qemu_testing.Build.Live.Stop.{shut_down, shutdown_machine}
use strata_qemu_testing.Build.Live.Prepare.{first_space_check, prepare}
use strata_qemu_testing.Build.Live.Setup.{wait_guest, set_up, fetch_inventory}

-- The key and the firmware are those of the host.
unfoldable pub for_host : Build → CheckHostResult → Text → Build
for_host b host key = record b { ssh_key = key; ovmf_code = host.ovmf_code }

module _ {W : Type 0} (site : Site W) where
  abbrev fx : Builder W
  fx = site.builder

  abbrev at_world : Live W → W → Bench W
  at_world s w = let b = s.bench in record b { world = w }

  -- `machine = _spawn_qemu(…)`: behind an interrupt QEMU has started, and the variable is not set.
  unfoldable pub started :
      Live W → Result (SpawnFailure BuildError) Machine × W → Result BuildError Machine × Live W
  started s (ok m, w) =
      (ok m, record { bench = at_world s w; machine = some m; trace = s.trace ++ (spawned ∷ []) })
  started s (err (spawn_raised e), w) = (err e, record s { bench = at_world s w })
  started s (err left_running, w) =
      (err interrupted, record s { bench = at_world s w; trace = s.trace ++ (orphan ∷ []) })

  unfoldable pub start_part : SpawnArgs → Exec (Live W) BuildError Machine
  unfolding started
  start_part args s = started s (spawn_qemu site.launcher args s.bench.world)

  -- The shut-down, and `machine = None`
  unfoldable pub ended :
      Live W → Result BuildError (Unit {0}) × Bench W → Result BuildError (Unit {0}) × Live W
  ended s (ok u, b) =
      (ok tt, record { bench = b; machine = none; trace = s.trace ++ (stopped ∷ []) })
  ended s (err e, b) = (err e, record s { bench = b })

  unfoldable pub stop_part : Machine → Exec (Live W) BuildError (Unit {0})
  unfolding ended
  stop_part m s = ended s (shut_down site m s.bench)

  -- The golden image of before, if there is one
  unfoldable pub remove_part : Text → Exec (Live W) BuildError (Unit {0})
  remove_part golden s =
      if site.is_there golden s.bench.world
      then noted removed_golden (act (site.unlink golden)) s
      else (ok tt, s)

  unfoldable pub unlink_part : Text → Work W (Unit {0})
  unlink_part link s = if site.is_there link s.world then act (site.unlink link) s else (ok tt, s)

  -- `_install_symlink`
  unfoldable pub install_symlink : Text → Text → Work W (Unit {0})
  install_symlink link name = do unlink_part link; act (site.symlink_to link name)

  -- The variables of the firmware that an installed guest keeps.
  unfoldable pub keeps_vars : Build → Option Text → W → Bool
  keeps_vars b none w = false
  keeps_vars b (some vars) w = is_iso b && (is_uefi b.guest && fx.is_file vars w)

  unfoldable pub vars_path : Option Text → Text
  vars_path none = []
  vars_path (some path) = path

  unfoldable pub vars_part : Build → Option Text → Exec (Live W) BuildError (Unit {0})
  vars_part b vars s =
      if keeps_vars b vars s.bench.world
      then noted copied_vars (act (site.copyfile (vars_path vars) (golden_vars_fd b.guest b.cache)))
          s
      else (ok tt, s)

  unfoldable pub read : Text → Work W Text
  read path s = elim (fx.read_text path s.world) [
    | none ↦ (err (os_error path), s)
    | some text ↦ (ok text, s)
  ]

  -- What the guest recorded, or what was printed while it was waited for.
  unfoldable pub recorded_version : Text → Text → Text
  recorded_version version recorded = if is_empty (strip recorded) then version else strip recorded

  unfoldable pub omarchy_fields : Build → Text → List (Text × Field)
  omarchy_fields b version =
      (codes "omarchy_version", string version)
      ∷ (codes "vars", string (b.guest.id ++ codes ".vars.fd"))
      ∷ []

  unfoldable pub recorded_fields : Build → Text → Text → Work W (List (Text × Field))
  recorded_fields b file version = do
    recorded ← read file
    pure (omarchy_fields b (recorded_version version recorded))

  unfoldable pub version_fields : Build → Text → Text → Work W (List (Text × Field))
  version_fields b dir version s =
      let file = dir / codes "omarchy-version.txt" in
      if not (is_iso b)
      then (ok [], s)
      else if fx.is_file file s.world
      then recorded_fields b file version s
      else (ok (omarchy_fields b version), s)

  unfoldable pub source_fields : Guest → Props
  source_fields guest =
      (codes "url", guest.source_url)
      ∷ (codes "sha256", guest.source_sha256)
      ∷ (codes "filename", guest.download_name)
      ∷ []

  -- The provenance; `recipe_digest` is `guest.recipe_digest()`.
  unfoldable pub provenance : Build → Text → Text → Work W (List (Text × Field))
  provenance b dir version = do
    inventory ← read (dir / inventory_basename b.guest)
    glibc ← read (dir / codes "glibc.txt")
    gtk ← read (dir / codes "gtk.txt")
    more ← version_fields b dir version
    pure (
        (codes "guest", string b.guest.id)
        ∷ (codes "golden", string (golden_filename b.guest b.golden_digest))
        ∷ (codes "source", table (source_fields b.guest))
        ∷ (codes "recipe_digest", string b.recipe_digest)
        ∷ (codes "golden_digest", string b.golden_digest)
        ∷ (codes "built_at", string b.stamp)
        ∷ (inventory_provenance_key b.guest, string inventory)
        ∷ (codes "glibc", string (strip glibc))
        ∷ (codes "gtk", string (strip gtk))
        ∷ more)

  -- `_write_provenance`
  unfoldable pub write_provenance : Text → List (Text × Field) → Work W (Unit {0})
  write_provenance path payload = do
    touch fx (fx.make_parent path)
    act (site.write_text path (site.json_dumps payload ++ codes "\n"))

  -- From the stopped guest to the golden image.
  unfoldable pub install_part :
      Build → SpawnArgs → Text → Text → Exec (Live W) BuildError (Unit {0})
  install_part b args golden version = do
    remove_part golden
    noted installed_golden (act (site.move args.disk golden))
    quiet (touch fx (site.chmod golden))
    noted linked
        (install_symlink (golden_symlink b.guest b.cache) (golden_filename b.guest b.golden_digest))
    vars_part b args.ovmf_vars
    payload ← quiet (provenance b (args.run_dir / codes "inventory") version)
    noted wrote_provenance (write_provenance (provenance_path b.guest b.cache) payload)
    noted removed_run (touch fx (site.rmtree args.run_dir))

  -- The guest from its start to its end.
  unfoldable pub guest_part : Build → SpawnArgs → Exec (Live W) BuildError Text
  guest_part b args = do
    m ← start_part args
    version ← quiet (wait_guest site b m)
    quiet (set_up site b m)
    quiet (fetch_inventory site b m (args.run_dir / codes "inventory"))
    stop_part m
    pure version

  -- The `try` block.
  unfoldable pub try_part : Build → Exec (Live W) BuildError Text
  try_part b = do
    args ← quiet (prepare site b)
    version ← guest_part b args
    let golden = golden_qcow2 b.guest b.golden_digest b.cache
    install_part b args golden version
    pure golden

  -- `finally: if machine is not None: _shutdown_machine(machine)`
  unfoldable pub finally_ended :
      Result BuildError Text
      → Live W
      → Result BuildError (Unit {0}) × Bench W
      → Result BuildError Text × Live W
  finally_ended result s (ok u, b) =
      (result, record { bench = b; machine = none; trace = s.trace ++ (stopped ∷ []) })
  finally_ended result s (err e, b) = (err e, record s { bench = b })

  unfoldable pub finally_with :
      Option Machine → Result BuildError Text → Live W → Result BuildError Text × Live W
  unfolding finally_ended
  finally_with none result s = (result, s)
  finally_with (some m) result s = finally_ended result s (shutdown_machine site m s.bench)

  unfoldable pub finally_part : Result BuildError Text × Live W → Result BuildError Text × Live W
  unfolding finally_with
  finally_part (result, s) = finally_with s.machine result s

  unfoldable pub make_dirs : Build → Work W (Unit {0})
  make_dirs b = do
    touch fx (fx.make_dir (images_dir b.cache))
    touch fx (fx.make_dir (downloads_dir b.cache))

  unfoldable pub before_part : Build → Exec (Live W) BuildError (Unit {0})
  before_part b = do
    quiet (make_dirs b)
    quiet (first_space_check site b)
    quiet (touch fx (fx.make_dir (run_dir_of b)))

  unfoldable pub build_part : Build → Exec (Live W) BuildError Text
  unfolding finally_part
  build_part b = do before_part b; (λ s. finally_part (try_part b s))

  unfoldable pub build_with : Build → CheckHostResult → Option Text → Exec (Live W) BuildError Text
  build_with b host none = raise (image_build (codes "check-host ok but SSH key missing"))
  build_with b host (some key) =
      if is_uefi b.guest && is_none host.ovmf_code
      then raise (image_build (codes "check-host ok but OVMF code missing"))
      else build_part (for_host b host key)

  -- `build_live`
  unfoldable pub build_live : Build → CheckHostResult → Exec (Live W) BuildError Text
  build_live b host = build_with b host host.ssh_key
