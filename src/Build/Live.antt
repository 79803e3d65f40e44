-- ===== src/Build/Live.antt =====
-- strataqemu/image_build.py: `build_live` and `run_image_build`. What touches the file system, the seeds,
-- the shut-down of QEMU and the clock are effects; the digests of the guest, the stamp of the run and
-- `Path.resolve` are values. The provenance is noted as an event.
pub mod Prepare
pub mod Setup
pub mod Stop
pub mod Finish
pub mod Phases
pub mod Order
pub mod Cleanup
pub mod Entry
pub mod Report
use strata_qemu_testing.Base.{
  ℕ, Bool, true, false, not, ◌&&◌, ◌||◌, Option, none, some, List, [], ◌∷◌, ◌++◌, ◌*◌,
  if◌then◌else◌, Result, ok, err, ltb, is_none,
}
use strata_qemu_testing.Base.Text.{Text, codes, text_eq, is_empty, decimal}
use strata_qemu_testing.Artifacts
use strata_qemu_testing.Artifacts.{◌/◌, images_dir, runs_dir, downloads_dir}
use strata_qemu_testing.Guest.Toml.{ℤ, zero_int}
use strata_qemu_testing.Guest.Recipe.{Guest}
use strata_qemu_testing.Session.Parse.{Props}
use strata_qemu_testing.RunTest.Exec.{Exec, ◌>>=◌, ◌>>◌, pure, raise}
use strata_qemu_testing.Steps.Remote.{Proc, RunError, expired, os_failed, int_text}
use strata_qemu_testing.Build.Facts.{
  natural, inventory_basename, is_autoinstall_source, uses_iso_autoinstall, setup_ssh_command,
  golden_qcow2, golden_vars_fd, golden_symlink, provenance_path, required_free_bytes,
  source_size_bytes, convert_argv, resize_argv, create_blank_qcow2_argv, omarchy_major_for_guest,
}
use strata_qemu_testing.Build.Bench.{
  Machine, BuildError, image_build, timed_out, command_expired, os_error, value_error,
  process_failed, address_in_use, interrupted, Builder, Bench, Work, ssh_run, scp_to_guest,
  scp_from_guest, touch,
}
use strata_qemu_testing.Build.Wait.{
  wait_ssh, ssh_auth_reject_max, wait_cloud_init, wait_iso_autoinstall,
}
use strata_qemu_testing.Build.Wait.Wizard.{kick_omarchy3_skip_wizard}
use strata_qemu_testing.Qemu.Spawn.{Launcher}

-- What can be seen of a build; `orphan` is a QEMU that was started and that the variable does not hold.
pub data Event : Type 0 where
  spawned orphan stopped removed_golden installed_golden linked copied_vars wrote_provenance
        removed_run :
      Event

-- `machine` is the variable of `build_live`.
pub record Live (W : Type 0) : Type 0 where
  pub bench : Bench W
  pub machine : Option Machine
  pub trace : List Event

-- What `check_host` found.
pub record CheckHostResult : Type 0 where
  pub passed : Bool
  pub ovmf_code : Option Text
  pub ssh_key : Option Text

-- A value of the provenance.
pub data Field : Type 0 where
  string : Text → Field
  table : Props → Field

-- An effect that may raise.
abbrev pub Act : Type 0 → Type 0 → Type 0
Act W A = W → Result BuildError A × W

pub record Site (W : Type 0) : Type 0 where
  pub builder : Builder W
  -- `shutil.disk_usage(path).free`, and the size of a file
  pub disk_free : Text → W → Option ℕ
  pub file_size : Text → W → Option ℕ
  -- `runner(["bash", script], env=…)`
  pub run_script : Text → Props → W → Result RunError Proc × W
  pub write_cidata : Bool → Text → Text → Act W Text
  pub find_ovmf_vars : W → Option Text
  pub copy_uefi_vars : Text → Text → Act W (Unit {0})
  -- What `_spawn_qemu` uses.
  pub launcher : Launcher W BuildError
  -- `machine.shutdown()`; `_proc.wait(timeout)`; `machine.kill()`
  pub shutdown : Machine → Act W Text
  pub wait_process : ℕ → Act W (Unit {0})
  pub kill : Machine → W → W
  -- `path.exists() or path.is_symlink()`
  pub is_there : Text → W → Bool
  pub unlink : Text → Act W (Unit {0})
  pub move : Text → Text → Act W (Unit {0})
  pub chmod : Text → W → W
  pub symlink_to : Text → Text → Act W (Unit {0})
  pub copyfile : Text → Text → Act W (Unit {0})
  -- `json.dumps(payload, indent=2)`, and the file that is written with it
  pub json_dumps : List (Text × Field) → Text
  pub write_text : Text → Text → Act W (Unit {0})
  pub rmtree : Text → W → W

-- What a build is of: the guest with its digests, the cache, the key and the firmware of the host, and the stamp of the run.
pub record Build : Type 0 where
  pub guest : Guest
  pub golden_digest : Text
  pub recipe_digest : Text
  pub cache : Text
  pub ssh_key : Text
  pub ovmf_code : Option Text
  pub stamp : Text

-- RECIPE_UPLOAD_NAMES
abbrev pub recipe_upload_names : List Text
recipe_upload_names =
    codes "setup.sh"
    ∷ codes "greetd-config.toml"
    ∷ codes "hyprland.lua"
    ∷ codes "hyprland.conf"
    ∷ []

abbrev pub run_dir_of : Build → Text
run_dir_of b = runs_dir b.cache / (b.stamp ++ (codes "-" ++ (b.guest.id ++ codes "-build")))

abbrev pub is_iso : Build → Bool
is_iso b = is_autoinstall_source b.guest || uses_iso_autoinstall b.guest.id

abbrev pub is_uefi : Guest → Bool
is_uefi guest = text_eq guest.firmware (codes "uefi")

-- What a subprocess of the host that is checked (`check=True`) has done; the text of `CalledProcessError` is shortened.
unfoldable pub host_checked : Result RunError Proc → Result BuildError (Unit {0})
host_checked (ok proc) =
    if zero_int proc.returncode
    then ok tt
    else err (process_failed (codes "exit " ++ int_text proc.returncode))
host_checked (err (expired out)) = err (command_expired out)
host_checked (err (os_failed text)) = err (os_error text)

module _ {W A : Type 0} where
  -- An effect on the world alone.
  unfoldable pub acted : Bench W → Result BuildError A × W → Result BuildError A × Bench W
  acted s (r, w) = (r, record s { world = w })

  unfoldable pub act : Act W A → Work W A
  unfolding acted
  act m s = acted s (m s.world)

  -- Work inside `build_live`, which changes neither the variable nor what is noted.
  unfoldable pub within : Live W → Result BuildError A × Bench W → Result BuildError A × Live W
  within s (r, b) = (r, record s { bench = b })

  unfoldable pub quiet : Work W A → Exec (Live W) BuildError A
  unfolding within
  quiet m s = within s (m s.bench)

  -- Work that is noted when it returns.
  unfoldable pub noting :
      Event → Live W → Result BuildError A × Bench W → Result BuildError A × Live W
  noting e s (ok a, b) = (ok a, record s { bench = b; trace = s.trace ++ (e ∷ []) })
  noting e s (err x, b) = (err x, record s { bench = b })

  unfoldable pub noted : Event → Work W A → Exec (Live W) BuildError A
  unfolding noting
  noted e m s = noting e s (m s.bench)
