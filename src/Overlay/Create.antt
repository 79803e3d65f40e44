-- ===== src/Overlay/Create.antt =====
-- strataqemu/overlay.py: `create_overlay` with its second try, `copy_uefi_vars` and `prune`. Subprocesses and files are
-- effects that may raise; of `CalledProcessError` the two outputs are kept.
use strata_qemu_testing.Base.{Bool, Option, none, some, List, ◌++◌, if◌then◌else◌, Result, ok, err}
use strata_qemu_testing.Base.Text.{Text, codes, contains, lower}
use strata_qemu_testing.Artifacts.{images_dir, runs_dir}
use strata_qemu_testing.Guest.Toml.{zero_int}
use strata_qemu_testing.RunTest.Exec.{Exec, ◌>>◌, pure}
use strata_qemu_testing.Overlay.{create_overlay_argv, without_backing_file_strict}
use strata_qemu_testing.Steps.Remote.{Proc, RunError}

pub data OverlayError : Type 0 where
  called_process_error : Text → Text → OverlayError
  run_failed : RunError → OverlayError
  file_failed : Text → OverlayError

pub record Files (W : Type 0) : Type 0 where
  pub resolve : Text → Text
  pub make_parent : Text → W → Result OverlayError (Unit {0}) × W
  pub run : List Text → W → Result RunError Proc × W
  pub is_file : Text → W → Bool
  pub exists : Text → W → Bool
  pub copyfile : Text → Text → W → Result OverlayError (Unit {0}) × W
  pub rmtree : Text → W → Result OverlayError (Unit {0}) × W

module _ {W : Type 0} (fx : Files W) where
  abbrev pub Work : Type 0 → Type 0
  Work A = Exec W OverlayError A

  -- `check=True`
  unfoldable pub checked : Result RunError Proc × W → Result OverlayError (Unit {0}) × W
  checked (ok proc, w) =
      if zero_int proc.returncode
      then (ok tt, w)
      else (err (called_process_error proc.stderr proc.stdout), w)
  checked (err e, w) = (err (run_failed e), w)

  unfoldable pub run_checked : List Text → Work (Unit {0})
  unfolding checked
  run_checked argv w = checked (fx.run argv w)

  -- `except subprocess.CalledProcessError`
  unfoldable pub retried :
      List Text → Result OverlayError (Unit {0}) × W → Result OverlayError (Unit {0}) × W
  retried argv (ok u, w) = (ok tt, w)
  retried argv (err (called_process_error stderr stdout), w) =
      if contains (lower (stderr ++ stdout)) (codes "backing_file_strict")
      then run_checked (without_backing_file_strict argv) w
      else (err (called_process_error stderr stdout), w)
  retried argv (err (run_failed e), w) = (err (run_failed e), w)
  retried argv (err (file_failed text), w) = (err (file_failed text), w)

  unfoldable pub create_image : List Text → Work (Unit {0})
  unfolding retried
  create_image argv w = retried argv (run_checked argv w)

  unfoldable pub create_overlay : Text → Text → Text → Work Text
  create_overlay golden overlay qemu_img = do
    fx.make_parent overlay
    create_image (create_overlay_argv fx.resolve golden overlay qemu_img)
    pure overlay

  -- The golden variables if they are there, else those of the template.
  unfoldable pub vars_source : Text → Option Text → W → Text
  vars_source template none w = template
  vars_source template (some golden_vars) w =
      if fx.is_file golden_vars w then golden_vars else template

  unfoldable pub copy_uefi_vars : Text → Text → Option Text → Work Text
  copy_uefi_vars dest template_vars golden_vars w =
      let src_path = vars_source template_vars golden_vars w in
      (do fx.make_parent dest; fx.copyfile src_path dest; pure dest) w

  unfoldable pub remove_tree : Text → Work (Unit {0})
  remove_tree dir w = if fx.exists dir w then fx.rmtree dir w else (ok tt, w)

  unfoldable pub prune : Bool → Text → Work (Unit {0})
  prune images root = do
    remove_tree (runs_dir root)
    if images then remove_tree (images_dir root) else pure tt
