-- ===== src/RunTest/Disks.antt =====
-- strataqemu/run_test.py: `require_golden`, `_copy_run_vars`, `_prepare_overlay` and `discard_throwaway_disks`, over
-- strataqemu/overlay.py. Files are effects; `find_ovmf_vars` is a value.
use strata_qemu_testing.Base.{
  Bool, ◌||◌, Option, none, some, List, [], ◌∷◌, if◌then◌else◌, Result, ok, err,
}
use strata_qemu_testing.Base.Text.{Text, codes, text_eq}
use strata_qemu_testing.Artifacts
use strata_qemu_testing.Guest.Recipe.{Guest}
use strata_qemu_testing.RunTest.Exec.{Exec, ◌>>=◌, pure}
use strata_qemu_testing.Build.Facts.{golden_qcow2, golden_vars_fd}
use strata_qemu_testing.Overlay.Create.{OverlayError, Files, create_overlay, copy_uefi_vars}

-- `RunTestError` at its two places, and what the overlay raises.
pub data DiskError : Type 0 where
  missing_golden : Text → DiskError
  missing_ovmf_vars : DiskError
  overlay_failed : OverlayError → DiskError

-- What a run lies on: the guest with its digest, the cache, and the template of the firmware's variables.
pub record RunBase : Type 0 where
  pub guest : Guest
  pub golden_digest : Text
  pub cache : Text
  pub template : Option Text

module _ {W : Type 0} (fx : Files W) where
  abbrev pub Work : Type 0 → Type 0
  Work A = Exec W DiskError A

  unfoldable pub overlaid : {A : Type 0} → Result OverlayError A × W → Result DiskError A × W
  overlaid (ok a, w) = (ok a, w)
  overlaid (err e, w) = (err (overlay_failed e), w)

  unfoldable pub require_golden : RunBase → Work Text
  require_golden b w =
      let path = golden_qcow2 b.guest b.golden_digest b.cache in
      if fx.is_file path w then (ok path, w) else (err (missing_golden b.guest.id), w)

  -- `template if template is not None else golden_vars`
  abbrev pub template_or : Option Text → Text → Text
  template_or none golden_vars = golden_vars
  template_or (some template) golden_vars = template

  unfoldable pub copy_template : Text → Option Text → Work Text
  unfolding overlaid
  copy_template dest none w = (err missing_ovmf_vars, w)
  copy_template dest (some template) w = overlaid (copy_uefi_vars fx dest template none w)

  unfoldable pub copy_run_vars : RunBase → Text → Work Text
  unfolding overlaid
  copy_run_vars b dest w =
      let golden_vars = golden_vars_fd b.guest b.cache in
      if fx.is_file golden_vars w
      then overlaid
          (copy_uefi_vars fx dest (template_or b.template golden_vars) (some golden_vars) w)
      else copy_template dest b.template w

  unfoldable pub uefi_vars : RunBase → Text → Work (Option Text)
  uefi_vars b run_dir =
      if text_eq b.guest.firmware (codes "uefi")
      then (do vars ← copy_run_vars b (Artifacts.ovmf_vars run_dir); pure (some vars))
      else pure none

  -- `_prepare_overlay`
  unfoldable pub prepare_overlay : RunBase → Text → Work (Text × Option Text)
  unfolding overlaid
  prepare_overlay b run_dir = do
    golden ← require_golden b
    overlay ←
        (λ w. overlaid (create_overlay fx golden (Artifacts.overlay run_dir) (codes "qemu-img") w))
    vars ← uefi_vars b run_dir
    pure (overlay, vars)

-- What `discard_throwaway_disks` uses; what `unlink` and `rmtree` raise is caught.
pub record Removal (W : Type 0) : Type 0 where
  pub is_symlink : Text → W → Bool
  pub is_regular : Text → W → Bool
  pub is_dir : Text → W → Bool
  pub unlink : Text → W → Result Text (Unit {0}) × W
  pub rmtree : Text → W → Result Text (Unit {0}) × W

module _ {W : Type 0} (removal : Removal W) where
  unfoldable pub discard : Text → W → W
  discard path w =
      if removal.is_symlink path w || removal.is_regular path w
      then (removal.unlink path w).1
      else if removal.is_dir path w
      then (removal.rmtree path w).1
      else w

  unfoldable pub discard_all : List Text → W → W
  discard_all [] w = w
  discard_all (path ∷ paths) w = discard_all paths (discard path w)

  unfoldable pub discard_throwaway_disks : Text → W → W
  discard_throwaway_disks run_dir w = discard_all (Artifacts.throwaway_paths run_dir) w
