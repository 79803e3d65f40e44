-- ===== src/Build/Wait/Wizard.antt =====
-- strataqemu/image_build.py: `kick_omarchy3_skip_wizard`.
use strata_qemu_testing.Base.{ℕ, Bool, Option, none, some, ◌++◌, if◌then◌else◌, Result, ok, err}
use strata_qemu_testing.Base.Text.{Text, codes, text_eq}
use strata_qemu_testing.Artifacts
use strata_qemu_testing.Artifacts.{◌/◌}
use strata_qemu_testing.Guest.Toml.{zero_int}
use strata_qemu_testing.Guest.Recipe.{Guest}
use strata_qemu_testing.RunTest.Exec.{◌>>=◌, ◌>>◌, pure, raise}
use strata_qemu_testing.Steps.Remote.{int_text}
use strata_qemu_testing.Build.Facts.{omarchy3_skip_wizard_prepared}
use strata_qemu_testing.Build.Bench.{
  Machine, BuildError, image_build, os_error, ExecResult, Builder, Bench, Work, last_chars,
  capture_build_timeout_evidence,
}
use strata_qemu_testing.Build.Wait.{wait_qga}

module _ {W : Type 0} (fx : Builder W) where
  -- `capture_build_timeout_evidence`, and `raise ImageBuildError`
  abbrev failed_with_evidence : {A : Type 0} → Machine → Text → Work W A
  failed_with_evidence m text = do capture_build_timeout_evidence fx m; raise (image_build text)

  -- OMARCHY3_SKIP_WIZARD_GUEST_PATH
  abbrev pub skip_wizard_guest_path : Text
  skip_wizard_guest_path = codes "/root/skip-wizard.sh"

  -- `if not script.is_file(): raise`
  unfoldable pub require_file : Text → Work W (Unit {0})
  require_file path s =
      if fx.is_file path s.world
      then (ok tt, s)
      else (err (image_build (codes "missing " ++ path)), s)

  -- `script.read_bytes()`
  unfoldable pub read_script : Text → Work W Text
  read_script path s = elim (fx.read_text path s.world) [
    | none ↦ (err (os_error path), s)
    | some text ↦ (ok text, s)
  ]

  unfoldable pub written : Bench W → Bool × W → Result BuildError Bool × Bench W
  written s (done, w) = (ok done, record s { world = w })

  unfoldable pub write_script : Machine → Text → Work W (Unit {0})
  unfolding written
  write_script m text = do
    done ← (λ s.
        written s
          (fx.qga_guest_file_write (Artifacts.qga_sock m.root) skip_wizard_guest_path text s.world))
    if done
        then pure tt
        else failed_with_evidence m (codes "qemu-ga failed to write omarchy-3 skip-wizard.sh")

  unfoldable pub executed :
      Bench W → Option ExecResult × W → Result BuildError (Option ExecResult) × Bench W
  executed s (result, w) = (ok result, record s { world = w })

  unfoldable pub guest_exec : Machine → Text → ℕ → Work W (Option ExecResult)
  unfolding executed
  guest_exec m command timeout s =
      executed s (fx.qga_guest_exec (Artifacts.qga_sock m.root) command timeout s.world)

  abbrev kill_tty1 : Text
  kill_tty1 =
      codes "tty1_pids=$(ps -t tty1 -o pid= 2>/dev/null || true); for pid in $tty1_pids; do "
      ++ codes "[ \"$pid\" = 1 ] && continue; kill -9 \"$pid\" 2>/dev/null || true; done"

  -- What the script has done.
  unfoldable pub skip_judged : Machine → Option ExecResult → Work W (Unit {0})
  skip_judged m none = failed_with_evidence m (codes "qemu-ga did not run omarchy-3 skip-wizard.sh")
  skip_judged m (some result) =
      let blob = result.stdout ++ result.stderr in
      if zero_int result.exitcode
      then pure tt
      else if omarchy3_skip_wizard_prepared blob
      then (do killed ← guest_exec m kill_tty1 15000; pure tt)
      else failed_with_evidence m (
          codes "omarchy-3 skip-wizard.sh failed ("
          ++ (int_text result.exitcode ++ (codes "): " ++ last_chars 2000 blob)))

  -- OMARCHY3_QGA_TIMEOUT_S
  abbrev pub omarchy3_qga_timeout : ℕ
  omarchy3_qga_timeout = 300000

  unfoldable pub skip_wizard : Machine → Guest → Work W (Unit {0})
  skip_wizard m guest = do
    let script = guest.recipe_dir / codes "skip-wizard.sh"
    require_file script
    wait_qga fx m omarchy3_qga_timeout
    text ← read_script script
    write_script m text
    result ←
        guest_exec m
          (codes "chmod +x "
            ++ (skip_wizard_guest_path ++ (codes " && " ++ skip_wizard_guest_path)))
          60000
    skip_judged m result

  unfoldable pub kick_omarchy3_skip_wizard : Machine → Guest → Work W (Unit {0})
  kick_omarchy3_skip_wizard m guest =
      if text_eq guest.id (codes "omarchy-3") then skip_wizard m guest else pure tt
