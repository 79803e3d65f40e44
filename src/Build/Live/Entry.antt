-- ===== src/Build/Live/Entry.antt =====
-- strataqemu/image_build.py: `run_image_build`. What `load_guest` gives is an argument; of what is printed, the
-- resolved path of the golden image is kept.
use strata_qemu_testing.Base.{
  ℕ, Bool, not, ◌&&◌, Option, none, some, [], if◌then◌else◌, Result, ok, err,
}
use strata_qemu_testing.Base.Text.{Text, is_empty}
use strata_qemu_testing.Guest.Fields.{GuestError}
use strata_qemu_testing.Build.Facts.{golden_qcow2}
use strata_qemu_testing.Build.Bench.{BuildError, Bench}
use strata_qemu_testing.Build.Live.{Live, CheckHostResult, Site, Build}
use strata_qemu_testing.Build.Live.Finish.{build_live}
use strata_qemu_testing.Build.Live.Stop.{is_exception}

-- The status, and the path that is printed.
pub record Exit : Type 0 where
  pub code : ℕ
  pub printed : Option Text

unfoldable pub failed : ℕ → Exit
failed code = record { code = code; printed = none }

-- `print(golden.resolve())`
unfoldable pub printed_path : {W : Type 0} → Site W → Text → Exit
printed_path site golden = record { code = 0; printed = some (site.launcher.resolve golden) }

module _ {W : Type 0} (site : Site W) where
  abbrev fresh : Bench W → Live W
  fresh start = record { bench = start; machine = none; trace = [] }

  unfoldable pub build_status : Result BuildError Text → Exit
  unfolding failed printed_path
  build_status (ok golden) = printed_path site golden
  build_status (err e) = if is_exception e then failed 1 else failed 130

  unfoldable pub with_status : Result BuildError Text × Live W → Exit × Live W
  with_status (r, s) = (build_status r, s)

  unfoldable pub on_host : Build → CheckHostResult → Bench W → Exit × Live W
  unfolding with_status
  on_host b host start =
      if not host.passed
      then (failed 1, fresh start)
      else with_status (build_live site b host (fresh start))

  -- The golden image of the guest, and `golden.is_file() and not force`
  unfoldable pub for_guest : Build → Bool → CheckHostResult → Bench W → Exit × Live W
  for_guest b force host start =
      let golden = golden_qcow2 b.guest b.golden_digest b.cache in
      if site.builder.is_file golden start.world && not force
      then (printed_path site golden, fresh start)
      else on_host b host start

  unfoldable pub run_image_build :
      Text → Result GuestError Build → Bool → CheckHostResult → Bench W → Exit × Live W
  run_image_build guest_id (err e) force host start = (failed 2, fresh start)
  run_image_build guest_id (ok b) force host start =
      if is_empty guest_id then (failed 2, fresh start) else for_guest b force host start
