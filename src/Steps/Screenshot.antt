-- ===== src/Steps/Screenshot.antt =====
-- strataqemu/tests_spec.py: the screenshot of the guest, and how it is checked.
pub mod Png
use strata_qemu_testing.Base.{
  ℕ, Bool, true, false, not, ◌&&◌, ◌||◌, Option, none, some, List, [], ◌∷◌, ◌++◌, if◌then◌else◌,
  Result, ok, err, leb, length,
}
use strata_qemu_testing.Base.Text.{Text, codes, text_eq, starts_with, decimal}
use strata_qemu_testing.Guest.Toml.{zero_int}
use strata_qemu_testing.Session.Parse.{Props}
use strata_qemu_testing.RunTest.Exec.{Exec, ◌>>=◌, ◌>>◌, pure, raise, lift}
use strata_qemu_testing.Steps.Remote.{
  Proc, StepError, smoke, timed_out, command_expired, os_error, value_error, no_rounds, Remote,
  Progress, Step, blob_of, env_prefix, ssh_run, scp_from_guest,
}

-- SCREENSHOT_TOOL_MISSING
abbrev pub screenshot_tool_missing_message : Text
screenshot_tool_missing_message = codes "screenshot tool missing; rebuild the golden"

-- GUEST_SCREENSHOT_REMOTE
abbrev pub guest_screenshot_remote : Text
guest_screenshot_remote = codes "/tmp/strata-window.png"

-- PNG_MAGIC
abbrev pub png_magic : Text
png_magic = 137 ∷ 80 ∷ 78 ∷ 71 ∷ 13 ∷ 10 ∷ 26 ∷ 10 ∷ []

-- MIN_PNG_BYTES
abbrev pub min_png_bytes : ℕ
min_png_bytes = 256

-- `len(data) >= MIN_PNG_BYTES and data.startswith(PNG_MAGIC)`
unfoldable pub is_png : Text → Bool
is_png bytes = leb min_png_bytes (length bytes) && starts_with bytes png_magic

module _ {W : Type 0} (fx : Remote W) where
  -- `_png_ok`
  unfoldable pub png_ok : Text → W → Bool
  png_ok dest w = elim (fx.read_bytes dest w) [ none ↦ false | some bytes ↦ is_png bytes ]

  unfoldable pub ensure_screenshot_tool : Text → Step W (Unit {0})
  ensure_screenshot_tool tool = do
    which ← ssh_run fx (codes "command -v " ++ fx.quote_ tool) 15000 false
    if zero_int which.returncode then pure tt else raise (smoke screenshot_tool_missing_message)

  -- `grim` or `gnome-screenshot`, and the download.
  unfoldable pub shoot : Text → Text → Step W (Unit {0})
  shoot command dest = do
    proc ← ssh_run fx command 15000 true
    scp_from_guest fx guest_screenshot_remote dest

  -- `except (subprocess.TimeoutExpired, SessionSmokeError): grabbed = False`
  unfoldable pub grabbed :
      Result StepError (Unit {0}) × Progress W → Result StepError Bool × Progress W
  grabbed (ok u, s) = (ok true, s)
  grabbed (err (smoke text), s) = (ok false, s)
  grabbed (err (command_expired text), s) = (ok false, s)
  grabbed (err (timed_out text), s) = (err (timed_out text), s)
  grabbed (err (os_error text), s) = (err (os_error text), s)
  grabbed (err (value_error text), s) = (err (value_error text), s)
  grabbed (err no_rounds, s) = (err no_rounds, s)

  unfoldable pub try_shoot : Text → Text → Step W Bool
  unfolding grabbed
  try_shoot command dest s = grabbed (shoot command dest s)

  abbrev pub fallback_failed : Text
  fallback_failed = codes "gnome-screenshot did not produce a PNG; VNC fallback failed"

  -- `if not grabber(dest, display=machine.vnc_port): raise`
  unfoldable pub vnc_ended : Progress W → Bool × W → Result StepError (Unit {0}) × Progress W
  vnc_ended s (true, w) = (ok tt, record s { world = w })
  vnc_ended s (false, w) = (err (smoke fallback_failed), record s { world = w })

  -- The framebuffer of the VNC server, if the guest's tool did not help.
  unfoldable pub vnc_fallback : Text → Bool → Step W (Unit {0})
  unfolding vnc_ended
  vnc_fallback dest got s =
      if got && png_ok dest s.world then (ok tt, s) else elim fx.machine.vnc_port [
        | none ↦ (err (smoke fallback_failed), s)
        | some display ↦ vnc_ended s (fx.vnc_framebuffer_png dest display s.world)
      ]

  -- The check of the bytes.
  unfoldable pub shot_bytes : Text → Option Text → Result StepError (Unit {0})
  shot_bytes dest none = err (os_error dest)
  shot_bytes dest (some bytes) =
      if is_png bytes
      then ok tt
      else err (
          smoke (
            codes "in-guest screenshot is empty or not a PNG ("
            ++ (dest ++ (codes ", " ++ (decimal (length bytes) ++ codes " bytes)")))))

  -- `data = dest.read_bytes() if dest.is_file() else b""`
  unfoldable pub check_shot : Text → Step W (Unit {0})
  unfolding shot_bytes
  check_shot dest s =
      if fx.is_file dest s.world
      then (shot_bytes dest (fx.read_bytes dest s.world), s)
      else (shot_bytes dest (some []), s)

  unfoldable pub take_shot : Text → Text → Text → Step W (Unit {0})
  take_shot prefix binary dest =
      if text_eq binary (codes "grim")
      then shoot (prefix ++ (codes " grim " ++ fx.quote_ guest_screenshot_remote)) dest
      else (do
        got ←
            try_shoot
              (prefix ++ (codes " gnome-screenshot -f " ++ fx.quote_ guest_screenshot_remote)) dest
        vnc_fallback dest got)

  unfoldable pub capture_guest_screenshot : Props → Text → Text → Step W (Unit {0})
  capture_guest_screenshot env dest tool = do
    ensure_screenshot_tool tool
    take_shot (env_prefix fx env) tool dest
    check_shot dest

  unfoldable pub dump_ended : Progress W → Bool × W → Result StepError (Unit {0}) × Progress W
  dump_ended s (_, w) = (ok tt, record s { world = w })

  -- `extra_qmp_screendump`, whose result the callers drop
  unfoldable pub extra_qmp_screendump : Option Text → Step W (Unit {0})
  unfolding dump_ended
  extra_qmp_screendump none s = (ok tt, s)
  extra_qmp_screendump (some dest) s = dump_ended s (fx.qmp_screendump dest s.world)
