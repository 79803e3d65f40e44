-- ===== src/Steps/Screenshot/Png.antt =====
-- strataqemu/tests_spec.py: what `capture_guest_screenshot` leaves behind.
use strata_qemu_testing.Base.{true, [], Option, none, some, ok, ◌≡◌, refl, Bool-cases, inl, inr}
use mathlib.Core.Path.{subst}
use strata_qemu_testing.Base.Text.{Text}
use strata_qemu_testing.Session.Parse.{Props}
use strata_qemu_testing.RunTest.Exec.{exec_elim, returned}
use strata_qemu_testing.Steps.Remote.{Remote, Progress, env_prefix}
use strata_qemu_testing.Steps.Screenshot.{
  is_png, shot_bytes, check_shot, take_shot, ensure_screenshot_tool, capture_guest_screenshot,
}

-- The file is there and is a picture: at least 256 bytes that begin with the signature of PNG.
pub record IsPicture {W : Type 0} (fx : Remote W) (dest : Text) (w : W) : Type 0 where
  pub bytes : Text
  pub is_there : fx.is_file dest w ≡ true
  pub is_read : fx.read_bytes dest w ≡ some bytes
  pub is_picture : is_png bytes ≡ true

module _ {W : Type 0} (fx : Remote W) where
  shot_bytes-is_png :
      (dest : Text) (o : Option Text) {u : Unit {0}}
      → shot_bytes fx dest o ≡ ok u
      → (bytes : Text) × (o ≡ some bytes) × (is_png bytes ≡ true)
  unfolding shot_bytes
  shot_bytes-is_png dest none h = absurd (cc)
  shot_bytes-is_png dest (some bytes) h = elim (Bool-cases (is_png bytes)) [
    | inl good ↦ (bytes, refl, good)
    | inr bad ↦ absurd (let x = rw bad at h in cc)
  ]

  no_bytes : (dest : Text) {u : Unit {0}} → shot_bytes fx dest (some []) ≡ ok u → ⊥
  unfolding shot_bytes is_png
  no_bytes dest h = cc

  check_shot-IsPicture :
      (dest : Text) (s t : Progress W) {u : Unit {0}}
      → check_shot fx dest s ≡ (ok u, t)
      → IsPicture fx dest t.world
  unfolding check_shot
  check_shot-IsPicture dest s t {u} h = elim (Bool-cases (fx.is_file dest s.world)) [
    | inl there ↦
        let parts = returned _ s (rw there at h) in
        let read = shot_bytes-is_png dest (fx.read_bytes dest s.world) {u = u} parts.0 in
        subst (λ x. IsPicture fx dest x.world) parts.1
          (record { bytes = read.0; is_there = there; is_read = read.1; is_picture = read.2 })
    | inr missing ↦ absurd (no_bytes dest {u = u} (returned _ s (rw missing at h)).0)
  ]

  -- If the screenshot of the guest returns, then the file it was asked for is there and is a picture,
  -- whichever of the guest's tool and the framebuffer gave it.
  pub capture_guest_screenshot-IsPicture :
      (env : Props) (dest tool : Text) (s t : Progress W)
      → capture_guest_screenshot fx env dest tool s ≡ (ok tt, t)
      → IsPicture fx dest t.world
  unfolding capture_guest_screenshot
  capture_guest_screenshot-IsPicture env dest tool s t h =
      exec_elim (ensure_screenshot_tool fx tool) _ s h λ u s1 _ h.
        exec_elim (take_shot fx (env_prefix fx env) tool dest) _ s1 h
          λ v s2 _ h. check_shot-IsPicture dest s2 t {u = tt} h
