-- ===== src/Cli/Host/Ready.antt =====
-- strataqemu/cli.py: a host that passes has what a build needs.
use strata_qemu_testing.Base.{
  Bool, true, false, some, List, [], ◌∷◌, ◌++◌, Result, ok, err, ◌≡◌, refl, is_none, if◌then◌else◌,
}
use strata_qemu_testing.Base.Text.{Text}
use strata_qemu_testing.Artifacts.{ssh_private_key}
use strata_qemu_testing.Build.Live.{CheckHostResult}
use strata_qemu_testing.Cli.Host.{
  HostError, CheckHostEnv, Host, no_ovmf, root_errors, virgl_errors, firmware_errors, kept,
  is_missing, required_binaries, kvm_errors, missing_errors, mem_errors, found_code, host_errors,
  ensure_ssh_key, keyed, reported, check_host,
}

append_nil_left : {A : Type 0} (xs ys : List A) → xs ++ ys ≡ [] → xs ≡ []
append_nil_left [] ys h = refl
append_nil_left (x ∷ xs) ys h = absurd cc

append_nil_right : {A : Type 0} (xs ys : List A) → xs ++ ys ≡ [] → ys ≡ []
append_nil_right [] ys h = h
append_nil_right (x ∷ xs) ys h = absurd cc

no_error : {A : Type 0} (b : Bool) (e : A) → (if b then e ∷ [] else []) ≡ [] → b ≡ false
no_error true e h = absurd cc
no_error false e h = refl

module _ {W : Type 0} (host : Host W) (env : CheckHostEnv) where
  has_code : host_errors host env ≡ [] → is_none (found_code host env) ≡ false
  unfolding host_errors firmware_errors
  has_code h =
      let memory = mem_errors host env.mem_available_mib in
      let firmware = firmware_errors host (found_code host env) in
      let virgl = virgl_errors host env.virgl_ok in
      let missing = missing_errors host (kept host (is_missing host env) required_binaries) in
      let kvm = kvm_errors host env.kvm_path in
      no_error (is_none (found_code host env)) no_ovmf (
        append_nil_left firmware memory (
          append_nil_right virgl (firmware ++ memory) (
            append_nil_right missing (virgl ++ (firmware ++ memory)) (
              append_nil_right kvm (missing ++ (virgl ++ (firmware ++ memory))) (
                append_nil_right (root_errors host env.euid)
                  (kvm ++ (missing ++ (virgl ++ (firmware ++ memory)))) h)))))

  -- What a result that passes holds.
  abbrev pub Ready : (List HostError × CheckHostResult) × W → Type 0
  Ready ((errors, result), w) =
      result.passed ≡ true
      → (errors ≡ [])
        × (is_none result.ovmf_code ≡ false)
        × (result.ssh_key ≡ some (ssh_private_key env.cache_dir))

  keyed-Ready :
      (q : Result Text (Unit {0}) × W)
      → is_none (found_code host env) ≡ false
      → Ready (keyed host (found_code host env) (ssh_private_key env.cache_dir) q)
  unfolding keyed
  keyed-Ready (ok u, w) h passed = (refl, h, refl)
  keyed-Ready (err text, w) h passed = absurd cc

  reported-Ready :
      (errors : List HostError) (w : W)
      → host_errors host env ≡ errors
      → Ready (reported host env errors w)
  unfolding reported
  reported-Ready [] w h =
      keyed-Ready (ensure_ssh_key host (ssh_private_key env.cache_dir) env.path w) (has_code h)
  reported-Ready (e ∷ es) w h = λ passed. absurd cc

  -- A host that passes has no error, a firmware for UEFI guests and the key of the cache.
  pub check_host-Ready : (w : W) → Ready (check_host host env w)
  unfolding check_host
  check_host-Ready w = reported-Ready (host_errors host env) w refl
