-- ===== src/Build/Wait.antt =====
-- strataqemu/image_build.py: `wait_ssh`, `wait_qga`, `wait_iso_autoinstall`, `wait_cloud_init` and
-- `kick_omarchy3_skip_wizard`. The loops of the first three have a limit of attempts, so they recur on the
-- attempts that are left.
pub mod Wizard
pub mod Limit
pub mod Ready
pub mod Version
use strata_qemu_testing.Base.{
  ℕ, zero, suc, ◌+◌, Bool, true, false, not, ◌&&◌, Option, none, some, List, [], ◌∷◌, ◌++◌,
  if◌then◌else◌, Result, ok, err, ltb, leb,
}
use strata_qemu_testing.Base.Text.{Text, codes, is_empty, text_eq, strip, decimal}
use strata_qemu_testing.Artifacts
use strata_qemu_testing.Artifacts.{◌/◌}
use strata_qemu_testing.Guest.Toml.{zero_int}
use strata_qemu_testing.Guest.Recipe.{Guest}
use strata_qemu_testing.RunTest.Exec.{Exec, ◌>>=◌, ◌>>◌, pure, raise}
use strata_qemu_testing.Steps.Remote.{Proc, blob_of, last_words, int_text}
use strata_qemu_testing.Build.Facts.{
  ssh_auth_rejected, ssh_not_listening, ssh_wait_sleep, default_max_attempts, cloud_init_is_done,
  omarchy3_skip_wizard_prepared, omarchy_version_ssh_command,
}
use strata_qemu_testing.Build.Facts.Version.{omarchy_version_matches_major}
use strata_qemu_testing.Build.Bench.{
  Machine, BuildError, image_build, timed_out, command_expired, os_error, value_error,
  process_failed, address_in_use, interrupted, ExecResult, Builder, Bench, Work, last_chars, nap,
  ssh_run, capture_build_timeout_evidence, check_process,
}

-- What a round of a loop gives: the result, or the variables of the next round.
pub data Round (S A : Type 0) : Type 0 where
  finished : A → Round S A
  again : S → Round S A

module _ {W : Type 0} (fx : Builder W) where
  module _ {S A : Type 0} (body : S → Work W (Round S A)) (deadline : ℕ)
      (exhausted late : S → Work W A) where
    -- Behind a round: `return`, or `nap(SSH_WAIT_SLEEP_S)` and the next round.
    unfoldable pub next_round : (S → Work W A) → Round S A → Work W A
    next_round rest (finished a) = pure a
    next_round rest (again v) = do nap fx ssh_wait_sleep; rest v

    -- `while time.monotonic() < deadline`, with the attempts that are left.
    unfoldable pub rounds : ℕ → S → Work W A
    rounds zero v s = if ltb (fx.monotonic s.world) deadline then exhausted v s else late v s
    rounds (suc left) v s =
        if ltb (fx.monotonic s.world) deadline
        then (body v >>= next_round (rounds left)) s
        else late v s

  -- `(proc.stderr or proc.stdout or "").strip()`
  abbrev pub last_output : Proc → Text
  last_output proc = strip (if is_empty proc.stderr then proc.stdout else proc.stderr)

  -- `auth_rejects` and `last`
  abbrev pub Rejects : Type 0
  Rejects = ℕ × Text

  -- `if ssh_not_listening(last): auth_rejects = 0`
  abbrev pub heard : ℕ → Text → Rejects
  heard rejects last = (if ssh_not_listening last then 0 else rejects, last)

  -- Behind a probe that sshd has answered with a failure.
  unfoldable pub ssh_refused : Machine → ℕ → ℕ → Proc → Work W (Round Rejects (Unit {0}))
  ssh_refused m reject_max rejects proc =
      let last = last_output proc in
      if ssh_auth_rejected proc.returncode last
      then (if leb reject_max (rejects + 1)
          then (do
            capture_build_timeout_evidence fx m
            raise (
                image_build (
                  codes "SSH rejected tester "
                  ++ (decimal (rejects + 1)
                      ++ (codes " times (authorized_keys not installed?): " ++ last)))))
          else pure (again (rejects + 1, last)))
      else pure (again (heard rejects last))

  unfoldable pub ssh_judged : Machine → ℕ → ℕ → Proc → Work W (Round Rejects (Unit {0}))
  ssh_judged m reject_max rejects proc =
      if zero_int proc.returncode then pure (finished tt) else ssh_refused m reject_max rejects proc

  -- `try: … except (OSError, subprocess.TimeoutExpired)` round the probe
  unfoldable pub ssh_caught :
      (Proc → Work W (Round Rejects (Unit {0})))
      → ℕ
      → Result BuildError Proc × Bench W
      → Result BuildError (Round Rejects (Unit {0})) × Bench W
  ssh_caught judge rejects (ok proc, s) = judge proc s
  ssh_caught judge rejects (err (os_error text), s) = (ok (again (heard rejects text)), s)
  ssh_caught judge rejects (err (command_expired text), s) = (ok (again (heard rejects text)), s)
  ssh_caught judge rejects (err (image_build text), s) = (err (image_build text), s)
  ssh_caught judge rejects (err (timed_out text), s) = (err (timed_out text), s)
  ssh_caught judge rejects (err (value_error text), s) = (err (value_error text), s)
  ssh_caught judge rejects (err (process_failed text), s) = (err (process_failed text), s)
  ssh_caught judge rejects (err (address_in_use text), s) = (err (address_in_use text), s)
  ssh_caught judge rejects (err interrupted, s) = (err interrupted, s)

  unfoldable pub ssh_probe : Machine → ℕ → ℕ → Work W (Round Rejects (Unit {0}))
  unfolding ssh_caught
  ssh_probe m reject_max rejects s =
      ssh_caught (ssh_judged m reject_max rejects) rejects
        (ssh_run fx m (codes "true") 15000 false s)

  unfoldable pub ssh_body : Machine → ℕ → Rejects → Work W (Round Rejects (Unit {0}))
  ssh_body m reject_max v = do
    check_process fx m (codes " while waiting for SSH") true
    ssh_probe m reject_max v.0

  abbrev pub ssh_exhausted : ℕ → Rejects → Work W (Unit {0})
  ssh_exhausted limit v = raise (
      timed_out (
        codes "SSH did not become ready after " ++ (decimal limit ++ (codes " attempts: " ++ v.1))))

  abbrev pub ssh_late : Rejects → Work W (Unit {0})
  ssh_late v = raise (timed_out (codes "SSH did not become ready: " ++ v.1))

  -- SSH_AUTH_REJECT_MAX
  abbrev pub ssh_auth_reject_max : ℕ
  ssh_auth_reject_max = 30

  -- With the limit that `timeout` gives.
  unfoldable pub wait_ssh : Machine → ℕ → ℕ → Work W (Unit {0})
  wait_ssh m timeout reject_max s =
      let limit = default_max_attempts timeout in
      rounds (ssh_body m reject_max) (fx.monotonic s.world + timeout) (ssh_exhausted limit) ssh_late
        limit (0, []) s

  unfoldable pub wait_cloud_init : Machine → ℕ → Work W (Unit {0})
  wait_cloud_init m timeout = do
    proc ← ssh_run fx m (codes "cloud-init status --wait") timeout false
    if cloud_init_is_done proc.returncode (blob_of proc)
        then pure tt
        else raise (
            image_build (
              codes "cloud-init did not finish ("
              ++ (int_text proc.returncode ++ (codes "): " ++ last_chars 2000 (blob_of proc)))))

  unfoldable pub pinged :
      Bench W → Text → Result Text Bool × W → Result BuildError (Round Text (Unit {0})) × Bench W
  pinged s last (ok true, w) = (ok (finished tt), record s { world = w })
  pinged s last (ok false, w) = (ok (again last), record s { world = w })
  pinged s last (err text, w) = (ok (again text), record s { world = w })

  unfoldable pub qga_ping : Machine → Text → Work W (Round Text (Unit {0}))
  unfolding pinged
  qga_ping m last s = pinged s last (fx.qga_guest_ping (Artifacts.qga_sock m.root) s.world)

  unfoldable pub qga_body : Machine → Text → Work W (Round Text (Unit {0}))
  qga_body m last = do
    check_process fx m (codes " while waiting for qemu-ga") false
    qga_ping m last

  -- `capture_build_timeout_evidence`, and `raise TimeoutError`
  abbrev pub with_evidence : {A : Type 0} → Machine → Text → Work W A
  with_evidence m text = do capture_build_timeout_evidence fx m; raise (timed_out text)

  unfoldable pub wait_qga : Machine → ℕ → Work W (Unit {0})
  wait_qga m timeout s =
      let limit = default_max_attempts timeout in
      rounds (qga_body m) (fx.monotonic s.world + timeout)
        (λ last.
          with_evidence m
            (codes "qemu-ga not ready after " ++ (decimal limit ++ (codes " attempts: " ++ last))))
        (λ last. with_evidence m (codes "qemu-ga not ready: " ++ last)) limit
        (codes "qemu-ga did not answer guest-ping") s

  -- `ssh_ready` and `last`
  abbrev pub Progress : Type 0
  Progress = Bool × Text

  -- A probe, with the text of `OSError` and `TimeoutExpired` caught.
  unfoldable pub caught :
      Result BuildError Proc × Bench W → Result BuildError (Result Text Proc) × Bench W
  caught (ok proc, s) = (ok (ok proc), s)
  caught (err (os_error text), s) = (ok (err text), s)
  caught (err (command_expired text), s) = (ok (err text), s)
  caught (err (image_build text), s) = (err (image_build text), s)
  caught (err (timed_out text), s) = (err (timed_out text), s)
  caught (err (value_error text), s) = (err (value_error text), s)
  caught (err (process_failed text), s) = (err (process_failed text), s)
  caught (err (address_in_use text), s) = (err (address_in_use text), s)
  caught (err interrupted, s) = (err interrupted, s)

  unfoldable pub try_ssh : Machine → Text → Work W (Result Text Proc)
  unfolding caught
  try_ssh m command s = caught (ssh_run fx m command 15000 false s)

  -- The version of the installed system.
  unfoldable pub version_judged : ℕ → Result Text Proc → Round Progress Text
  version_judged major (err text) = again (true, text)
  version_judged major (ok proc) =
      if omarchy_version_matches_major (blob_of proc) major
      then finished (strip (blob_of proc))
      else again (true, last_words proc)

  unfoldable pub ask_version : Machine → ℕ → Work W (Round Progress Text)
  ask_version m major = do
    answer ← try_ssh m omarchy_version_ssh_command
    pure (version_judged major answer)

  unfoldable pub ssh_answered : Machine → ℕ → Result Text Proc → Work W (Round Progress Text)
  ssh_answered m major (err text) = pure (again (false, text))
  ssh_answered m major (ok proc) =
      if zero_int proc.returncode
      then ask_version m major
      else pure (again (false, last_output proc))

  -- `if not ssh_ready`
  unfoldable pub iso_round : Machine → ℕ → Bool → Work W (Round Progress Text)
  iso_round m major true = ask_version m major
  iso_round m major false = do answer ← try_ssh m (codes "true"); ssh_answered m major answer

  unfoldable pub iso_body : Machine → ℕ → Progress → Work W (Round Progress Text)
  iso_body m major v = do
    check_process fx m (codes " while waiting for omarchy " ++ (decimal major ++ codes ".x")) true
    iso_round m major v.0

  unfoldable pub wait_iso_autoinstall : Machine → ℕ → ℕ → Work W Text
  wait_iso_autoinstall m major timeout s =
      let limit = default_max_attempts timeout in
      let what = codes "omarchy version " ++ (decimal major ++ codes ".x not ready") in
      rounds (iso_body m major) (fx.monotonic s.world + timeout)
        (λ v.
          with_evidence m
            (what ++ (codes " after " ++ (decimal limit ++ (codes " attempts: " ++ v.1)))))
        (λ v. with_evidence m (what ++ (codes ": " ++ v.1))) limit (false, []) s
