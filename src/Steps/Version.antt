-- ===== src/Steps/Version.antt =====
-- strataqemu/tests_spec.py: which version a flow expects, and which one the guest runs. The request to
-- GitHub, `json.loads` and `str` of what it gives are parameters.
pub mod Observed
use strata_qemu_testing.Base.{
  ℕ, ◌-◌, Bool, true, false, not, ◌&&◌, ◌||◌, Option, none, some, List, [], ◌∷◌, ◌++◌,
  if◌then◌else◌, Result, ok, err, drop, is_none,
}
use strata_qemu_testing.Base.Text.{
  Text, codes, text_eq, mem, is_empty, is_space, strip, lstrip, lower, starts_with, split_on,
  split_lines, partition,
}
use strata_qemu_testing.Guest.Toml.{zero_int}
use strata_qemu_testing.Guest.Fields.{is_sha256, rstrip_slash}
use strata_qemu_testing.Cloudinit.Json.{
  Json, null, bool, number, negative, float, string, list, object, nil, cons, Fields, end, field,
  get, truthy,
}
use strata_qemu_testing.Versions.{
  VersionError, missing_version, bad_version, empty_list, bad_archive_name, empty_output,
  strip_v_prefix, is_version, normalize_version, versions_match,
}
use strata_qemu_testing.Versions.Archive.{parse_archive_version}
use strata_qemu_testing.RunTest.Exec.{Exec, ◌>>=◌, ◌>>◌, pure, raise, lift}
use strata_qemu_testing.Steps.Remote.{
  Proc, StepError, smoke, timed_out, command_expired, os_error, value_error, no_rounds, Remote,
  Progress, Step, failed_text, ssh_run,
}
use strata_qemu_testing.Steps.Wait.{monotonic}
use strata_qemu_testing.Steps.SessionOnly.{StepResult, step}

-- The first line that is not blank, stripped.
unfoldable pub first_line : List Text → Text
first_line [] = []
first_line (raw ∷ rest) = let line = strip raw in if is_empty line then first_line rest else line

abbrev starts_space : Text → Bool
starts_space [] = false
starts_space (c ∷ s) = is_space c

-- `re.sub(r"^strata\s+", "", line, flags=re.IGNORECASE)`
unfoldable pub drop_strata : Text → Text
drop_strata line =
    if starts_with (lower line) (codes "strata") && starts_space (drop 6 line)
    then lstrip (drop 6 line)
    else line

abbrev drop_one_v : Text → Text
drop_one_v [] = []
drop_one_v (c ∷ s) = if text_eq (lower (c ∷ [])) (codes "v") then s else c ∷ s

-- VERSION_CLI_RE: an optional name, an optional v, digits, a dot and a digit
unfoldable pub is_version_line : Text → Bool
is_version_line line = is_version (drop_one_v (drop_strata line))

unfoldable pub strata_version_is_cli : Text → Bool
strata_version_is_cli output =
    let line = first_line (split_lines output) in not (is_empty line) && is_version_line line

unfoldable pub parse_observed_version : Text → Result VersionError Text
parse_observed_version text =
    let line = first_line (split_lines text) in
    if is_empty line then err empty_output else ok (strip_v_prefix (drop_strata line))

-- A `SessionSmokeError` of the version texts.
abbrev pub smoke_of : {A : Type 0} → Result VersionError A → Result StepError A
smoke_of (ok a) = ok a
smoke_of (err missing_version) =
    err (smoke (codes "run-test: --update-from requires a previous version (e.g. 0.15.0)"))
smoke_of (err (bad_version value)) =
    err (smoke (codes "run-test: --update-from version is not a Strata release tag: " ++ value))
smoke_of (err empty_list) =
    err (smoke (codes "run-test: STRATA_QEMU_UPDATE_FROM did not list any versions"))
smoke_of (err (bad_archive_name name)) =
    err (smoke (codes "cannot parse intended version from archive name " ++ name))
smoke_of (err empty_output) = err (smoke (codes "strata --version produced empty stdout"))

-- The part of the line behind the first `=`.
abbrev behind_equals : Text → Text
behind_equals line = elim (partition b'=' line) [ none ↦ [] | some pair ↦ pair.1 ]

-- The loop of `parse_install_sh_sha256`
unfoldable pub digest_in : List Text → Result StepError Text
digest_in [] = err (smoke (codes "install helper did not print INSTALL_SH_SHA256"))
digest_in (raw ∷ rest) =
    let line = strip raw in
    let digest = lower (strip (behind_equals line)) in
    if starts_with line (codes "INSTALL_SH_SHA256=") && is_sha256 digest
    then ok digest
    else digest_in rest

unfoldable pub parse_install_sh_sha256 : Text → Result StepError Text
parse_install_sh_sha256 text = digest_in (split_lines text)

-- STRATA_VERSION_COMMAND
abbrev pub strata_version_command : Text
strata_version_command = codes "$HOME/.local/bin/strata --version"

-- The version that the guest printed, or none if `strata --version` is not a command-line tool.
unfoldable pub version_observed : Text → Proc → Result StepError (Option Text)
version_observed intended proc =
    if strata_version_is_cli proc.stdout
    then (if zero_int proc.returncode
        then (elim (smoke_of (parse_observed_version proc.stdout)) [
          | err e ↦ err e
          | ok observed ↦
              if versions_match observed intended
              then ok (some observed)
              else err (
                  smoke (
                    codes "version mismatch: intended "
                    ++ (intended
                        ++ (codes ", observed "
                            ++ (observed
                                ++ (codes " (from " ++ (strata_version_command ++ codes ")")))))))
        ])
        else err (smoke (failed_text strata_version_command proc)))
    else ok none

unfoldable pub version_step : Text → Text → ℕ → Option Text → StepResult
version_step name intended elapsed none = record {
  name = name;
  passed = false;
  elapsed = elapsed;
  details = (codes "reason", codes "strata --version is not a CLI") ∷ [];
}
version_step name intended elapsed (some observed) = step name elapsed (
    (codes "oracle", codes "strata --version")
    ∷ (codes "intended", intended)
    ∷ (codes "observed", observed)
    ∷ [])

-- The answer of the request to GitHub: the body, and the URL at the end.
pub record Reply : Type 0 where
  pub body : Text
  pub final : Text

-- `str(value or …)`
abbrev text_or : (Json → Text) → Option Json → Text → Text
text_or str_ none other = other
text_or str_ (some v) other = if truthy v then str_ v else other

-- `str(data.get("tag_name") or data.get("tag") or "")` of a dictionary
unfoldable pub tag_of : (Json → Text) → Option Json → Text
tag_of str_ (some (object fields)) =
    text_or str_ (get (codes "tag_name") fields) (text_or str_ (get (codes "tag") fields) [])
tag_of str_ _ = []

-- `text.rsplit("/", 1)[-1]`
unfoldable pub last_part : Text → List Text → Text
last_part part [] = part
last_part part (p ∷ rest) = last_part p rest

module _ (loads : Text → Option Json) (str_ : Json → Text) where
  -- The tag of the latest release.
  unfoldable pub latest_tag : Reply → Text
  latest_tag reply =
      let tag = tag_of str_ (loads reply.body) in
      if is_empty tag && not (is_empty reply.final)
      then last_part [] (split_on b'/' (rstrip_slash reply.final))
      else tag

  unfoldable pub github_version : Reply → Result StepError Text
  github_version reply =
      let tag = latest_tag reply in
      if is_empty tag || mem tag (codes "latest" ∷ codes "releases" ∷ [])
      then err (smoke (codes "could not resolve latest Strata release"))
      else ok (normalize_version tag)

-- What a flow is told of the version.
pub record Intent (W : Type 0) : Type 0 where
  pub install_from : Text
  pub archive_path : Option Text
  pub intended_version : Option Text
  pub intended_version_fn : Option Text
  pub github_latest_version : Step W Text

module _ {W : Type 0} (fx : Remote W) where
  -- Without a version on the command line and without a function that gives one.
  unfoldable pub resolve_source : Intent W → Option Text → Step W Text
  resolve_source intent none =
      if text_eq intent.install_from (codes "local-archive")
      then raise (smoke (codes "local-archive requires a host archive path"))
      else intent.github_latest_version
  resolve_source intent (some path) =
      if text_eq intent.install_from (codes "local-archive")
      then lift (smoke_of (parse_archive_version path))
      else intent.github_latest_version

  unfoldable pub resolve_called : Intent W → Option Text → Step W Text
  resolve_called intent none = resolve_source intent intent.archive_path
  resolve_called intent (some version) = pure (normalize_version version)

  unfoldable pub resolve_given : Intent W → Option Text → Step W Text
  resolve_given intent none = resolve_called intent intent.intended_version_fn
  resolve_given intent (some version) =
      if is_empty version
      then resolve_called intent intent.intended_version_fn
      else pure (normalize_version version)

  unfoldable pub resolve_intended_version : Intent W → Step W Text
  resolve_intended_version intent = resolve_given intent intent.intended_version

  -- `except subprocess.TimeoutExpired`: no version.
  unfoldable pub observed_or_skip :
      Result StepError (Option Text) × Progress W → Result StepError (Option Text) × Progress W
  observed_or_skip (ok observed, s) = (ok observed, s)
  observed_or_skip (err (command_expired text), s) = (ok none, s)
  observed_or_skip (err (smoke text), s) = (err (smoke text), s)
  observed_or_skip (err (timed_out text), s) = (err (timed_out text), s)
  observed_or_skip (err (os_error text), s) = (err (os_error text), s)
  observed_or_skip (err (value_error text), s) = (err (value_error text), s)
  observed_or_skip (err no_rounds, s) = (err no_rounds, s)

  unfoldable pub ask_version : Text → Step W (Option Text)
  ask_version intended = do
    proc ← ssh_run fx strata_version_command 10000 false
    lift (version_observed intended proc)

  unfoldable pub observe_version : Text → Step W (Option Text)
  unfolding observed_or_skip
  observe_version intended s = observed_or_skip (ask_version intended s)

  unfoldable pub run_version_oracle : Text → Text → Step W (StepResult × Option Text)
  run_version_oracle intended name = do
    started ← monotonic fx
    observed ← observe_version intended
    now ← monotonic fx
    pure (version_step name intended (now - started) observed, observed)
