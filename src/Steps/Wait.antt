-- ===== src/Steps/Wait.antt =====
-- strataqemu/tests_spec.py: the loops that ask the guest again until a deadline.
pub mod Loop
pub mod Clock
use strata_qemu_testing.Base.{
  ℕ, zero, suc, ◌+◌, Bool, true, false, not, ◌&&◌, ◌||◌, Option, none, some, List, [], ◌∷◌, ◌++◌,
  if◌then◌else◌, Result, ok, err, ltb, map,
}
use strata_qemu_testing.Base.Text.{
  Text, codes, is_empty, decimal, strip, join, lower, contains, text_eq,
}
use strata_qemu_testing.Guest.Toml.{zero_int}
use strata_qemu_testing.Session.Parse.{Props, has_key}
use strata_qemu_testing.Smoke.{
  SmokeError, parse_session_exports, parse_name_has_owner, gdbus_name_has_owner_argv,
}
use strata_qemu_testing.RunTest.Exec.{Exec, ◌>>=◌, ◌>>◌, pure, raise, lift}
use strata_qemu_testing.Steps.Remote.{
  Proc, StepError, smoke, timed_out, no_rounds, Remote, Progress, Step, blob_of, int_text,
  last_words, env_prefix, ssh_run, scp_to_guest, require_script,
}

-- What one answer of the guest is to a loop: the result, or the last words before another round.
pub data Answer (A : Type 0) : Type 0 where
  found : A → Answer A
  again : Text → Answer A

-- STRATA_BUS_NAME
abbrev pub strata_bus_name : Text
strata_bus_name = codes "io.github.lgse.Strata"

module _ {W : Type 0} (fx : Remote W) where
  unfoldable pub nap : ℕ → Step W (Unit {0})
  nap time s = (ok tt, record s { world = fx.sleep time s.world })

  unfoldable pub monotonic : Step W ℕ
  monotonic s = (ok (fx.monotonic s.world), s)

  module _ {A : Type 0} (probe : Step W (Answer A)) (deadline pause : ℕ) (late : Text → Text) where
    -- Behind a probe: `return`, or `nap(pause)` and the next round.
    unfoldable pub next_round : (Text → Step W A) → Answer A → Step W A
    next_round rest (found a) = pure a
    next_round rest (again last) = do nap pause; rest last

    -- `while time.monotonic() < deadline: …`, then `raise TimeoutError`; `last` are the last words.
    unfoldable pub rounds : ℕ → Text → Step W A
    rounds zero last s = (err no_rounds, s)
    rounds (suc fuel) last s =
        if ltb (fx.monotonic s.world) deadline
        then (probe >>= next_round (rounds fuel)) s
        else (err (timed_out (late last)), s)

  -- The loop from now on. A round takes the pause at least, so that as many rounds as the time has
  -- milliseconds, and one more, are enough.
  unfoldable pub wait_until : {A : Type 0} → Step W (Answer A) → ℕ → ℕ → (Text → Text) → Step W A
  unfolding rounds
  wait_until probe timeout pause late s =
      rounds probe (fx.monotonic s.world + timeout) pause late (suc timeout) (codes "no probe yet")
        s

  -- The answer of `smoke-session.sh`.
  unfoldable pub session_answer : Proc → Step W (Answer Props)
  session_answer proc s =
      let exports = parse_session_exports proc.stdout in
      let text = strip (blob_of proc) in
      if zero_int proc.returncode
      then (if has_key (codes "WAYLAND_DISPLAY") exports then (ok (found exports), s) else (
        err (smoke (codes "session smoke produced no WAYLAND_DISPLAY: " ++ blob_of proc)),
        s,
      ))
      else if contains (lower (blob_of proc)) (codes "x11")
      then (err (smoke (if is_empty text then codes "Type=x11 is a hard fail" else text)), s)
      else (ok (again (last_words proc)), s)

  unfoldable pub session_probe : Text → Step W (Answer Props)
  session_probe compositor = do
    proc ←
        ssh_run fx
          (codes "SMOKE_COMPOSITOR="
            ++ (fx.quote_ compositor ++ codes " bash /tmp/smoke-session.sh"))
          30000 false
    session_answer proc

  unfoldable pub run_session_step : Text → Text → ℕ → Step W Props
  run_session_step compositor script timeout = do
    require_script fx (codes "missing session smoke script ") script
    scp_to_guest fx script (codes "/tmp/smoke-session.sh")
    wait_until (session_probe compositor) timeout 2000
        (λ last. codes "session smoke failed: " ++ last)

  -- The answer of `gdbus call … NameHasOwner`.
  unfoldable pub owner_answer : Proc → Result SmokeError Bool → Answer (Unit {0})
  owner_answer proc (ok true) = found tt
  owner_answer proc (ok false) =
      let text = strip (blob_of proc) in
      again (if is_empty text then codes "NameHasOwner false" else text)
  owner_answer proc (err e) = again (last_words proc)

  -- `f"{env_prefix(env)} {body}"` if there is an environment
  unfoldable pub with_env : Props → Text → Text
  with_env [] body = body
  with_env (pair ∷ rest) body = env_prefix fx (pair ∷ rest) ++ (codes " " ++ body)

  unfoldable pub gdbus_name_has_owner_command : Props → Text
  gdbus_name_has_owner_command env =
      let body = join (codes " ") (map fx.quote_ gdbus_name_has_owner_argv) in with_env env body

  unfoldable pub gnome_probe : Props → Step W (Answer (Unit {0}))
  gnome_probe env = do
    proc ← ssh_run fx (gdbus_name_has_owner_command env) 15000 false
    pure (owner_answer proc (parse_name_has_owner (blob_of proc)))

  unfoldable pub wait_gnome_bus_name : Props → ℕ → Step W (Unit {0})
  wait_gnome_bus_name env timeout =
      wait_until (gnome_probe env) timeout 1000
        (λ last. codes "bus name " ++ (strata_bus_name ++ (codes " not owned: " ++ last)))

  unfoldable pub hyprctl_class_oracle_command : Props → Text
  hyprctl_class_oracle_command env =
      let filter = codes ".[] | select(.class == \"" ++ (strata_bus_name ++ codes "\")") in
      let body = codes "hyprctl clients -j | jq -e " ++ fx.quote_ filter in with_env env body

  unfoldable pub hyprland_answer : Proc → Answer (Unit {0})
  hyprland_answer proc = if zero_int proc.returncode then found tt else again (last_words proc)

  unfoldable pub hyprland_probe : Props → Step W (Answer (Unit {0}))
  hyprland_probe env = do
    proc ← ssh_run fx (hyprctl_class_oracle_command env) 15000 false
    pure (hyprland_answer proc)

  unfoldable pub wait_hyprland_class : Props → ℕ → Step W (Unit {0})
  wait_hyprland_class env timeout =
      wait_until (hyprland_probe env) timeout 1000
        (λ last. codes "hyprctl class " ++ (strata_bus_name ++ (codes " not present: " ++ last)))

  -- WINDOW_TIMEOUT_S
  abbrev pub window_timeout : ℕ
  window_timeout = 45000

  abbrev pub is_hyprland : Text → Bool
  is_hyprland compositor = text_eq compositor (codes "Hyprland")

  -- The wait of the flows, with the name of the oracle.
  unfoldable pub wait_window : Props → Text → Step W (Unit {0})
  wait_window env compositor =
      if is_hyprland compositor
      then wait_hyprland_class env window_timeout
      else wait_gnome_bus_name env window_timeout

  unfoldable pub window_oracle : Text → Text
  window_oracle compositor =
      if is_hyprland compositor then codes "hyprctl-class" else codes "bus-name"

  unfoldable pub wait_strata_window : Props → Text → Step W Text
  wait_strata_window env compositor = do wait_window env compositor; pure (window_oracle compositor)
