-- ===== src/Qemu/Shutdown/Order.antt =====
-- strataqemu/qemu.py: which hooks `run_shutdown` calls, and in which order.
use strata_qemu_testing.Base.{Bool, true, false, if◌then◌else◌, List, [], ◌∷◌, ◌++◌}
use strata_qemu_testing.Base.Text.{Text, codes}
use strata_qemu_testing.Qemu.Shutdown.{ShutdownHooks, run_shutdown}

module _ {W : Type 0} where
  -- A call of a hook that answers, with its name and its answer written down.
  abbrev log_answer : Text → Bool × W → List (Text × Bool) → Bool × (W × List (Text × Bool))
  log_answer name (answer, w) log = (answer, (w, log ++ (name, answer) ∷ []))

  -- The hooks, with a log of their calls beside the world; `kill` answers nothing and counts as done.
  abbrev pub logged : ShutdownHooks W → ShutdownHooks (W × List (Text × Bool))
  logged hooks = record {
    guest_shutdown = λ q. log_answer (codes "qga") (hooks.guest_shutdown q.0) q.1;
    ssh_poweroff = λ q. log_answer (codes "ssh") (hooks.ssh_poweroff q.0) q.1;
    acpi_power_button = λ q. log_answer (codes "acpi") (hooks.acpi_power_button q.0) q.1;
    kill = λ q. (hooks.kill q.0, q.1 ++ (codes "kill", true) ∷ []);
  }

-- A log of calls that all failed but the last, which is the path that is named; `order` says which
-- hooks there are, in turn.
pub data EndsAt (path : Text) : List Text → List (Text × Bool) → Type 0 where
  last_call : {order : List Text} → EndsAt path (path ∷ order) ((path, true) ∷ [])
  failed_call :
      {name : Text} {order : List Text} {log : List (Text × Bool)}
      → EndsAt path order log
      → EndsAt path (name ∷ order) ((name, false) ∷ log)

abbrev pub cascade : List Text
cascade = codes "qga" ∷ codes "ssh" ∷ codes "acpi" ∷ codes "kill" ∷ []

module _ {W : Type 0} (w₁ w₂ w₃ w₄ : W) where
  -- The result by the three answers.
  abbrev by_answers : Bool → Bool → Bool → Text × (W × List (Text × Bool))
  by_answers a b c =
      let q : Text × Bool = (codes "qga", a) in
      let s : Text × Bool = (codes "ssh", b) in
      let p : Text × Bool = (codes "acpi", c) in
      if a
      then (codes "qga", (w₁, q ∷ []))
      else if b
      then (codes "ssh", (w₂, q ∷ s ∷ []))
      else if c
      then (codes "acpi", (w₃, q ∷ s ∷ p ∷ []))
      else (codes "kill", (w₄, q ∷ s ∷ p ∷ (codes "kill", true) ∷ []))

  by_answers-EndsAt : (a b c : Bool) → EndsAt (by_answers a b c).0 cascade (by_answers a b c).1.1
  by_answers-EndsAt true b c = last_call
  by_answers-EndsAt false true c = failed_call last_call
  by_answers-EndsAt false false true = failed_call (failed_call last_call)
  by_answers-EndsAt false false false = failed_call (failed_call (failed_call last_call))

-- Whatever the hooks answer, they are called in the order qga, ssh, acpi, kill, each only after those
-- before it have failed; the path that is returned is the last one called, and none is called behind
-- it.
pub run_shutdown-EndsAt :
    {W : Type 0} (hooks : ShutdownHooks W) (w : W)
    → EndsAt
        (run_shutdown (logged hooks) (w, [])).0
        cascade
        (run_shutdown (logged hooks) (w, [])).1.1
unfolding run_shutdown
run_shutdown-EndsAt hooks w =
    let (a, x) = (logged hooks).guest_shutdown (w, []) in
    let (b, y) = (logged hooks).ssh_poweroff x in
    let (c, z) = (logged hooks).acpi_power_button y in
    by_answers-EndsAt x.0 y.0 z.0 (hooks.kill z.0) a b c
