-- ===== src/Ports/Retry.antt =====
-- strataqemu/ports.py: `retry_on_addr_in_use`.
pub mod Rounds
use strata_qemu_testing.Base.{
  ℕ, zero, suc, ◌<◌, ◌≤◌, ◌≡◌, ◌≢◌, refl, Bool, true, false, List, [], ◌∷◌, Result, ok, err, arith,
  ltb, if◌then◌else◌,
}
use strata_qemu_testing.Base.Text.{Text, codes, lower, contains}

-- `is_address_already_in_use`
unfoldable pub is_address_already_in_use : Text → Bool
is_address_already_in_use text = contains (lower text) (codes "address already in use")

-- What a call may raise: `AddressAlreadyInUse`, or another exception.
pub data CallError (E : Type 0) : Type 0 where
  address_already_in_use : Text → CallError E
  raised : E → CallError E
  -- `ValueError("attempts must be >= 1")`
  bad_attempts : CallError E

abbrev pub Outcome : Type 0 → Type 0 → Type 0
Outcome E A = Result (CallError E) A

-- MAX_PORT_RETRIES
abbrev pub max_port_retries : ℕ
max_port_retries = 5

-- One round of the loop, behind the call: `again` is the rest of the loop, given the text of the
-- exception that was caught.
unfoldable pub after_call :
    {W E A : Type 0} → (Text → W → Outcome E A × W) → Outcome E A × W → Outcome E A × W
after_call again (ok a, w) = (ok a, w)
after_call again (err (address_already_in_use text), w) = again text w
after_call again (err (raised x), w) = (err (raised x), w)
after_call again (err bad_attempts, w) = (err bad_attempts, w)

module _ {W E A : Type 0} (func : W → Outcome E A × W) where
  -- `for _ in range(attempts)`; `last` is the text of the exception of the round before
  unfoldable pub retry_loop : ℕ → Text → W → Outcome E A × W
  unfolding after_call
  retry_loop zero last w = (err (address_already_in_use last), w)
  retry_loop (suc n) last w = after_call (retry_loop n) (func w)

  unfoldable pub retry_on_addr_in_use : ℕ → W → Outcome E A × W
  unfolding retry_loop
  retry_on_addr_in_use attempts w =
      if ltb attempts 1 then (err bad_attempts, w) else retry_loop attempts [] w
