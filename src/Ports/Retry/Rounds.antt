-- ===== src/Ports/Retry/Rounds.antt =====
-- strataqemu/ports.py: which call of `func` decides the result of `retry_on_addr_in_use`.
use strata_qemu_testing.Base.{
  ℕ, zero, suc, ◌<◌, ◌≡◌, refl, false, [], ok, err, arith, ltb, ◌+◌, ◌-◌, ◌∙◌,
}
use Prim.Native.Nat.add
use strata_qemu_testing.Base.Text.{Text}
use strata_qemu_testing.Ports.Retry.{
  Outcome, address_already_in_use, raised, bad_attempts, retry_loop, after_call,
  retry_on_addr_in_use,
}

-- The call found the port taken.
abbrev pub InUse : {E A : Type 0} → Outcome E A → Type 0
InUse (err (address_already_in_use text)) = Unit
InUse _ = ⊥

-- The text of that exception.
abbrev text_of : {E A : Type 0} → Outcome E A → Text → Text
text_of (err (address_already_in_use text)) last = text
text_of _ last = last

after_call-InUse :
    {W E A : Type 0} (again : Text → W → Outcome E A × W) (q : Outcome E A × W) (last : Text)
    → InUse q.0
    → after_call again q ≡ again (text_of q.0 last) q.1
unfolding after_call
after_call-InUse again (ok a, w) last h = absurd h
after_call-InUse again (err (address_already_in_use text), w) last h = refl
after_call-InUse again (err (raised x), w) last h = absurd h
after_call-InUse again (err bad_attempts, w) last h = absurd h

after_call-final :
    {W E A : Type 0} (again : Text → W → Outcome E A × W) (q : Outcome E A × W)
    → ¬ InUse q.0
    → after_call again q ≡ q
unfolding after_call
after_call-final again (ok a, w) h = refl
after_call-final again (err (address_already_in_use text), w) h = absurd (h tt)
after_call-final again (err (raised x), w) h = refl
after_call-final again (err bad_attempts, w) h = refl

module _ {W E A : Type 0} (func : W → Outcome E A × W) where
  -- What the system has become after `n` calls.
  unfoldable pub after : ℕ → W → W
  after zero w = w
  after (suc n) w = after n (func w).1

  -- The first `n` calls all find the port taken.
  abbrev pub AllInUse : ℕ → W → Type 0
  AllInUse zero w = Unit
  AllInUse (suc n) w = InUse (func w).0 × AllInUse n (func w).1

  retry_loop-first :
      (k n : ℕ) (last : Text) (w : W)
      → AllInUse k w
      → ¬ InUse (func (after k w)).0
      → retry_loop func (k + suc n) last w ≡ func (after k w)
  unfolding after retry_loop
  retry_loop-first zero n last w _ final =
      rw add.zero (after_call-final (retry_loop func n) (func w) final)
  retry_loop-first (suc k) n last w (busy, more) final = rw add.suc (
      after_call-InUse (retry_loop func (k + suc n)) (func w) last busy
      ∙ retry_loop-first k n _ _ more final)

  retry_loop-exhausted :
      (n : ℕ) (last : Text) (w : W)
      → AllInUse n w
      → InUse (retry_loop func n last w).0 × ((retry_loop func n last w).1 ≡ after n w)
  unfolding after retry_loop
  retry_loop-exhausted zero last w _ = (tt, refl)
  retry_loop-exhausted (suc n) last w (busy, more) =
      rw (after_call-InUse (retry_loop func n) (func w) last busy) (retry_loop-exhausted n _ _ more)

  -- If the first `k` calls find the port taken and the call behind them does not, and `k` is below
  -- the attempts, then the result and the state are those of that call: it is the last one made.
  pub retry_on_addr_in_use-first :
      (k attempts : ℕ) (w : W)
      → k < attempts
      → AllInUse k w
      → ¬ InUse (func (after k w)).0
      → retry_on_addr_in_use func attempts w ≡ func (after k w)
  unfolding retry_on_addr_in_use
  retry_on_addr_in_use-first k attempts w below busy final =
      let split : k + suc (attempts - suc k) ≡ attempts = omega arith in
      let positive : ltb attempts 1 ≡ false = ground arith in
      rw positive (rw split at (retry_loop-first k (attempts - suc k) [] w busy final))

  -- If all of at least one attempts find the port taken, then the exception of that class comes out,
  -- and `func` has been called exactly that often.
  pub retry_on_addr_in_use-exhausted :
      (attempts : ℕ) (w : W)
      → 0 < attempts
      → AllInUse attempts w
      → InUse (retry_on_addr_in_use func attempts w).0
        × ((retry_on_addr_in_use func attempts w).1 ≡ after attempts w)
  unfolding retry_on_addr_in_use
  retry_on_addr_in_use-exhausted attempts w positive busy =
      let enough : ltb attempts 1 ≡ false = ground arith in
      rw enough (retry_loop-exhausted attempts [] w busy)
