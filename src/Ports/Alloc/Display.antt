-- ===== src/Ports/Alloc/Display.antt =====
-- strataqemu/ports.py and `vnc_tcp_port` of strataqemu/qemu.py: an allocated display has a TCP port.
use strata_qemu_testing.Base.{
  ℕ, zero, suc, ◌+◌, ◌≤◌, ◌<◌, Option, none, some, List, [], ◌∷◌, ◌≡◌, ok, err, arith, Result,
  Result-cases, inl, inr, Bool-cases, ltb, leb, ◌&&◌, ◌||◌, if◌then◌else◌, All, Any,
}
use strata_qemu_testing.Ports.Alloc.{
  Bind, bind_host, count_from, walk, vnc_walk, vnc_first, vnc_raise, allocate_vnc_port,
}

-- `vnc_tcp_port` of qemu.py; a display is not negative here
unfoldable pub vnc_tcp_port : ℕ → Option ℕ
vnc_tcp_port display =
    let port = 5900 + display in if ltb port 1 || ltb 65535 port then none else some port

-- `bind` gives the port that it is asked for, unless that is 0.
abbrev pub BindsAsAsked : {W : Type 0} → Bind W → Type 0
BindsAsAsked {W} bind =
    (port p : ℕ) (w : W) → 0 < port → (bind bind_host port w).0 ≡ ok p → p ≡ port

module _ {W : Type 0} (bind : Bind W) (as_asked : BindsAsAsked bind) where
  walk-mem :
      (cs : List ℕ) (last : Option ℕ) (w : W) {p : ℕ}
      → All (λ c. 0 < c) cs
      → (walk bind bind_host cs last w).0 ≡ ok p
      → Any (λ c. p ≡ c) cs
  unfolding walk
  walk-mem [] last w pos h = cc
  walk-mem (c ∷ cs) last w {p} pos h = elim (Result-cases (bind bind_host c w).0) [
    | inl (port, bound) ↦ inl (as_asked c p w pos.0 (cc (bound, rw (bound, walk) at h)))
    | inr (e, refused) ↦ inr (walk-mem cs (some e) _ pos.1 (rw (refused, walk) at h))
  ]

count_from_bounds : (n a p : ℕ) → Any (λ c. p ≡ c) (count_from n a) → (a ≤ p) × (p < a + n)
count_from_bounds zero a p h = absurd h
count_from_bounds (suc n) a p (inl e) = omega arith
count_from_bounds (suc n) a p (inr h) = omega (arith, count_from_bounds n (a + 1) p h)

count_from_pos : (n a : ℕ) → 0 < a → All (λ c. 0 < c) (count_from n a)
count_from_pos zero a h = tt
count_from_pos (suc n) a h = (h, count_from_pos n (a + 1) (omega arith))

module _ {W : Type 0} (bind : Bind W) (as_asked : BindsAsAsked bind) where
  walk_bounds :
      (n a : ℕ) (w : W) {p : ℕ}
      → 0 < a
      → (walk bind bind_host (count_from n a) none w).0 ≡ ok p
      → (a ≤ p) × (p < a + n)
  walk_bounds n a w {p} pos h =
      count_from_bounds n a p
        (walk-mem bind as_asked (count_from n a) none w (count_from_pos n a pos) h)

  vnc_raise-eq-ok : (q : Result (Option ℕ) ℕ × W) {p : ℕ} → (vnc_raise q).0 ≡ ok p → q.0 ≡ ok p
  unfolding vnc_raise
  vnc_raise-eq-ok (ok port, w) h = cc
  vnc_raise-eq-ok (err (some e), w) h = cc
  vnc_raise-eq-ok (err none, w) h = cc

  vnc_fallback_bounds :
      (w : W) {p : ℕ} → (vnc_raise (vnc_walk bind w)).0 ≡ ok p → (5900 ≤ p) × (p < 6000)
  unfolding vnc_walk
  vnc_fallback_bounds w h = walk_bounds 100 5900 w (omega arith) (vnc_raise-eq-ok _ h)

  vnc_first_bounds :
      (q : Result ℕ ℕ × W) {p : ℕ} → (vnc_first bind q).0 ≡ ok p → (0 < p) × (p + 5900 ≤ 65535)
  unfolding vnc_first
  vnc_first_bounds (ok port, w) {p} h = elim (Bool-cases (ltb 0 port && leb (port + 5900) 65535)) [
    | inl fits ↦ ground (arith, rw fits at h)
    | inr differs ↦ omega (arith, vnc_fallback_bounds w (rw differs at h))
  ]
  vnc_first_bounds (err e, w) h = omega (arith, vnc_fallback_bounds w h)

  -- A display that `allocate_vnc_port` gives has a TCP port, 5900 above it, if the system binds the
  -- port that it is asked for.
  pub vnc_tcp_port-allocate_vnc_port :
      (w : W) (display : ℕ)
      → (allocate_vnc_port bind w).0 ≡ ok display
      → (vnc_tcp_port display ≡ some (5900 + display)) × (0 < display)
  unfolding vnc_tcp_port allocate_vnc_port
  vnc_tcp_port-allocate_vnc_port w display h =
      ground (arith, vnc_first_bounds (bind bind_host 0 w) {p = display} h)
