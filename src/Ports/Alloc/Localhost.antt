-- ===== src/Ports/Alloc/Localhost.antt =====
-- strataqemu/ports.py: no allocation binds another host than 127.0.0.1.
use strata_qemu_testing.Base.{
  ℕ, Option, none, some, List, [], ◌∷◌, ok, err, Result-cases, inl, inr, Bool-cases, Result, ltb,
  leb, ◌&&◌, ◌+◌,
}
use strata_qemu_testing.Base.Text.{Text, text_eq}
use strata_qemu_testing.Base.Text.Laws.{text_eq_sound}
use strata_qemu_testing.Ports.Alloc.{
  Bind, bind_host, Range, candidates, walk, allocate_fallback, allocate_port, vnc_walk, vnc_first,
  vnc_raise, allocate_vnc_port, vnc_fallback,
}

module _ {W : Type 0} (bind : Bind W) (P : W → Type 0)
    (keep : (port : ℕ) (w : W) → P w → P (bind bind_host port w).1) where
  walk-keeps : (cs : List ℕ) (last : Option ℕ) (w : W) → P w → P (walk bind bind_host cs last w).1
  unfolding walk
  walk-keeps [] last w h = h
  walk-keeps (c ∷ cs) last w h = elim (Result-cases (bind bind_host c w).0) [
    | inl (port, bound) ↦ rw (bound, walk) (keep c w h)
    | inr (e, refused) ↦ rw (refused, walk) (walk-keeps cs (some e) _ (keep c w h))
  ]

  allocate_fallback-keeps :
      (fallback : Option Range) (e : ℕ) (w : W)
      → P w
      → P (allocate_fallback bind bind_host fallback e w).1
  unfolding allocate_fallback
  allocate_fallback-keeps none e w h = h
  allocate_fallback-keeps (some fallback) e w h =
      elim (Result-cases (walk bind bind_host (candidates fallback) none w).0) [
        | inl (port, bound) ↦
            rw (bound, allocate_fallback) (walk-keeps (candidates fallback) none w h)
        | inr (last, refused) ↦
            rw (refused, allocate_fallback) (walk-keeps (candidates fallback) none w h)
      ]

  allocate_localhost-keeps :
      (fallback : Option Range) (w : W) → P w → P (allocate_port bind bind_host fallback w).1
  unfolding allocate_port text_eq
  allocate_localhost-keeps fallback w h = elim (Result-cases (bind bind_host 0 w).0) [
    | inl (port, bound) ↦ rw (bound, allocate_port) (keep 0 w h)
    | inr (e, refused) ↦
        rw (refused, allocate_port) (allocate_fallback-keeps fallback e _ (keep 0 w h))
  ]

  -- What every bind of 127.0.0.1 keeps, `allocate_port` keeps for every host that it is given: it
  -- binds no other host.
  pub allocate_port-keeps :
      (host : Text) (fallback : Option Range) (w : W)
      → P w
      → P (allocate_port bind host fallback w).1
  allocate_port-keeps host fallback w h = elim (Bool-cases (text_eq host bind_host)) [
    | inr other ↦ unfold allocate_port in rw other h
    | inl same ↦ rw (text_eq_sound host bind_host same) (allocate_localhost-keeps fallback w h)
  ]

  vnc_raise-keeps : (q : Result (Option ℕ) ℕ × W) → P q.1 → P (vnc_raise q).1
  unfolding vnc_raise
  vnc_raise-keeps (ok port, w) h = h
  vnc_raise-keeps (err (some e), w) h = h
  vnc_raise-keeps (err none, w) h = h

  vnc_first-keeps : (q : Result ℕ ℕ × W) → P q.1 → P (vnc_first bind q).1
  unfolding vnc_first vnc_walk
  vnc_first-keeps (ok port, w) h = elim (Bool-cases (ltb 0 port && leb (port + 5900) 65535)) [
    | inl fits ↦ rw fits h
    | inr differs ↦ rw differs (vnc_raise-keeps _ (walk-keeps (candidates vnc_fallback) none w h))
  ]
  vnc_first-keeps (err e, w) h = vnc_raise-keeps _ (walk-keeps (candidates vnc_fallback) none w h)

  -- What every bind of 127.0.0.1 keeps, `allocate_vnc_port` keeps: it binds no other host.
  pub allocate_vnc_port-keeps : (w : W) → P w → P (allocate_vnc_port bind w).1
  unfolding allocate_vnc_port
  allocate_vnc_port-keeps w h = vnc_first-keeps (bind bind_host 0 w) (keep 0 w h)
