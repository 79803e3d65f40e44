-- ===== src/Tests/Ports.antt =====
-- strataqemu/ports.py at concrete inputs: a system on which the first two ports are taken.
use strata_qemu_testing.Base.{
  ℕ, zero, suc, ◌+◌, ◌<◌, ◌≡◌, refl, List, [], ◌∷◌, ok, err, none, some, arith, All,
}
use strata_qemu_testing.Base.Text.{Text, codes}
use strata_qemu_testing.Ports.Alloc.{Bind, bind_host, allocate_port, allocate_vnc_port}
use strata_qemu_testing.Ports.Alloc.Localhost.{allocate_port-keeps, allocate_vnc_port-keeps}
use strata_qemu_testing.Ports.Alloc.Display.{
  vnc_tcp_port, BindsAsAsked, vnc_tcp_port-allocate_vnc_port,
}
use strata_qemu_testing.Ports.Retry.{Outcome, address_already_in_use, retry_on_addr_in_use}
use strata_qemu_testing.Ports.Retry.Rounds.{
  InUse, after, retry_on_addr_in_use-first, retry_on_addr_in_use-exhausted,
}

-- A call that fails while the count is below two, and counts.
abbrev third_time : ℕ → Outcome Text ℕ × ℕ
third_time zero = (err (address_already_in_use (codes "busy")), 1)
third_time (suc zero) = (err (address_already_in_use (codes "busy")), 2)
third_time (suc (suc n)) = (ok 7, suc (suc (suc n)))

retry_on_addr_in_use-first_example :
    retry_on_addr_in_use third_time 5 0 ≡ third_time (after third_time 2 0)
unfolding after
retry_on_addr_in_use-first_example =
    retry_on_addr_in_use-first third_time 2 5 0 (omega arith) (tt, (tt, tt)) (λ x. x)

retry_on_addr_in_use-exhausted_example :
    InUse (retry_on_addr_in_use third_time 2 0).0
    × ((retry_on_addr_in_use third_time 2 0).1 ≡ after third_time 2 0)
unfolding after
retry_on_addr_in_use-exhausted_example =
    retry_on_addr_in_use-exhausted third_time 2 0 (omega arith) (tt, (tt, tt))

-- The hosts that were bound, and a free port above 6000.
abbrev bind_logged : Bind (List Text)
bind_logged host zero log = (ok 6001, host ∷ log)
bind_logged host (suc port) log = (ok (suc port), host ∷ log)

abbrev OnlyLocal : List Text → Type 0
OnlyLocal log = All (λ host. host ≡ bind_host) log

bind_logged_local :
    (port : ℕ) (w : List Text) → OnlyLocal w → OnlyLocal (bind_logged bind_host port w).1
bind_logged_local zero w h = (refl, h)
bind_logged_local (suc port) w h = (refl, h)

bind_logged_as_asked : BindsAsAsked bind_logged
bind_logged_as_asked zero p w pos h = omega arith
bind_logged_as_asked (suc port) p w pos h = ground arith

allocate_port-keeps_example : OnlyLocal (allocate_port bind_logged (codes "127.0.0.1") none []).1
allocate_port-keeps_example =
    allocate_port-keeps bind_logged OnlyLocal bind_logged_local (codes "127.0.0.1") none [] tt

allocate_vnc_port-keeps_example : OnlyLocal (allocate_vnc_port bind_logged []).1
allocate_vnc_port-keeps_example =
    allocate_vnc_port-keeps bind_logged OnlyLocal bind_logged_local [] tt

vnc_tcp_port-allocate_vnc_port_example : (vnc_tcp_port 6001 ≡ some (5900 + 6001)) × (0 < 6001)
unfolding allocate_vnc_port
vnc_tcp_port-allocate_vnc_port_example =
    vnc_tcp_port-allocate_vnc_port bind_logged bind_logged_as_asked [] 6001 refl
