-- ===== src/Ports/Alloc.antt =====
-- strataqemu/ports.py: `allocate_port`, `allocate_ssh_port`, `allocate_vnc_port`. The sockets are
-- those of the operating system: `bind host port` is a parameter, which binds and closes again.
pub mod Localhost
pub mod Display
use strata_qemu_testing.Base.{
  ℕ, zero, suc, ◌+◌, ◌-◌, Bool, true, false, ◌&&◌, not, Option, none, some, List, [], ◌∷◌, Result,
  ok, err, ltb, leb, if◌then◌else◌,
}
use strata_qemu_testing.Base.Text.{Text, codes, text_eq}

-- BIND_HOST
abbrev pub bind_host : Text
bind_host = codes "127.0.0.1"

-- The exceptions, one constructor for each class that is raised. An `OSError` keeps its number.
pub data PortError : Type 0 where
  value_error : PortError
  os_error : ℕ → PortError
  -- the ends of the fallback range
  no_free_port : ℕ → ℕ → PortError

-- A Python `range`, by its start and its stop.
pub record Range : Type 0 where
  pub start : ℕ
  pub stop : ℕ

abbrev pub count_from : ℕ → ℕ → List ℕ
count_from zero a = []
count_from (suc n) a = a ∷ count_from n (a + 1)

abbrev pub candidates : Range → List ℕ
candidates r = count_from (r.stop - r.start) r.start

abbrev pub ssh_fallback : Range
ssh_fallback = record { start = 22022; stop = 23000 }

abbrev pub vnc_fallback : Range
vnc_fallback = record { start = 5900; stop = 6000 }

-- `W` is what the system may change between two calls.
abbrev pub Bind : Type 0 → Type 0
Bind W = Text → ℕ → W → Result ℕ ℕ × W

-- What `allocate_vnc_port` makes of its walk: the port, the last `OSError`, or one without a number.
unfoldable pub vnc_raise : {W : Type 0} → Result (Option ℕ) ℕ × W → Result PortError ℕ × W
vnc_raise (ok port, w) = (ok port, w)
vnc_raise (err (some e), w) = (err (os_error e), w)
vnc_raise (err none, w) = (err (os_error 0), w)

module _ {W : Type 0} (bind : Bind W) where
  -- `for candidate in fallback`: the first that binds, or the last `OSError` of the walk
  unfoldable pub walk : Text → List ℕ → Option ℕ → W → Result (Option ℕ) ℕ × W
  walk host [] last w = (err last, w)
  walk host (candidate ∷ rest) last w =
      let (r, w') = bind host candidate w in
      elim r [ ok port ↦ (ok port, w') | err e ↦ walk host rest (some e) w' ]

  -- The `except OSError` branch of `allocate_port`.
  unfoldable pub allocate_fallback : Text → Option Range → ℕ → W → Result PortError ℕ × W
  unfolding walk
  allocate_fallback host none e w = (err (os_error e), w)
  allocate_fallback host (some fallback) e w =
      let (r, w') = walk host (candidates fallback) none w in
      elim r [
        | ok port ↦ (ok port, w')
        | err last ↦ (err (no_free_port fallback.start (fallback.stop - 1)), w')
      ]

  unfoldable pub allocate_port : Text → Option Range → W → Result PortError ℕ × W
  unfolding allocate_fallback
  allocate_port host fallback w =
      if not (text_eq host bind_host)
      then (err value_error, w)
      else (let (r, w') = bind host 0 w in
          elim r [ ok port ↦ (ok port, w') | err e ↦ allocate_fallback host fallback e w' ])

  unfoldable pub allocate_ssh_port : W → Result PortError ℕ × W
  unfolding allocate_port
  allocate_ssh_port = allocate_port bind_host (some ssh_fallback)

  -- The walk of `allocate_vnc_port`, which raises the last `OSError`.
  unfoldable pub vnc_walk : W → Result (Option ℕ) ℕ × W
  unfolding walk
  vnc_walk = walk bind_host (candidates vnc_fallback) none

  -- `port` is kept as a display number if `5900 + port` is a TCP port.
  unfoldable pub vnc_first : Result ℕ ℕ × W → Result PortError ℕ × W
  unfolding vnc_walk vnc_raise
  vnc_first (ok port, w) =
      if ltb 0 port && leb (port + 5900) 65535 then (ok port, w) else vnc_raise (vnc_walk w)
  vnc_first (err e, w) = vnc_raise (vnc_walk w)

  unfoldable pub allocate_vnc_port : W → Result PortError ℕ × W
  unfolding vnc_first
  allocate_vnc_port w = vnc_first (bind bind_host 0 w)
