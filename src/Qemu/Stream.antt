-- ===== src/Qemu/Stream.antt =====
-- strataqemu/qemu.py: `_recv_exact`. `sock.recv` is an effect.
pub mod Exact
use strata_qemu_testing.Base.{
  ℕ, zero, suc, ◌-◌, Bool, true, false, List, [], ◌∷◌, ◌++◌, if◌then◌else◌, Result, ok, err, length,
  leb,
}
use strata_qemu_testing.Base.Text.{Text, is_empty}
use strata_qemu_testing.RunTest.Exec.{Exec, ◌>>=◌, ◌>>◌, pure, raise}

-- `OSError("vnc eof")`, and what `recv` raises.
pub data SocketError : Type 0 where
  vnc_eof : SocketError
  recv_failed : Text → SocketError

pub record Socket (W : Type 0) : Type 0 where
  -- `sock.recv(n)`
  pub recv : ℕ → W → Result SocketError (List ℕ) × W

module _ {W : Type 0} (sock : Socket W) where
  -- `while len(buf) < n`, with fuel for each byte that is missing.
  unfoldable pub recv_loop : ℕ → ℕ → List ℕ → Exec W SocketError (List ℕ)
  recv_loop zero n buf = pure buf
  recv_loop (suc fuel) n buf = if leb n (length buf) then pure buf else (do
    chunk ← sock.recv (n - length buf)
    if is_empty chunk then raise vnc_eof else recv_loop fuel n (buf ++ chunk))

  -- `_recv_exact`
  unfoldable pub recv_exact : ℕ → Exec W SocketError (List ℕ)
  recv_exact n = recv_loop n n []
