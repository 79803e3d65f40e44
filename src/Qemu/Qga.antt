-- ===== src/Qemu/Qga.antt =====
-- strataqemu/qemu.py: `qga_guest_file_write`, over one connection with the guest agent. The socket, the
-- encoding of JSON and base64 are effects and parameters; what `json.loads` gives is a reply with the parts that
-- are read. The bytes that are left stand for `data[offset:]`.
pub mod Stored
use strata_qemu_testing.Base.{
  ℕ, zero, suc, Bool, true, false, Option, none, some, List, [], ◌∷◌, if◌then◌else◌, Result, ok,
  err, length, take, drop, ◌*◌,
}
use strata_qemu_testing.Base.Text.{Text, codes}
use strata_qemu_testing.Guest.Toml.{ℤ, pos}
use strata_qemu_testing.RunTest.Exec.{Exec, ◌>>=◌, ◌>>◌, pure, raise}

abbrev pub Bytes : Type 0
Bytes = List ℕ

-- `OSError`, `JSONDecodeError` and `TimeoutError`; `KeyError` and `TypeError`; any other exception.
pub data Failure : Type 0 where
  transport : Failure
  lookup : Failure
  other : Text → Failure

-- The fields of a reply: whether there is an `error`, the handle that was returned, and the `count`, if it is an integer.
pub record Reply : Type 0 where
  pub has_error : Bool
  pub handle : Option ℤ
  pub count : Option ℤ

pub data Command : Type 0 where
  file_open : Text → Command
  file_write : ℤ → Text → Command
  file_close : ℤ → Command

pub record Agent (W : Type 0) : Type 0 where
  pub b64encode : Bytes → Text
  -- `sock.connect`, `_send_json` and `_recv_json_line`
  pub connect : W → Result Failure (Unit {0}) × W
  pub send : Command → W → Result Failure (Unit {0}) × W
  pub receive : W → Result Failure Reply × W

-- QGA_FILE_WRITE_CHUNK
abbrev pub qga_file_write_chunk : ℕ
qga_file_write_chunk = 48 * 1024

-- By how much the offset is moved.
unfoldable pub advance : Option ℤ → ℕ → ℕ
advance (some (pos (suc n))) len = suc n
advance _ len = len

module _ {W : Type 0} (agent : Agent W) where
  abbrev pub Talk : Type 0 → Type 0
  Talk A = Exec W Failure A

  -- `while offset < len(data)`, with fuel for each byte: whether everything was written.
  unfoldable pub write_loop : ℕ → ℤ → Bytes → Talk Bool
  write_loop zero handle rest = pure true
  write_loop (suc fuel) handle [] = pure true
  write_loop (suc fuel) handle (b ∷ bs) = do
    let chunk = take qga_file_write_chunk (b ∷ bs)
    agent.send (file_write handle (agent.b64encode chunk))
    written ← agent.receive
    if written.has_error
        then pure false
        else write_loop fuel handle (drop (advance written.count (length chunk)) (b ∷ bs))

  -- `try: _recv_json_line(sock)` of the end
  unfoldable pub drained : Result Failure Reply × W → Result Failure (Unit {0}) × W
  drained (ok reply, w) = (ok tt, w)
  drained (err transport, w) = (ok tt, w)
  drained (err lookup, w) = (err lookup, w)
  drained (err (other text), w) = (err (other text), w)

  unfoldable pub close_file : ℤ → Talk (Unit {0})
  unfolding drained
  close_file handle = do agent.send (file_close handle); (λ w. drained (agent.receive w))

  -- `finally`: what was returned or raised, unless the end raises.
  unfoldable pub closed :
      Result Failure Bool → Result Failure (Unit {0}) × W → Result Failure Bool × W
  closed r (ok u, w) = (r, w)
  closed r (err e, w) = (err e, w)

  unfoldable pub with_close : ℤ → Result Failure Bool × W → Result Failure Bool × W
  unfolding closed
  with_close handle (r, w) = closed r (close_file handle w)

  -- `handle = opened["return"]`, and the data
  unfoldable pub write_opened : Bytes → Option ℤ → Talk Bool
  unfolding with_close
  write_opened content none w = (err lookup, w)
  write_opened content (some handle) w =
      with_close handle (write_loop (length content) handle content w)

  unfoldable pub write_file : Text → Bytes → Talk Bool
  write_file dest content = do
    agent.connect
    agent.send (file_open dest)
    opened ← agent.receive
    if opened.has_error then pure false else write_opened content opened.handle

  unfoldable pub file_written : Result Failure Bool × W → Result Failure Bool × W
  file_written (ok done, w) = (ok done, w)
  file_written (err transport, w) = (ok false, w)
  file_written (err lookup, w) = (ok false, w)
  file_written (err (other text), w) = (err (other text), w)

  unfoldable pub qga_guest_file_write : Text → Bytes → Talk Bool
  unfolding file_written
  qga_guest_file_write dest content w = file_written (write_file dest content w)
