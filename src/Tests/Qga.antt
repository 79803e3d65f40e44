-- ===== src/Tests/Qga.antt =====
-- strataqemu/qemu.py at concrete inputs: a guest agent that stores one byte of each chunk, and says so.
use strata_qemu_testing.Base.{
  ℕ, zero, suc, Bool, true, false, Option, none, some, [], ◌∷◌, ◌++◌, Result, ok, ◌≡◌, refl, ap,
  inl, inr, arith,
}
use mathlib.Core.Path.{subst}
use mathlib.Core.List.{append-nil}
use mathlib.Core.Path.{sym, ◌∙◌}
use strata_qemu_testing.Base.Text.{codes}
use strata_qemu_testing.Guest.Toml.{ℤ, pos}
use strata_qemu_testing.RunTest.Exec.{◌>>=◌, pure-injective}
use strata_qemu_testing.Qemu.Qga.{
  Bytes, Failure, Reply, Command, file_open, file_write, file_close, Agent, advance, write_loop,
  drained, close_file, closed, with_close, write_opened, write_file, file_written,
  qga_guest_file_write,
}
use strata_qemu_testing.Qemu.Qga.Stored.{Took, IsAgent, qga_guest_file_write-stored}

-- What the file holds, and how many bytes were stored last.
abbrev Disk : Type 0
Disk = Bytes × ℕ

abbrev count_of : ℕ → Option ℤ
count_of zero = none
count_of (suc n) = some (pos (suc n))

abbrev reply_of : ℕ → Reply
reply_of n = record { has_error = false; handle = some (pos 1000); count = count_of n }

abbrev store : Command → Disk → Disk
store (file_open dest) disk = ([], 0)
store (file_write handle []) disk = (disk.0, 0)
store (file_write handle (b ∷ bs)) disk = (disk.0 ++ (b ∷ []), 1)
store (file_close handle) disk = disk

abbrev slow_agent : Agent Disk
slow_agent = record {
  b64encode = λ bytes. bytes;
  connect = λ disk. (ok tt, disk);
  send = λ command disk. (ok tt, store command disk);
  receive = λ disk. (ok (reply_of disk.1), disk);
}

abbrev file : Disk → Bytes
file disk = disk.0

store-Took :
    (handle : ℤ) (chunk : Bytes) (disk : Disk)
    → Took chunk
        (count_of (store (file_write handle chunk) disk).1)
        disk.0
        (store (file_write handle chunk) disk).0
store-Took handle [] disk = inl (refl, sym (append-nil disk.0))
store-Took handle (b ∷ bs) disk = inr (0, refl, omega arith, refl)

slow_agent-IsAgent : IsAgent slow_agent file
slow_agent-IsAgent = record {
  opens =
      λ dest w w1 w2 reply sent got fine. sym (ap (λ q. q.1.0) got) ∙ sym (ap (λ q. q.1.0) sent);
  stores = λ handle chunk w w1 w2 reply sent got fine.
      let first = ap (λ q. q.1) sent in
      let last = pure-injective (reply_of w1.1) w1 got in
      subst (λ r. Took chunk r.count w.0 w2.0) last.0
        (subst (λ d. Took chunk (count_of w1.1) w.0 d.0) last.1
          (subst (λ d. Took chunk (count_of d.1) w.0 d.0) first (store-Took handle chunk w)));
  close_keeps = λ handle w. refl;
  receive_keeps = λ w. refl;
}

abbrev done : Result Failure Bool × Disk
done =
    qga_guest_file_write slow_agent (codes "/root/skip-wizard.sh") (codes "#!/bin/sh")
      (codes "old", 0)

done_as : done ≡ (ok true, done.1)
unfolding ◌>>=◌ advance write_loop drained close_file closed with_close write_opened write_file
    file_written qga_guest_file_write
done_as = refl

qga_guest_file_write-stored_example : file done.1 ≡ codes "#!/bin/sh"
qga_guest_file_write-stored_example =
    qga_guest_file_write-stored slow_agent file slow_agent-IsAgent (codes "/root/skip-wizard.sh")
      (codes "#!/bin/sh") (codes "old", 0) done.1 done_as
