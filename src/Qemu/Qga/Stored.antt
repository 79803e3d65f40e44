-- ===== src/Qemu/Qga/Stored.antt =====
-- strataqemu/qemu.py: a file that `qga_guest_file_write` reports as written holds the data.
use strata_qemu_testing.Base.{
  ℕ, zero, suc, ◌≤◌, Bool, true, false, Option, none, some, List, [], ◌∷◌, ◌++◌, Result, ok, err,
  length, take, drop, ◌≡◌, refl, ap, ◌⊎◌, inl, inr, arith, Bool-cases,
}
use mathlib.Core.Path.{subst, sym, ◌∙◌}
use mathlib.Core.List.{append-nil, append_assoc}
use strata_qemu_testing.Base.Text.{Text}
use strata_qemu_testing.Guest.Toml.{ℤ, pos}
use strata_qemu_testing.RunTest.Exec.{exec_elim, pure-injective, returned, with_state}
use strata_qemu_testing.Qemu.Qga.{
  Bytes, Failure, transport, lookup, other, Reply, file_open, file_write, file_close, Agent,
  qga_file_write_chunk, advance, write_loop, drained, close_file, closed, with_close, write_opened,
  write_file, file_written, qga_guest_file_write,
}

-- What the agent has stored of a chunk: all of it if it does not say how much, otherwise as many bytes as it
-- says, which are some.
abbrev pub Took : Bytes → Option ℤ → Bytes → Bytes → Type 0
Took chunk count before after =
    ((count ≡ none) × (after ≡ before ++ chunk))
    ⊎ ((n : ℕ) × (count ≡ some (pos (suc n)))
        × (suc n ≤ length chunk)
        × (after ≡ before ++ take (suc n) chunk))

-- What qemu-ga does with the file that it has opened. `file` is what the file holds.
pub record IsAgent {W : Type 0} (agent : Agent W) (file : W → Bytes) : Type 0 where
  -- It is opened in mode "w+", so it is empty.
  pub opens :
      (dest : Text) (w w1 w2 : W) (reply : Reply)
      → agent.send (file_open dest) w ≡ (ok tt, w1)
      → agent.receive w1 ≡ (ok reply, w2)
      → reply.has_error ≡ false
      → file w2 ≡ []
  pub stores :
      (handle : ℤ) (chunk : Bytes) (w w1 w2 : W) (reply : Reply)
      → agent.send (file_write handle (agent.b64encode chunk)) w ≡ (ok tt, w1)
      → agent.receive w1 ≡ (ok reply, w2)
      → reply.has_error ≡ false
      → Took chunk reply.count (file w) (file w2)
  pub close_keeps : (handle : ℤ) (w : W) → file (agent.send (file_close handle) w).1 ≡ file w
  pub receive_keeps : (w : W) → file (agent.receive w).1 ≡ file w

module _ {A : Type 0} where
  take-length : (xs : List A) → take (length xs) xs ≡ xs
  take-length [] = refl
  take-length (x ∷ xs) = ap (λ ys. x ∷ ys) (take-length xs)

  chunk_split :
      (k c : ℕ) (xs : List A) → k ≤ length (take c xs) → take k (take c xs) ++ drop k xs ≡ xs
  chunk_split zero c xs h = refl
  chunk_split (suc k) zero xs h = absurd (omega arith)
  chunk_split (suc k) (suc c) [] h = absurd (omega arith)
  chunk_split (suc k) (suc c) (x ∷ xs) h = ap (λ ys. x ∷ ys) (chunk_split k c xs (omega arith))

  length-drop_le : (k : ℕ) (xs : List A) → length (drop k xs) ≤ length xs
  length-drop_le zero xs = omega arith
  length-drop_le (suc k) [] = omega arith
  length-drop_le (suc k) (x ∷ xs) = omega (arith, length-drop_le k xs)

-- What was stored, and what is left by the offset, is what there was.
Took-advance :
    (c : ℕ) (rest : Bytes) (count : Option ℤ) (before after : Bytes)
    → Took (take c rest) count before after
    → after ++ drop (advance count (length (take c rest))) rest ≡ before ++ rest
unfolding advance
Took-advance c rest count before after (inl (whole, stored)) =
    let chunk = take c rest in
    let split = chunk_split (length chunk) c rest (omega arith) in
    rw whole (
      rw stored (
        append_assoc before chunk (drop (length chunk) rest)
        ∙ ap (λ ys. before ++ ys)
            (ap (λ ys. ys ++ drop (length chunk) rest) (sym (take-length chunk)) ∙ split)))
Took-advance c rest count before after (inr (n, part, bound, stored)) = rw part (
    rw stored (
      append_assoc before (take (suc n) (take c rest)) (drop (suc n) rest)
      ∙ ap (λ ys. before ++ ys) (chunk_split (suc n) c rest bound)))

advance-suc :
    (c : ℕ) (b : ℕ) (bs : Bytes) (count : Option ℤ) (before after : Bytes)
    → 1 ≤ c
    → Took (take c (b ∷ bs)) count before after
    → length (drop (advance count (length (take c (b ∷ bs)))) (b ∷ bs)) ≤ length bs
unfolding advance
advance-suc zero b bs count before after h took = absurd (omega arith)
advance-suc (suc c) b bs count before after h (inl (whole, stored)) =
    rw whole (length-drop_le (length (take c bs)) bs)
advance-suc (suc c) b bs count before after h (inr (n, part, bound, stored)) =
    rw part (length-drop_le n bs)

module _ {W : Type 0} (agent : Agent W) (file : W → Bytes) (is_agent : IsAgent agent file) where
  false_not_true : (s t : W) → ◌≡◌ {A = Result Failure Bool × W} (ok false, s) (ok true, t) → ⊥
  false_not_true s t h = let no = (pure-injective false s h).0 in cc

  raised_not_ok :
      (e : Failure) (s t : W) → ◌≡◌ {A = Result Failure Bool × W} (err e, s) (ok true, t) → ⊥
  raised_not_ok e s t h = let no = ap (λ q. q.0) h in cc

  -- A loop that has written everything leaves what there was and the rest.
  write_loop-stored :
      (fuel : ℕ) (handle : ℤ) (rest : Bytes) (w t : W)
      → length rest ≤ fuel
      → write_loop agent fuel handle rest w ≡ (ok true, t)
      → file t ≡ file w ++ rest
  unfolding write_loop
  write_loop-stored zero handle [] w t bound h =
      subst (λ x. file x ≡ file w ++ []) (pure-injective true w h).1 (sym (append-nil (file w)))
  write_loop-stored zero handle (b ∷ bs) w t bound h = absurd (omega arith)
  write_loop-stored (suc fuel) handle [] w t bound h =
      subst (λ x. file x ≡ file w ++ []) (pure-injective true w h).1 (sym (append-nil (file w)))
  write_loop-stored (suc fuel) handle (b ∷ bs) w t bound h =
      let chunk : Bytes = take qga_file_write_chunk (b ∷ bs) in
      exec_elim (agent.send (file_write handle (agent.b64encode chunk))) _ w h λ _ w1 sent h.
        exec_elim agent.receive _ w1 h λ reply w2 got h. elim (Bool-cases reply.has_error) [
          | inl failed ↦ absurd (false_not_true w2 t (rw failed at h))
          | inr fine ↦
              let took = is_agent.stores handle chunk w w1 w2 reply sent got fine in
              write_loop-stored fuel handle (drop (advance reply.count (length chunk)) (b ∷ bs)) w2
                t
                (omega (
                  arith,
                  advance-suc qga_file_write_chunk b bs reply.count (file w) (file w2) (omega arith)
                      took,
                ))
                (rw fine at h)
              ∙ Took-advance qga_file_write_chunk (b ∷ bs) reply.count (file w) (file w2) took
        ]

  drained-keeps : (q : Result Failure Reply × W) → file (drained agent q).1 ≡ file q.1
  unfolding drained
  drained-keeps (ok reply, w) = refl
  drained-keeps (err transport, w) = refl
  drained-keeps (err lookup, w) = refl
  drained-keeps (err (other text), w) = refl

  close_file-keeps :
      (handle : ℤ) (w t : W) → close_file agent handle w ≡ (ok tt, t) → file t ≡ file w
  unfolding close_file
  close_file-keeps handle w t h = exec_elim (agent.send (file_close handle)) _ w h λ _ w1 sent h.
      ap (λ q. file q.1) (sym h)
      ∙ drained-keeps (agent.receive w1)
      ∙ is_agent.receive_keeps w1
      ∙ ap (λ q. file q.1) (sym sent)
      ∙ is_agent.close_keeps handle w

  closed-elim :
      (handle : ℤ) (r : Result Failure Bool) (w t : W) (q : Result Failure (Unit {0}) × W)
      → close_file agent handle w ≡ q
      → closed agent r q ≡ (ok true, t)
      → (r ≡ ok true) × (file t ≡ file w)
  unfolding closed
  closed-elim handle r w t (ok u, s) e h =
      let ends = returned r s h in
      (ends.0, subst (λ x. file x ≡ file w) ends.1 (close_file-keeps handle w s e))
  closed-elim handle r w t (err x, s) e h = absurd (raised_not_ok x s t h)

  with_close-elim :
      (handle : ℤ) (q : Result Failure Bool × W) (t : W)
      → with_close agent handle q ≡ (ok true, t)
      → (q.0 ≡ ok true) × (file t ≡ file q.1)
  unfolding with_close
  with_close-elim handle (r, w) t h = closed-elim handle r w t (close_file agent handle w) refl h

  write_opened-stored :
      (content : Bytes) (handle : Option ℤ) (w t : W)
      → write_opened agent content handle w ≡ (ok true, t)
      → file t ≡ file w ++ content
  unfolding write_opened
  write_opened-stored content none w t h = absurd (raised_not_ok lookup w t h)
  write_opened-stored content (some handle) w t h =
      let q : Result Failure Bool × W = write_loop agent (length content) handle content w in
      let ends = with_close-elim handle q t h in
      ends.1
      ∙ write_loop-stored (length content) handle content w q.1 (omega arith) (with_state q ends.0)

  write_file-stored :
      (dest : Text) (content : Bytes) (w t : W)
      → write_file agent dest content w ≡ (ok true, t)
      → file t ≡ content
  unfolding write_file
  write_file-stored dest content w t h = exec_elim agent.connect _ w h λ _ w1 _ h.
      exec_elim (agent.send (file_open dest)) _ w1 h λ _ w2 sent h.
        exec_elim agent.receive _ w2 h λ reply w3 got h. elim (Bool-cases reply.has_error) [
          | inl failed ↦ absurd (false_not_true w3 t (rw failed at h))
          | inr fine ↦
              write_opened-stored content reply.handle w3 t (rw fine at h)
              ∙ ap (λ ys. ys ++ content) (is_agent.opens dest w1 w2 w3 reply sent got fine)
        ]

  file_written-elim :
      (q : Result Failure Bool × W) (t : W) → file_written agent q ≡ (ok true, t) → q ≡ (ok true, t)
  unfolding file_written
  file_written-elim (ok done, w) t h = h
  file_written-elim (err transport, w) t h = absurd (false_not_true w t h)
  file_written-elim (err lookup, w) t h = absurd (false_not_true w t h)
  file_written-elim (err (other text), w) t h = absurd (raised_not_ok (other text) w t h)

  -- If each answer of the guest agent to a chunk that is no error either names no count, and all of the chunk is
  -- stored, or names a count of at least 1 and at most the length of the chunk, and as many bytes are stored,
  -- then a file that is reported as written holds the data. An answer with count 0 is excluded.
  pub qga_guest_file_write-stored :
      (dest : Text) (content : Bytes) (w t : W)
      → qga_guest_file_write agent dest content w ≡ (ok true, t)
      → file t ≡ content
  unfolding qga_guest_file_write
  qga_guest_file_write-stored dest content w t h =
      write_file-stored dest content w t (file_written-elim (write_file agent dest content w) t h)
