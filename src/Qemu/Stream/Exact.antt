-- ===== src/Qemu/Stream/Exact.antt =====
-- strataqemu/qemu.py: `_recv_exact` does not depend on how the bytes are cut.
use strata_qemu_testing.Base.{
  ℕ, zero, suc, ◌+◌, ◌-◌, ◌≤◌, true, false, List, [], ◌∷◌, ◌++◌, Result, ok, length, leb, take,
  drop, ◌≡◌, refl, ap, arith, length-append,
}
use mathlib.Core.Path.{sym, ◌∙◌}
use mathlib.Core.List.{append-nil, append_assoc}
use strata_qemu_testing.Base.Text.{is_empty}
use strata_qemu_testing.RunTest.Exec.{Exec, ◌>>=◌, follow}
use strata_qemu_testing.Qemu.Stream.{SocketError, Socket, recv_loop, recv_exact}

-- A connection on which bytes wait: `recv(k)` gives the first of them, at least one and at most k.
pub record IsStream {W : Type 0} (sock : Socket W) (pending : W → List ℕ) : Type 0 where
  pub receives :
      (k : ℕ) (w : W)
      → 1 ≤ k
      → 1 ≤ length (pending w)
      → (m : ℕ) × (1 ≤ m)
        × (m ≤ k)
        × (m ≤ length (pending w))
        × ((sock.recv k w).0 ≡ ok (take m (pending w)))
        × (pending (sock.recv k w).1 ≡ drop m (pending w))

module _ {A : Type 0} where
  take-add : (m n k : ℕ) (xs : List A) → k ≡ m + n → take m xs ++ take n (drop m xs) ≡ take k xs
  take-add zero n k xs h = let same : n ≡ k = omega arith in ap (λ i. take i xs) same
  take-add (suc m) n zero xs h = absurd (omega arith)
  take-add (suc m) zero (suc k) [] h = refl
  take-add (suc m) (suc n) (suc k) [] h = refl
  take-add (suc m) n (suc k) (x ∷ xs) h = ap (λ ys. x ∷ ys) (take-add m n k xs (omega arith))

  drop-add : (m n k : ℕ) (xs : List A) → k ≡ m + n → drop n (drop m xs) ≡ drop k xs
  drop-add zero n k xs h = let same : n ≡ k = omega arith in ap (λ i. drop i xs) same
  drop-add (suc m) n zero xs h = absurd (omega arith)
  drop-add (suc m) zero (suc k) [] h = refl
  drop-add (suc m) (suc n) (suc k) [] h = refl
  drop-add (suc m) n (suc k) (x ∷ xs) h = drop-add m n k xs (omega arith)

  length-take : (m : ℕ) (xs : List A) → m ≤ length xs → length (take m xs) ≡ m
  length-take zero xs h = refl
  length-take (suc m) [] h = absurd (omega arith)
  length-take (suc m) (x ∷ xs) h = ap suc (length-take m xs (omega arith))

  length-drop : (m : ℕ) (xs : List A) → length (drop m xs) ≡ length xs - m
  length-drop zero xs = omega arith
  length-drop (suc m) [] = omega arith
  length-drop (suc m) (x ∷ xs) = omega (arith, length-drop m xs)

is_empty-take : (m : ℕ) (xs : List ℕ) → 1 ≤ m → 1 ≤ length xs → is_empty (take m xs) ≡ false
is_empty-take zero xs h k = absurd (omega arith)
is_empty-take (suc m) [] h k = absurd (omega arith)
is_empty-take (suc m) (x ∷ xs) h k = refl

module _ {W : Type 0} (sock : Socket W) (pending : W → List ℕ) where
  -- The buffer with so many of the bytes that waited at `w`, and the rest of them still wait.
  abbrev pub Takes : List ℕ → ℕ → W → Result SocketError (List ℕ) × W → Type 0
  Takes buf left w q =
      (q.0 ≡ ok (buf ++ take left (pending w))) × (pending q.1 ≡ drop left (pending w))

  done-Takes : (buf : List ℕ) (w : W) → Takes buf 0 w (ok buf, w)
  done-Takes buf w = (ap ok (sym (append-nil buf)), refl)

  module _ (is_stream : IsStream sock pending) where
    received-Takes :
        (f : List ℕ → Exec W SocketError (List ℕ)) (buf : List ℕ) (m left total : ℕ) (w : W)
        (q : Result SocketError (List ℕ) × W)
        → total ≡ m + left
        → q.0 ≡ ok (take m (pending w))
        → pending q.1 ≡ drop m (pending w)
        → Takes (buf ++ take m (pending w)) left q.1 (f (take m (pending w)) q.1)
        → Takes buf total w (follow f q)
    received-Takes f buf m left total w (r, t) sum got rest (result, ends) = rw got (
      result
          ∙ ap ok (
              append_assoc buf (take m (pending w)) (take left (pending t))
              ∙ ap (λ ys. buf ++ ys)
                  (ap (λ ys. take m (pending w) ++ take left ys) rest
                    ∙ take-add m left total (pending w) sum)),
      ends ∙ ap (λ ys. drop left ys) rest ∙ drop-add m left total (pending w) sum,
    )

    recv_loop-Takes :
        (fuel n : ℕ) (buf : List ℕ) (left : ℕ) (w : W)
        → n ≡ length buf + left
        → left ≤ fuel
        → left ≤ length (pending w)
        → Takes buf left w (recv_loop sock fuel n buf w)
    unfolding recv_loop ◌>>=◌
    recv_loop-Takes zero n buf zero w sum bound waits = done-Takes buf w
    recv_loop-Takes zero n buf (suc left) w sum bound waits = absurd (omega arith)
    recv_loop-Takes (suc fuel) n buf zero w sum bound waits =
        let full : leb n (length buf) ≡ true = ground arith in rw full (done-Takes buf w)
    recv_loop-Takes (suc fuel) n buf (suc left) w sum bound waits =
        let missing : leb n (length buf) ≡ false = ground arith in
        let size : n - length buf ≡ suc left = omega arith in
        let (m, some_, most, there, got, rest) =
          is_stream.receives (suc left) w (omega arith) (omega arith) in
        let chunk = take m (pending w) in
        let t = (sock.recv (suc left) w).1 in
        let filled = is_empty-take m (pending w) some_ (omega arith) in
        rw missing (
          rw size (
            received-Takes _ buf m (suc left - m) (suc left) w (sock.recv (suc left) w)
              (omega arith) got rest
              (rw filled (
                recv_loop-Takes fuel n (buf ++ chunk) (suc left - m) t
                  (omega (arith, length-append buf chunk, length-take m (pending w) there))
                  (omega arith)
                  (let waiting = ap length rest in omega (arith, length-drop m (pending w)))))))

    -- On a connection that gives bytes as they come, at least one and at most as many as are asked for, the
    -- read of so many bytes as wait returns: the first of them in order, and the others still wait. So it
    -- does not depend on how the peer or the network has cut them.
    pub recv_exact-Takes :
        (n : ℕ) (w : W) → n ≤ length (pending w) → Takes [] n w (recv_exact sock n w)
    unfolding recv_exact
    recv_exact-Takes n w waits = recv_loop-Takes n n [] n w (omega arith) (omega arith) waits
