-- ===== src/Tests/Stream.antt =====
-- strataqemu/qemu.py at concrete inputs: a peer whose bytes come one at a time.
use strata_qemu_testing.Base.{
  ℕ, zero, suc, List, [], ◌∷◌, Result, ok, ◌≡◌, refl, arith, drop, take, length, ◌≤◌,
}
use strata_qemu_testing.Base.Text.{codes}
use strata_qemu_testing.Qemu.Stream.{SocketError, Socket, recv_exact}
use strata_qemu_testing.Qemu.Stream.Exact.{IsStream, recv_exact-Takes}

abbrev first_byte : ℕ → List ℕ → Result SocketError (List ℕ) × List ℕ
first_byte zero w = (ok [], w)
first_byte (suc k) [] = (ok [], [])
first_byte (suc k) (b ∷ bs) = (ok (b ∷ []), bs)

abbrev slow_peer : Socket (List ℕ)
slow_peer = record { recv = first_byte }

slow_peer-IsStream : IsStream slow_peer (λ w. w)
slow_peer-IsStream = record { receives = one_byte }
  where
    one_byte :
        (k : ℕ) (w : List ℕ)
        → 1 ≤ k
        → 1 ≤ length w
        → (m : ℕ) × (1 ≤ m)
          × (m ≤ k)
          × (m ≤ length w)
          × ((first_byte k w).0 ≡ ok (take m w))
          × ((first_byte k w).1 ≡ drop m w)
    one_byte zero w h l = absurd (omega arith)
    one_byte (suc k) [] h l = absurd (omega arith)
    one_byte (suc k) (b ∷ bs) h l = (1, omega arith, omega arith, omega arith, refl, refl)

recv_exact-Takes_example :
    ((recv_exact slow_peer 4 (codes "RFB 003")).0 ≡ ok (codes "RFB "))
    × ((recv_exact slow_peer 4 (codes "RFB 003")).1 ≡ codes "003")
recv_exact-Takes_example =
    recv_exact-Takes slow_peer (λ w. w) slow_peer-IsStream 4 (codes "RFB 003") (omega arith)
