-- ===== src/Base/Text/Strip.antt =====
-- `str.strip`: what it leaves has no white space at its ends, and stays as it is.
use strata_qemu_testing.Base.Tests.{Bool-cases}
use strata_qemu_testing.Base.Lists.{All}
use strata_qemu_testing.Base.Text.{Text, is_space, is_empty, lstrip, rstrip, strip}
use mathlib.Core.Path.{◌≡◌, refl, ◌∙◌, ap}
use mathlib.Core.Logic.{inl, inr}
use mathlib.Core.Bool.{true, false, ◌&&◌}
use mathlib.Core.List.{[], ◌∷◌}
use Prim.Native.Nat.{ℕ}
use native.Mathlib.Omega.{arith}

rstrip-rstrip : (s : Text) → rstrip (rstrip s) ≡ rstrip s
unfolding rstrip
rstrip-rstrip [] = refl
rstrip-rstrip (c ∷ s) = elim (Bool-cases (is_empty (rstrip s) && is_space c)) [
  | inl gone ↦ rw (gone, rstrip)
  | inr kept ↦ rw (kept, rstrip) (rw (rstrip-rstrip s, kept))
]

-- No white space at the ends.
abbrev pub IsTrimmed : Text → Type 0
IsTrimmed s = (lstrip s ≡ s) × (rstrip s ≡ s)

pub rstrip_tail : (c : ℕ) (s : Text) → rstrip (c ∷ s) ≡ c ∷ s → rstrip s ≡ s
unfolding rstrip
rstrip_tail c s h = elim (Bool-cases (is_empty (rstrip s) && is_space c)) [
  | inl gone ↦ let e = rw (gone, rstrip) at h in cc
  | inr kept ↦ let e = rw (kept, rstrip) at h in cc
]

pub rstrip_cons : (c : ℕ) (s : Text) → is_space c ≡ false → rstrip (c ∷ s) ≡ c ∷ rstrip s
unfolding rstrip
rstrip_cons c s h = ground arith

pub lstrip_cons : (c : ℕ) (s : Text) → is_space c ≡ false → lstrip (c ∷ s) ≡ c ∷ s
unfolding lstrip
lstrip_cons c s h = rw (h, lstrip)

lstrip_space : (c : ℕ) (s : Text) → is_space c ≡ true → lstrip (c ∷ s) ≡ lstrip s
unfolding lstrip
lstrip_space c s h = rw (h, lstrip)

lstrip-rstrip : (s : Text) → lstrip (rstrip (lstrip s)) ≡ rstrip (lstrip s)
lstrip-rstrip [] = unfold lstrip rstrip in refl
lstrip-rstrip (c ∷ s) = elim (Bool-cases (is_space c)) [
  | inl white ↦ rw (lstrip_space c s white) (lstrip-rstrip s)
  | inr black ↦ rw (lstrip_cons c s black, rstrip_cons c s black, lstrip_cons c (rstrip s) black)
]

pub strip-IsTrimmed : (s : Text) → IsTrimmed (strip s)
unfolding strip
strip-IsTrimmed s = (lstrip-rstrip s, rstrip-rstrip (lstrip s))

pub strip_trimmed : (s : Text) → IsTrimmed s → strip s ≡ s
unfolding strip
strip_trimmed s t = ap rstrip t.0 ∙ t.1

-- A text of which no character is white space is left alone.
pub rstrip-All : (s : Text) → All (λ c. is_space c ≡ false) s → rstrip s ≡ s
rstrip-All [] _ = unfold rstrip in refl
rstrip-All (c ∷ s) (h, more) = rw (rstrip_cons c s h, rstrip-All s more)

pub strip-All : (s : Text) → All (λ c. is_space c ≡ false) s → strip s ≡ s
strip-All [] _ = unfold strip lstrip rstrip in refl
strip-All (c ∷ s) (h, more) =
    strip_trimmed (c ∷ s) (lstrip_cons c s h, rstrip-All (c ∷ s) (h, more))
