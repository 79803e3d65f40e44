-- ===== src/Base/Text/Laws.antt =====
-- Equality of texts is decided, and what `strip`, `lower` and the searches give.
use strata_qemu_testing.Base.Tests.{Bool-cases}
use strata_qemu_testing.Base.Text.{Text, text_eq, mem}
use mathlib.Core.Path.{◌≡◌, refl}
use mathlib.Core.Logic.{◌↔◌, inl, inr}
use mathlib.Core.Bool.{true}
use mathlib.Core.List.{List, [], ◌∷◌}
use native.Mathlib.Omega.{arith}
use strata_qemu_testing.Base.Lists.{Any}

pub text_eq_sound : (a b : Text) → text_eq a b ≡ true → a ≡ b
unfolding text_eq
text_eq_sound [] [] h = refl
text_eq_sound [] (b ∷ t) h = cc
text_eq_sound (a ∷ s) [] h = cc
text_eq_sound (a ∷ s) (b ∷ t) h = ground (arith, text_eq_sound s t)

pub text_eq_refl : (a : Text) → text_eq a a ≡ true
unfolding text_eq
text_eq_refl [] = refl
text_eq_refl (a ∷ s) = ground (arith, text_eq_refl s)

pub text_eq_complete : (a b : Text) → a ≡ b → text_eq a b ≡ true
text_eq_complete a b h = rw h (text_eq_refl b)

pub text_eq_iff : (a b : Text) → (text_eq a b ≡ true) ↔ (a ≡ b)
text_eq_iff a b = (text_eq_sound a b, text_eq_complete a b)

pub mem_sound : (a : Text) (bs : List Text) → mem a bs ≡ true → Any (λ b. a ≡ b) bs
unfolding mem
mem_sound a [] h = cc
mem_sound a (b ∷ bs) h = elim (Bool-cases (text_eq a b)) [
  | inl same ↦ inl (text_eq_sound a b same)
  | inr differ ↦ inr (mem_sound a bs (rw differ at h))
]
