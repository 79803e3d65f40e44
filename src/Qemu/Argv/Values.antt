-- ===== src/Qemu/Argv/Values.antt =====
-- strataqemu/qemu.py: the values that a command line gives to an option.
use strata_qemu_testing.Base.{
  ℕ, zero, suc, ◌+◌, ◌/◌, ◌%◌, ◌≡◌, refl, Bool, true, false, List, [], ◌∷◌, ok, arith, ltb,
  Bool-cases, inl, inr, ◌⊎◌, >>=-eq-ok,
}
use strata_qemu_testing.Base.Text.{Text, codes, text_eq, decimal, digits, is_digit}
use strata_qemu_testing.Base.Text.Laws.{text_eq_sound}
use strata_qemu_testing.Qemu.Argv.{Config, qemu_args, build_qemu_argv, check_config}

-- What follows each occurrence of an option. `taking`: the last argument was the option.
unfoldable pub values_from : Text → Bool → List Text → List Text
unfolding text_eq
values_from option taking [] = []
values_from option true (a ∷ rest) = a ∷ values_from option false rest
values_from option false (a ∷ rest) = values_from option (text_eq a option) rest

abbrev pub values : Text → List Text → List Text
values option argv = values_from option false argv

abbrev starts_digit : Text → Bool
starts_digit [] = false
starts_digit (c ∷ _) = is_digit c

digits_start :
    (f n : ℕ) (acc : Text) → starts_digit acc ≡ true → starts_digit (digits f n acc) ≡ true
unfolding digits is_digit
digits_start zero n acc h = h
digits_start (suc f) n acc h = elim (Bool-cases (ltb n 10)) [
  | inl small ↦ rw (small, digits) (ground arith)
  | inr large ↦ rw (large, digits) (digits_start f (n / 10) ((b'0' + n % 10) ∷ acc) (ground arith))
]

decimal_start : (n : ℕ) → starts_digit (decimal n) ≡ true
unfolding decimal digits is_digit
decimal_start n = elim (Bool-cases (ltb n 10)) [
  | inl small ↦ rw (small, digits) (ground arith)
  | inr large ↦ rw (large, digits) (digits_start n (n / 10) ((b'0' + n % 10) ∷ []) (ground arith))
]

-- A number is no option.
digit_not_dash : (t s : Text) → starts_digit t ≡ true → text_eq t (b'-' ∷ s) ≡ false
unfolding text_eq is_digit
digit_not_dash [] s h = cc
digit_not_dash (c ∷ t) s h = ground arith

pub decimal-not_option : (n : ℕ) (s : Text) → text_eq (decimal n) (b'-' ∷ s) ≡ false
decimal-not_option n s = digit_not_dash (decimal n) s (decimal_start n)

pub values-next :
    (option a : Text) (rest : List Text)
    → values_from option false (a ∷ rest) ≡ values_from option (text_eq a option) rest
unfolding values_from
values-next option a rest = refl

pub values-taken :
    (option a : Text) (rest : List Text)
    → values_from option true (a ∷ rest) ≡ a ∷ values_from option false rest
unfolding values_from
values-taken option a rest = refl

pub values-end : (option : Text) (taking : Bool) → values_from option taking [] ≡ []
unfolding values_from
values-end option true = refl
values-end option false = refl

pub ruleset walk_values = (values-next, values-taken, values-end, decimal-not_option)

-- `graphical_ui` is one of the two that the checks let pass.
abbrev pub IsUi : Text → Type 0
IsUi ui = (ui ≡ codes "gtk") ⊎ (ui ≡ codes "sdl")

-- The checks of a configuration that gives a command line.
pub check_config-IsUi : (c : Config) {u : Unit {0}} → check_config c ≡ ok u → IsUi c.graphical_ui
unfolding check_config
check_config-IsUi c h =
    ground (
      arith,
      text_eq_sound c.graphical_ui (codes "gtk"),
      text_eq_sound c.graphical_ui (codes "sdl"),
    )

module _ (resolve : Text → Text) where
  pub build_qemu_argv-args :
      (c : Config) {argv : List Text}
      → build_qemu_argv resolve c ≡ ok argv
      → (argv ≡ qemu_args resolve c) × IsUi c.graphical_ui
  unfolding build_qemu_argv
  build_qemu_argv-args c h =
      let passed = >>=-eq-ok (check_config c) _ h in (cc, check_config-IsUi c passed.1)
