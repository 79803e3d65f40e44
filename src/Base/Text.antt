-- ===== src/Base/Text.antt =====
-- Python's `str` as the list of its code points, with the methods that the program calls. The
-- character classes are those of ASCII: the program's inputs are tool output, versions and paths.
pub mod Laws
pub mod Strip
use Prim.Native.Char.{code}
use Prim.Native.String.{String}
use mathlib.Core.Bool.{Bool, true, false, not, ◌&&◌, ◌||◌}
use mathlib.Core.List.{List, [], ◌∷◌, ◌++◌, map}
use mathlib.Core.Option.{Option, none, some}
use Prim.Native.Nat.{ℕ, ◌+◌, ◌-◌, ◌/◌, ◌%◌, zero, suc}
use strata_qemu_testing.Base.Tests.{leb, ltb, ◌==◌, if◌then◌else◌}
use strata_qemu_testing.Base.Lists.{length, drop}

abbrev pub Text : Type 0
Text = List ℕ

-- The code points of a literal.
abbrev pub codes : String → Text
codes String.[] = []
codes (String.◌∷◌ c s) = code c ∷ codes s

-- `a == b`
unfoldable pub text_eq : Text → Text → Bool
text_eq [] [] = true
text_eq (a ∷ s) (b ∷ t) = (a == b) && text_eq s t
text_eq _ _ = false

-- `a in b` for a collection of texts
unfoldable pub mem : Text → List Text → Bool
mem a [] = false
mem a (b ∷ bs) = text_eq a b || mem a bs

-- `not s`
abbrev pub is_empty : Text → Bool
is_empty [] = true
is_empty (_ ∷ _) = false

-- `str.isspace` of one ASCII character: tab to carriage return, the separators, the space
unfoldable pub is_space : ℕ → Bool
is_space c = (leb 9 c && leb c 13) || (leb 28 c && leb c 32)

-- `str.isdigit` of one ASCII character
unfoldable pub is_digit : ℕ → Bool
is_digit c = leb b'0' c && leb c b'9'

unfoldable pub lower_char : ℕ → ℕ
lower_char c = if leb b'A' c && leb c b'Z' then c + 32 else c

-- `s.lower()`
unfoldable pub lower : Text → Text
unfolding lower_char
lower = map lower_char

-- `s.lstrip()`
unfoldable pub lstrip : Text → Text
unfolding is_space
lstrip [] = []
lstrip (c ∷ s) = if is_space c then lstrip s else c ∷ s

-- `s.rstrip()`
unfoldable pub rstrip : Text → Text
unfolding is_space
rstrip [] = []
rstrip (c ∷ s) = let r = rstrip s in if is_empty r && is_space c then [] else c ∷ r

-- `s.strip()`
unfoldable pub strip : Text → Text
unfolding lstrip rstrip
strip s = rstrip (lstrip s)

-- `s.startswith(p)`
unfoldable pub starts_with : Text → Text → Bool
starts_with s [] = true
starts_with [] (b ∷ p) = false
starts_with (a ∷ s) (b ∷ p) = (a == b) && starts_with s p

-- `p in s`
unfoldable pub contains : Text → Text → Bool
unfolding starts_with
contains [] p = starts_with [] p
contains (a ∷ s) p = starts_with (a ∷ s) p || contains s p

-- `s.endswith(p)`: some tail of `s` is `p`
unfoldable pub ends_with : Text → Text → Bool
unfolding text_eq
ends_with [] p = text_eq [] p
ends_with (a ∷ s) p = text_eq (a ∷ s) p || ends_with s p

-- `s.partition(sep)` at a one-character separator: what stands before the first one and behind it,
-- or nothing where there is none
unfoldable pub partition : ℕ → Text → Option (Text × Text)
partition sep [] = none
partition sep (c ∷ s) =
    let rest = partition sep s in
    if c == sep
    then some ([], s)
    else (elim rest [ none ↦ none | some (before, after) ↦ some (c ∷ before, after) ])

-- Put a character in front of the first part.
abbrev pub cons_head : ℕ → List Text → List Text
cons_head c [] = (c ∷ []) ∷ []
cons_head c (p ∷ ps) = (c ∷ p) ∷ ps

-- `s.split(sep)` at a one-character separator
unfoldable pub split_on : ℕ → Text → List Text
split_on sep [] = [] ∷ []
split_on sep (c ∷ s) = let rest = split_on sep s in if c == sep then [] ∷ rest else cons_head c rest

-- `s.split()`: the longest runs without white space
unfoldable pub words_from : Text → Text → List Text
unfolding is_space
words_from cur [] = if is_empty cur then [] else cur ∷ []
words_from cur (c ∷ s) =
    let closed = words_from [] s in
    let longer = words_from (cur ++ c ∷ []) s in
    if is_space c then (if is_empty cur then closed else cur ∷ closed) else longer

unfoldable pub words : Text → List Text
unfolding words_from
words s = words_from [] s

-- The characters of ASCII at which `str.splitlines` ends a line; `\r\n` ends one line.
unfoldable pub is_line_break : ℕ → Bool
is_line_break c = (leb 10 c && leb c 13) || (leb 28 c && leb c 30)

-- `after_cr`: the last character was a carriage return, so a newline here belongs to it.
unfoldable pub lines_from : Text → Bool → Text → List Text
unfolding is_line_break
lines_from cur after_cr [] = if is_empty cur then [] else cur ∷ []
lines_from cur after_cr (c ∷ s) =
    let closed = cur ∷ lines_from [] (c == 13) s in
    let longer = lines_from (cur ++ c ∷ []) false s in
    let skipped = lines_from cur false s in
    if after_cr && (c == 10) then skipped else if is_line_break c then closed else longer

-- `s.splitlines()`
unfoldable pub split_lines : Text → List Text
unfolding lines_from
split_lines s = lines_from [] false s

-- `str(n)`, the decimal digits of a number, on fuel; `n + 1` rounds are enough
unfoldable pub digits : ℕ → ℕ → Text → Text
digits zero n acc = acc
digits (suc f) n acc =
    let rest = digits f (n / 10) ((b'0' + n % 10) ∷ acc) in
    if ltb n 10 then (b'0' + n) ∷ acc else rest

unfoldable pub decimal : ℕ → Text
unfolding digits
decimal n = digits (suc n) n []

-- `" ".join(parts)` and the like
unfoldable pub join : Text → List Text → Text
join sep [] = []
join sep (p ∷ []) = p
join sep (p ∷ q ∷ ps) = p ++ (sep ++ join sep (q ∷ ps))
