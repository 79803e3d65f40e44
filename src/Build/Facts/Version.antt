-- ===== src/Build/Facts/Version.antt =====
-- strataqemu/image_build.py: `omarchy_version_matches_major`, with its regular expressions.
use strata_qemu_testing.Base.{
  ℕ, Bool, true, false, not, ◌&&◌, ◌||◌, Option, none, some, [], ◌∷◌, if◌then◌else◌, any, ◌==◌, leb,
  drop,
}
use strata_qemu_testing.Base.Text.{
  Text, codes, is_empty, is_digit, is_space, lower, strip, lstrip, starts_with, contains,
}
use strata_qemu_testing.Session.Parse.{parse_int}

-- `\w` of one ASCII character
unfoldable pub is_word : ℕ → Bool
is_word c =
    is_digit c || ((leb b'A' c && leb c b'Z') || ((leb b'a' c && leb c b'z') || (c == b'_')))

-- The digits at the start of a text, and what stands behind them.
unfoldable pub digit_run : Text → Text × Text
digit_run [] = ([], [])
digit_run (c ∷ s) =
    let rest = digit_run s in if is_digit c then (c ∷ rest.0, rest.1) else ([], c ∷ s)

abbrev dot_digit : Text → Bool
dot_digit [] = false
dot_digit (c ∷ []) = false
dot_digit (c ∷ d ∷ s) = (c == b'.') && is_digit d

abbrev starts_space : Text → Bool
starts_space [] = false
starts_space (c ∷ s) = is_space c

abbrev at_boundary : Text → Bool
at_boundary [] = true
at_boundary (c ∷ s) = not (is_word c)

-- The group of a match of `(\d+)\.(\d+)` at the start of a text, and of one of `omarchy\s+(\d+)\b`.
unfoldable pub dotted_here : Text → Option Text
dotted_here s =
    let run = digit_run s in if not (is_empty run.0) && dot_digit run.1 then some run.0 else none

unfoldable pub named_here : Text → Option Text
named_here s =
    let behind = drop 7 s in
    let run = digit_run (lstrip behind) in
    if starts_with s (codes "omarchy")
      && (starts_space behind && (not (is_empty run.0) && at_boundary run.1))
    then some run.0
    else none

-- `re.search(r"\b" + …)`: the first match that does not start behind a word character; `after` says
-- whether the character before is one.
unfoldable pub search_from : (Text → Option Text) → Bool → Text → Option Text
search_from here after [] = none
search_from here after (c ∷ s) =
    let rest = search_from here (is_word c) s in
    if after then rest else (elim (here (c ∷ s)) [ none ↦ rest | some group ↦ some group ])

-- `int(match.group(1)) == major`
abbrev is_major : ℕ → Text → Bool
is_major major group = elim (parse_int group) [ none ↦ false | some n ↦ n == major ]

unfoldable pub version_major : Text → ℕ → Bool
version_major text major = elim (search_from dotted_here false text) [
  | some group ↦ is_major major group
  | none ↦ elim (search_from named_here false (lower text)) [
    | some group ↦ is_major major group
    | none ↦ false
  ]
]

unfoldable pub omarchy_version_matches_major : Text → ℕ → Bool
omarchy_version_matches_major output major =
    let text = strip output in
    not (is_empty text)
    && (not (
          any (λ needle. contains (lower text) needle)
            (codes "configurator"
              ∷ codes "wizard"
              ∷ codes "waiting for"
              ∷ codes "interactive"
              ∷ []))
        && version_major text major)
