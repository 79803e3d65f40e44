-- ===== src/Overlay.antt =====
-- strataqemu/overlay.py: the command line of `qemu-img create`, and the one without a strict backing
-- file. `resolve` is `Path.resolve`.
pub mod Fallback
pub mod Create
use strata_qemu_testing.Base.{
  Bool, true, false, not, ◌||◌, ◌&&◌, List, [], ◌∷◌, ◌++◌, if◌then◌else◌,
}
use strata_qemu_testing.Base.Text.{Text, codes, text_eq, is_empty, contains, split_on, join}

unfoldable pub create_overlay_argv : (Text → Text) → Text → Text → Text → List Text
create_overlay_argv resolve golden overlay qemu_img =
    qemu_img
    ∷ codes "create"
    ∷ codes "-f"
    ∷ codes "qcow2"
    ∷ codes "-F"
    ∷ codes "qcow2"
    ∷ codes "-o"
    ∷ codes "backing_file_strict=on"
    ∷ codes "-b"
    ∷ resolve golden
    ∷ overlay
    ∷ []

-- `part and "backing_file_strict" not in part`
unfoldable pub kept_parts : List Text → List Text
kept_parts [] = []
kept_parts (part ∷ rest) =
    let more = kept_parts rest in
    if not (is_empty part) && not (contains part (codes "backing_file_strict"))
    then part ∷ more
    else more

-- `if kept: out.extend(["-o", ",".join(kept)])`
abbrev pub option_of : List Text → List Text
option_of [] = []
option_of (part ∷ parts) = codes "-o" ∷ join (codes ",") (part ∷ parts) ∷ []

-- `_without_backing_file_strict`
unfoldable pub without_backing_file_strict : List Text → List Text
without_backing_file_strict [] = []
without_backing_file_strict (a ∷ []) = a ∷ []
without_backing_file_strict (a ∷ b ∷ rest) =
    let behind = without_backing_file_strict rest in
    let next = without_backing_file_strict (b ∷ rest) in
    if text_eq a (codes "-o") then option_of (kept_parts (split_on b',' b)) ++ behind else a ∷ next
