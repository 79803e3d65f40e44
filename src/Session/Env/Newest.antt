-- ===== src/Session/Env/Newest.antt =====
-- strataqemu/session.py: which Hyprland instance and which Wayland socket are chosen.
use strata_qemu_testing.Base.{
  ℕ, ◌≤◌, some, List, [], ◌∷◌, ◌≡◌, refl, inl, inr, ◌⊎◌, All, Any, Bool-cases, true, false,
  if◌then◌else◌, leb, arith, ap, ◌∙◌, sym,
}
use mathlib.Core.Path.{subst}
use strata_qemu_testing.Base.Text.{Text}
use strata_qemu_testing.Session.Env.{FsEntry, newest, dirs, newest_name, choose_hyprland_instance}

newest-older :
    (best entry : FsEntry) (rest : List FsEntry)
    → leb entry.mtime best.mtime ≡ true
    → newest best (entry ∷ rest) ≡ newest best rest
unfolding newest
newest-older best entry rest h = ap (λ b. newest (if b then best else entry) rest) h

newest-newer :
    (best entry : FsEntry) (rest : List FsEntry)
    → leb entry.mtime best.mtime ≡ false
    → newest best (entry ∷ rest) ≡ newest entry rest
unfolding newest
newest-newer best entry rest h = ap (λ b. newest (if b then best else entry) rest) h

newest_bound :
    (best : FsEntry) (rest : List FsEntry)
    → (best.mtime ≤ (newest best rest).mtime) × All (λ e. e.mtime ≤ (newest best rest).mtime) rest
newest_bound best [] = unfold newest in (omega arith, tt)
newest_bound best (entry ∷ rest) = elim (Bool-cases (leb entry.mtime best.mtime)) [
  | inl older ↦
      let ih = newest_bound best rest in
      subst (λ t. (best.mtime ≤ t.mtime) × All (λ e. e.mtime ≤ t.mtime) (entry ∷ rest))
        (sym (newest-older best entry rest older)) (ih.0, (ground (arith, ih.0, older), ih.1))
  | inr newer ↦
      let ih = newest_bound entry rest in
      subst (λ t. (best.mtime ≤ t.mtime) × All (λ e. e.mtime ≤ t.mtime) (entry ∷ rest))
        (sym (newest-newer best entry rest newer)) (ground (arith, ih.0, newer), (ih.0, ih.1))
]

newest_mem :
    (best : FsEntry) (rest : List FsEntry)
    → (newest best rest ≡ best) ⊎ Any (λ e. newest best rest ≡ e) rest
newest_mem best [] = unfold newest in inl refl
newest_mem best (entry ∷ rest) = elim (Bool-cases (leb entry.mtime best.mtime)) [
  | inl older ↦
      subst (λ t. (t ≡ best) ⊎ Any (λ e. t ≡ e) (entry ∷ rest))
        (sym (newest-older best entry rest older))
        (elim (newest_mem best rest) [ inl same ↦ inl same | inr other ↦ inr (inr other) ])
  | inr newer ↦
      subst (λ t. (t ≡ best) ⊎ Any (λ e. t ≡ e) (entry ∷ rest))
        (sym (newest-newer best entry rest newer)) (inr (newest_mem entry rest))
]

dirs-dir :
    (entry : FsEntry) (rest : List FsEntry)
    → entry.is_dir ≡ true
    → dirs (entry ∷ rest) ≡ entry ∷ dirs rest
unfolding dirs
dirs-dir entry rest h = ap (λ b. if b then entry ∷ dirs rest else dirs rest) h

dirs-file :
    (entry : FsEntry) (rest : List FsEntry) → entry.is_dir ≡ false → dirs (entry ∷ rest) ≡ dirs rest
unfolding dirs
dirs-file entry rest h = ap (λ b. if b then entry ∷ dirs rest else dirs rest) h

dirs-Any :
    (e : FsEntry) (entries : List FsEntry)
    → Any (λ d. e ≡ d) (dirs entries)
    → (e.is_dir ≡ true) × Any (λ d. e ≡ d) entries
dirs-Any e [] h = absurd (unfold dirs in h)
dirs-Any e (entry ∷ rest) h = elim (Bool-cases entry.is_dir) [
  | inl directory ↦ elim (split (rw (dirs-dir entry rest directory) at h)) [
    | inl same ↦ (ap (λ d. d.is_dir) same ∙ directory, inl same)
    | inr later ↦ let more = dirs-Any e rest later in (more.0, inr more.1)
  ]
  | inr other ↦
      let later = dirs-Any e rest (rw (dirs-file entry rest other) at h) in (later.0, inr later.1)
]
  where
    split : Any (λ d. e ≡ d) (entry ∷ dirs rest) → (e ≡ entry) ⊎ Any (λ d. e ≡ d) (dirs rest)
    split h = h

dirs-All :
    (m : ℕ) (entries : List FsEntry)
    → All (λ d. d.mtime ≤ m) (dirs entries)
    → All (λ d. d.is_dir ≡ true → d.mtime ≤ m) entries
dirs-All m [] h = tt
dirs-All m (entry ∷ rest) h = elim (Bool-cases entry.is_dir) [
  | inl directory ↦
      let both = split (rw (dirs-dir entry rest directory) at h) in
      (λ _. both.0, dirs-All m rest both.1)
  | inr other ↦ (λ d. cc, dirs-All m rest (rw (dirs-file entry rest other) at h))
]
  where
    split :
        All (λ d. d.mtime ≤ m) (entry ∷ dirs rest)
        → (entry.mtime ≤ m) × All (λ d. d.mtime ≤ m) (dirs rest)
    split h = h

-- `entry` is a directory of the listing, and none of them has changed later.
abbrev pub IsNewestDir : FsEntry → List FsEntry → Type 0
IsNewestDir entry entries =
    (entry.is_dir ≡ true)
    × Any (λ d. entry ≡ d) entries
    × All (λ d. d.is_dir ≡ true → d.mtime ≤ entry.mtime) entries

newest_name-newest :
    (entries ds : List FsEntry) (name : Text)
    → dirs entries ≡ ds
    → newest_name ds ≡ some name
    → (entry : FsEntry) × (entry.name ≡ name) × IsNewestDir entry entries
newest_name-newest entries [] name e h = unfold newest_name in cc
newest_name-newest entries (best ∷ rest) name e h =
    let top = newest best rest in
    let bound = newest_bound best rest in
    let found = dirs-Any top entries (rw e (newest_mem best rest)) in
    (
      top,
      unfold newest_name in cc,
      (found.0, found.1, dirs-All top.mtime entries (rw e (bound.0, bound.1))),
    )

-- The instance that is chosen is a directory of the listing, and the newest: no directory of the
-- listing has changed later.
pub choose_hyprland_instance-newest :
    (entries : List FsEntry) (name : Text)
    → choose_hyprland_instance entries ≡ some name
    → (entry : FsEntry) × (entry.name ≡ name) × IsNewestDir entry entries
unfolding choose_hyprland_instance
choose_hyprland_instance-newest entries name h =
    newest_name-newest entries (dirs entries) name refl h
