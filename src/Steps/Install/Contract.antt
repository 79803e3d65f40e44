-- ===== src/Steps/Install/Contract.antt =====
-- strataqemu/tests_spec.py: the entries of an install that returns.
use strata_qemu_testing.Base.{ℕ, Bool, true, List, [], ◌∷◌, ◌≡◌, refl, All, map, ◌⊎◌}
use strata_qemu_testing.Base.Text.{Text, codes, mem}
use strata_qemu_testing.Session.Parse.{Props}
use strata_qemu_testing.RunTest.Exec.{Gives, Gives-then, Gives-pure, Gives-if}
use strata_qemu_testing.Steps.Remote.{Remote}
use strata_qemu_testing.Steps.SessionOnly.{StepResult}
use strata_qemu_testing.Guests.{compositor_process_name}
use strata_qemu_testing.Steps.Install.Checked.{SessionCame, Installed, HasEntry, HasWindow}
use strata_qemu_testing.Steps.About.{run_about_version_step, open_about, about_ended}
use strata_qemu_testing.Steps.Install.{FlowArgs, Outcome, install_from_release_steps}

abbrev pub names : List StepResult → List Text
names steps = map (λ entry. entry.name) steps

-- An entry has passed, or it is one of those that may be skipped.
abbrev pub PassedOr : List Text → StepResult → Type 0
PassedOr skippable entry = (entry.passed ≡ true) ⊎ (mem entry.name skippable ≡ true)

-- The entries of an install that may be skipped.
abbrev pub install_skippable : List Text
install_skippable = codes "version" ∷ codes "about-version" ∷ []

-- The entries that the contract of the flow names, in its order, all of which have passed but for
-- those that may be skipped.
abbrev pub Keeps : List Text → List Text → Outcome → Type 0
Keeps contract skippable outcome =
    (names outcome.steps ≡ contract) × All (PassedOr skippable) outcome.steps

module _ {W : Type 0} (fx : Remote W) where
  about_ended-name :
      (name : Text) (env : Props) (compositor dest intended : Text) (started : ℕ) (used : Text)
      → Gives (λ r. r.name ≡ name) (about_ended fx name env compositor dest intended started used)
  unfolding about_ended
  about_ended-name name env compositor dest intended started [] =
      Gives-then _ λ now. Gives-pure refl
  about_ended-name name env compositor dest intended started (c ∷ used) =
      Gives-then _ λ _. Gives-then _ λ now. Gives-pure refl

  pub run_about_version_step-name :
      (script : Text) (env : Props) (compositor dest : Text) (recorded : Bool)
      (intended name : Text)
      → Gives
          (λ r. r.name ≡ name)
          (run_about_version_step fx script env compositor dest recorded intended name)
  unfolding run_about_version_step open_about
  run_about_version_step-name script env compositor dest recorded intended name =
      Gives-then _ λ started. Gives-if recorded (Gives-then _ λ now. Gives-pure refl) (
        Gives-then _ λ _. Gives-then _ λ _. Gives-then _ λ proc. Gives-then _ λ used.
          Gives-then _ λ sent. about_ended-name name env compositor dest intended started sent)

  -- The session came, the script ran and left the program, the desktop entry names it, and its window came.
  pub record InstallVerified (a : FlowArgs) : Type 0 where
    pub session :
        SessionCame fx (compositor_process_name a.guest) a.scripts.session a.session_timeout
    pub digest : Text
    pub installed : Installed fx a digest
    pub entry : HasEntry fx
    pub window : HasWindow fx (compositor_process_name a.guest)

  abbrev pub InstallKeeps : FlowArgs → Outcome → Type 0
  InstallKeeps a outcome =
      Keeps install_from_release_steps install_skippable outcome × InstallVerified a
