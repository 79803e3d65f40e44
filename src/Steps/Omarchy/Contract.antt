-- ===== src/Steps/Omarchy/Contract.antt =====
-- strataqemu/tests_spec.py: the entries of a run of the Omarchy bindings that returns.
use strata_qemu_testing.Base.{
  ok, ℕ, Bool, true, List, [], ◌∷◌, Option, none, some, ◌≡◌, refl, inl, inr, Any, if-cases,
  if◌then◌else◌, ◌==◌,
}
use strata_qemu_testing.Base.Text.{Text, codes, text_eq, decimal}
use strata_qemu_testing.Base.Text.Laws.{text_eq_sound}
use strata_qemu_testing.Session.Parse.{Props}
use strata_qemu_testing.RunTest.Exec.{
  Gives, Gives-bind, Gives-then, Gives-pure, Gives-raise, Gives-map, Gives-lift,
}
use strata_qemu_testing.Steps.Remote.{Proc, Remote, Progress, blob_of}
use strata_qemu_testing.Steps.Remote.Answers.{Succeeded, ssh_run-Succeeded}
use strata_qemu_testing.Smoke.{parse_smoke_kv, omarchy_detect_command, omarchy_bindings_command}
use strata_qemu_testing.Steps.Update.{kv_smoke}
use mathlib.Core.Path.{subst}
use strata_qemu_testing.Steps.SessionOnly.{StepResult}
use strata_qemu_testing.Steps.SessionOnly.Allowed.{
  Passed, session_part-Passed, screenshot_part-Passed,
}
use strata_qemu_testing.Steps.Install.{FlowArgs, Outcome}
use strata_qemu_testing.Guests.{omarchy_install_major}
use strata_qemu_testing.Steps.Install.Contract.{Keeps}
use strata_qemu_testing.Steps.Omarchy.{
  omarchy_bindings_steps, detect_part, bindings_part, require_major, require_equal,
  run_omarchy_install_oracles, run_omarchy_bindings_steps, detected_major, wanted_kind,
  guest_install_sh_remote,
}

-- What an entry of the detection holds for a major version.
abbrev pub detected_details : ℕ → Props
detected_details major =
    (codes "detected_major", decimal major) ∷ (codes "oracle", codes "detect_omarchy_major") ∷ []

module _ {W : Type 0} (fx : Remote W) where
  -- The guest has answered the question for its version with this major version, by exit status 0.
  abbrev pub HasMajor : ℕ → Type 0
  HasMajor major =
      (proc : Proc) × Succeeded fx
        (omarchy_detect_command fx.quote_ (codes "live") guest_install_sh_remote none none) proc
      × (kv_smoke (parse_smoke_kv (blob_of proc) (codes "DETECTED_MAJOR")) ≡ ok (decimal major))

  -- The bindings were written in the guest, and are of the kind of that version.
  abbrev pub HasBindings : ℕ → Type 0
  HasBindings major =
      (proc : Proc) × Succeeded fx
        (omarchy_bindings_command fx.quote_ major true guest_install_sh_remote) proc
      × (kv_smoke (parse_smoke_kv (blob_of proc) (codes "BINDINGS_KIND"))
          ≡ ok (if major == 4 then codes "lua" else codes "conf"))

  -- The run is for the major version of the guest's recipe, and the guest has answered with that one.
  abbrev pub DetectsGuest : Text → Outcome → Type 0
  DetectsGuest id outcome =
      (major : ℕ) × (omarchy_install_major id ≡ some major)
      × Any (λ entry. entry.details ≡ detected_details major) outcome.steps
      × HasMajor major
      × HasBindings major

  require_major-some : (o : Option ℕ) → Gives (λ major. o ≡ some major) (require_major fx o)
  unfolding require_major
  require_major-some none = Gives-raise
  require_major-some (some major) = Gives-pure refl

  require_equal-same :
      (what got want : Text) → Gives (λ u. got ≡ want) (require_equal fx what got want)
  unfolding require_equal
  require_equal-same what got want =
      if-cases (Gives (λ u. got ≡ want)) (text_eq got want) _ _
        (λ same. Gives-pure (text_eq_sound got want same)) (λ differ. Gives-raise)

  detected_major-Answered :
      (case_ : Text) (output : Option Text)
      → Gives
          (λ got.
            (proc : Proc) × Succeeded fx
              (omarchy_detect_command fx.quote_ case_ guest_install_sh_remote output none)
              proc
            × (kv_smoke (parse_smoke_kv (blob_of proc) (codes "DETECTED_MAJOR")) ≡ ok got))
          (detected_major fx case_ output)
  unfolding detected_major
  detected_major-Answered case_ output =
      Gives-bind (ssh_run-Succeeded fx _ 15000)
        λ proc ran. Gives-map (λ got printed. (proc, ran, printed)) (Gives-lift _)

  -- The entry of the detection, and the answer of the guest to it.
  abbrev pub Detected : ℕ → StepResult × Props → Type 0
  Detected major r =
      Passed (codes "omarchy-detect") r.0 × (r.0.details ≡ detected_details major) × HasMajor major

  detect_part-Detected :
      (script : Text) (major : ℕ) (probe : Bool)
      → Gives (Detected major) (detect_part fx script major probe)
  unfolding detect_part
  detect_part-Detected script major probe = Gives-then _ λ _. Gives-then _ λ _.
      Gives-then _ λ started.
        Gives-bind (detected_major-Answered (codes "live") none) λ detected answer.
          Gives-bind (require_equal-same _ detected (decimal major)) λ _ same.
            Gives-then _ λ probes. Gives-then _ λ now. Gives-pure (
              (refl, refl),
              rw same refl,
              (
                answer.0,
                answer.1,
                subst
                    (λ got.
                      kv_smoke (parse_smoke_kv (blob_of answer.0) (codes "DETECTED_MAJOR"))
                      ≡ ok got)
                    same answer.2,
              ),
            )

  bindings_part-Passed :
      (script : Text) (major : ℕ)
      → Gives
          (λ r. Passed (codes "omarchy-bindings") r.0 × HasBindings major)
          (bindings_part fx script major true)
  unfolding bindings_part
  bindings_part-Passed script major = Gives-then _ λ _. Gives-then _ λ _. Gives-then _ λ started.
      Gives-bind (ssh_run-Succeeded fx _ 15000) λ proc ran.
        Gives-bind (Gives-lift _) λ kind printed. Gives-then _ λ path.
          Gives-bind (require_equal-same _ kind (wanted_kind fx major)) λ _ same.
            Gives-then _ λ now. Gives-pure (
              (refl, refl),
              (
                proc,
                ran,
                subst
                    (λ got.
                      kv_smoke (parse_smoke_kv (blob_of proc) (codes "BINDINGS_KIND")) ≡ ok got)
                    same printed,
              ),
            )

  abbrev OraclesPassed : ℕ → List StepResult × Props → Type 0
  OraclesPassed major r =
      (detect : StepResult) × (bindings : StepResult) × (r.0 ≡ detect ∷ bindings ∷ [])
      × Passed (codes "omarchy-detect") detect
      × Passed (codes "omarchy-bindings") bindings
      × (detect.details ≡ detected_details major)
      × HasMajor major
      × HasBindings major

  run_omarchy_install_oracles-OraclesPassed :
      (detect_script bindings_script : Text) (major : ℕ) (probe : Bool)
      → Gives
          (OraclesPassed major)
          (run_omarchy_install_oracles fx detect_script bindings_script major probe true)
  unfolding run_omarchy_install_oracles
  run_omarchy_install_oracles-OraclesPassed detect_script bindings_script major probe =
      Gives-bind (detect_part-Detected detect_script major probe) λ detect d.
        Gives-bind (bindings_part-Passed bindings_script major)
          λ bindings b. Gives-pure (detect.0, bindings.0, refl, d.0, b.0, d.1, d.2, b.1)

  bindings-Gives :
      (a : FlowArgs) (install_sh_path : Option Text)
      → Gives
          (λ o. Keeps omarchy_bindings_steps [] o × DetectsGuest a.guest.id o)
          (run_omarchy_bindings_steps fx a install_sh_path)
  unfolding run_omarchy_bindings_steps
  bindings-Gives a install_sh_path = Gives-bind (require_major-some _) λ major m.
      Gives-bind (session_part-Passed fx _ _ _) λ session s. Gives-then _ λ _.
        Gives-bind (run_omarchy_install_oracles-OraclesPassed _ _ major true) λ oracles o.
          Gives-bind (screenshot_part-Passed fx _ _ _ _) λ shot h. Gives-pure (
            rw o.2 (
              rw (s.0, o.3.0, o.4.0, h.0) refl,
              (inl s.1, (inl o.3.1, (inl o.4.1, (inl h.1, tt)))),
            ),
            (major, m, rw o.2 (inr (inl o.5)), o.6, o.7),
          )

  -- If the flow returns, it has the entries of `OMARCHY_BINDINGS_STEPS` in that order, all of them are marked
  -- as passed, and the guest is one with a major version of Omarchy. The command that asks for the version was
  -- run in the guest with exit status 0 and printed that major version; the command that writes the bindings
  -- had exit status 0 and printed the kind of bindings of that version.
  pub run_omarchy_bindings_steps-Keeps :
      (a : FlowArgs) (install_sh_path : Option Text) (s t : Progress W) (o : Outcome)
      → run_omarchy_bindings_steps fx a install_sh_path s ≡ (ok o, t)
      → Keeps omarchy_bindings_steps [] o × DetectsGuest a.guest.id o
  run_omarchy_bindings_steps-Keeps a install_sh_path s t o h =
      (bindings-Gives a install_sh_path).at s t o h
