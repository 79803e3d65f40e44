-- ===== src/Qemu/Argv/Sockets.antt =====
-- strataqemu/qemu.py: the sockets and the serial log of a command line.
use strata_qemu_testing.Base.{
  ◌≡◌, false, Option, none, some, List, [], ◌∷◌, ◌++◌, ok, Bool-cases, inl, inr,
}
use strata_qemu_testing.Base.Text.{Text, codes, text_eq}
use strata_qemu_testing.Artifacts
use strata_qemu_testing.Qemu.Argv.{
  Config, head_args, display_args, device_args, firmware_args, seed_args, qemu_args,
  build_qemu_argv,
}
use strata_qemu_testing.Qemu.Argv.Values.{values, walk_values, IsUi, build_qemu_argv-args}

module _ (resolve : Text → Text) where
  head_qmp :
      (c : Config) (rest : List Text)
      → text_eq c.qemu_binary (codes "-qmp") ≡ false
      → values (codes "-qmp") (head_args resolve c ++ rest) ≡ values (codes "-qmp") rest
  unfolding text_eq
  head_qmp c rest bin = simp (bin, walk_values)

  display_qmp :
      (c : Config) (rest : List Text)
      → IsUi c.graphical_ui
      → values (codes "-qmp") (display_args resolve c ++ rest) ≡ values (codes "-qmp") rest
  unfolding text_eq
  display_qmp c rest ui = elim (Bool-cases c.graphical) [
    | inr headless ↦ simp (headless, walk_values)
    | inl window ↦ elim ui [
      | inl gtk ↦ simp (window, gtk, walk_values)
      | inr sdl ↦ simp (window, sdl, walk_values)
    ]
  ]

  device_qmp :
      (c : Config) (rest : List Text)
      → values (codes "-qmp") (device_args resolve c ++ rest)
        ≡ (codes "unix:" ++ (resolve (Artifacts.qmp_sock c.run_dir) ++ codes ",server,wait=off"))
          ∷ values (codes "-qmp") rest
  unfolding text_eq
  device_qmp c rest = simp walk_values

  tail_qmp :
      (code vars iso seed : Option Text)
      → values (codes "-qmp") (firmware_args resolve code vars ++ seed_args resolve iso seed) ≡ []
  unfolding text_eq
  tail_qmp (some code) (some vars) (some iso) (some seed) = simp walk_values
  tail_qmp (some code) (some vars) (some iso) none = simp walk_values
  tail_qmp (some code) (some vars) none (some seed) = simp walk_values
  tail_qmp (some code) (some vars) none none = simp walk_values
  tail_qmp _ _ (some iso) (some seed) = simp walk_values
  tail_qmp _ _ (some iso) none = simp walk_values
  tail_qmp _ _ none (some seed) = simp walk_values
  tail_qmp _ _ none none = simp walk_values

  pub build_qemu_argv-qmp :
      (c : Config) (argv : List Text)
      → text_eq c.qemu_binary (codes "-qmp") ≡ false
      → build_qemu_argv resolve c ≡ ok argv
      → values (codes "-qmp") argv
        ≡ (codes "unix:" ++ (resolve (Artifacts.qmp_sock c.run_dir) ++ codes ",server,wait=off"))
          ∷ []
  build_qemu_argv-qmp c argv bin h =
      let built = build_qemu_argv-args resolve c {argv = argv} h in
      rw built.0 (
        unfold qemu_args in
        rw (
          head_qmp c _ bin,
          display_qmp c _ built.1,
          device_qmp c _,
          tail_qmp c.ovmf_code c.ovmf_vars c.install_iso c.cidata_iso,
        ))

  head_chardev :
      (c : Config) (rest : List Text)
      → text_eq c.qemu_binary (codes "-chardev") ≡ false
      → values (codes "-chardev") (head_args resolve c ++ rest) ≡ values (codes "-chardev") rest
  unfolding text_eq
  head_chardev c rest bin = simp (bin, walk_values)

  display_chardev :
      (c : Config) (rest : List Text)
      → IsUi c.graphical_ui
      → values (codes "-chardev") (display_args resolve c ++ rest) ≡ values (codes "-chardev") rest
  unfolding text_eq
  display_chardev c rest ui = elim (Bool-cases c.graphical) [
    | inr headless ↦ simp (headless, walk_values)
    | inl window ↦ elim ui [
      | inl gtk ↦ simp (window, gtk, walk_values)
      | inr sdl ↦ simp (window, sdl, walk_values)
    ]
  ]

  device_chardev :
      (c : Config) (rest : List Text)
      → values (codes "-chardev") (device_args resolve c ++ rest)
        ≡ (codes "socket,path="
            ++ (resolve (Artifacts.qga_sock c.run_dir) ++ codes ",server=on,wait=off,id=qga"))
          ∷ values (codes "-chardev") rest
  unfolding text_eq
  device_chardev c rest = simp walk_values

  tail_chardev :
      (code vars iso seed : Option Text)
      → values (codes "-chardev") (firmware_args resolve code vars ++ seed_args resolve iso seed)
        ≡ []
  unfolding text_eq
  tail_chardev (some code) (some vars) (some iso) (some seed) = simp walk_values
  tail_chardev (some code) (some vars) (some iso) none = simp walk_values
  tail_chardev (some code) (some vars) none (some seed) = simp walk_values
  tail_chardev (some code) (some vars) none none = simp walk_values
  tail_chardev _ _ (some iso) (some seed) = simp walk_values
  tail_chardev _ _ (some iso) none = simp walk_values
  tail_chardev _ _ none (some seed) = simp walk_values
  tail_chardev _ _ none none = simp walk_values

  pub build_qemu_argv-chardev :
      (c : Config) (argv : List Text)
      → text_eq c.qemu_binary (codes "-chardev") ≡ false
      → build_qemu_argv resolve c ≡ ok argv
      → values (codes "-chardev") argv
        ≡ (codes "socket,path="
            ++ (resolve (Artifacts.qga_sock c.run_dir) ++ codes ",server=on,wait=off,id=qga"))
          ∷ []
  build_qemu_argv-chardev c argv bin h =
      let built = build_qemu_argv-args resolve c {argv = argv} h in
      rw built.0 (
        unfold qemu_args in
        rw (
          head_chardev c _ bin,
          display_chardev c _ built.1,
          device_chardev c _,
          tail_chardev c.ovmf_code c.ovmf_vars c.install_iso c.cidata_iso,
        ))

  head_serial :
      (c : Config) (rest : List Text)
      → text_eq c.qemu_binary (codes "-serial") ≡ false
      → values (codes "-serial") (head_args resolve c ++ rest) ≡ values (codes "-serial") rest
  unfolding text_eq
  head_serial c rest bin = simp (bin, walk_values)

  display_serial :
      (c : Config) (rest : List Text)
      → IsUi c.graphical_ui
      → values (codes "-serial") (display_args resolve c ++ rest) ≡ values (codes "-serial") rest
  unfolding text_eq
  display_serial c rest ui = elim (Bool-cases c.graphical) [
    | inr headless ↦ simp (headless, walk_values)
    | inl window ↦ elim ui [
      | inl gtk ↦ simp (window, gtk, walk_values)
      | inr sdl ↦ simp (window, sdl, walk_values)
    ]
  ]

  device_serial :
      (c : Config) (rest : List Text)
      → values (codes "-serial") (device_args resolve c ++ rest)
        ≡ (codes "file:" ++ resolve (Artifacts.serial_log c.run_dir))
          ∷ values (codes "-serial") rest
  unfolding text_eq
  device_serial c rest = simp walk_values

  tail_serial :
      (code vars iso seed : Option Text)
      → values (codes "-serial") (firmware_args resolve code vars ++ seed_args resolve iso seed)
        ≡ []
  unfolding text_eq
  tail_serial (some code) (some vars) (some iso) (some seed) = simp walk_values
  tail_serial (some code) (some vars) (some iso) none = simp walk_values
  tail_serial (some code) (some vars) none (some seed) = simp walk_values
  tail_serial (some code) (some vars) none none = simp walk_values
  tail_serial _ _ (some iso) (some seed) = simp walk_values
  tail_serial _ _ (some iso) none = simp walk_values
  tail_serial _ _ none (some seed) = simp walk_values
  tail_serial _ _ none none = simp walk_values

  pub build_qemu_argv-serial :
      (c : Config) (argv : List Text)
      → text_eq c.qemu_binary (codes "-serial") ≡ false
      → build_qemu_argv resolve c ≡ ok argv
      → values (codes "-serial") argv
        ≡ (codes "file:" ++ resolve (Artifacts.serial_log c.run_dir)) ∷ []
  build_qemu_argv-serial c argv bin h =
      let built = build_qemu_argv-args resolve c {argv = argv} h in
      rw built.0 (
        unfold qemu_args in
        rw (
          head_serial c _ bin,
          display_serial c _ built.1,
          device_serial c _,
          tail_serial c.ovmf_code c.ovmf_vars c.install_iso c.cidata_iso,
        ))
