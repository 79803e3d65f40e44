-- ===== src/Qemu/Argv/Listeners.antt =====
-- strataqemu/qemu.py: the listeners of a command line.
use strata_qemu_testing.Base.{
  ◌≡◌, false, Option, none, some, List, [], ◌∷◌, ◌++◌, if◌then◌else◌, ok, Bool-cases, inl, inr,
}
use mathlib.Core.List.{append-nil}
use strata_qemu_testing.Base.Text.{decimal, Text, codes, text_eq}
use strata_qemu_testing.Qemu.Argv.{
  Config, head_args, display_args, device_args, firmware_args, seed_args, qemu_args,
  build_qemu_argv, port_text, net_value,
}
use strata_qemu_testing.Artifacts
use strata_qemu_testing.Qemu.Argv.Sockets.{
  build_qemu_argv-qmp, build_qemu_argv-chardev, build_qemu_argv-serial,
}
use strata_qemu_testing.Qemu.Argv.Values.{values, walk_values, IsUi, build_qemu_argv-args}

-- The address of the VNC server, for a machine without a window.
abbrev pub vnc_values : Config → List Text
vnc_values c = if c.graphical then [] else (codes "127.0.0.1:" ++ port_text c.vnc_port) ∷ []

module _ (resolve : Text → Text) where
  head_vnc :
      (c : Config) (rest : List Text)
      → text_eq c.qemu_binary (codes "-vnc") ≡ false
      → values (codes "-vnc") (head_args resolve c ++ rest) ≡ values (codes "-vnc") rest
  unfolding text_eq
  head_vnc c rest bin = simp (bin, walk_values)

  display_vnc :
      (c : Config) (rest : List Text)
      → IsUi c.graphical_ui
      → values (codes "-vnc") (display_args resolve c ++ rest)
        ≡ vnc_values c ++ values (codes "-vnc") rest
  unfolding text_eq
  display_vnc c rest ui = elim (Bool-cases c.graphical) [
    | inr headless ↦ simp (headless, walk_values)
    | inl window ↦ elim ui [
      | inl gtk ↦ simp (window, gtk, walk_values)
      | inr sdl ↦ simp (window, sdl, walk_values)
    ]
  ]

  device_vnc :
      (c : Config) (rest : List Text)
      → values (codes "-vnc") (device_args resolve c ++ rest) ≡ values (codes "-vnc") rest
  unfolding text_eq
  device_vnc c rest = simp walk_values

  tail_vnc :
      (code vars iso seed : Option Text)
      → values (codes "-vnc") (firmware_args resolve code vars ++ seed_args resolve iso seed) ≡ []
  unfolding text_eq
  tail_vnc (some code) (some vars) (some iso) (some seed) = simp walk_values
  tail_vnc (some code) (some vars) (some iso) none = simp walk_values
  tail_vnc (some code) (some vars) none (some seed) = simp walk_values
  tail_vnc (some code) (some vars) none none = simp walk_values
  tail_vnc _ _ (some iso) (some seed) = simp walk_values
  tail_vnc _ _ (some iso) none = simp walk_values
  tail_vnc _ _ none (some seed) = simp walk_values
  tail_vnc _ _ none none = simp walk_values

  head_net :
      (c : Config) (rest : List Text)
      → text_eq c.qemu_binary (codes "-netdev") ≡ false
      → values (codes "-netdev") (head_args resolve c ++ rest) ≡ values (codes "-netdev") rest
  unfolding text_eq
  head_net c rest bin = simp (bin, walk_values)

  display_net :
      (c : Config) (rest : List Text)
      → IsUi c.graphical_ui
      → values (codes "-netdev") (display_args resolve c ++ rest) ≡ values (codes "-netdev") rest
  unfolding text_eq
  display_net c rest ui = elim (Bool-cases c.graphical) [
    | inr headless ↦ simp (headless, walk_values)
    | inl window ↦ elim ui [
      | inl gtk ↦ simp (window, gtk, walk_values)
      | inr sdl ↦ simp (window, sdl, walk_values)
    ]
  ]

  device_net :
      (c : Config) (rest : List Text)
      → values (codes "-netdev") (device_args resolve c ++ rest)
        ≡ net_value resolve c ∷ values (codes "-netdev") rest
  unfolding text_eq
  device_net c rest = simp walk_values

  tail_net :
      (code vars iso seed : Option Text)
      → values (codes "-netdev") (firmware_args resolve code vars ++ seed_args resolve iso seed)
        ≡ []
  unfolding text_eq
  tail_net (some code) (some vars) (some iso) (some seed) = simp walk_values
  tail_net (some code) (some vars) (some iso) none = simp walk_values
  tail_net (some code) (some vars) none (some seed) = simp walk_values
  tail_net (some code) (some vars) none none = simp walk_values
  tail_net _ _ (some iso) (some seed) = simp walk_values
  tail_net _ _ (some iso) none = simp walk_values
  tail_net _ _ none (some seed) = simp walk_values
  tail_net _ _ none none = simp walk_values

  -- If the program of the command line is none of the five options, a command line has one network, whose
  -- forward listens on 127.0.0.1 only; a VNC server exactly when there is no window, on 127.0.0.1 too; one
  -- QMP monitor and one character device, both on sockets of the run directory; and one serial port, which is
  -- a file of the run directory.
  pub build_qemu_argv-listeners :
      (c : Config) (argv : List Text)
      → text_eq c.qemu_binary (codes "-netdev") ≡ false
      → text_eq c.qemu_binary (codes "-vnc") ≡ false
      → text_eq c.qemu_binary (codes "-qmp") ≡ false
      → text_eq c.qemu_binary (codes "-chardev") ≡ false
      → text_eq c.qemu_binary (codes "-serial") ≡ false
      → build_qemu_argv resolve c ≡ ok argv
      → (values (codes "-netdev") argv
          ≡ (codes "user,id=net0,hostfwd=tcp:127.0.0.1:" ++ (decimal c.ssh_port ++ codes "-:22"))
            ∷ [])
        × (values (codes "-vnc") argv ≡ vnc_values c)
        × (values (codes "-qmp") argv
            ≡ (codes "unix:"
                ++ (resolve (Artifacts.qmp_sock c.run_dir) ++ codes ",server,wait=off"))
              ∷ [])
        × (values (codes "-chardev") argv
            ≡ (codes "socket,path="
                ++ (resolve (Artifacts.qga_sock c.run_dir) ++ codes ",server=on,wait=off,id=qga"))
              ∷ [])
        × (values (codes "-serial") argv
            ≡ (codes "file:" ++ resolve (Artifacts.serial_log c.run_dir)) ∷ [])
  build_qemu_argv-listeners c argv net vnc qmp chardev serial h =
      let built = build_qemu_argv-args resolve c {argv = argv} h in
      (
        rw built.0 (
            unfold qemu_args in
            rw (
              head_net c _ net,
              display_net c _ built.1,
              device_net c _,
              tail_net c.ovmf_code c.ovmf_vars c.install_iso c.cidata_iso,
            )),
        rw built.0 (
            unfold qemu_args in
            rw (
              head_vnc c _ vnc,
              display_vnc c _ built.1,
              device_vnc c _,
              tail_vnc c.ovmf_code c.ovmf_vars c.install_iso c.cidata_iso,
              append-nil,
            )),
        build_qemu_argv-qmp resolve c argv qmp h,
        build_qemu_argv-chardev resolve c argv chardev h,
        build_qemu_argv-serial resolve c argv serial h,
      )
