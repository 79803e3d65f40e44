-- ===== src/Qemu/Argv/Drives.antt =====
-- strataqemu/qemu.py: the drives of a command line.
use strata_qemu_testing.Base.{
  ◌≡◌, refl, false, Option, none, some, List, [], ◌∷◌, ◌++◌, ok, Bool-cases, inl, inr,
}
use strata_qemu_testing.Base.Text.{Text, codes, text_eq}
use strata_qemu_testing.Qemu.Argv.{
  Config, head_args, display_args, device_args, firmware_args, seed_args, qemu_args,
  build_qemu_argv,
}
use strata_qemu_testing.Qemu.Argv.Values.{values, walk_values, IsUi, build_qemu_argv-args}

module _ (resolve : Text → Text) where
  head_drives :
      (c : Config) (rest : List Text)
      → text_eq c.qemu_binary (codes "-drive") ≡ false
      → values (codes "-drive") (head_args resolve c ++ rest) ≡ values (codes "-drive") rest
  unfolding text_eq
  head_drives c rest bin = simp (bin, walk_values)

-- What the drives are, written out. The overlay is the first disk.
abbrev pub disk_drive : (Text → Text) → Config → Text
disk_drive resolve c =
    codes "file="
    ++ (resolve c.overlay ++ (codes ",if=none,id=drive0,discard=unmap,cache=" ++ c.disk_cache))

-- The firmware's code is read-only; the variables of the run are written.
abbrev pub firmware_drives : (Text → Text) → Option Text → Option Text → List Text
firmware_drives resolve (some code) (some vars) =
    (codes "if=pflash,format=raw,readonly=on,file=" ++ resolve code)
    ∷ (codes "if=pflash,format=raw,file=" ++ resolve vars)
    ∷ []
firmware_drives resolve _ _ = []

-- The install ISO is a CD-ROM, and the seed is read-only.
abbrev pub seed_medium : (Text → Text) → Text → Text
seed_medium resolve seed =
    codes "file=" ++ (resolve seed ++ codes ",if=none,format=raw,readonly=on,id=cidata0")

abbrev pub seed_drives : (Text → Text) → Option Text → Option Text → List Text
seed_drives resolve (some iso) (some seed) =
    (codes "file=" ++ (resolve iso ++ codes ",media=cdrom,if=none,format=raw,id=cdrom0"))
    ∷ seed_medium resolve seed
    ∷ []
seed_drives resolve (some iso) none = []
seed_drives resolve none (some seed) = seed_medium resolve seed ∷ []
seed_drives resolve none none = []

module _ (resolve : Text → Text) where
  display_drives :
      (c : Config) (rest : List Text)
      → IsUi c.graphical_ui
      → values (codes "-drive") (display_args resolve c ++ rest) ≡ values (codes "-drive") rest
  unfolding text_eq
  display_drives c rest ui = elim (Bool-cases c.graphical) [
    | inr headless ↦ simp (headless, walk_values)
    | inl window ↦ elim ui [
      | inl gtk ↦ simp (window, gtk, walk_values)
      | inr sdl ↦ simp (window, sdl, walk_values)
    ]
  ]

  device_drives :
      (c : Config) (rest : List Text)
      → values (codes "-drive") (device_args resolve c ++ rest)
        ≡ disk_drive resolve c ∷ values (codes "-drive") rest
  unfolding text_eq
  device_drives c rest = simp walk_values

  firmware-drives :
      (code vars : Option Text) (rest : List Text)
      → values (codes "-drive") (firmware_args resolve code vars ++ rest)
        ≡ firmware_drives resolve code vars ++ values (codes "-drive") rest
  unfolding text_eq
  firmware-drives (some code) (some vars) rest = simp walk_values
  firmware-drives _ _ rest = refl

  seed-drives :
      (iso seed : Option Text)
      → values (codes "-drive") (seed_args resolve iso seed) ≡ seed_drives resolve iso seed
  unfolding text_eq
  seed-drives (some iso) (some seed) = simp walk_values
  seed-drives (some iso) none = simp walk_values
  seed-drives none (some seed) = simp walk_values
  seed-drives none none = simp walk_values

  -- The drives of a command line are, in this order and with these words: the overlay of the configuration
  -- with its cache mode, the firmware's code read-only and its variables for UEFI, the install ISO as a
  -- CD-ROM, and the seed read-only. There is no other.
  pub build_qemu_argv-drives :
      (c : Config) (argv : List Text)
      → text_eq c.qemu_binary (codes "-drive") ≡ false
      → build_qemu_argv resolve c ≡ ok argv
      → values (codes "-drive") argv
        ≡ disk_drive resolve c
          ∷ (firmware_drives resolve c.ovmf_code c.ovmf_vars
              ++ seed_drives resolve c.install_iso c.cidata_iso)
  build_qemu_argv-drives c argv bin h =
      let built = build_qemu_argv-args resolve c {argv = argv} h in
      rw built.0 (
        unfold qemu_args in
        rw (
          head_drives resolve c _ bin,
          display_drives c _ built.1,
          device_drives c _,
          firmware-drives c.ovmf_code c.ovmf_vars _,
          seed-drives c.install_iso c.cidata_iso,
        ))
