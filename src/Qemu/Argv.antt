-- ===== src/Qemu/Argv.antt =====
-- strataqemu/qemu.py: `build_qemu_argv`. `resolve` is `Path.resolve`, which asks the file system.
pub mod Values
pub mod Checks
pub mod Drives
pub mod Listeners
pub mod Sockets
use strata_qemu_testing.Base.{
  ℕ, Bool, true, false, not, ◌&&◌, ◌||◌, Option, none, some, List, [], ◌∷◌, ◌++◌, if◌then◌else◌,
  is_none, is_some, Result, ok, err, ◌>>=◌, ◌>>◌, guard,
}
use strata_qemu_testing.Base.Text.{Text, codes, text_eq, decimal}
use strata_qemu_testing.Artifacts

-- The `ValueError`s, in the order of the tests.
pub data ArgvError : Type 0 where
  bad_graphical_ui : Text → ArgvError
  vnc_port_required : ArgvError
  cidata_required : ArgvError
  ovmf_pair_required : ArgvError

-- The keyword arguments.
pub record Config : Type 0 where
  pub overlay : Text
  pub run_dir : Text
  pub ssh_port : ℕ
  pub vnc_port : Option ℕ
  pub cpus : ℕ
  pub memory_mib : ℕ
  pub graphical : Bool
  pub graphical_ui : Text
  pub disk_cache : Text
  pub ovmf_code : Option Text
  pub ovmf_vars : Option Text
  pub cidata_iso : Option Text
  pub install_iso : Option Text
  pub qemu_binary : Text

-- `a is None ^ b is None`
abbrev differ : Bool → Bool → Bool
differ true b = not b
differ false b = b

unfoldable pub check_config : Config → Result ArgvError (Unit {0})
check_config c = do
  guard (text_eq c.graphical_ui (codes "gtk") || text_eq c.graphical_ui (codes "sdl"))
      (bad_graphical_ui c.graphical_ui)
  guard (not (not c.graphical && is_none c.vnc_port)) vnc_port_required
  guard (not (is_some c.install_iso && is_none c.cidata_iso)) cidata_required
  guard (not (differ (is_none c.ovmf_code) (is_none c.ovmf_vars))) ovmf_pair_required

-- `f"{vnc_port}"`
abbrev port_text : Option ℕ → Text
port_text none = codes "None"
port_text (some port) = decimal port

module _ (resolve : Text → Text) where
  abbrev pub head_args : Config → List Text
  head_args c =
      c.qemu_binary
      ∷ codes "-machine"
      ∷ codes "q35,accel=kvm,usb=off"
      ∷ codes "-cpu"
      ∷ codes "host"
      ∷ codes "-smp"
      ∷ decimal c.cpus
      ∷ codes "-m"
      ∷ decimal c.memory_mib
      ∷ codes "-vga"
      ∷ codes "none"
      ∷ []

  abbrev pub display_args : Config → List Text
  display_args c =
      if c.graphical
      then (codes "-device"
          ∷ codes "virtio-vga-gl"
          ∷ codes "-display"
          ∷ (c.graphical_ui ++ codes ",gl=on")
          ∷ [])
      else (codes "-device"
          ∷ codes "virtio-gpu-gl-pci"
          ∷ codes "-display"
          ∷ codes "egl-headless,gl=on"
          ∷ codes "-vnc"
          ∷ (codes "127.0.0.1:" ++ port_text c.vnc_port)
          ∷ [])

  -- With an install ISO the disk is pinned below the seed.
  abbrev pub drive0_dev : Config → Text
  drive0_dev c =
      codes "virtio-blk-pci,drive=drive0,bootindex=1"
      ++ (if is_some c.install_iso then codes ",addr=0x8" else [])

  -- The value of the overlay's `-drive`.
  abbrev pub overlay_drive : Config → Text
  overlay_drive c =
      codes "file="
      ++ (resolve c.overlay ++ (codes ",if=none,id=drive0,discard=unmap,cache=" ++ c.disk_cache))

  -- The value of `-netdev`.
  abbrev pub net_value : Config → Text
  net_value c = codes "user,id=net0,hostfwd=tcp:127.0.0.1:" ++ (decimal c.ssh_port ++ codes "-:22")

  abbrev pub device_args : Config → List Text
  device_args c =
      codes "-drive"
      ∷ overlay_drive c
      ∷ codes "-device"
      ∷ drive0_dev c
      ∷ codes "-netdev"
      ∷ net_value c
      ∷ codes "-device"
      ∷ codes "virtio-net-pci,netdev=net0"
      ∷ codes "-serial"
      ∷ (codes "file:" ++ resolve (Artifacts.serial_log c.run_dir))
      ∷ codes "-qmp"
      ∷ (codes "unix:" ++ (resolve (Artifacts.qmp_sock c.run_dir) ++ codes ",server,wait=off"))
      ∷ codes "-chardev"
      ∷ (codes "socket,path="
          ++ (resolve (Artifacts.qga_sock c.run_dir) ++ codes ",server=on,wait=off,id=qga"))
      ∷ codes "-device"
      ∷ codes "virtio-serial-pci"
      ∷ codes "-device"
      ∷ codes "virtserialport,chardev=qga,name=org.qemu.guest_agent.0"
      ∷ codes "-usb"
      ∷ codes "-device"
      ∷ codes "usb-tablet"
      ∷ []

  abbrev pub code_drive : Text → Text
  code_drive code = codes "if=pflash,format=raw,readonly=on,file=" ++ resolve code

  abbrev pub vars_drive : Text → Text
  vars_drive vars = codes "if=pflash,format=raw,file=" ++ resolve vars

  abbrev pub firmware_args : Option Text → Option Text → List Text
  firmware_args (some code) (some vars) =
      codes "-drive" ∷ code_drive code ∷ codes "-drive" ∷ vars_drive vars ∷ []
  firmware_args _ _ = []

  abbrev pub iso_drive : Text → Text
  iso_drive iso =
      codes "file=" ++ (resolve iso ++ codes ",media=cdrom,if=none,format=raw,id=cdrom0")

  abbrev pub seed_drive : Text → Text
  seed_drive seed =
      codes "file=" ++ (resolve seed ++ codes ",if=none,format=raw,readonly=on,id=cidata0")

  -- By the install ISO and the seed. The checks leave no ISO without a seed.
  abbrev pub seed_args : Option Text → Option Text → List Text
  seed_args (some iso) (some seed) =
      codes "-drive"
      ∷ iso_drive iso
      ∷ codes "-device"
      ∷ codes "ide-cd,drive=cdrom0,bootindex=2"
      ∷ codes "-drive"
      ∷ seed_drive seed
      ∷ codes "-device"
      ∷ codes "virtio-blk-pci,drive=cidata0,serial=cidata,addr=0x9"
      ∷ []
  seed_args (some iso) none = []
  seed_args none (some seed) =
      codes "-device"
      ∷ codes "virtio-scsi-pci,id=scsi0"
      ∷ codes "-drive"
      ∷ seed_drive seed
      ∷ codes "-device"
      ∷ codes "scsi-cd,drive=cidata0,bus=scsi0.0"
      ∷ []
  seed_args none none = []

  unfoldable pub qemu_args : Config → List Text
  qemu_args c =
      head_args c
      ++ (display_args c
          ++ (device_args c
              ++ (firmware_args c.ovmf_code c.ovmf_vars ++ seed_args c.install_iso c.cidata_iso)))

  unfoldable pub build_qemu_argv : Config → Result ArgvError (List Text)
  unfolding check_config qemu_args
  build_qemu_argv c = do check_config c; ok (qemu_args c)
