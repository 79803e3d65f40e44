-- ===== src/Artifacts.antt =====
-- strataqemu/artifacts.py and the paths of strataqemu/config.py. A path is its text; `root / name`
-- puts a slash between, since the roots of the program do not end in one.
use strata_qemu_testing.Base.{Option, none, some, List, [], ◌∷◌, ◌++◌}
use strata_qemu_testing.Base.Text.{Text, codes, is_empty}
use strata_qemu_testing.Base.{if◌then◌else◌}

infixl 60 ◌/◌
abbrev pub ◌/◌ : Text → Text → Text
root / name = root ++ (b'/' ∷ name)

-- `cache_root`; the default is that of `cache_dir`
abbrev pub cache_root : Option Text → Text → Text
cache_root none default = default
cache_root (some root) default = root

-- `config.cache_dir`, by the environment: STRATA_QEMU_CACHE, XDG_CACHE_HOME, the home directory
abbrev non_empty : Option Text → Option Text
non_empty none = none
non_empty (some s) = if is_empty s then none else some s

unfoldable pub cache_dir : (Text → Text) → Option Text → Option Text → Text → Text
cache_dir expanduser override xdg home = elim (non_empty override) [
  | some path ↦ expanduser path
  | none ↦ elim (non_empty xdg) [
    | some base ↦ expanduser base / codes "strata-qemu-testing"
    | none ↦ home / codes ".cache" / codes "strata-qemu-testing"
  ]
]

abbrev pub images_dir : Text → Text
images_dir cache = cache / codes "images"

abbrev pub runs_dir : Text → Text
runs_dir cache = cache / codes "runs"

abbrev pub downloads_dir : Text → Text
downloads_dir cache = cache / codes "downloads"

abbrev pub keys_dir : Text → Text
keys_dir cache = cache / codes "keys"

abbrev pub ssh_private_key : Text → Text
ssh_private_key cache = keys_dir cache / codes "id_ed25519"

-- The properties of `RunArtifacts`, by the run directory.
abbrev pub overlay : Text → Text
overlay root = root / codes "overlay.qcow2"

abbrev pub serial_log : Text → Text
serial_log root = root / codes "serial.log"

abbrev pub qemu_log : Text → Text
qemu_log root = root / codes "qemu.log"

abbrev pub qmp_sock : Text → Text
qmp_sock root = root / codes "qmp.sock"

abbrev pub qga_sock : Text → Text
qga_sock root = root / codes "qga.sock"

abbrev pub ovmf_vars : Text → Text
ovmf_vars root = root / codes "OVMF_VARS.fd"

abbrev pub result_json : Text → Text
result_json root = root / codes "result.json"

abbrev pub ssh_port_file : Text → Text
ssh_port_file root = root / codes "ssh_port"

abbrev pub screenshot : Text → Text
screenshot root = root / codes "screenshot.png"

unfoldable pub throwaway_paths : Text → List Text
throwaway_paths root = overlay root ∷ ovmf_vars root ∷ qmp_sock root ∷ qga_sock root ∷ []
