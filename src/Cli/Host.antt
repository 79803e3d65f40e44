-- ===== src/Cli/Host.antt =====
-- strataqemu/cli.py: `check_host` with the search for the firmware, and `ensure_ssh_key`. An error is named by the place
-- that reports it. What is installed and which files there are is a record; `env.keygen`, which tests pass, is none.
pub mod Ready
use strata_qemu_testing.Base.{
  ℕ, Bool, true, false, not, ◌&&◌, Option, none, some, List, [], ◌∷◌, ◌++◌, ◌*◌, if◌then◌else◌,
  Result, ok, err, ltb, map, is_none, ◌==◌,
}
use strata_qemu_testing.Base.Text.{Text, codes, text_eq, contains, lower, mem}
use strata_qemu_testing.Artifacts.{◌/◌, ssh_private_key}
use strata_qemu_testing.Guest.Toml.{zero_int}
use strata_qemu_testing.RunTest.Exec.{Exec, ◌>>=◌, ◌>>◌, pure, raise}
use strata_qemu_testing.Steps.Remote.{Proc, RunError}
use strata_qemu_testing.Build.Live.{CheckHostResult}

pub data HostError : Type 0 where
  is_root no_kvm kvm_not_accessible no_qemu virgl_unusable no_ovmf mem_unreadable : HostError
  no_binary : Text → HostError
  mem_too_small : ℕ → HostError
  no_key : Text → HostError

-- `CheckHostEnv`, without what needs the file system
pub record CheckHostEnv : Type 0 where
  pub path : Text
  pub kvm_path : Text
  pub cache_dir : Text
  pub firmware_share_roots : List Text
  pub virgl_ok : Bool
  pub mem_available_mib : Option ℕ
  pub euid : ℕ

pub record Host (W : Type 0) : Type 0 where
  pub exists : Text → Bool
  pub kvm_accessible : Text → Bool
  -- `shutil.which(name, path=path)`, and on the default path
  pub which : Text → Text → Option Text
  pub which_default : Text → Option Text
  pub is_file : Text → Bool
  -- `Path.name`
  pub name_of : Text → Text
  pub make_parent : Text → W → W
  pub run : List Text → W → Result RunError Proc × W

abbrev pub required_binaries : List Text
required_binaries =
    codes "qemu-system-x86_64"
    ∷ codes "qemu-img"
    ∷ codes "xorriso"
    ∷ codes "mkfs.vfat"
    ∷ codes "mcopy"
    ∷ codes "ssh"
    ∷ codes "curl"
    ∷ []

abbrev pub ovmf_code_relative : List Text
ovmf_code_relative =
    codes "edk2/x64/OVMF_CODE.4m.fd"
    ∷ codes "OVMF/OVMF_CODE_4M.fd"
    ∷ codes "edk2/ovmf/OVMF_CODE.fd"
    ∷ []

-- GENERIC_MEM_FLOOR_MIB
abbrev pub generic_mem_floor_mib : ℕ
generic_mem_floor_mib = 9 * 1024

unfoldable pub under_roots : List Text → List Text
under_roots [] = []
under_roots (root ∷ roots) = map (λ rel. root / rel) ovmf_code_relative ++ under_roots roots

-- DEFAULT_FIRMWARE_SHARE_ROOTS for no roots
unfoldable pub ovmf_code_candidates : List Text → List Text
ovmf_code_candidates [] = under_roots (codes "/usr/share" ∷ [])
ovmf_code_candidates (root ∷ roots) = under_roots (root ∷ roots)

module _ {W : Type 0} (host : Host W) where
  unfoldable pub is_secboot : Text → Bool
  is_secboot path = contains (lower (host.name_of path)) (codes "secboot")

  unfoldable pub is_4m : Text → Bool
  is_4m path = contains (lower (host.name_of path)) (codes "4m")

  -- `found`, and those of them that are named for 4 MiB
  unfoldable pub kept : (Text → Bool) → List Text → List Text
  kept test [] = []
  kept test (path ∷ paths) = let more = kept test paths in if test path then path ∷ more else more

  abbrev pub usable : Text → Bool
  usable path = host.is_file path && not (is_secboot path)

  unfoldable pub first_of : List Text → List Text → Option Text
  first_of (path ∷ paths) found = some path
  first_of [] (path ∷ paths) = some path
  first_of [] [] = none

  unfoldable pub find_ovmf_code : List Text → Option Text
  find_ovmf_code candidates =
      let found = kept usable candidates in first_of (kept is_4m found) found

  unfoldable pub kvm_errors : Text → List HostError
  kvm_errors kvm =
      if not (host.exists kvm)
      then no_kvm ∷ []
      else if not (host.kvm_accessible kvm)
      then kvm_not_accessible ∷ []
      else []

  abbrev pub is_missing : CheckHostEnv → Text → Bool
  is_missing env name = is_none (host.which name env.path)

  unfoldable pub binary_errors : List Text → List HostError
  binary_errors [] = []
  binary_errors (name ∷ names) =
      let more = binary_errors names in
      if text_eq name (codes "qemu-system-x86_64") then more else no_binary name ∷ more

  -- QEMU first, then the others.
  unfoldable pub missing_errors : List Text → List HostError
  missing_errors missing =
      (if mem (codes "qemu-system-x86_64") missing then no_qemu ∷ [] else [])
      ++ binary_errors missing

  unfoldable pub mem_errors : Option ℕ → List HostError
  mem_errors none = mem_unreadable ∷ []
  mem_errors (some mib) = if ltb mib generic_mem_floor_mib then mem_too_small mib ∷ [] else []

  abbrev pub found_code : CheckHostEnv → Option Text
  found_code env = find_ovmf_code (ovmf_code_candidates env.firmware_share_roots)

  unfoldable pub root_errors : ℕ → List HostError
  root_errors euid = if euid == 0 then is_root ∷ [] else []

  unfoldable pub virgl_errors : Bool → List HostError
  virgl_errors usable_ = if usable_ then [] else virgl_unusable ∷ []

  unfoldable pub firmware_errors : Option Text → List HostError
  firmware_errors code = if is_none code then no_ovmf ∷ [] else []

  unfoldable pub host_errors : CheckHostEnv → List HostError
  host_errors env =
      root_errors env.euid
      ++ (kvm_errors env.kvm_path
          ++ (missing_errors (kept (is_missing env) required_binaries)
              ++ (virgl_errors env.virgl_ok
                  ++ (firmware_errors (found_code env) ++ mem_errors env.mem_available_mib))))

  -- `shutil.which("ssh-keygen", path=path) or shutil.which("ssh-keygen")`
  unfoldable pub keygen_of : Option Text → Option Text
  keygen_of (some keygen) = some keygen
  keygen_of none = host.which_default (codes "ssh-keygen")

  unfoldable pub generated : Text → Result RunError Proc × W → Result Text (Unit {0}) × W
  generated key (ok proc, w) =
      if zero_int proc.returncode then (ok tt, w) else (err (codes "ssh-keygen failed"), w)
  generated key (err e, w) = (err (codes "ssh-keygen did not run"), w)

  unfoldable pub keygen_run : Text → Option Text → W → Result Text (Unit {0}) × W
  unfolding generated
  keygen_run key none w = (err (codes "ssh-keygen not found"), w)
  keygen_run key (some keygen) w =
      generated key (
        host.run (keygen ∷ codes "-t" ∷ codes "ed25519" ∷ codes "-f" ∷ key ∷ codes "-N" ∷ [] ∷ [])
          w)

  unfoldable pub ensure_ssh_key : Text → Text → W → Result Text (Unit {0}) × W
  ensure_ssh_key key path w =
      if host.is_file key
      then (ok tt, w)
      else keygen_run key (keygen_of (host.which (codes "ssh-keygen") path))
          (host.make_parent key w)

  unfoldable pub keyed :
      Option Text → Text → Result Text (Unit {0}) × W → (List HostError × CheckHostResult) × W
  keyed code key (ok u, w) =
      (([], record { passed = true; ovmf_code = code; ssh_key = some key }), w)
  keyed code key (err text, w) =
      ((no_key text ∷ [], record { passed = false; ovmf_code = code; ssh_key = none }), w)

  unfoldable pub reported :
      CheckHostEnv → List HostError → W → (List HostError × CheckHostResult) × W
  unfolding keyed
  reported env (e ∷ es) w =
      ((e ∷ es, record { passed = false; ovmf_code = found_code env; ssh_key = none }), w)
  reported env [] w =
      let key = ssh_private_key env.cache_dir in
      keyed (found_code env) key (ensure_ssh_key key env.path w)

  unfoldable pub check_host : CheckHostEnv → W → (List HostError × CheckHostResult) × W
  unfolding reported
  check_host env w = reported env (host_errors env) w
