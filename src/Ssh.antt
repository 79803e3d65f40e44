-- ===== src/Ssh.antt =====
-- strataqemu/ssh.py: the command lines of the OpenSSH client.
use strata_qemu_testing.Base.{
  ℕ, Bool, false, List, [], ◌∷◌, ◌++◌, if◌then◌else◌, Option, none, some,
}
use strata_qemu_testing.Base.Text.{Text, codes, contains, decimal}

-- DEFAULT_HOST
abbrev pub default_host : Text
default_host = codes "127.0.0.1"

-- POWEROFF_COMMAND
abbrev pub poweroff_command : Text
poweroff_command = codes "sudo systemctl poweroff"

unfoldable pub openssh_opts : Text → List Text
openssh_opts identity =
    codes "-i"
    ∷ identity
    ∷ codes "-o"
    ∷ codes "StrictHostKeyChecking=no"
    ∷ codes "-o"
    ∷ codes "UserKnownHostsFile=/dev/null"
    ∷ codes "-o"
    ∷ codes "IdentitiesOnly=yes"
    ∷ codes "-o"
    ∷ codes "BatchMode=yes"
    ∷ []

abbrev pub at_host : Text → Text → Text
at_host user host = user ++ (codes "@" ++ host)

-- `remote_command` as one text, or none
unfoldable pub ssh_command : ℕ → Text → Text → Text → Option Text → Bool → List Text
unfolding openssh_opts
ssh_command port identity host user remote_command pty =
    let start = if pty then codes "ssh" ∷ codes "-tt" ∷ [] else codes "ssh" ∷ [] in
    let target = codes "-p" ∷ decimal port ∷ at_host user host ∷ [] in
    start
    ++ (openssh_opts identity
        ++ (target ++ (elim remote_command [ none ↦ [] | some command ↦ command ∷ [] ])))

unfoldable pub scp_command : ℕ → Text → Text → Text → Text → Text → List Text
unfolding openssh_opts
scp_command port identity source destination host user =
    let dest =
      if contains destination (codes ":")
      then destination
      else at_host user host ++ (codes ":" ++ destination) in
    codes "scp" ∷ (openssh_opts identity ++ (codes "-P" ∷ decimal port ∷ source ∷ dest ∷ []))

unfoldable pub scp_download_command : ℕ → Text → Text → Text → Text → Text → List Text
unfolding openssh_opts
scp_download_command port identity remote_path local_path host user =
    codes "scp"
    ∷ (openssh_opts identity
        ++ (codes "-P"
            ∷ decimal port
            ∷ (at_host user host ++ (codes ":" ++ remote_path))
            ∷ local_path
            ∷ []))

unfoldable pub ssh_poweroff_command : ℕ → Text → Text → Text → List Text
unfolding ssh_command
ssh_poweroff_command port identity host user =
    ssh_command port identity host user (some poweroff_command) false
