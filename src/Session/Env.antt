-- ===== src/Session/Env.antt =====
-- strataqemu/session.py: the Wayland socket, the Hyprland instance, and the exported environment.
pub mod Newest
use strata_qemu_testing.Base.{
  ℕ, Bool, true, false, not, Option, none, some, List, [], ◌∷◌, ◌++◌, leb, if◌then◌else◌, Result,
  ok, err, ◌>>=◌,
}
use strata_qemu_testing.Base.Text.{Text, codes, is_empty, starts_with, decimal}
use strata_qemu_testing.Session.Select.{
  SessionError, no_wayland_socket, ShowSession, select_wayland_session,
}

-- One name in a directory listing; the time of change in nanoseconds.
pub record FsEntry : Type 0 where
  pub name : Text
  pub is_socket : Bool
  pub is_dir : Bool
  pub mtime : ℕ

pub record GraphicalSession : Type 0 where
  pub sid : Text
  pub uid : ℕ
  pub env : List (Text × Text)

unfoldable pub choose_wayland_display : List FsEntry → Result SessionError Text
choose_wayland_display [] = err no_wayland_socket
choose_wayland_display (entry ∷ rest) =
    if not (starts_with entry.name (codes "wayland-"))
    then choose_wayland_display rest
    else if entry.is_socket
    then ok entry.name
    else choose_wayland_display rest

-- `max(dirs, key=mtime)`: the first of the largest, with the best so far
unfoldable pub newest : FsEntry → List FsEntry → FsEntry
newest best [] = best
newest best (entry ∷ rest) = newest (if leb entry.mtime best.mtime then best else entry) rest

-- `[entry for entry in entries if entry.is_dir]`
unfoldable pub dirs : List FsEntry → List FsEntry
dirs [] = []
dirs (entry ∷ rest) = if entry.is_dir then entry ∷ dirs rest else dirs rest

unfoldable pub newest_name : List FsEntry → Option Text
unfolding newest
newest_name [] = none
newest_name (entry ∷ rest) = some (newest entry rest).name

unfoldable pub choose_hyprland_instance : List FsEntry → Option Text
unfolding dirs newest_name
choose_hyprland_instance entries = newest_name (dirs entries)

-- `f"/run/user/{uid}"`
abbrev pub runtime_dir : ℕ → Text
runtime_dir uid = codes "/run/user/" ++ decimal uid

abbrev hyprland_env : Option Text → List (Text × Text)
hyprland_env none = []
hyprland_env (some instance_) =
    if is_empty instance_ then [] else (codes "HYPRLAND_INSTANCE_SIGNATURE", instance_) ∷ []

unfoldable pub session_env : ℕ → Text → Option Text → List (Text × Text)
session_env uid wayland_display hyprland_instance =
    (codes "XDG_RUNTIME_DIR", runtime_dir uid)
    ∷ (codes "DBUS_SESSION_BUS_ADDRESS", codes "unix:path=" ++ (runtime_dir uid ++ codes "/bus"))
    ∷ (codes "WAYLAND_DISPLAY", wayland_display)
    ∷ hyprland_env hyprland_instance

-- The listings of the runtime directory and of its `hypr/`, as `_as_entries` reads them.
unfoldable pub target_graphical_session :
    ℕ
    → Text
    → ShowSession
    → Option (List FsEntry)
    → List FsEntry
    → Option Text
    → Result SessionError GraphicalSession
target_graphical_session uid list_sessions_text show runtime_entries hypr_entries ssh = do
  sid ← select_wayland_session show uid ssh list_sessions_text
  entries ← elim runtime_entries [ none ↦ err no_wayland_socket | some entries ↦ ok entries ]
  display ← choose_wayland_display entries
  let hypr = choose_hyprland_instance hypr_entries
  ok (record { sid = sid; uid = uid; env = session_env uid display hypr })
