-- ===== src/Guest/Recipe.antt =====
-- strataqemu/guest.py: the parts of a recipe.
use strata_qemu_testing.Base.{Bool, Option, List}
use strata_qemu_testing.Base.Text.{Text}
use strata_qemu_testing.Guest.Toml.{ℤ}

pub record Session : Type 0 where
  pub kind : Text
  pub display_manager : Text
  pub compositor : Text
  pub autologin : Bool
  pub wayland : Bool

pub record Packages : Type 0 where
  pub manager : Text
  pub snapshot_url : Option Text
  pub runtime : List Text

pub record User : Type 0 where
  pub name : Text
  pub groups : List Text

pub record Cidata : Type 0 where
  pub disk : Text
  pub encrypt : Bool

pub record Guest : Type 0 where
  pub id : Text
  pub arch : Text
  pub firmware : Text
  pub source_kind : Text
  pub source_url : Text
  pub source_sha256 : Text
  pub download_name : Text
  pub disk_gb : ℤ
  pub memory_mib : ℤ
  pub cpus : ℤ
  pub build_timeout_s : ℤ
  pub boot_timeout_s : ℤ
  pub ovmf_code : Option Text
  pub ovmf_vars_template : Option Text
  pub session : Session
  pub packages : Packages
  pub user : User
  pub cidata : Option Cidata
  pub recipe_dir : Text
