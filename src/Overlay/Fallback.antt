-- ===== src/Overlay/Fallback.antt =====
-- strataqemu/overlay.py: what the fallback of `create_overlay` runs.
use strata_qemu_testing.Base.{◌≡◌, refl, false, [], ◌∷◌}
use strata_qemu_testing.Base.Text.{Text, codes, text_eq, contains, split_on, starts_with}
use strata_qemu_testing.Overlay.{create_overlay_argv, kept_parts, without_backing_file_strict}

-- Without the strict backing file the command line has the same words in the same order, the absolute
-- backing file among them, and only the option and its value are gone; the program and the backing file
-- are not spelled like that option.
pub without_backing_file_strict-create_overlay_argv :
    (resolve : Text → Text) (golden overlay qemu_img : Text)
    → text_eq qemu_img (codes "-o") ≡ false
    → text_eq (resolve golden) (codes "-o") ≡ false
    → without_backing_file_strict (create_overlay_argv resolve golden overlay qemu_img)
      ≡ qemu_img
        ∷ codes "create"
        ∷ codes "-f"
        ∷ codes "qcow2"
        ∷ codes "-F"
        ∷ codes "qcow2"
        ∷ codes "-b"
        ∷ resolve golden
        ∷ overlay
        ∷ []
unfolding without_backing_file_strict create_overlay_argv kept_parts text_eq contains starts_with
    split_on
without_backing_file_strict-create_overlay_argv resolve golden overlay qemu_img program backing =
    rw (program, backing) refl
