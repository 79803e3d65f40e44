-- ===== src/Guest/Fields.antt =====
-- strataqemu/guest.py: the readers of single fields, and the errors of the recipe.
use strata_qemu_testing.Base.{
  ℕ, Bool, not, ◌&&◌, ◌||◌, Option, none, some, List, [], ◌∷◌, ◌==◌, leb, if◌then◌else◌, Result, ok,
  err, ◌>>◌, guard, length, all, any,
}
use strata_qemu_testing.Base.Text.{
  Text, codes, text_eq, is_empty, strip, lower, ends_with, partition, split_on,
}
use strata_qemu_testing.Guest.Toml.{ℤ, Value, str, int, Fields, get}

-- `GuestError`, one constructor for each place that raises it.
pub data GuestError : Type 0 where
  missing_str : Text → GuestError
  invalid_int : Text → GuestError
  bad_source_filename separator_in_filename no_image_filename : GuestError
  sha256_required sha256_not_hex : GuestError
  bad_id separator_in_id : GuestError
  missing_file : Text → GuestError
  invalid_toml not_a_table : GuestError
  bad_firmware bad_source_kind undated_url : GuestError
  cidata_required cidata_not_table cidata_encrypted cidata_disk : GuestError
  missing_table : Text → GuestError
  bad_runtime bad_groups bad_snapshot bad_ovmf_code bad_ovmf_vars : GuestError
  no_recipe : Text → GuestError
  id_mismatch : Text → GuestError

abbrev pub Loaded {ℓ} : Type ℓ → Type ℓ
Loaded A = Result GuestError A

-- `_require_str` of a field's value
unfoldable pub require_str_value : Text → Option Value → Loaded Text
require_str_value key (some (str s)) =
    if is_empty (strip s) then err (missing_str key) else ok (strip s)
require_str_value key _ = err (missing_str key)

unfoldable pub require_str : Fields → Text → Loaded Text
unfolding require_str_value
require_str fields key = require_str_value key (get key fields)

-- `_require_int`: a Boolean is refused
unfoldable pub require_int_value : Text → Option Value → Loaded ℤ
require_int_value key (some (int n)) = ok n
require_int_value key _ = err (invalid_int key)

unfoldable pub require_int : Fields → Text → Loaded ℤ
unfolding require_int_value
require_int fields key = require_int_value key (get key fields)

-- `"/" in s or "\\" in s`
unfoldable pub has_separator : Text → Bool
has_separator s = any (λ c. (c == b'/') || (c == 92)) s

-- IMAGE_NAME_SUFFIXES
abbrev pub image_name_suffixes : List Text
image_name_suffixes =
    codes ".qcow2" ∷ codes ".img" ∷ codes ".iso" ∷ codes ".raw.xz" ∷ codes ".raw" ∷ []

-- `s.rstrip("/")`
unfoldable pub rstrip_slash : Text → Text
rstrip_slash [] = []
rstrip_slash (c ∷ s) = let r = rstrip_slash s in if is_empty r && (c == b'/') then [] else c ∷ r

-- `s.split("?", 1)[0]`
unfoldable pub before_query : Text → Text
before_query s = elim (partition b'?' s) [ none ↦ s | some (before, after) ↦ before ]

-- The last component that is neither empty nor a dot, with the last one so far.
unfoldable pub last_component : Text → List Text → Text
last_component best [] = best
last_component best (p ∷ ps) =
    last_component (if is_empty p || text_eq p (codes ".") then best else p) ps

-- `Path(s).name`
unfoldable pub path_name : Text → Text
unfolding last_component
path_name s = last_component [] (split_on b'/' s)

unfoldable pub url_name : Text → Text
unfolding before_query rstrip_slash path_name
url_name source_url = path_name (rstrip_slash (before_query source_url))

-- `_parse_download_name`
unfoldable pub parse_download_name : Option Value → Text → Loaded Text
unfolding url_name
parse_download_name none source_url =
    let name = url_name source_url in
    if any (λ suffix. ends_with (lower name) suffix) image_name_suffixes
    then ok name
    else err no_image_filename
parse_download_name (some (str raw)) source_url =
    if is_empty (strip raw)
    then err bad_source_filename
    else if has_separator (strip raw)
    then err separator_in_filename
    else ok (strip raw)
parse_download_name (some _) source_url = err bad_source_filename

unfoldable pub is_hex : ℕ → Bool
is_hex c = (leb b'0' c && leb c b'9') || (leb b'a' c && leb c b'f')

-- SHA256_HEX.fullmatch
unfoldable pub is_sha256 : Text → Bool
unfolding is_hex
is_sha256 s = (length s == 64) && all is_hex s

-- `_parse_source_sha256`
unfoldable pub parse_source_sha256 : Option Value → Loaded Text
unfolding is_sha256
parse_source_sha256 (some (str raw)) =
    if is_empty (strip raw)
    then err sha256_required
    else if is_sha256 (lower (strip raw))
    then ok (lower (strip raw))
    else err sha256_not_hex
parse_source_sha256 _ = err sha256_required

-- `_parse_id`
unfoldable pub parse_id : Text → Loaded Text
unfolding has_separator
parse_id raw = do
  guard (not (is_empty raw || any (λ c. c == b'.') raw)) bad_id
  guard (not (has_separator raw)) separator_in_id
  ok raw
