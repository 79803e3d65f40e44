-- ===== src/Cloudinit/Json.antt =====
-- The values that `json.loads` gives, and Python's tests on them.
use strata_qemu_testing.Base.{
  not, ℕ, suc, Bool, true, false, ◌%◌, Option, none, some, if◌then◌else◌, ◌==◌,
}
use strata_qemu_testing.Base.Text.{Text, text_eq, is_empty}

-- `negative n` is -(n + 1); `float` has its truth value.
mutual
  pub data Json : Type 0 where
    null : Json
    bool : Bool → Json
    number : ℕ → Json
    negative : ℕ → Json
    float : Bool → Json
    string : Text → Json
    list : Items → Json
    object : Fields → Json

  pub data Items : Type 0 where
    nil : Items
    cons : Json → Items → Items

  pub data Fields : Type 0 where
    end : Fields
    field : Text → Json → Fields → Fields

-- `data.get(key)`, with nothing where the key is missing; the keys are distinct
unfoldable pub get : Text → Fields → Option Json
get key end = none
get key (field k v rest) = if text_eq key k then some v else get key rest

-- `isinstance(value, dict)`, with the dictionary
abbrev pub as_object : Option Json → Option Fields
as_object (some (object fields)) = some fields
as_object _ = none

-- `value == text`
abbrev pub is_string : Option Json → Text → Bool
is_string (some (string s)) t = text_eq s t
is_string _ t = false

-- `value is None`
abbrev pub is_missing : Option Json → Bool
is_missing none = true
is_missing (some null) = true
is_missing (some _) = false

-- What a non-empty list holds.
abbrev pub as_items : Option Json → Option Items
as_items (some (list (cons v rest))) = some (cons v rest)
as_items _ = none

-- `isinstance(value, int) and not value % unit`: a truth value is an integer
abbrev pub is_multiple : ℕ → Option Json → Bool
is_multiple unit (some (number n)) = (n % unit) == 0
is_multiple unit (some (negative n)) = (suc n % unit) == 0
is_multiple unit (some (bool b)) = if b then (1 % unit) == 0 else true
is_multiple unit _ = false

-- Where a value stands in a list.
pub data In (v : Json) : Items → Type 0 where
  here : {rest : Items} → In v (cons v rest)
  there : {w : Json} {rest : Items} → In v rest → In v (cons w rest)

-- `bool(value)`
unfoldable pub truthy : Json → Bool
truthy null = false
truthy (bool b) = b
truthy (number n) = not (n == 0)
truthy (negative n) = true
truthy (float b) = b
truthy (string s) = not (is_empty s)
truthy (list nil) = false
truthy (list (cons v rest)) = true
truthy (object end) = false
truthy (object (field k v rest)) = true
