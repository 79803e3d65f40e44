-- ===== src/Guest/Toml.antt =====
-- The values that `tomllib` gives, and Python's tests on them.
use strata_qemu_testing.Base.{
  ℕ, Bool, true, false, not, Option, none, some, List, [], ◌∷◌, if◌then◌else◌, ◌==◌,
}
use strata_qemu_testing.Base.Text.{Text, text_eq, is_empty}

-- `negsuc n` is -(n + 1).
pub data ℤ : Type 0 where
  pos : ℕ → ℤ
  negsuc : ℕ → ℤ

-- `other` is a float, a date or a time, with its truth value.
mutual
  pub data Value : Type 0 where
    str : Text → Value
    int : ℤ → Value
    bool : Bool → Value
    arr : Items → Value
    table : Fields → Value
    other : Bool → Value

  pub data Items : Type 0 where
    nil : Items
    cons : Value → Items → Items

  pub data Fields : Type 0 where
    end : Fields
    field : Text → Value → Fields → Fields

-- `data.get(key)`
unfoldable pub get : Text → Fields → Option Value
get key end = none
get key (field k v rest) = if text_eq key k then some v else get key rest

abbrev pub zero_int : ℤ → Bool
zero_int (pos n) = n == 0
zero_int (negsuc n) = false

-- `bool(value)`
unfoldable pub truthy : Value → Bool
truthy (str s) = not (is_empty s)
truthy (int n) = not (zero_int n)
truthy (bool b) = b
truthy (arr nil) = false
truthy (arr (cons v rest)) = true
truthy (table end) = false
truthy (table (field k v rest)) = true
truthy (other b) = b

-- `bool(data.get(key, False))`
unfoldable pub truthy_field : Option Value → Bool
unfolding truthy
truthy_field none = false
truthy_field (some v) = truthy v

-- The texts of a list, if all items are texts.
unfoldable pub strings : Items → Option (List Text)
strings nil = some []
strings (cons (str s) rest) = elim (strings rest) [ none ↦ none | some more ↦ some (s ∷ more) ]
strings (cons _ rest) = none

-- `data.get(key) or []`, tested to be a list of texts
unfoldable pub string_list : Option Value → Option (List Text)
unfolding truthy strings
string_list none = some []
string_list (some (arr items)) = strings items
string_list (some v) = if truthy v then none else some []
