-- ===== src/Cloudinit/Aligned.antt =====
-- strataqemu/cloudinit.py: the partitions of an accepted configuration are aligned.
use strata_qemu_testing.Base.{
  Bool, true, false, Option, none, some, ok, ◌≡◌, bind_elim, guard_elim, guard-eq-ok, arith,
}
use strata_qemu_testing.Base.Text.{Text, codes}
use strata_qemu_testing.Cloudinit.Json.{
  Json, list, object, Items, nil, cons, Fields, get, as_object, is_string, as_items, is_multiple,
  In, here, there,
}
use strata_qemu_testing.Cloudinit.Validate.{
  CloudInitError, require, mib, validate_extent, validate_created, validate_partition,
  validate_each, validate_partitions, validate_item, validate_items, wrong_unit,
}

-- A number of whole mebibytes, in bytes, stands under the key.
pub record IsAligned (key : Text) (part : Fields) : Type 0 where
  pub blob : Fields
  pub is_blob : get key part ≡ some (object blob)
  pub bytes : is_string (get (codes "unit") blob) (codes "B") ≡ true
  pub multiple : is_multiple mib (get (codes "value") blob) ≡ true

-- Every partition to be created, of every device, starts and ends on a whole mebibyte.
abbrev pub AllAligned : Items → Type 0
AllAligned mods =
    (item part : Fields) (parts : Items)
    → In (object item) mods
    → get (codes "partitions") item ≡ some (list parts)
    → In (object part) parts
    → is_string (get (codes "status") part) (codes "create") ≡ true
    → IsAligned (codes "start") part × IsAligned (codes "size") part

pub require-object :
    (o : Option Json) (e : CloudInitError) {f : Fields}
    → require (as_object o) e ≡ ok f
    → o ≡ some (object f)
require-object none e h = cc
require-object (some (object f)) e h = ground arith
require-object (some _) e h = cc

pub require-items :
    (o : Option Json) (e : CloudInitError) {items : Items}
    → require (as_items o) e ≡ ok items
    → o ≡ some (list items)
require-items none e h = cc
require-items (some (list (cons v rest))) e h = ground arith
require-items (some (list nil)) e h = cc
require-items (some _) e h = cc

validate_extent-IsAligned :
    (part : Fields) (key : Text) {u : Unit {0}}
    → validate_extent part key ≡ ok u
    → IsAligned key part
unfolding validate_extent
validate_extent-IsAligned part key {u} h =
    bind_elim (require (as_object (get key part)) (wrong_unit key)) _ h λ blob is_blob h.
      guard_elim (is_string (get (codes "unit") blob) (codes "B")) _ _ h λ bytes h. record {
        blob = blob;
        is_blob = require-object (get key part) (wrong_unit key) {f = blob} is_blob;
        bytes = bytes;
        multiple = guard-eq-ok _ _ {u = u} h;
      }

validate_created-IsAligned :
    (test : Bool) (part : Fields) {u : Unit {0}}
    → validate_created test part ≡ ok u
    → test ≡ true
    → IsAligned (codes "start") part × IsAligned (codes "size") part
unfolding validate_created
validate_created-IsAligned false part h create = absurd (cc)
validate_created-IsAligned true part {u} h create =
    bind_elim (validate_extent part (codes "start")) _ h λ v start h. (
      validate_extent-IsAligned part (codes "start") {u = v} start,
      validate_extent-IsAligned part (codes "size") {u = u} h,
    )

validate_each-IsAligned :
    (parts : Items) {u : Unit {0}}
    → validate_each parts ≡ ok u
    → (part : Fields) → In (object part) parts
    → is_string (get (codes "status") part) (codes "create") ≡ true
    → IsAligned (codes "start") part × IsAligned (codes "size") part
unfolding validate_each validate_partition
validate_each-IsAligned nil h part i create = elim i [ ]
validate_each-IsAligned (cons p rest) {u} h part here create =
    bind_elim (validate_created (is_string (get (codes "status") part) (codes "create")) part) _ h
      λ v first _. validate_created-IsAligned _ part {u = v} first create
validate_each-IsAligned (cons p rest) {u} h part (there i) create =
    bind_elim (validate_partition p) _ h
      λ v first rest_ok. validate_each-IsAligned rest {u = u} rest_ok part i create

validate_item-each :
    (item : Fields) (parts : Items) {u : Unit {0}}
    → validate_item (object item) ≡ ok u
    → get (codes "partitions") item ≡ some (list parts)
    → validate_each parts ≡ ok u
unfolding validate_item validate_partitions
validate_item-each item parts h e = rw e at h

pub validate_items-AllAligned :
    (mods : Items) {u : Unit {0}} → validate_items mods ≡ ok u → AllAligned mods
unfolding validate_items
validate_items-AllAligned nil h item part parts i e j create = elim i [ ]
validate_items-AllAligned (cons m rest) {u} h item part parts here e j create =
    bind_elim (validate_item m) _ h λ v first _.
      validate_each-IsAligned parts {u = v} (validate_item-each item parts {u = v} first e) part j
        create
validate_items-AllAligned (cons m rest) {u} h item part parts (there i) e j create =
    bind_elim (validate_item m) _ h
      λ v first rest_ok. validate_items-AllAligned rest {u = u} rest_ok item part parts i e j create
