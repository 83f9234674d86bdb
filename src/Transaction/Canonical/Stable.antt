-- ===== src/Transaction/Canonical/Stable.antt =====
-- What was built once is built again as itself (canonical.rs, `ValueVisitor`).
use Prim.Native.String.{String}
use policysql.Prelude.{ℕ, zero, suc, ◌≡◌, refl, true, some, arith}
use policysql.Transaction.Canonical.{
  Json, Items, Fields, insert_field, sort_fields, build, build_items, build_fields,
}
use policysql.Transaction.Canonical.Built.{
  in_order, is_built, items_built, fields_built, build-is_built,
}

sort_fields-same : (fs : Fields) → in_order fs ≡ true → sort_fields fs ≡ fs
unfolding sort_fields in_order insert_field
sort_fields-same Fields.no_fields h = refl
sort_fields-same (Fields.field k v Fields.no_fields) h = refl
sort_fields-same (Fields.field k v (Fields.field l w rest)) h =
    ground (arith, sort_fields-same (Fields.field l w rest))

abbrev Keeps : Json → Type 0
Keeps v = (left : ℕ) → is_built left v ≡ true → build left v ≡ some v

abbrev KeepsItems : Items → Type 0
KeepsItems xs = (left : ℕ) → items_built left xs ≡ true → build_items left xs ≡ some xs

abbrev KeepsFields : Fields → Type 0
KeepsFields fs = (left : ℕ) → fields_built left fs ≡ true → build_fields left fs ≡ some fs

array-Keeps : (xs : Items) → KeepsItems xs → Keeps (Json.array xs)
unfolding build is_built
array-Keeps xs ih zero h = cc
array-Keeps xs ih (suc left) h = ground (arith, ih left)

object-Keeps : (fs : Fields) → KeepsFields fs → Keeps (Json.object fs)
unfolding build is_built
object-Keeps fs ih zero h = cc
object-Keeps fs ih (suc left) h = ground (arith, ih left, sort_fields-same fs)

item-Keeps : (v : Json) (xs : Items) → Keeps v → KeepsItems xs → KeepsItems (Items.item v xs)
unfolding build_items items_built
item-Keeps v xs ih ihs left h = ground (arith, ih left, ihs left)

field-Keeps :
    (k : String) (v : Json) (fs : Fields)
    → Keeps v
    → KeepsFields fs
    → KeepsFields (Fields.field k v fs)
unfolding build_fields fields_built
field-Keeps k v fs ih ihs left h = ground (arith, ih left, ihs left)

build-same : (v : Json) (left : ℕ) → is_built left v ≡ true → build left v ≡ some v
unfolding build is_built build_items build_fields items_built fields_built
build-same v = elim v as Keeps KeepsItems KeepsFields [
  | Json.null ↦ λ left h. refl
  | Json.bool b ↦ λ left h. refl
  | Json.number n ↦ λ left h. ground arith
  | Json.string s ↦ λ left h. refl
  | Json.array (xs → ih) ↦ array-Keeps xs ih
  | Json.object (fs → ih) ↦ object-Keeps fs ih
  | Items.no_items ↦ λ left h. refl
  | Items.item (w → ih) (xs → ihs) ↦ item-Keeps w xs ih ihs
  | Fields.no_fields ↦ λ left h. refl
  | Fields.field k (w → ih) (fs → ihs) ↦ field-Keeps k w fs ih ihs
]

-- Building is idempotent: what was built of a text's events is built as itself.
pub build-idempotent :
    (v : Json) (left : ℕ) (w : Json) → build left v ≡ some w → build left w ≡ some w
build-idempotent v left w e = build-same w left (build-is_built v left w e)
