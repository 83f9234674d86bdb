-- ===== src/Transaction/Canonical/Built.antt =====
-- What `parse` accepts (canonical.rs, `ValueVisitor`): at most 64 levels, and members in order of
-- their keys, none repeated; and such a value is read as itself.
use Prim.Native.String.{String}
use policysql.Prelude.{
  ℕ, zero, suc, ◌≡◌, refl, Bool, true, false, ◌&&◌, not, some, arith, bind-rule,
}
use policysql.Transaction.Canonical.{
  Json, Items, Fields, key_le, insert_field, sort_fields, has_repeat, build, build_items,
  build_fields, object_of,
}
use policysql.Transaction.Canonical.Order.{key_le-total}
use policysql.Transaction.Machine.State.{f64_is_finite}
use policysql.Transaction.Machine.Value.{Number}

-- Members in key order.
unfoldable pub in_order : Fields → Bool
in_order Fields.no_fields = true
in_order (Fields.field k v Fields.no_fields) = true
in_order (Fields.field k v (Fields.field l w rest)) =
    let more = in_order (Fields.field l w rest) in key_le k l && more

abbrev pub finite : Number → Bool
finite (Number.float bits) = f64_is_finite bits
finite n = true

-- What `parse` builds: nested at most so many levels, the members of each object in order.
unfoldable mutual
  unfolding in_order has_repeat

  pub is_built : ℕ → Json → Bool
  is_built left Json.null = true
  is_built left (Json.bool b) = true
  is_built left (Json.number n) = finite n
  is_built left (Json.string s) = true
  is_built zero (Json.array items) = false
  is_built (suc left) (Json.array items) = items_built left items
  is_built zero (Json.object members) = false
  is_built (suc left) (Json.object members) =
      fields_built left members && in_order members && not (has_repeat members)

  pub items_built : ℕ → Items → Bool
  items_built left Items.no_items = true
  items_built left (Items.item v rest) = is_built left v && items_built left rest

  pub fields_built : ℕ → Fields → Bool
  fields_built left Fields.no_fields = true
  fields_built left (Fields.field k v rest) = is_built left v && fields_built left rest

insert_field-in_order :
    (k : String) (v : Json) (fs : Fields)
    → in_order fs ≡ true
    → in_order (insert_field k v fs) ≡ true
unfolding insert_field in_order
insert_field-in_order k v Fields.no_fields h = refl
insert_field-in_order k v (Fields.field l w Fields.no_fields) h = ground (arith, key_le-total k l)
insert_field-in_order k v (Fields.field l w (Fields.field m x rest)) h =
    ground
      (arith, key_le-total k l, key_le-total k m, insert_field-in_order k v (Fields.field m x rest))

sort_fields-in_order : (fs : Fields) → in_order (sort_fields fs) ≡ true
unfolding sort_fields in_order
sort_fields-in_order Fields.no_fields = refl
sort_fields-in_order (Fields.field k v rest) =
    insert_field-in_order k v (sort_fields rest) (sort_fields-in_order rest)

insert_field-built :
    (left : ℕ) (k : String) (v : Json) (fs : Fields)
    → is_built left v ≡ true
    → fields_built left fs ≡ true
    → fields_built left (insert_field k v fs) ≡ true
unfolding fields_built insert_field
insert_field-built left k v Fields.no_fields h hs = ground arith
insert_field-built left k v (Fields.field l w rest) h hs =
    ground (arith, insert_field-built left k v rest h)

sort_fields-built :
    (left : ℕ) (fs : Fields)
    → fields_built left fs ≡ true
    → fields_built left (sort_fields fs) ≡ true
unfolding fields_built sort_fields
sort_fields-built left Fields.no_fields h = refl
sort_fields-built left (Fields.field k v rest) h =
    ground (arith, insert_field-built left k v (sort_fields rest), sort_fields-built left rest)

object-is_built :
    (left : ℕ) (fs : Fields) (w : Json)
    → fields_built left fs ≡ true
    → object_of (sort_fields fs) ≡ some w
    → is_built (suc left) w ≡ true
unfolding is_built
object-is_built left fs w h e = ground (arith, sort_fields-built left fs, sort_fields-in_order fs)

abbrev Builds : Json → Type 0
Builds v = (left : ℕ) (w : Json) → build left v ≡ some w → is_built left w ≡ true

abbrev BuildsItems : Items → Type 0
BuildsItems xs =
    (left : ℕ) (ys : Items) → build_items left xs ≡ some ys → items_built left ys ≡ true

abbrev BuildsFields : Fields → Type 0
BuildsFields fs =
    (left : ℕ) (gs : Fields) → build_fields left fs ≡ some gs → fields_built left gs ≡ true

array-Builds : (xs : Items) → BuildsItems xs → Builds (Json.array xs)
unfolding build is_built
array-Builds xs ih zero w e = cc
array-Builds xs ih (suc left) w e =
    bind-rule (build_items left xs) e λ ys built e1. ground (arith, ih left ys)

object-Builds : (fs : Fields) → BuildsFields fs → Builds (Json.object fs)
unfolding build
object-Builds fs ih zero w e = cc
object-Builds fs ih (suc left) w e =
    bind-rule (build_fields left fs) e
      λ gs built e1. object-is_built left gs w (ih left gs built) e1

item-Builds : (v : Json) (xs : Items) → Builds v → BuildsItems xs → BuildsItems (Items.item v xs)
unfolding build_items items_built
item-Builds v xs ih ihs left ys e = bind-rule (build left v) e λ w built e1.
    bind-rule (build_items left xs) e1 λ ws more e2. ground (arith, ih left w, ihs left ws)

field-Builds :
    (k : String) (v : Json) (fs : Fields)
    → Builds v
    → BuildsFields fs
    → BuildsFields (Fields.field k v fs)
unfolding build_fields fields_built
field-Builds k v fs ih ihs left gs e = bind-rule (build left v) e λ w built e1.
    bind-rule (build_fields left fs) e1 λ ws more e2. ground (arith, ih left w, ihs left ws)

-- Whatever events serde_json reports, what is built of them nests at most as deep as allowed, and the
-- members of each of its objects stand in the order of their keys, none repeated.
pub build-is_built :
    (v : Json) (left : ℕ) (w : Json) → build left v ≡ some w → is_built left w ≡ true
unfolding build is_built build_items build_fields items_built fields_built
build-is_built v = elim v as Builds BuildsItems BuildsFields [
  | Json.null ↦ λ left w e. ground arith
  | Json.bool b ↦ λ left w e. ground arith
  | Json.number n ↦ λ left w e. ground arith
  | Json.string s ↦ λ left w e. ground arith
  | Json.array (xs → ih) ↦ array-Builds xs ih
  | Json.object (fs → ih) ↦ object-Builds fs ih
  | Items.no_items ↦ λ left w e. ground arith
  | Items.item (w → ih) (xs → ihs) ↦ item-Builds w xs ih ihs
  | Fields.no_fields ↦ λ left w e. ground arith
  | Fields.field k (w → ih) (fs → ihs) ↦ field-Builds k w fs ih ihs
]
