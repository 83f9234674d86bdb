-- ===== src/Transaction/Strict/Builds.antt =====
-- A body the strict check accepts is one `canonical::parse` builds, and `ValueVisitor` finds no
-- repeated key in it (strict.rs, `Check`; canonical.rs, `ValueVisitor`).
use Prim.Native.String.{String}
use text.Mathlib.TextEquality.{eq_iff}
use policysql.Prelude.{
  ℕ, zero, suc, ◌≡◌, refl, ap, ◌∙◌, Bool, true, false, ◌&&◌, not, Option, some, List, [], ◌∷◌,
  arith, str_eq, any,
}
use policysql.Transaction.Canonical.{
  Json, Items, Fields, insert_field, sort_fields, has_repeat, build, build_items, build_fields,
  object_of,
}
use policysql.Transaction.Machine.Value.{Number}
use policysql.Transaction.Canonical.Built.{finite}
use policysql.Transaction.Strict.{Walk, check_value}
use policysql.Transaction.Strict.Sound.{is_strict, items_strict, fields_strict, &&-left, &&-right}
use policysql.Transaction.Strict.Reads.{check_value-is_strict}

-- Every double in the value is finite.
unfoldable mutual
  pub all_finite : Json → Bool
  all_finite (Json.number n) = finite n
  all_finite (Json.array items) = items_finite items
  all_finite (Json.object members) = fields_finite members
  all_finite _ = true

  pub items_finite : Items → Bool
  items_finite Items.no_items = true
  items_finite (Items.item v rest) = all_finite v && items_finite rest

  pub fields_finite : Fields → Bool
  fields_finite Fields.no_fields = true
  fields_finite (Fields.field k v rest) = all_finite v && fields_finite rest

-- The value with the members of each object in order of their keys.
unfoldable mutual
  unfolding sort_fields

  pub in_key_order : Json → Json
  in_key_order Json.null = Json.null
  in_key_order (Json.bool b) = Json.bool b
  in_key_order (Json.number n) = Json.number n
  in_key_order (Json.string s) = Json.string s
  in_key_order (Json.array items) = Json.array (items_ordered items)
  in_key_order (Json.object members) = Json.object (sort_fields (fields_ordered members))

  pub items_ordered : Items → Items
  items_ordered Items.no_items = Items.no_items
  items_ordered (Items.item v rest) = Items.item (in_key_order v) (items_ordered rest)

  pub fields_ordered : Fields → Fields
  fields_ordered Fields.no_fields = Fields.no_fields
  fields_ordered (Fields.field k v rest) = Fields.field k (in_key_order v) (fields_ordered rest)

-- No member has the name, and no two have one name.
unfoldable absent : String → Fields → Bool
absent key Fields.no_fields = true
absent key (Fields.field k v rest) = not (str_eq k key) && absent key rest

unfoldable distinct : Fields → Bool
unfolding absent
distinct Fields.no_fields = true
distinct (Fields.field k v rest) = absent k rest && distinct rest

absent-insert_field :
    (key k : String) (v : Json) (fs : Fields)
    → absent key (insert_field k v fs) ≡ not (str_eq k key) && absent key fs
unfolding absent insert_field
absent-insert_field key k v Fields.no_fields = refl
absent-insert_field key k v (Fields.field l w fs) = ground (arith, absent-insert_field key k v fs)

absent-sort_fields : (key : String) (fs : Fields) → absent key (sort_fields fs) ≡ absent key fs
unfolding sort_fields absent
absent-sort_fields key Fields.no_fields = refl
absent-sort_fields key (Fields.field k v fs) =
    absent-insert_field key k v (sort_fields fs)
    ∙ ap (λ b. not (str_eq k key) && b) (absent-sort_fields key fs)

str_eq-sym : (k l : String) → str_eq k l ≡ str_eq l k
str_eq-sym k l = ground (arith, eq_iff k l, eq_iff l k)

insert_field-has_repeat :
    (k : String) (v : Json) (fs : Fields)
    → absent k fs ≡ true
    → has_repeat fs ≡ false
    → has_repeat (insert_field k v fs) ≡ false
unfolding absent insert_field has_repeat
insert_field-has_repeat k v Fields.no_fields h r = refl
insert_field-has_repeat k v (Fields.field l w Fields.no_fields) h r = ground (arith, str_eq-sym k l)
insert_field-has_repeat k v (Fields.field l w (Fields.field m x rest)) h r =
    ground
      (arith, str_eq-sym k l, str_eq-sym k m, insert_field-has_repeat k v (Fields.field m x rest))

sort_fields-has_repeat : (fs : Fields) → distinct fs ≡ true → has_repeat (sort_fields fs) ≡ false
unfolding sort_fields distinct has_repeat
sort_fields-has_repeat Fields.no_fields h = refl
sort_fields-has_repeat (Fields.field k v fs) h =
    insert_field-has_repeat k v (sort_fields fs)
      (absent-sort_fields k fs ∙ &&-left (absent k fs) (distinct fs) h)
      (sort_fields-has_repeat fs (&&-right (absent k fs) (distinct fs) h))

absent-fields_ordered :
    (key : String) (fs : Fields) → absent key (fields_ordered fs) ≡ absent key fs
unfolding fields_ordered absent
absent-fields_ordered key Fields.no_fields = refl
absent-fields_ordered key (Fields.field k v fs) =
    ap (λ b. not (str_eq k key) && b) (absent-fields_ordered key fs)

distinct-fields_ordered : (fs : Fields) → distinct (fields_ordered fs) ≡ distinct fs
unfolding fields_ordered distinct
distinct-fields_ordered Fields.no_fields = refl
distinct-fields_ordered (Fields.field k v fs) =
    ground (arith, absent-fields_ordered k fs, distinct-fields_ordered fs)

str_eq_refl : (k : String) → str_eq k k ≡ true
str_eq_refl k = ground (arith, eq_iff k k)

-- A key seen before is not among the members that follow.
fields_strict-absent :
    (left : ℕ) (seen : List String) (fs : Fields) (key : String)
    → fields_strict left seen fs ≡ true
    → any (λ s. str_eq s key) seen ≡ true
    → absent key fs ≡ true
unfolding fields_strict absent
fields_strict-absent left seen Fields.no_fields key h a = refl
fields_strict-absent left seen (Fields.field k v fs) key h a =
    ground (arith, h, fields_strict-absent left (k ∷ seen) fs key, eq_iff k key)

fields_strict-distinct :
    (left : ℕ) (seen : List String) (fs : Fields)
    → fields_strict left seen fs ≡ true
    → distinct fs ≡ true
unfolding fields_strict distinct
fields_strict-distinct left seen Fields.no_fields h = refl
fields_strict-distinct left seen (Fields.field k v fs) h = ground (
  arith,
  h,
  str_eq_refl k,
  fields_strict-absent left (k ∷ seen) fs k,
  fields_strict-distinct left (k ∷ seen) fs,
)

object_of-distinct :
    (fs : Fields)
    → distinct fs ≡ true
    → object_of (sort_fields (fields_ordered fs))
      ≡ some (Json.object (sort_fields (fields_ordered fs)))
object_of-distinct fs h =
    rw (sort_fields-has_repeat (fields_ordered fs) (distinct-fields_ordered fs ∙ h)) refl

abbrev Builds : Json → Type 0
Builds v =
    (left : ℕ)
    → is_strict left v ≡ true
    → all_finite v ≡ true
    → build left v ≡ some (in_key_order v)

abbrev BuildsItems : Items → Type 0
BuildsItems xs =
    (left : ℕ)
    → items_strict left xs ≡ true
    → items_finite xs ≡ true
    → build_items left xs ≡ some (items_ordered xs)

abbrev BuildsFields : Fields → Type 0
BuildsFields fs =
    (left : ℕ) (seen : List String)
    → fields_strict left seen fs ≡ true
    → fields_finite fs ≡ true
    → build_fields left fs ≡ some (fields_ordered fs)

number-Builds : (n : Number) → Builds (Json.number n)
unfolding build all_finite in_key_order
number-Builds (Number.unsigned n) left h f = refl
number-Builds (Number.negative n) left h f = refl
number-Builds (Number.float bits) left h f = rw f refl

array-Builds : (xs : Items) → BuildsItems xs → Builds (Json.array xs)
unfolding build is_strict all_finite in_key_order
array-Builds xs ih zero h f = cc
array-Builds xs ih (suc left) h f = rw (ih left h f) refl

object-Builds : (fs : Fields) → BuildsFields fs → Builds (Json.object fs)
unfolding build is_strict all_finite in_key_order
object-Builds fs ih zero h f = cc
object-Builds fs ih (suc left) h f =
    rw (ih left [] h f) (object_of-distinct fs (fields_strict-distinct left [] fs h))

item-Builds : (v : Json) (xs : Items) → Builds v → BuildsItems xs → BuildsItems (Items.item v xs)
unfolding build_items items_strict items_finite items_ordered
item-Builds v xs ih ihs left h f =
    rw
      (ih left (&&-left (is_strict left v) (items_strict left xs) h)
        (&&-left (all_finite v) (items_finite xs) f))
      (rw
        (ihs left (&&-right (is_strict left v) (items_strict left xs) h)
          (&&-right (all_finite v) (items_finite xs) f))
        refl)

field-Builds :
    (k : String) (v : Json) (fs : Fields)
    → Builds v
    → BuildsFields fs
    → BuildsFields (Fields.field k v fs)
unfolding build_fields fields_strict fields_finite fields_ordered
field-Builds k v fs ih ihs left seen h f =
    let fresh = not (any (λ s. str_eq s k) seen) in
    let inside = fields_strict left (k ∷ seen) fs in
    let both = &&-left (fresh && is_strict left v) inside h in
    rw
      (ih left (&&-right fresh (is_strict left v) both)
        (&&-left (all_finite v) (fields_finite fs) f))
      (rw
        (ihs left (k ∷ seen) (&&-right (fresh && is_strict left v) inside h)
          (&&-right (all_finite v) (fields_finite fs) f))
        refl)

is_strict-build : (v : Json) → Builds v
unfolding build build_items build_fields in_key_order items_ordered fields_ordered
is_strict-build v = elim v as Builds BuildsItems BuildsFields [
  | Json.null ↦ λ left h f. refl
  | Json.bool b ↦ λ left h f. refl
  | Json.number n ↦ number-Builds n
  | Json.string s ↦ λ left h f. refl
  | Json.array (xs → ih) ↦ array-Builds xs ih
  | Json.object (fs → ih) ↦ object-Builds fs ih
  | Items.no_items ↦ λ left h f. refl
  | Items.item (w → ih) (xs → ihs) ↦ item-Builds w xs ih ihs
  | Fields.no_fields ↦ λ left seen h f. refl
  | Fields.field k (w → ih) (fs → ihs) ↦ field-Builds k w fs ih ihs
]

-- A value that passes the strict check, its doubles finite, is read at the same number of levels,
-- as itself with the members of each object in order of their keys: no check of `parse` refuses it.
pub check_value-build :
    (max : Option ℕ) (v : Json) (left n m : ℕ)
    → check_value max left v n ≡ Walk.counted m
    → all_finite v ≡ true
    → build left v ≡ some (in_key_order v)
check_value-build max v left n m h f =
    is_strict-build v left (check_value-is_strict max v left n m h) f
