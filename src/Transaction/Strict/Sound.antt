-- ===== src/Transaction/Strict/Sound.antt =====
-- The strict check against what it means: the values and member names counted, the levels, and the
-- keys of each object (strict.rs, `Check`).
use Prim.Native.String.{String}
use policysql.Prelude.{
  ℕ, zero, suc, ◌+◌, ap, ◌∙◌, ◌≡◌, ◌≤◌, Bool, true, false, ◌&&◌, not, Option, List, [], ◌∷◌, arith,
  str_eq, any, usize_max, if◌then◌else◌,
}
use policysql.Transaction.Canonical.{Json, Items, Fields}
use policysql.Transaction.Strict.{
  Walk, proceed, over, count, check_value, check_items, check_fields,
}

-- The values and member names.
unfoldable mutual
  pub size : Json → ℕ
  size (Json.array items) = 1 + items_size items
  size (Json.object members) = 1 + fields_size members
  size _ = 1

  pub items_size : Items → ℕ
  items_size Items.no_items = 0
  items_size (Items.item v rest) = size v + items_size rest

  pub fields_size : Fields → ℕ
  fields_size Fields.no_fields = 0
  fields_size (Fields.field k v rest) = 1 + size v + fields_size rest

-- At most so many levels, and no key twice in an object.
unfoldable mutual
  pub is_strict : ℕ → Json → Bool
  is_strict left Json.null = true
  is_strict left (Json.bool b) = true
  is_strict left (Json.number m) = true
  is_strict left (Json.string s) = true
  is_strict zero (Json.array items) = false
  is_strict (suc left) (Json.array items) = items_strict left items
  is_strict zero (Json.object members) = false
  is_strict (suc left) (Json.object members) = fields_strict left [] members

  pub items_strict : ℕ → Items → Bool
  items_strict left Items.no_items = true
  items_strict left (Items.item v rest) = is_strict left v && items_strict left rest

  pub fields_strict : ℕ → List String → Fields → Bool
  fields_strict left seen Fields.no_fields = true
  fields_strict left seen (Fields.field k v rest) =
      not (any (λ s. str_eq s k) seen) && is_strict left v && fields_strict left (k ∷ seen) rest

sum1 : (n m : ℕ) → n + 1 + m ≡ n + (1 + m)
sum1 n m = omega arith

sum2 : (n m k : ℕ) → n + m + k ≡ n + (m + k)
sum2 n m k = omega arith

sum3 : (n m k : ℕ) → n + 1 + m + k ≡ n + (1 + m + k)
sum3 n m k = omega arith

if-new : (b : Bool) (x y : Walk) → not b ≡ true → (if b then x else y) ≡ y
if-new b x y h = ground arith

pub &&-left : (a b : Bool) → a && b ≡ true → a ≡ true
&&-left a b h = ground arith

pub &&-right : (a b : Bool) → a && b ≡ true → b ≡ true
&&-right a b h = ground arith

module _ (max : Option ℕ) where
  abbrev Passes : Json → Type 0
  Passes v =
      (left n : ℕ)
      → n + size v ≤ usize_max
      → is_strict left v ≡ true
      → over max (n + size v) ≡ false
      → check_value max left v n ≡ Walk.counted (n + size v)

  abbrev ItemsPass : Items → Type 0
  ItemsPass xs =
      (left n : ℕ)
      → n + items_size xs ≤ usize_max
      → items_strict left xs ≡ true
      → over max (n + items_size xs) ≡ false
      → check_items max left xs n ≡ Walk.counted (n + items_size xs)

  abbrev FieldsPass : Fields → Type 0
  FieldsPass fs =
      (left : ℕ) (seen : List String) (n : ℕ)
      → n + fields_size fs ≤ usize_max
      → fields_strict left seen fs ≡ true
      → over max (n + fields_size fs) ≡ false
      → check_fields max left seen fs n ≡ Walk.counted (n + fields_size fs)

  over_mono : (a b : ℕ) → a ≤ b → over max b ≡ false → over max a ≡ false
  over_mono a b h o = ground arith

  count-within :
      (n : ℕ) → n + 1 ≤ usize_max → over max (n + 1) ≡ false → count max n ≡ Walk.counted (n + 1)
  unfolding count
  count-within n small o = ground arith

  scalar-Passes :
      (left n : ℕ)
      → n + 1 ≤ usize_max
      → true ≡ true
      → over max (n + 1) ≡ false
      → count max n ≡ Walk.counted (n + 1)
  scalar-Passes left n small h o = count-within n small o

  array-Passes : (xs : Items) → ItemsPass xs → Passes (Json.array xs)
  unfolding check_value size is_strict
  array-Passes xs ih zero n small h o = cc
  array-Passes xs ih (suc left) n small h o =
      rw
        (count-within n (omega arith) (over_mono (n + 1) (n + (1 + items_size xs)) (omega arith) o))
        (rw (ih left (n + 1) (omega arith) h (rw (sum1 n (items_size xs)) o))
          (ap Walk.counted (omega arith)))

  object-Passes : (fs : Fields) → FieldsPass fs → Passes (Json.object fs)
  unfolding check_value size is_strict
  object-Passes fs ih zero n small h o = cc
  object-Passes fs ih (suc left) n small h o =
      rw
        (count-within n (omega arith)
          (over_mono (n + 1) (n + (1 + fields_size fs)) (omega arith) o))
        (rw (ih left [] (n + 1) (omega arith) h (rw (sum1 n (fields_size fs)) o))
          (ap Walk.counted (omega arith)))

  item-Passes : (v : Json) (xs : Items) → Passes v → ItemsPass xs → ItemsPass (Items.item v xs)
  unfolding check_items items_size items_strict
  item-Passes v xs ih ihs left n small h o =
      let m = n + size v in
      let first : check_value max left v n ≡ Walk.counted m =
        ih left n (omega arith) (&&-left (is_strict left v) (items_strict left xs) h)
          (over_mono m (n + (size v + items_size xs)) (omega arith) o) in
      let rest : check_items max left xs m ≡ Walk.counted (m + items_size xs) =
        ihs left m (omega arith) (&&-right (is_strict left v) (items_strict left xs) h)
          (rw (sum2 n (size v) (items_size xs)) o) in
      ap (λ w. proceed w (check_items max left xs)) first ∙ (rest ∙ ap Walk.counted (omega arith))

  field-Passes :
      (k : String) (v : Json) (fs : Fields)
      → Passes v
      → FieldsPass fs
      → FieldsPass (Fields.field k v fs)
  unfolding check_fields fields_size fields_strict
  field-Passes k v fs ih ihs left seen n small h o =
      let m = n + 1 + size v in
      let all = n + (1 + size v + fields_size fs) in
      let fresh = not (any (λ s. str_eq s k) seen) in
      let inside = fields_strict left (k ∷ seen) fs in
      let both = &&-left (fresh && is_strict left v) inside h in
      let first : check_value max left v (n + 1) ≡ Walk.counted m =
        ih left (n + 1) (omega arith) (&&-right fresh (is_strict left v) both)
          (over_mono m all (omega arith) o) in
      let rest : check_fields max left (k ∷ seen) fs m ≡ Walk.counted (m + fields_size fs) =
        ihs left (k ∷ seen) m (omega arith) (&&-right (fresh && is_strict left v) inside h)
          (rw (sum3 n (size v) (fields_size fs)) o) in
      rw (count-within n (omega arith) (over_mono (n + 1) all (omega arith) o)) (
        if-new (any (λ s. str_eq s k) seen) _ _ (&&-left fresh (is_strict left v) both)
        ∙ (ap (λ w. proceed w (check_fields max left (k ∷ seen) fs)) first
            ∙ (rest ∙ ap Walk.counted (omega arith))))

  -- A value within the levels, whose objects repeat no key, and whose values and member names are
  -- within the limit, passes, and each of them is counted once.
  pub check_value-passes :
      (v : Json) (left n : ℕ)
      → n + size v ≤ usize_max
      → is_strict left v ≡ true
      → over max (n + size v) ≡ false
      → check_value max left v n ≡ Walk.counted (n + size v)
  unfolding check_value check_items check_fields size items_size fields_size is_strict
  check_value-passes v = elim v as Passes ItemsPass FieldsPass [
    | Json.null ↦ scalar-Passes
    | Json.bool b ↦ scalar-Passes
    | Json.number m ↦ scalar-Passes
    | Json.string s ↦ scalar-Passes
    | Json.array (xs → ih) ↦ array-Passes xs ih
    | Json.object (fs → ih) ↦ object-Passes fs ih
    | Items.no_items ↦ λ left n small h o. ap Walk.counted (omega arith)
    | Items.item (w → ih) (xs → ihs) ↦ item-Passes w xs ih ihs
    | Fields.no_fields ↦ λ left seen n small h o. ap Walk.counted (omega arith)
    | Fields.field k (w → ih) (fs → ihs) ↦ field-Passes k w fs ih ihs
  ]
