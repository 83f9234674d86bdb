-- ===== src/Transaction/Strict/Reads.antt =====
-- What the strict check accepts, `canonical::parse` reads: the strict check of a body stands before
-- its reading (strict.rs, `Check`; canonical.rs, `ValueVisitor`).
use Prim.Native.String.{String}
use policysql.Prelude.{
  ℕ, zero, suc, ◌≡◌, refl, Bool, true, false, ◌&&◌, not, Option, List, [], ◌∷◌, arith, str_eq, any,
  if◌then◌else◌,
}
use policysql.Transaction.Canonical.{Json, Items, Fields}
use policysql.Transaction.Strict.{
  StrictError, Walk, proceed, count, check_value, check_items, check_fields,
}
use policysql.Transaction.Strict.Sound.{is_strict, items_strict, fields_strict}

proceed-inv :
    (w : Walk) (next : ℕ → Walk) (m : ℕ)
    → proceed w next ≡ Walk.counted m
    → (k : ℕ) × (w ≡ Walk.counted k) × (next k ≡ Walk.counted m)
proceed-inv (Walk.counted k) next m h = (k, refl, h)
proceed-inv (Walk.broke e) next m h = cc

if-new-inv :
    (b : Bool) (e : StrictError) (w : Walk) (m : ℕ)
    → (if b then Walk.broke e else w) ≡ Walk.counted m
    → (not b ≡ true) × (w ≡ Walk.counted m)
if-new-inv true e w m h = cc
if-new-inv false e w m h = (refl, h)

and : (a b : Bool) → a ≡ true → b ≡ true → a && b ≡ true
and a b h k = ground arith

module _ (max : Option ℕ) where
  abbrev Strict : Json → Type 0
  Strict v = (left n m : ℕ) → check_value max left v n ≡ Walk.counted m → is_strict left v ≡ true

  abbrev StrictItems : Items → Type 0
  StrictItems xs =
      (left n m : ℕ) → check_items max left xs n ≡ Walk.counted m → items_strict left xs ≡ true

  abbrev StrictFields : Fields → Type 0
  StrictFields fs =
      (left : ℕ) (seen : List String) (n m : ℕ)
      → check_fields max left seen fs n ≡ Walk.counted m
      → fields_strict left seen fs ≡ true

  array-Strict : (xs : Items) → StrictItems xs → Strict (Json.array xs)
  unfolding check_value is_strict
  array-Strict xs ih zero n m h = cc
  array-Strict xs ih (suc left) n m h =
      let (k, c, r) = proceed-inv (count max n) (check_items max left xs) m h in ih left k m r

  object-Strict : (fs : Fields) → StrictFields fs → Strict (Json.object fs)
  unfolding check_value is_strict
  object-Strict fs ih zero n m h = cc
  object-Strict fs ih (suc left) n m h =
      let (k, c, r) = proceed-inv (count max n) (check_fields max left [] fs) m h in
      ih left [] k m r

  item-Strict : (v : Json) (xs : Items) → Strict v → StrictItems xs → StrictItems (Items.item v xs)
  unfolding check_items items_strict
  item-Strict v xs ih ihs left n m h =
      let (k, c, r) = proceed-inv (check_value max left v n) (check_items max left xs) m h in
      and (is_strict left v) (items_strict left xs) (ih left n k c) (ihs left k m r)

  field-Strict :
      (key : String) (v : Json) (fs : Fields)
      → Strict v
      → StrictFields fs
      → StrictFields (Fields.field key v fs)
  unfolding check_fields fields_strict
  field-Strict key v fs ih ihs left seen n m h =
      let more =
        λ (k : ℕ). proceed (check_value max left v k) (check_fields max left (key ∷ seen) fs) in
      let old = any (λ s. str_eq s key) seen in
      let next = λ (k : ℕ). if old then Walk.broke StrictError.duplicate_key else more k in
      let (k, c, r) = proceed-inv (count max n) next m h in
      let (new, s) = if-new-inv old StrictError.duplicate_key (more k) m r in
      let (j, d, t) =
        proceed-inv (check_value max left v k) (check_fields max left (key ∷ seen) fs) m s in
      and (not old && is_strict left v) (fields_strict left (key ∷ seen) fs)
        (and (not old) (is_strict left v) new (ih left k j d)) (ihs left (key ∷ seen) j m t)

  -- A value that the check passes has no object or array deeper than the levels it was checked with,
  -- and no object in it repeats a key.
  pub check_value-is_strict :
      (v : Json) (left n m : ℕ)
      → check_value max left v n ≡ Walk.counted m
      → is_strict left v ≡ true
  unfolding check_value check_items check_fields is_strict
  check_value-is_strict v = elim v as Strict StrictItems StrictFields [
    | Json.null ↦ λ left n m h. refl
    | Json.bool b ↦ λ left n m h. refl
    | Json.number x ↦ λ left n m h. refl
    | Json.string s ↦ λ left n m h. refl
    | Json.array (xs → ih) ↦ array-Strict xs ih
    | Json.object (fs → ih) ↦ object-Strict fs ih
    | Items.no_items ↦ λ left n m h. refl
    | Items.item (w → ih) (xs → ihs) ↦ item-Strict w xs ih ihs
    | Fields.no_fields ↦ λ left seen n m h. refl
    | Fields.field k (w → ih) (fs → ihs) ↦ field-Strict k w fs ih ihs
  ]
