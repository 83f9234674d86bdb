-- ===== src/Transaction/Canonical/Lengths.antt =====
-- The computed length of a value against the text that the writer prints of it (canonical.rs,
-- `js_value_len` and `to_canonical`).
use Prim.Native.String.{String}
use policysql.Prelude.{ℕ, suc, ◌+◌, ◌-◌, ◌≡◌, refl, List, [], ◌∷◌, ◌++◌, arith, length}
use policysql.Transaction.Canonical.{Json, Items, Fields}
use policysql.Transaction.Canonical.Writer.{
  Printed, bytes, insert, sort, commas, texts, write_string, write_value, print_items, print_fields,
  js_string_len, js_value_len, items_len, fields_len, item_count, field_count,
}

pub bytes-append : (s t : List ℕ) → bytes (s ++ t) ≡ bytes s + bytes t
unfolding bytes
bytes-append [] t = omega arith
bytes-append (c ∷ s) t = omega (arith, bytes-append s t)

-- The bytes of all parts.
abbrev total : List (List ℕ) → ℕ
total [] = 0
total (t ∷ rest) = bytes t + total rest

bytes-commas : (ts : List (List ℕ)) → bytes (commas ts) ≡ total ts + (length ts - 1)
unfolding commas bytes
bytes-commas [] = refl
bytes-commas (t ∷ []) = omega arith
bytes-commas (t ∷ u ∷ rest) =
    omega (arith, bytes-append t (b',' ∷ commas (u ∷ rest)), bytes-commas (u ∷ rest))

total-insert :
    (p : Printed) (ps : List Printed)
    → (total (texts (insert p ps)) ≡ bytes p.1 + total (texts ps))
      × (length (texts (insert p ps)) ≡ suc (length (texts ps)))
unfolding texts insert
total-insert p [] = (refl, refl)
total-insert p (q ∷ rest) = ground (arith, total-insert p rest)

total-sort :
    (ps : List Printed)
    → (total (texts (sort ps)) ≡ total (texts ps)) × (length (texts (sort ps)) ≡ length (texts ps))
unfolding texts sort
total-sort [] = (refl, refl)
total-sort (p ∷ rest) = ground (arith, total-insert p (sort rest), total-sort rest)

module _ (float_text : ℕ → List ℕ) where
  length-print_items : (xs : Items) → length (print_items float_text xs) ≡ item_count xs
  unfolding print_items item_count
  length-print_items Items.no_items = refl
  length-print_items (Items.item v rest) = omega (arith, length-print_items rest)

  length-print_fields : (fs : Fields) → length (texts (print_fields float_text fs)) ≡ field_count fs
  unfolding print_fields field_count texts
  length-print_fields Fields.no_fields = refl
  length-print_fields (Fields.field k v rest) = omega (arith, length-print_fields rest)

  abbrev IsMeasured : Json → Type 0
  IsMeasured v = js_value_len float_text v ≡ bytes (write_value float_text v)

  abbrev ItemsMeasured : Items → Type 0
  ItemsMeasured xs = items_len float_text xs ≡ total (print_items float_text xs)

  abbrev FieldsMeasured : Fields → Type 0
  FieldsMeasured fs = fields_len float_text fs ≡ total (texts (print_fields float_text fs))

  item-measured :
      (v : Json) (rest : Items)
      → IsMeasured v
      → ItemsMeasured rest
      → ItemsMeasured (Items.item v rest)
  unfolding items_len print_items
  item-measured v rest h t = omega (arith, h, t)

  field-measured :
      (k : String) (v : Json) (rest : Fields)
      → IsMeasured v
      → FieldsMeasured rest
      → FieldsMeasured (Fields.field k v rest)
  unfolding fields_len print_fields texts js_string_len bytes
  field-measured k v rest h t =
      omega (arith, h, t, bytes-append (write_string k) (b':' ∷ write_value float_text v))

  array-IsMeasured : (xs : Items) → ItemsMeasured xs → IsMeasured (Json.array xs)
  unfolding js_value_len write_value bytes
  array-IsMeasured xs h = omega (
    arith,
    h,
    bytes-append (commas (print_items float_text xs)) (b']' ∷ []),
    bytes-commas (print_items float_text xs),
    length-print_items xs,
  )

  object-IsMeasured : (fs : Fields) → FieldsMeasured fs → IsMeasured (Json.object fs)
  unfolding js_value_len write_value bytes
  object-IsMeasured fs h =
      let ps = print_fields float_text fs in
      omega (
        arith,
        h,
        bytes-append (commas (texts (sort ps))) (b'}' ∷ []),
        bytes-commas (texts (sort ps)),
        (total-sort ps).0,
        (total-sort ps).1,
        length-print_fields fs,
      )

  -- The length that the program computes for a value, without sorting its members, is the number of
  -- UTF-8 bytes of its canonical text.
  pub js_value_len-write_value :
      (v : Json) → js_value_len float_text v ≡ bytes (write_value float_text v)
  unfolding js_value_len write_value bytes js_string_len items_len fields_len print_items
      print_fields texts
  js_value_len-write_value v = elim v as IsMeasured ItemsMeasured FieldsMeasured [
    | Json.null ↦ refl
    | Json.bool b ↦ ground arith
    | Json.number n ↦ refl
    | Json.string s ↦ refl
    | Json.array (xs → ih) ↦ array-IsMeasured xs ih
    | Json.object (fs → ih) ↦ object-IsMeasured fs ih
    | Items.no_items ↦ refl
    | Items.item (w → ih) (xs → ihs) ↦ item-measured w xs ih ihs
    | Fields.no_fields ↦ refl
    | Fields.field k (w → ih) (fs → ihs) ↦ field-measured k w fs ih ihs
  ]
