-- ===== src/Transaction/Canonical/Order.antt =====
-- The canonical text forgets the order of members (canonical.rs, `write_value`).
use Prim.Native.String.{String}
use policysql.Prelude.{
  ℕ, ◌≡◌, ◌≢◌, refl, ap, ◌∙◌, true, false, List, [], ◌∷◌, ◌++◌, arith, codes, Bool-cases, inl, inr,
}
use policysql.Transaction.Canonical.{Json, Items, Fields, codes_le, key_le}
use policysql.Transaction.Canonical.Writer.{
  Printed, insert, sort, commas, texts, write_string, write_value, print_items, print_fields,
}

codes_le-total : (s t : List ℕ) → codes_le s t ≡ false → codes_le t s ≡ true
unfolding codes_le
codes_le-total [] t h = cc
codes_le-total (a ∷ s) [] h = refl
codes_le-total (a ∷ s) (b ∷ t) h = ground (arith, codes_le-total s t)

codes_le-antisym : (s t : List ℕ) → codes_le s t ≡ true → codes_le t s ≡ true → s ≡ t
unfolding codes_le
codes_le-antisym [] [] h k = refl
codes_le-antisym [] (b ∷ t) h k = cc
codes_le-antisym (a ∷ s) [] h k = cc
codes_le-antisym (a ∷ s) (b ∷ t) h k = ground (arith, codes_le-antisym s t)

codes_le_trans : (s t u : List ℕ) → codes_le s t ≡ true → codes_le t u ≡ true → codes_le s u ≡ true
unfolding codes_le
codes_le_trans [] t u h k = refl
codes_le_trans (a ∷ s) [] u h k = cc
codes_le_trans (a ∷ s) (b ∷ t) [] h k = cc
codes_le_trans (a ∷ s) (b ∷ t) (c ∷ u) h k = ground (arith, codes_le_trans s t u)

-- The keys of two members differ.
abbrev pub Apart : String → String → Type 0
Apart k l = codes k ≢ codes l

key_le-antisym : (k l : String) → Apart k l → key_le k l ≡ true → key_le l k ≡ false
unfolding key_le
key_le-antisym k l apart h = elim (Bool-cases (codes_le (codes l) (codes k))) [
  | inl e ↦ absurd (apart (codes_le-antisym (codes k) (codes l) h e))
  | inr e ↦ e
]

pub key_le-total : (k l : String) → key_le k l ≡ false → key_le l k ≡ true
unfolding key_le
key_le-total k l h = codes_le-total (codes k) (codes l) h

key_le_trans : (k l m : String) → key_le k l ≡ true → key_le l m ≡ true → key_le k m ≡ true
unfolding key_le
key_le_trans k l m g h = codes_le_trans (codes k) (codes l) (codes m) g h

insert_comm :
    (p q : Printed) (ps : List Printed)
    → Apart p.0 q.0
    → insert p (insert q ps) ≡ insert q (insert p ps)
unfolding insert
insert_comm p q [] apart =
    ground (arith, key_le-antisym p.0 q.0 apart, key_le-total p.0 q.0, key_le-total q.0 p.0)
insert_comm p q (r ∷ rest) apart = ground (
  arith,
  insert_comm p q rest apart,
  key_le-antisym p.0 q.0 apart,
  key_le-total p.0 q.0,
  key_le-total q.0 p.0,
  key_le-total p.0 r.0,
  key_le-total q.0 r.0,
  key_le_trans p.0 q.0 r.0,
  key_le_trans q.0 p.0 r.0,
  key_le_trans q.0 r.0 p.0,
  key_le_trans p.0 r.0 q.0,
)

-- The same value but for the order of members whose keys differ, at every level.
mutual
  pub data SameJson : Json → Json → Type 0 where
    whole : (v : Json) → SameJson v v
    array : (xs ys : Items) → SameItems xs ys → SameJson (Json.array xs) (Json.array ys)
    object : (fs gs : Fields) → SameFields fs gs → SameJson (Json.object fs) (Json.object gs)

  pub data SameItems : Items → Items → Type 0 where
    no_items : SameItems Items.no_items Items.no_items
    item :
        (v w : Json) (xs ys : Items)
        → SameJson v w
        → SameItems xs ys
        → SameItems (Items.item v xs) (Items.item w ys)

  pub data SameFields : Fields → Fields → Type 0 where
    no_fields : SameFields Fields.no_fields Fields.no_fields
    field :
        (k : String) (v w : Json) (fs gs : Fields)
        → SameJson v w
        → SameFields fs gs
        → SameFields (Fields.field k v fs) (Fields.field k w gs)
    swap :
        (k l : String) (v w : Json) (fs : Fields)
        → Apart k l
        → SameFields
            (Fields.field k v (Fields.field l w fs))
            (Fields.field l w (Fields.field k v fs))
    trans : (fs gs hs : Fields) → SameFields fs gs → SameFields gs hs → SameFields fs hs

module _ (float_text : ℕ → List ℕ) where
  abbrev sorted : Fields → List Printed
  sorted fs = sort (print_fields float_text fs)

  sorted-swap :
      (k l : String) (v w : Json) (fs : Fields)
      → Apart k l
      → sorted (Fields.field k v (Fields.field l w fs))
        ≡ sorted (Fields.field l w (Fields.field k v fs))
  unfolding sort print_fields
  sorted-swap k l v w fs apart =
      insert_comm (k, write_string k ++ (b':' ∷ write_value float_text v))
        (l, write_string l ++ (b':' ∷ write_value float_text w)) (sorted fs) apart

  abbrev IsWrittenSame : (v w : Json) → SameJson v w → Type 0
  IsWrittenSame v w r = write_value float_text v ≡ write_value float_text w

  abbrev ArePrintedSame : (xs ys : Items) → SameItems xs ys → Type 0
  ArePrintedSame xs ys r = print_items float_text xs ≡ print_items float_text ys

  abbrev AreSortedSame : (fs gs : Fields) → SameFields fs gs → Type 0
  AreSortedSame fs gs r = sorted fs ≡ sorted gs

  -- Two values that differ only in the order of members have one canonical text.
  pub write_value-SameJson :
      (v w : Json) → SameJson v w → write_value float_text v ≡ write_value float_text w
  unfolding write_value sort print_fields print_items
  write_value-SameJson v w r = elim r as IsWrittenSame ArePrintedSame AreSortedSame [
    | SameJson.whole v ↦ refl
    | SameJson.array xs ys (h → ih) ↦ ap (λ ts. b'[' ∷ (commas ts ++ (b']' ∷ []))) ih
    | SameJson.object fs gs (h → ih) ↦ ap (λ ps. b'{' ∷ (commas (texts ps) ++ (b'}' ∷ []))) ih
    | SameItems.no_items ↦ refl
    | SameItems.item v w xs ys (h → ih) (hs → ihs) ↦ cc
    | SameFields.no_fields ↦ refl
    | SameFields.field k v w fs gs (h → ih) (hs → ihs) ↦ cc
    | SameFields.swap k l v w fs apart ↦ sorted-swap k l v w fs apart
    | SameFields.trans fs gs hs (h → ih) (k → ihs) ↦ ih ∙ ihs
  ]
