-- ===== src/Transaction/Strict.antt =====
-- crates/policysql-transaction/src/strict.rs: the strict check of an untrusted body, as a walk of
-- serde_json's events that stops at the first rule broken.
pub mod Sound
pub mod Reads
pub mod Builds
use Prim.Native.String.{String}
use policysql.Prelude.{
  ℕ, zero, suc, ◌+◌, Bool, true, false, Option, none, some, List, [], ◌∷◌, ltb, str_eq, any,
  usize_add, if◌then◌else◌,
}
use policysql.Transaction.Canonical.{Json, Items, Fields, max_depth}

pub data StrictError : Type 0 where
  syntax duplicate_key too_deep too_many_values lone_surrogate : StrictError

-- The values counted so far, or the first error.
pub data Walk : Type 0 where
  counted : ℕ → Walk
  broke : StrictError → Walk

-- The next part of the walk, unless it stopped.
abbrev pub proceed : Walk → (ℕ → Walk) → Walk
proceed (Walk.counted n) next = next n
proceed (Walk.broke e) next = Walk.broke e

abbrev pub over : Option ℕ → ℕ → Bool
over none n = false
over (some max) n = ltb max n

-- `Counter::count`.
unfoldable pub count : Option ℕ → ℕ → Walk
count max n =
    if over max (usize_add n 1)
    then Walk.broke StrictError.too_many_values
    else Walk.counted (usize_add n 1)

-- `Check`, with the levels left of `max_depth` and the keys seen at this level.
unfoldable mutual
  pub check_value : Option ℕ → ℕ → Json → ℕ → Walk
  check_value max left Json.null n = count max n
  check_value max left (Json.bool b) n = count max n
  check_value max left (Json.number m) n = count max n
  check_value max left (Json.string s) n = count max n
  check_value max zero (Json.array items) n = Walk.broke StrictError.too_deep
  check_value max (suc left) (Json.array items) n =
      proceed (count max n) (check_items max left items)
  check_value max zero (Json.object members) n = Walk.broke StrictError.too_deep
  check_value max (suc left) (Json.object members) n =
      proceed (count max n) (check_fields max left [] members)

  pub check_items : Option ℕ → ℕ → Items → ℕ → Walk
  check_items max left Items.no_items n = Walk.counted n
  check_items max left (Items.item v rest) n =
      proceed (check_value max left v n) (check_items max left rest)

  pub check_fields : Option ℕ → ℕ → List String → Fields → ℕ → Walk
  check_fields max left seen Fields.no_fields n = Walk.counted n
  check_fields max left seen (Fields.field k v rest) n = proceed (count max n) λ m.
      let more = proceed (check_value max left v m) (check_fields max left (k ∷ seen) rest) in
      if any (λ s. str_eq s k) seen then Walk.broke StrictError.duplicate_key else more

abbrev outcome : Walk → Option StrictError
outcome (Walk.counted n) = none
outcome (Walk.broke e) = some e

-- `check_with_max_depth` and `check`, over serde_json's events of a text; which rule a text that is
-- not strict JSON breaks first is taken from `broken`.
module _ (events : String → Option Json) (broken : String → Option ℕ → ℕ → StrictError) where
  unfoldable pub check_with_max_depth : String → Option ℕ → ℕ → Option StrictError
  unfolding check_value
  check_with_max_depth text max depth = elim (events text) [
    | none ↦ some (broken text max depth)
    | some v ↦ outcome (check_value max depth v 0)
  ]

  unfoldable pub check : String → Option ℕ → Option StrictError
  unfolding check_with_max_depth
  check text max = check_with_max_depth text max max_depth
