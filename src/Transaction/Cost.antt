-- ===== src/Transaction/Cost.antt =====
-- crates/policysql-transaction/src/cost.rs: the cost evaluation. The input is the value that
-- serde_json reads, an object of `Map` with no key twice; the output text is serde_json's.
pub mod Budget
use Prim.Native.String.{String}
use policysql.Prelude.{
  ℕ, zero, suc, ◌+◌, Bool, true, false, ◌&&◌, not, Option, none, some, List, [], ◌∷◌, map, leb, ltb,
  ◌==◌, str_eq, length, is_some_and, byte_len, codes, same_codes, if◌then◌else◌,
}
use policysql.Prelude.{◌>>=◌ as option_bind}
use policysql.Transaction.Canonical.Writer.{digits}
use policysql.Transaction.Machine.Value.{Value, Members, as_u64, as_object, get_member, get}

pub record Statement : Type 0 where
  pub operation : String
  pub resource : Option String
  pub explain_resource : Option ℕ

pub record PlanResult : Type 0 where
  pub columns : List String
  pub rows : List (List Value)

pub record Input : Type 0 where
  pub catalog : Option Members
  pub statements : List Statement
  pub results : List PlanResult

pub record Estimate : Type 0 where
  pub lower_rows_read : ℕ
  pub expected_rows_read : ℕ
  pub upper_rows_read : ℕ
  pub lower_rows_written : ℕ
  pub expected_rows_written : ℕ
  pub upper_rows_written : ℕ
  pub confidence : String
  pub access : String
  pub plan_steps : ℕ
  pub planner : String

pub data CostError : Type 0 where
  unknown budget unavailable : CostError

-- `CostError::parts`.
abbrev pub parts : CostError → String × String
parts CostError.unknown = ("POLICYSQL_COST_UNKNOWN", "The query cost could not be bounded safely.")
parts CostError.budget =
    ("POLICYSQL_USAGE_BUDGET_EXCEEDED", "The query exceeds the configured usage budget.")
parts CostError.unavailable =
    ("POLICYSQL_COST_ADMISSION_UNAVAILABLE", "Cost admission is temporarily unavailable.")

-- `Result<T, CostError>`, and `?`.
pub data Costed {ℓ} (A : Type ℓ) : Type ℓ where
  ok : A → Costed A
  err : CostError → Costed A

infixl 5 ◌>>=◌
abbrev pub ◌>>=◌ {ℓ κ} : {A : Type ℓ} {B : Type κ} → Costed A → (A → Costed B) → Costed B
Costed.ok a >>= f = f a
Costed.err e >>= f = Costed.err e

abbrev pub ok_or {ℓ} : {A : Type ℓ} → Option A → CostError → Costed A
ok_or (some a) e = Costed.ok a
ok_or none e = Costed.err e

abbrev at_least_1 : ℕ → Option ℕ
at_least_1 n = if leb 1 n then some n else none

-- `positive`.
unfoldable pub positive : Option Value → Option ℕ
positive none = none
positive (some v) = option_bind (as_u64 v) at_least_1

abbrev pub is_insert : Statement → Bool
is_insert s = str_eq s.operation "insert"

unfoldable pub default_estimate : Statement → Estimate
default_estimate s =
    let insert = if is_insert s then 1 else 0 in
    record {
      lower_rows_read = 0;
      expected_rows_read = 0;
      upper_rows_read = 0;
      lower_rows_written = insert;
      expected_rows_written = insert;
      upper_rows_written = insert;
      confidence = "conservative";
      access = if is_insert s then "none" else "unknown";
      plan_steps = 0;
      planner = "sqlite-explain-query-plan";
    }

-- The statements that are no insert, each with its index.
unfoldable pub planned_from : ℕ → List Statement → List (ℕ × Statement)
planned_from index [] = []
planned_from index (s ∷ ss) =
    let rest = planned_from (index + 1) ss in if is_insert s then rest else (index, s) ∷ rest

abbrev pub position_from : ℕ → List String → Option ℕ
position_from at [] = none
position_from at (c ∷ cs) =
    let rest = position_from (at + 1) cs in if str_eq c "detail" then some at else rest

abbrev pub item_at {ℓ} : {A : Type ℓ} → List A → ℕ → Option A
item_at [] at = none
item_at (x ∷ xs) zero = some x
item_at (x ∷ xs) (suc at) = item_at xs at

abbrev is_string : Value → Bool
is_string (Value.string s) = true
is_string _ = false

-- The loop over a result's rows: each has a `detail` text, and is counted.
unfoldable pub count_steps : Option ℕ → List (List Value) → ℕ → Costed ℕ
count_steps detail [] steps = Costed.ok steps
count_steps detail (row ∷ rows) steps =
    let rest = count_steps detail rows (steps + 1) in
    if is_some_and (option_bind detail (item_at row)) is_string
    then rest
    else Costed.err CostError.unknown

-- `resources.get(&resource.to_string())`.
unfoldable pub get_resource : Members → ℕ → Option Value
unfolding digits
get_resource Members.end resource = none
get_resource (Members.member k v rest) resource =
    if same_codes (codes k) (digits resource) then some v else get_resource rest resource

abbrev pub upper_rows : Members → ℕ → Option ℕ
upper_rows resources resource =
    option_bind (get_resource resources resource) λ bounds. positive (get bounds "upperRows")

abbrev pub with_bounds : ℕ → ℕ → ℕ → Estimate → Estimate
with_bounds read written steps e = record {
  lower_rows_read = e.lower_rows_read;
  expected_rows_read = read;
  upper_rows_read = read;
  lower_rows_written = e.lower_rows_written;
  expected_rows_written = written;
  upper_rows_written = written;
  confidence = e.confidence;
  access = "unknown";
  plan_steps = steps;
  planner = e.planner;
}

unfoldable pub modify_at : ℕ → (Estimate → Estimate) → List Estimate → List Estimate
modify_at at f [] = []
modify_at zero f (e ∷ es) = f e ∷ es
modify_at (suc at) f (e ∷ es) = e ∷ modify_at at f es

module _ (max_read max_written : ℕ) (resources : Members) where
  -- The rest of a turn of the loop, once the steps are counted.
  unfoldable pub priced : Statement → ℕ → Option ℕ → Costed (Estimate → Estimate)
  unfolding get_resource positive get
  priced statement steps none = Costed.ok (λ e. e)
  priced statement steps (some resource) =
      ok_or (upper_rows resources resource) CostError.unknown >>= λ upper.
      let written = if str_eq statement.operation "select" then 0 else upper in
      if ltb max_read upper
      then Costed.err CostError.budget
      else if ltb max_written written
      then Costed.err CostError.budget
      else Costed.ok (with_bounds upper written steps)

  -- What a result makes of its statement's estimate.
  unfoldable pub bound : Statement → PlanResult → Costed (Estimate → Estimate)
  unfolding count_steps priced
  bound statement result = count_steps (position_from 0 result.columns) result.rows 0 >>= λ steps.
      priced statement steps statement.explain_resource

  -- The loop over the results with the planned statements, as long as both last.
  unfoldable pub bound_all :
      List PlanResult → List (ℕ × Statement) → List Estimate → Costed (List Estimate)
  unfolding bound modify_at
  bound_all [] planned output = Costed.ok output
  bound_all (result ∷ results) [] output = Costed.ok output
  bound_all (result ∷ results) ((index, statement) ∷ planned) output =
      bound statement result >>= λ update. bound_all results planned (modify_at index update output)

-- `evaluate`.
unfoldable pub evaluate : Input → Costed (List Estimate)
unfolding positive get_member default_estimate planned_from bound_all
evaluate input = ok_or input.catalog CostError.unknown >>= λ catalog.
    ok_or (positive (get_member catalog "maxEstimatedRowsRead")) CostError.unavailable
    >>= λ max_read.
        ok_or (positive (get_member catalog "maxEstimatedRowsWritten")) CostError.unavailable
        >>= λ max_written.
            ok_or (option_bind (get_member catalog "resources") as_object) CostError.unavailable
            >>= λ resources.
                let planned = planned_from 0 input.statements in
                if ltb (length planned) (length input.results)
                then Costed.err CostError.unavailable
                else bound_all max_read max_written resources input.results planned
                    (map default_estimate input.statements)

-- `cost_estimate_json`, before it prints the result, over serde_json's reading of the text.
unfoldable pub cost_estimate : (String → Option Input) → String → ℕ → Costed (List Estimate)
unfolding evaluate
cost_estimate read input max_input_bytes =
    if ltb max_input_bytes (byte_len input)
    then Costed.err CostError.unavailable
    else ok_or (read input) CostError.unavailable >>= evaluate
