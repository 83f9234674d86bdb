-- ===== src/Transaction/Machine/Compiler.antt =====
-- crates/policysql-transaction/src/machine/compiler.rs: what the machine needs from the policy
-- compiler. The compiler is a trait: its implementation is a parameter of the machine.
use Prim.Native.String.{String}
use policysql.Prelude.{ℕ, Bool, not, Option, List, all}
use policysql.Transaction.Machine.State.{Operation, mutates}
use policysql.Transaction.Machine.Value.{Value, Members}

pub record CoreError : Type 0 where
  pub code : String
  pub message : String
  pub path : Option String
  pub log : Option Value

pub data Result {ℓ} (A : Type ℓ) : Type ℓ where
  ok : A → Result A
  err : CoreError → Result A

pub record StatementLimits : Type 0 where
  pub max_rows : ℕ
  pub max_result_bytes : ℕ
  pub timeout_ms : ℕ

pub record StatementSummary : Type 0 where
  pub operation : Operation
  pub resource : Option String
  pub limits : StatementLimits
  pub explain_resource : Option ℕ

pub record Compiled : Type 0 where
  pub handle : ℕ
  pub statements : List StatementSummary
  pub schema_version : String
  pub policy_version : String

-- `Compiled::read_only`.
abbrev pub read_only : Compiled → Bool
read_only c = all (λ s. not (mutates s.operation)) c.statements

pub record DriverStatement : Type 0 where
  pub sql : String
  pub client_parameters : Members
  pub server_parameters : Members
  pub cost_sql : String

pub record RawResult : Type 0 where
  pub columns : List String
  pub rows : List (List Value)
  pub affected_rows : ℕ

pub record ResultBudget : Type 0 where
  pub raw_bytes : ℕ
  pub values : ℕ
  pub result_bytes : ℕ

pub record Validated : Type 0 where
  pub raw_bytes : ℕ
  pub values : ℕ
  pub columns : List String
  pub rows : List (List Value)
  pub redactions : List (List Bool)
  pub affected_rows : ℕ
  pub result_columns : List String
  pub operation_check : Bool

pub record TriggeredCheck : Type 0 where
  pub id : String
  pub role : Option String
  pub timeout_ms : ℕ

-- The calls that change the compiler's table of handles.
pub data Call : Type 0 where
  compiled : String → String → Call
  released : ℕ → Call

-- Every method is deterministic given the configuration and the handles it holds, that is, given
-- the calls made before it (the newest first).
pub record Compiler : Type 0 where
  pub snapshot : String
  pub compile : List Call → String → String → Result Compiled
  pub statements : List Call → ℕ → Result (List DriverStatement)
  pub raw_result_bound : List Call → ℕ → Result ℕ
  pub validate : List Call → ℕ → ℕ → RawResult → ResultBudget → Result Validated
  pub triggered_checks : List String → List TriggeredCheck
