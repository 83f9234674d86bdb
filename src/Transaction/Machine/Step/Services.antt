-- ===== src/Transaction/Machine/Step/Services.antt =====
-- What the handlers of step.rs take from elsewhere: the texts that serde_json reads and writes,
-- the arithmetic of `f64`, and the sibling modules canonical.rs, identity.rs, strict.rs, and
-- time.rs. A canonical JSON value stands for its canonical text.
use Prim.Native.String.{String}
use policysql.Prelude.{
  ℕ, Bool, ◌&&◌, Option, none, some, List, [], ◌∷◌, ◌==◌, str_eq, any, if◌then◌else◌,
}
use policysql.Transaction.Machine.Compiler.{Validated, DriverStatement}
use policysql.Transaction.Machine.Io.{Code, Reply, DriverCall}
use policysql.Transaction.Machine.State.{Binding, Operation, Phase, binding_is_valid}
use policysql.Transaction.Machine.Step.Context.{Handler, act}
use policysql.Transaction.Machine.Step.Plumbing.{respond}
use policysql.Transaction.Machine.Value.{Value, Number, Members, keys}

-- `strict::check`.
pub data StrictResult : Type 0 where
  accepted duplicate_key too_deep refused : StrictResult

-- A redaction of a validated result: row, column.
abbrev pub Redaction : Type 0
Redaction = ℕ × String

pub record Services : Type 0 where
  -- serde_json
  pub read_binding : Value → Option Binding
  pub read_members : String → Option (List (String × String))
  pub write_envelope : String → String → Option String → String
  pub public_state_text : String → String → Option ℕ → Option String → String → String
  pub terminal_text : String → String → String → Bool → String
  pub statement_text : String → ℕ → String → String → String
  pub result_text : Option ℕ → Operation → Validated → List Redaction → String
  -- f64
  pub f64_add : ℕ → ℕ → ℕ
  pub round_ms : ℕ → ℕ
  -- canonical.rs, identity.rs, strict.rs, time.rs
  pub canonical_of : Value → Option String
  pub number_of : String → Option Number
  pub auth_fingerprint : String → String → Option String
  pub replay_identity : String → String → Option String
  pub command_digest : String → String → Option String
  pub strict_check : String → StrictResult
  pub iso_from_ms : ℕ → String

-- `respond(error_reply(code))`, and then the handler returns.
abbrev pub reply_with : Code → Handler
reply_with code = act (respond (Reply.error code))

-- `let Some(x) = .. else { respond; return Ok(()) }`.
abbrev pub or_respond {ℓ} : {A : Type ℓ} → Option A → Code → (A → Handler) → Handler
or_respond none code next s = reply_with code s
or_respond (some a) code next s = next a s

-- `==` on bindings.
unfoldable pub same_binding : Binding → Binding → Bool
same_binding a b =
    a.version == b.version
    && str_eq a.scope b.scope
    && str_eq a.database_id b.database_id
    && str_eq a.generation b.generation
    && str_eq a.snapshot b.snapshot

abbrev valid_binding : Option Binding → Option Binding
valid_binding none = none
valid_binding (some b) = if binding_is_valid b then some b else none

-- `parse_binding`.
unfoldable pub parse_binding : Services → Value → Option Binding
parse_binding services value = valid_binding (services.read_binding value)

unfoldable pub append_members : Members → Members → Members
append_members Members.end rest = rest
append_members (Members.member k v more) rest = Members.member k v (append_members more rest)

-- `driver_call`: both namespaces merged; a name in both is an invariant violation.
unfoldable pub driver_call : String → DriverStatement → Option DriverCall
unfolding append_members keys
driver_call sql statement =
    if any (λ k. any (λ j. str_eq j k) (keys statement.client_parameters))
      (keys statement.server_parameters)
    then none
    else some (record {
      sql = sql;
      args = append_members statement.client_parameters statement.server_parameters;
    })

-- The calls of all statements of a plan.
unfoldable pub driver_calls : List DriverStatement → Option (List DriverCall)
unfolding driver_call
driver_calls [] = some []
driver_calls (d ∷ ds) = elim (driver_call d.sql d) [
  | none ↦ none
  | some c ↦ elim (driver_calls ds) [ none ↦ none | some cs ↦ some (c ∷ cs) ]
]

abbrev pub phase_text : Phase → String
phase_text Phase.active = "active"
phase_text Phase.validating = "validating"
phase_text Phase.committing = "committing"
phase_text Phase.committed = "committed"
phase_text Phase.rolled_back = "rolled_back"
phase_text Phase.failed = "failed"
phase_text Phase.expired = "expired"
phase_text Phase.commit_unknown = "commit_unknown"
phase_text Phase.discarded = "discarded"

abbrev pub operation_text : Operation → String
operation_text Operation.select = "select"
operation_text Operation.insert = "insert"
operation_text Operation.update = "update"
operation_text Operation.delete = "delete"
