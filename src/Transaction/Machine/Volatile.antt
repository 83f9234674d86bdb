-- ===== src/Transaction/Machine/Volatile.antt =====
-- crates/policysql-transaction/src/machine/state.rs: the volatile state of an owner, the tasks in
-- progress, and what makes the state consistent.
use Prim.Native.String.{String}
use policysql.Prelude.{
  ℕ, Bool, true, false, ◌&&◌, not, Option, none, some, List, [], ◌∷◌, leb, ltb, ◌==◌, same_bool,
  is_some, is_none, is_none_or, is_some_and, length, any,
}
use policysql.Transaction.Machine.Connection.{
  Connection, Awaited, WorkLane, Pending, is_none_connection, code_of,
}
use policysql.Transaction.Machine.Compiler.{StatementLimits, TriggeredCheck}
use policysql.Transaction.Machine.Io.{Reply, valid_request_id}
use policysql.Transaction.Machine.Limits.{max_safe_integer}
use policysql.Transaction.Machine.State.{
  Phase, Identity, Binding, Replay, Operation, Mutation, Versions, hex64, owner_name,
  binding_is_valid,
}
use policysql.Transaction.Machine.Value.{Value}

-- `CommitChecks`.
pub record CommitChecks : Type 0 where
  pub sequence : ℕ
  pub digest : String
  pub auth : String
  pub checks : List TriggeredCheck
  pub index : ℕ

-- The fields that `StatementBinding` and `StatementExecute` share.
pub record StatementTask : Type 0 where
  pub sequence : ℕ
  pub digest : String
  pub handle : ℕ
  pub operation : Operation
  pub resource : Option String
  pub versions : Versions
  pub explain_resource : Option ℕ

pub record ReplyTask : Type 0 where
  pub reply : Option Reply
  pub failure : Option Reply
  pub logs : List Value
  pub failure_logs : List Value
  pub expire_after : Bool
  pub restore : Option String

pub data Task : Type 0 where
  begin_binding : Identity → Binding → String → Task
  begin_open : Identity → Binding → String → ℕ → Task
  begin_persist begin_timer : Task
  statement_binding : StatementTask → Task
  statement_execute : StatementTask → ℕ → Task
  commit_binding : ℕ → String → Option String → Bool → Task
  commit_persist : ℕ → String → Bool → Task
  commit_send : ℕ → String → Bool → Task
  validating_persist : CommitChecks → Task
  validator : CommitChecks → Task
  verdict : CommitChecks → Bool → Task
  rollback_binding : ℕ → String → Task
  rollback_send : ℕ → String → Task
  close_rollback : Phase → Option Reply → Task
  reply : ReplyTask → Task
  reset_after_persist : Task
  request_binding : String → Task
  atomic_forward : Task
  atomic_binding : String → Task
  atomic_open atomic_persist atomic_timer atomic_lookup atomic_execute : Task
  atomic_commit_binding atomic_insert atomic_commit : Task
  atomic_replay : Reply → Task

pub data Placement : Type 0 where
  direct owner : Placement

pub record Idempotency : Type 0 where
  pub key_hash : String
  pub fingerprint : String

pub record AtomicStatement : Type 0 where
  pub operation : Operation
  pub resource : Option String
  pub limits : StatementLimits
  pub explain_resource : Option ℕ

pub record AtomicUsage : Type 0 where
  pub rows_returned : ℕ
  pub rows_affected : ℕ
  pub rows_read : ℕ
  pub rows_written : ℕ
  pub query_duration_ms : ℕ

pub record AtomicRun : Type 0 where
  pub placement : Placement
  pub transaction_id : String
  pub request_id : String
  pub auth : String
  pub role : String
  pub binding : Binding
  pub handle : ℕ
  pub statements : List AtomicStatement
  pub versions : Versions
  pub idempotency : Option Idempotency
  pub started_at_ms : ℕ
  pub expires_at_ms : Option ℕ
  pub debug : Bool
  pub trace : Option String
  pub results : Option String
  pub usage : Option AtomicUsage
  pub mutations : List Mutation
  pub checks_passed : Bool

pub record Work : Type 0 where
  pub lane : WorkLane
  pub request_id : Option String
  pub task : Task

pub record Capability : Type 0 where
  pub token_hash : String
  pub expires_at_ms : ℕ
  pub check : String
  pub session : String
  pub role : String
  pub next_sequence : ℕ
  pub last : Option Replay
  pub rows : ℕ
  pub result_bytes : ℕ

-- `CallbackTask`: both variants hold the same fields.
pub record CallbackQuery : Type 0 where
  pub sequence : ℕ
  pub digest : String
  pub handle : ℕ
  pub versions : Versions

pub data CallbackTask : Type 0 where
  binding execute : CallbackQuery → CallbackTask

pub record CallbackWork : Type 0 where
  pub pending : Pending
  pub request_id : String
  pub token_hash : String
  pub task : CallbackTask

pub record Volatile : Type 0 where
  pub v : ℕ
  pub owner : Option String
  pub next_effect_id : ℕ
  pub connection : Connection
  pub handles : List ℕ
  pub pending : Option Pending
  pub work : Option Work
  pub rollback_requested : Bool
  pub callback : Option CallbackWork
  pub capability : Option Capability
  pub deferred : Option Work
  pub revoked_validator : Option ℕ
  pub atomic : Option AtomicRun

-- `CallbackTask::awaits`.
abbrev pub callback_awaits : CallbackTask → Awaited
callback_awaits (CallbackTask.binding q) = Awaited.check_binding
callback_awaits (CallbackTask.execute q) = Awaited.execute

-- `awaited_by`.
abbrev pub awaited_by : Task → Awaited
awaited_by (Task.begin_binding i b s) = Awaited.check_binding
awaited_by (Task.statement_binding t) = Awaited.check_binding
awaited_by (Task.commit_binding s d a p) = Awaited.check_binding
awaited_by (Task.rollback_binding s d) = Awaited.check_binding
awaited_by (Task.request_binding o) = Awaited.check_binding
awaited_by (Task.atomic_binding i) = Awaited.check_binding
awaited_by Task.atomic_commit_binding = Awaited.check_binding
awaited_by (Task.begin_open i b s e) = Awaited.opening
awaited_by Task.atomic_open = Awaited.opening
awaited_by Task.begin_persist = Awaited.persist
awaited_by (Task.commit_persist s d p) = Awaited.persist
awaited_by (Task.validating_persist c) = Awaited.persist
awaited_by (Task.reply t) = Awaited.persist
awaited_by Task.reset_after_persist = Awaited.persist
awaited_by Task.atomic_persist = Awaited.persist
awaited_by Task.begin_timer = Awaited.set_timer
awaited_by Task.atomic_timer = Awaited.set_timer
awaited_by Task.atomic_forward = Awaited.forward
awaited_by (Task.validator c) = Awaited.call_validator
awaited_by (Task.verdict c a) = Awaited.call_validator
awaited_by (Task.statement_execute t s) = Awaited.execute
awaited_by Task.atomic_lookup = Awaited.execute
awaited_by Task.atomic_execute = Awaited.execute
awaited_by Task.atomic_insert = Awaited.execute
awaited_by (Task.commit_send s d p) = Awaited.commit
awaited_by Task.atomic_commit = Awaited.commit
awaited_by (Task.rollback_send s d) = Awaited.rollback
awaited_by (Task.close_rollback p r) = Awaited.rollback
awaited_by (Task.atomic_replay r) = Awaited.rollback

abbrev pub same_awaited : Awaited → Awaited → Bool
same_awaited a b = code_of a == code_of b

abbrev pub is_validator : Task → Bool
is_validator (Task.validator c) = true
is_validator _ = false

abbrev pub is_verdict : Task → Bool
is_verdict (Task.verdict c a) = true
is_verdict _ = false

abbrev is_callback_execute : CallbackTask → Bool
is_callback_execute (CallbackTask.execute q) = true
is_callback_execute (CallbackTask.binding q) = false

abbrev is_on_owner : Placement → Bool
is_on_owner Placement.owner = true
is_on_owner Placement.direct = false

abbrev pub work_is : (Task → Bool) → Option Work → Bool
work_is p work = is_some_and work (λ w. p w.task)

-- `Volatile::callback_executing`.
abbrev pub callback_executing : Volatile → Bool
callback_executing v = is_some_and v.callback (λ c. is_callback_execute c.task)

-- The parts of `Volatile::is_consistent`, one for each of its `let`s.
abbrev paired_with : Option Pending → Option Work → Bool
paired_with none none = true
paired_with (some p) (some w) = same_awaited p.effect (awaited_by w.task)
paired_with _ _ = false

unfoldable pub paired : Volatile → Bool
paired v = paired_with v.pending v.work

unfoldable pub callback_holds : Volatile → Bool
callback_holds v = is_none_or v.callback (λ c.
    same_awaited c.pending.effect (callback_awaits c.task)
    && ltb c.pending.id v.next_effect_id
    && is_none_or v.pending (λ p. not (p.id == c.pending.id))
    && valid_request_id c.request_id)

unfoldable pub capability_holds : Volatile → Bool
capability_holds v = is_none_or v.capability (λ c.
    work_is is_validator v.work
    && hex64 c.token_hash
    && leb 1 c.next_sequence
    && leb c.next_sequence max_safe_integer
    && same_bool (is_some c.last) (ltb 1 c.next_sequence))

unfoldable pub deferred_holds : Volatile → Bool
deferred_holds v = is_none_or v.deferred (λ d.
    is_none v.work
    && is_verdict d.task
    && callback_executing v
    && is_none_or d.request_id valid_request_id)

unfoldable pub atomic_run_holds : Volatile → Bool
atomic_run_holds v = is_none_or v.atomic (λ a.
    same_bool (is_on_owner a.placement) (is_some v.owner)
    && binding_is_valid a.binding
    && valid_request_id a.request_id
    && any (λ h. h == a.handle) v.handles)

-- `Volatile::is_consistent`.
unfoldable pub volatile_is_consistent : Volatile → Bool
volatile_is_consistent v =
    paired v
    && not (work_is is_verdict v.work)
    && callback_holds v
    && capability_holds v
    && deferred_holds v
    && leb 1 v.next_effect_id
    && leb v.next_effect_id max_safe_integer
    && is_none_or v.pending (λ p. ltb p.id v.next_effect_id)
    && leb (length v.handles) 2
    && is_none_or v.owner owner_name
    && atomic_run_holds v
    && is_none_or v.work (λ w. is_none_or w.request_id valid_request_id)

abbrev is_empty : List ℕ → Bool
is_empty [] = true
is_empty (h ∷ hs) = false

-- `Volatile::is_idle`.
unfoldable pub is_idle : Volatile → Bool
is_idle v =
    is_none v.work
    && is_none v.pending
    && is_none_connection v.connection
    && is_empty v.handles
    && is_none v.callback
    && is_none v.capability
    && is_none v.deferred
    && is_none v.atomic
