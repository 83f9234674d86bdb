-- ===== src/Transaction/Machine/Step/Answers.antt =====
-- crates/policysql-transaction/src/machine/step.rs: who is answered, and with what code, when a
-- transaction ends without being asked to (parts of `fail_closed`, `discard`, `abandon`, `close`).
use Prim.Native.String.{String}
use policysql.Prelude.{
  ℕ, Bool, true, false, ◌&&◌, Option, none, some, [], is_some, is_none, str_eq, if◌then◌else◌,
}
use policysql.Transaction.Machine.Connection.{Pending, is_open, is_client}
use policysql.Transaction.Machine.Io.{Event, Reply, Code}
use policysql.Transaction.Machine.State.{Phase}
use policysql.Transaction.Machine.State.Wire.{Unreadable}
use policysql.Transaction.Machine.Step.Context.{Step, Outcome, is_fault}
use policysql.Transaction.Machine.Step.Plumbing.{map_volatile, respond, respond_callback}
use policysql.Transaction.Machine.Value.{Value, get, as_str}
use policysql.Transaction.Machine.Volatile.{
  Volatile, Work, Task, callback_executing, work_is, is_validator,
}

-- `Checks::revoke`: the live capability ends, and a validator that is still awaited is noted.
abbrev pub pending_id : Option Pending → Option ℕ
pending_id none = none
pending_id (some p) = some p.id

abbrev pub revoked : Volatile → Volatile
revoked v = record v {
  capability = none;
  revoked_validator =
      if work_is is_validator v.work then pending_id v.pending else v.revoked_validator;
}

abbrev pub revoke : Step → Step
revoke = map_volatile revoked

abbrev pub or_own : Option String → String → Option String
or_own none own = some own
or_own (some r) own = some r

abbrev pub internal_failure : Option Reply → Option Reply
internal_failure none = none
internal_failure (some r) = some (Reply.error Code.internal)

-- A `Task::Reply` with no logs, no expiry, and nothing to restore.
abbrev pub plain_reply : Option Reply → Option Reply → Task
plain_reply reply failure = Task.reply (record {
  reply = reply;
  failure = failure;
  logs = [];
  failure_logs = [];
  expire_after = false;
  restore = none;
})

abbrev pub respond_to : Option Reply → Step → Step
respond_to none s = s
respond_to (some r) s = respond r s

abbrev pub kind_of : Value → Option String
kind_of input = elim (get input "kind") [ none ↦ none | some v ↦ as_str v ]

abbrev pub is_kind : Value → String → Bool
is_kind input kind = elim (kind_of input) [ none ↦ false | some k ↦ str_eq k kind ]

abbrev pub is_busy : Option Volatile → Bool
is_busy none = false
is_busy (some v) = callback_executing v

-- The phase that `Abandon` and the fail-closed rule leave: what was open is failed, a commit that
-- may have been sent is unknown, and any other phase stays.
abbrev pub interrupted : Bool → Option Phase → Option Phase
interrupted held (some Phase.active) = if held then some Phase.failed else none
interrupted held (some Phase.validating) = if held then some Phase.failed else none
interrupted held (some Phase.committing) = some Phase.commit_unknown
interrupted held _ = none

-- `Committing | CommitUnknown`.
abbrev pub is_unsure : Option Phase → Bool
is_unsure (some Phase.committing) = true
is_unsure (some Phase.commit_unknown) = true
is_unsure _ = false

abbrev pub is_final_commit_task : Task → Bool
is_final_commit_task (Task.commit_persist s d p) = true
is_final_commit_task (Task.commit_send s d p) = true
is_final_commit_task (Task.reply t) = true
is_final_commit_task _ = false

abbrev pub unsure_code : Bool → Code
unsure_code unsure = if unsure then Code.outcome_unknown else Code.internal

abbrev pub respond_if : Bool → Code → Step → Step
respond_if test code s = if test then respond (Reply.error code) s else s

abbrev pub respond_callback_if : Bool → Code → Step → Step
respond_callback_if test code s = if test then respond_callback (Reply.error code) s else s

abbrev pub answer_waiting : Bool → Option Work → Step → Step
answer_waiting unsure none s = s
answer_waiting unsure (some w) s =
    respond_if (is_client w.lane) (unsure_code (unsure && is_final_commit_task w.task)) s

abbrev pub has_deferred : Option Volatile → Bool
has_deferred none = false
has_deferred (some v) = is_some v.deferred

abbrev pub has_callback : Option Volatile → Bool
has_callback none = false
has_callback (some v) = is_some v.callback

abbrev pub answer_event : Bool → Event → Step → Step
answer_event unsure (Event.request operation) s = respond (Reply.error Code.internal) s
answer_event unsure (Event.forwarded input) s =
    if is_kind input "callbackQuery"
    then respond_callback (Reply.error Code.internal) s
    else respond (Reply.error (unsure_code (unsure && is_kind input "commit"))) s
answer_event unsure _ s = s

abbrev pub or_reset : Outcome × Step → Step
or_reset (r, s) = if is_fault r then record s { reset = true } else s

abbrev pub reason_text : Unreadable → String
reason_text Unreadable.too_large = "too_large"
reason_text Unreadable.malformed = "malformed"
reason_text Unreadable.version = "version"
reason_text Unreadable.owner = "owner"
reason_text Unreadable.inconsistent = "inconsistent"

-- The tasks of a commit whose outcome an unreadable record leaves unknown.
abbrev pub is_commit_task : Task → Bool
is_commit_task (Task.commit_binding s d a p) = true
is_commit_task (Task.commit_persist s d p) = true
is_commit_task (Task.commit_send s d p) = true
is_commit_task (Task.validating_persist c) = true
is_commit_task (Task.validator c) = true
is_commit_task (Task.reply t) = true
is_commit_task _ = false

abbrev pub discard_waiting : Option Work → Step → Step
discard_waiting none s = s
discard_waiting (some w) s = respond_if (is_client w.lane) (unsure_code (is_commit_task w.task)) s

abbrev pub discard_event : Event → Step → Step
discard_event (Event.forwarded input) s =
    if is_kind input "commit"
    then respond (Reply.error Code.outcome_unknown) s
    else if is_kind input "atomic"
    then respond (Reply.error Code.internal) s
    else if is_kind input "callbackQuery"
    then respond_callback (Reply.error Code.unavailable) s
    else respond (Reply.error Code.unavailable) s
discard_event _ s = s

abbrev pub is_idle_open : Option Volatile → Bool
is_idle_open none = false
is_idle_open (some v) = is_open v.connection && is_none v.pending && is_none v.callback
