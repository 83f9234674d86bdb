-- ===== src/Transaction/Machine/Step/Replies.antt =====
-- crates/policysql-transaction/src/machine/step.rs: the outcomes that `consume` takes at
-- `CloseRollback`, `Reply`, and `ResetAfterPersist`, and the outcomes that are not pending (`stale`).
use Prim.Native.String.{String}
use policysql.Prelude.{
  ℕ, Bool, true, false, ◌&&◌, ◌||◌, Option, none, some, List, [], ◌∷◌, ◌==◌, is_none, if◌then◌else◌,
}
use policysql.Transaction.Machine.Connection.{Connection, WorkLane}
use policysql.Transaction.Machine.Io.{Event, Reply, outcome_id}
use policysql.Transaction.Machine.State.{Phase, Durable, is_terminal, durable_phase}
use policysql.Transaction.Machine.State.Wire.{Parsed, parse}
use policysql.Transaction.Machine.Step.Answers.{respond_to}
use policysql.Transaction.Machine.Step.Begin.{log_unavailable, text_member}
use policysql.Transaction.Machine.Step.Closing.{persist_phase, close}
use policysql.Transaction.Machine.Step.Context.{
  Context, Step, Handler, pure, fail, act, branch, demand, ◌>>◌,
}
use policysql.Transaction.Machine.Step.Plumbing.{
  rollback_requested, log, clear_work, set_connection,
}
use policysql.Transaction.Machine.Step.Services.{Services}
use policysql.Transaction.Machine.Value.{Value, Members, Number}
use policysql.Transaction.Machine.Volatile.{Volatile, ReplyTask}

unfoldable pub log_all : List Value → Step → Step
log_all [] s = s
log_all (v ∷ vs) s = log_all vs (log v s)

abbrev parsed : Parsed → Option Durable
parsed (Parsed.ok d) = some d
parsed (Parsed.err reason) = none

abbrev is_validator_outcome : Event → Bool
is_validator_outcome (Event.validator_replied id ok decision) = true
is_validator_outcome (Event.validator_failed id class) = true
is_validator_outcome _ = false

abbrev same_id : Option ℕ → Option ℕ → Bool
same_id none none = true
same_id (some a) (some b) = a == b
same_id _ _ = false

abbrev nothing_pending : Option Volatile → Bool
nothing_pending none = true
nothing_pending (some v) = is_none v.pending

abbrev revoked_id : Option Volatile → Option ℕ
revoked_id none = none
revoked_id (some v) = v.revoked_validator

abbrev id_value : Option ℕ → Value
id_value none = Value.null
id_value (some n) = Value.number (Number.unsigned n)

-- `CloseRollback` answered: a failed ROLLBACK changes nothing.
unfoldable pub close_rolled_back :
    Context → WorkLane → Option String → Phase → Option Reply → Handler
unfolding persist_phase
close_rolled_back ctx lane request_id phase reply =
    act (set_connection ctx Connection.none) >> persist_phase ctx lane request_id phase reply

module _ (ctx : Context) (services : Services) where
  -- `Reply` persisted.
  unfoldable pub reply_persisted : ReplyTask → Handler
  unfolding log_all close
  reply_persisted task =
      act (λ s. respond_to task.reply (log_all task.logs s))
      >> branch (λ s. task.expire_after && rollback_requested s)
          (act (λ s. log_unavailable ctx services "expired" (clear_work s))
            >> close ctx WorkLane.background Phase.expired none)
          pure

  abbrev restored : Option String → (Durable → Handler) → Handler
  restored none next = fail "statement_restore"
  restored (some text) next =
      demand (parsed (parse ctx.serde.codec text ctx.owner)) "statement_restore" next

  -- `Reply` whose record was not stored.
  unfoldable pub reply_unpersisted : WorkLane → ReplyTask → Handler
  unfolding log_all close parse
  reply_unpersisted lane task =
      act (log_all task.failure_logs)
      >> (if task.expire_after
          then restored task.restore (λ previous.
            act (λ s. record s { durable = some previous })
            >> close ctx lane Phase.failed task.failure)
          else act (λ s. record (respond_to task.failure s) { reset = true }))

  abbrev is_settled : Step → Bool
  is_settled s = elim s.durable [
    | none ↦ nothing_pending s.volatile
    | some d ↦ is_terminal (durable_phase d)
  ]

  -- `stale`.
  unfoldable pub stale : Event → Handler
  stale event =
      branch
        (λ s.
          is_settled s
          || (is_validator_outcome event && same_id (revoked_id s.volatile) (outcome_id event)))
        (act (
          log (
            Value.object (
              text_member "event" "tx_outcome_ignored" (
                text_member "transactionId" ctx.owner
                  (Members.member "id" (id_value (outcome_id event)) Members.end))))))
        (fail "outcome_not_pending")
