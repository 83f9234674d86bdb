-- ===== src/Transaction/Machine/Step/Timer.antt =====
-- crates/policysql-transaction/src/machine/step.rs: `timer`, over `atomic_timer` of step/atomic.rs
-- and `expire_validating` of step/checks.rs.
use policysql.Prelude.{
  Bool, true, false, not, ◌&&◌, ◌||◌, Option, none, some, leb, is_some_and, if◌then◌else◌,
}
use policysql.Transaction.Machine.Connection.{WorkLane, is_client}
use policysql.Transaction.Machine.State.{Phase, Kind, Record}
use policysql.Transaction.Machine.Step.Answers.{has_deferred}
use policysql.Transaction.Machine.Step.Closing.{close}
use policysql.Transaction.Machine.Step.Context.{Context, Step, Handler, pure, act}
use policysql.Transaction.Machine.Step.Plumbing.{live_record, work, update_volatile}
use policysql.Transaction.Machine.Volatile.{Work, Task, is_validator, work_is}

abbrev is_active : Phase → Bool
is_active Phase.active = true
is_active _ = false

abbrev is_validating : Phase → Bool
is_validating Phase.validating = true
is_validating _ = false

-- The tasks of a client that take up an expiry when their outcome arrives.
abbrev takes_expiry : Task → Bool
takes_expiry (Task.begin_binding i b s) = true
takes_expiry (Task.begin_open i b s at) = true
takes_expiry Task.begin_persist = true
takes_expiry Task.begin_timer = true
takes_expiry (Task.statement_binding t) = true
takes_expiry (Task.statement_execute t at) = true
takes_expiry (Task.commit_binding n d a p) = true
takes_expiry (Task.validating_persist c) = true
takes_expiry (Task.rollback_binding n d) = true
takes_expiry (Task.reply t) = t.expire_after
takes_expiry _ = false

module _ (ctx : Context) (atomic_timer : Bool → Handler) (expire_validating : Handler) where
  unfoldable pub is_due : Record → Bool
  is_due r = is_some_and r.expires_at_ms (λ at. leb at ctx.host.now_ms)

  abbrev waits_on_validator : Step → Bool
  waits_on_validator s = work_is is_validator (work s) || has_deferred s.volatile

  -- The timer is due, and no validator is awaited.
  abbrev expire : Option Work → Handler
  expire none = close ctx WorkLane.background Phase.expired none
  expire (some w) =
      if is_client w.lane && takes_expiry w.task
      then act (update_volatile ctx (λ v. record v { rollback_requested = true }))
      else pure

  abbrev interactive_timer : Record → Handler
  interactive_timer r s =
      if not (is_due r) || not (is_active r.phase || is_validating r.phase)
      then pure s
      else if is_validating r.phase && waits_on_validator s
      then expire_validating s
      else expire (work s) s

  abbrev record_timer : Kind → Record → Handler
  record_timer Kind.atomic r = atomic_timer (is_due r && is_active r.phase)
  record_timer Kind.interactive r = interactive_timer r

  abbrev timer_on : Option Record → Handler
  timer_on none = pure
  timer_on (some r) = record_timer r.kind r

  -- `timer`.
  unfoldable pub timer : Handler
  unfolding is_due close
  timer s = timer_on (live_record s.durable) s
