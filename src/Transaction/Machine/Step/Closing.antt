-- ===== src/Transaction/Machine/Step/Closing.antt =====
-- crates/policysql-transaction/src/machine/step.rs: the ways a transaction ends without being
-- asked to: `close`, `persist_phase`, `abandon`, `fail_closed`, and `discard`; and `revoke` of
-- step/checks.rs.
use Prim.Native.String.{String}
use policysql.Prelude.{
  ℕ, Bool, true, not, Option, none, some, [], ◌∷◌, ◌++◌, is_some, is_none, if◌then◌else◌,
}
use policysql.Transaction.Machine.Connection.{
  Connection, WorkLane, is_none_connection, is_open, is_client,
}
use policysql.Transaction.Machine.Io.{Event, Effect, Reply, Code}
use policysql.Transaction.Machine.State.{Phase, Durable}
use policysql.Transaction.Machine.State.Wire.{Unreadable}
use policysql.Transaction.Machine.Step.Context.{Context, Step, Outcome, Handler}
use policysql.Transaction.Machine.Step.Plumbing.{
  phase_of, connection, work, map_volatile, log, clear_work, release_all, seed_id, set_connection,
  wait, set_phase, own_request_id,
}
use policysql.Transaction.Machine.Value.{Value, Members}
use policysql.Transaction.Machine.Volatile.{Volatile, Task}
use policysql.Transaction.Machine.Step.Answers.{
  revoke, or_own, internal_failure, plain_reply, respond_to, is_busy, interrupted, is_unsure,
  respond_if, respond_callback_if, answer_waiting, has_deferred, has_callback, answer_event,
  or_reset, reason_text, discard_waiting, discard_event, is_idle_open,
}

module _ (ctx : Context) where
  unfoldable pub persist_phase : WorkLane → Option String → Phase → Option Reply → Handler
  unfolding wait
  persist_phase lane request_id phase reply s =
      if is_none s.durable
      then (Outcome.done, clear_work (respond_to reply s))
      else wait ctx lane request_id (plain_reply reply (internal_failure reply)) Effect.persist
          (set_phase ctx phase s)

  -- `close`, past its check that no callback query holds the connection.
  abbrev pub close_connection : WorkLane → Phase → Option Reply → Handler
  close_connection lane phase reply s =
      let request_id : Option String =
        if is_client lane then or_own s.request (own_request_id ctx) else none in
      if is_open (connection s)
      then wait ctx lane request_id (Task.close_rollback phase reply) Effect.rollback
          (set_connection ctx Connection.closing s)
      else persist_phase lane request_id phase reply (set_connection ctx Connection.none s)

  -- What `close` gives up: the live capability, the handles, and an atomic run.
  abbrev pub given_up : Step → Step
  given_up s = map_volatile (λ v. record v { atomic = none }) (release_all (revoke s))

  unfoldable pub close : WorkLane → Phase → Option Reply → Handler
  unfolding persist_phase release_all wait
  close lane phase reply s =
      if is_busy s.volatile
      then (Outcome.fault "connection_busy", s)
      else close_connection lane phase reply (given_up s)

  abbrev pub next_id : Option Volatile → ℕ
  next_id none = seed_id ctx
  next_id (some v) = v.next_effect_id

  abbrev pub persist_interrupted : Option Phase → ℕ → Step → Step
  persist_interrupted none id s = s
  persist_interrupted (some phase) id s =
      let t = set_phase ctx phase s in record t { effects = t.effects ++ (Effect.persist id ∷ []) }

  unfoldable pub abandon : Step → Step
  unfolding release_all
  abandon s =
      let held = not (is_none_connection (connection s)) in
      let id = next_id s.volatile in
      let t = release_all (record s { abandoned = true }) in
      persist_interrupted (interrupted held (phase_of s.durable)) id (record t { volatile = none })

  abbrev pub finish_failed : Option Phase → Step → Step
  finish_failed none s = record s { reset = true }
  finish_failed (some phase) s = or_reset (
      wait ctx WorkLane.background none Task.reset_after_persist Effect.persist
        (set_phase ctx phase s))

  abbrev pub fail_closed_record : String → Value
  fail_closed_record reason = Value.object (
      Members.member "event" (Value.string "tx_fail_closed") (
        Members.member "transactionId" (Value.string ctx.owner)
          (Members.member "reason" (Value.string reason) Members.end)))

  -- The answers of `fail_closed`, in order: the client that waits, a deferred commit, a callback
  -- query in progress, and the event itself.
  unfoldable pub fail_closed_answers : String → Event → Step → Step
  fail_closed_answers reason event s =
      let unsure = is_unsure (phase_of s.durable) in
      answer_event unsure event (
        respond_callback_if (has_callback s.volatile) Code.internal (
          respond_if (has_deferred s.volatile) Code.internal
            (answer_waiting unsure (work s) (log (fail_closed_record reason) s))))

  unfoldable pub fail_closed : String → Event → Bool → Step → Step
  unfolding fail_closed_answers release_all wait
  fail_closed reason event volatile_unknown s =
      let held : Bool = if volatile_unknown then true else is_some s.volatile in
      let t = release_all (fail_closed_answers reason event (record s { effects = [] })) in
      finish_failed (interrupted held (phase_of s.durable)) (record t { volatile = none })

  abbrev pub discarded_record : Unreadable → Value
  discarded_record reason = Value.object (
      Members.member "event" (Value.string "tx_state_discarded") (
        Members.member "transactionId" (Value.string ctx.owner)
          (Members.member "reason" (Value.string (reason_text reason)) Members.end)))

  unfoldable pub discard_answers : Unreadable → Event → Step → Step
  discard_answers reason event s = discard_event event (
      respond_callback_if (has_callback s.volatile) Code.unavailable (
        respond_if (has_deferred s.volatile) Code.outcome_unknown
          (discard_waiting (work s) (log (discarded_record reason) s))))

  -- The rollback of an open idle connection, or the persist of the tombstone.
  abbrev pub discard_wait : Bool → Handler
  discard_wait idle_open s =
      if idle_open
      then wait ctx WorkLane.background none (Task.close_rollback Phase.discarded none)
          Effect.rollback
          (map_volatile (λ v. record v { work = none; connection = Connection.closing }) s)
      else if is_none_connection (connection s)
      then wait ctx WorkLane.background none (plain_reply none none) Effect.persist
          (record s { volatile = none })
      else wait ctx WorkLane.background none Task.reset_after_persist Effect.persist
          (record s { volatile = none })

  unfoldable pub discard : Unreadable → Event → Step → Step
  unfolding discard_answers release_all wait
  discard reason event s =
      let t = release_all (discard_answers reason event s) in
      or_reset (
        discard_wait (is_idle_open s.volatile)
          (record t { durable = some (Durable.tombstone ctx.owner) }))
