-- ===== src/Transaction/Machine/Step/Commit.antt =====
-- crates/policysql-transaction/src/machine/step.rs: the outcomes that `consume` takes at the
-- tasks of a commit and of a rollback, and `complete`.
use Prim.Native.String.{String}
use policysql.Prelude.{
  ℕ, Bool, true, false, Option, none, some, List, [], ◌∷◌, leb, checked_add, if◌then◌else◌, ◌>>=◌,
}
use policysql.Transaction.Machine.Connection.{Connection, WorkLane}
use policysql.Transaction.Machine.Io.{Effect, Reply, Code, Class, for_class}
use policysql.Transaction.Machine.Limits.{max_safe_integer}
use policysql.Transaction.Machine.State.{Phase, Usage, Durable}
use policysql.Transaction.Machine.Step.Begin.{or_request, recheck, text_member}
use policysql.Transaction.Machine.Step.Closing.{close}
use policysql.Transaction.Machine.Step.Context.{Context, Handler, act, branch, demand, ◌>>◌}
use policysql.Transaction.Machine.Step.Plumbing.{
  live_record, rollback_requested, log, set_connection, wait, set_phase, own_request_id,
}
use policysql.Transaction.Machine.Step.Services.{Services}
use policysql.Transaction.Machine.Step.Statement.{usage_value}
use policysql.Transaction.Machine.Value.{Value, Members}
use policysql.Transaction.Machine.Volatile.{Task}

-- A `Task::Reply` that says the same however its record is stored, or as given.
abbrev pub final_reply : Reply → Reply → List Value → List Value → Task
final_reply reply failure logs failure_logs = Task.reply (record {
  reply = some reply;
  failure = some failure;
  logs = logs;
  failure_logs = failure_logs;
  expire_after = false;
  restore = none;
})

-- `checked_add(1).filter(|next| *next <= MAX_SAFE_INTEGER)`.
abbrev pub advanced : ℕ → Option ℕ
advanced n = checked_add n 1 >>= λ next. if leb next max_safe_integer then some next else none

abbrev pub is_not_committed : Class → Bool
is_not_committed Class.not_committed = true
is_not_committed _ = false

module _ (ctx : Context) where
  -- `complete`.
  unfoldable pub complete : Phase → String → String → Handler
  complete phase digest response s =
      demand (live_record s.durable) "no_record"
        (λ r. demand (advanced r.next_sequence) "sequence" λ next. act (λ t.
          set_phase ctx phase (record t {
            durable = some (
                Durable.live (record r {
                  next_sequence = next;
                  last = some (record { digest = digest; response = response });
                }));
          })))
        s

  -- `terminal_log`.
  abbrev pub terminal_log : String → String → Usage → Value
  terminal_log status request usage = Value.object (
      text_member "event" "transaction_terminal" (
        text_member "transactionId" ctx.owner (
          text_member "status" status (
            text_member "requestId" request
              (Members.member "usage" (usage_value usage) Members.end)))))

  abbrev pub request_log : String → String → Value
  request_log event request = Value.object (
      text_member "event" event
        (text_member "transactionId" ctx.owner (text_member "requestId" request Members.end)))

  -- Any binding check of a command that does not allow it: `BindingChecked` with `allowed: false`
  -- and `BindingCheckFailed`.
  unfoldable pub binding_rejected : WorkLane → Handler
  unfolding close
  binding_rejected lane = close ctx lane Phase.failed (some (Reply.error Code.binding_rejected))

  unfoldable pub binding_failed : WorkLane → Class → Handler
  unfolding close
  binding_failed lane class = close ctx lane Phase.failed (some (Reply.error (for_class class)))

  -- `CommitPersist` failed.
  unfoldable pub commit_unpersisted : WorkLane → Handler
  unfolding close
  commit_unpersisted lane = close ctx lane Phase.failed (some (Reply.error Code.internal))

  -- `CommitPersist` persisted: the last deadline check, and then COMMIT.
  abbrev pub send_commit : WorkLane → Option String → ℕ → String → Bool → Handler
  send_commit lane request_id sequence digest passed =
      act (set_connection ctx Connection.closing)
      >> wait ctx lane request_id (Task.commit_send sequence digest passed) Effect.commit

  unfoldable pub commit_persisted : WorkLane → Option String → ℕ → String → Bool → Handler
  unfolding close wait
  commit_persisted lane request_id sequence digest passed s =
      demand (live_record s.durable >>= λ r. r.expires_at_ms) "committing_record"
        (λ expires.
          branch (λ t. if leb expires ctx.host.now_ms then true else rollback_requested t)
            (close ctx lane Phase.expired (some (Reply.error Code.unavailable)))
            (send_commit lane request_id sequence digest passed))
        s

  -- `CommitSend` failed.
  abbrev outcome_unknown : WorkLane → String → Handler
  outcome_unknown lane request =
      act (log (request_log "transaction_commit_outcome_unknown" request))
      >> (act (set_phase ctx Phase.commit_unknown)
          >> wait ctx lane (some request)
              (final_reply (Reply.error Code.outcome_unknown) (Reply.error Code.outcome_unknown) []
                [])
              Effect.persist)

  unfoldable pub commit_failed : WorkLane → Option String → Class → Handler
  unfolding close wait
  commit_failed lane request_id class =
      act (set_connection ctx Connection.none)
      >> (if is_not_committed class
          then close ctx lane Phase.failed (some (Reply.error Code.unavailable))
          else outcome_unknown lane (or_request request_id (own_request_id ctx)))

module _ (ctx : Context) (services : Services) where
  -- `CommitBinding` allowed, over `start_checks` of step/checks.rs.
  abbrev commit_or_check :
      (ℕ → String → String → Handler)
      → WorkLane
      → Option String
      → ℕ
      → String
      → Option String
      → Bool
      → Handler
  commit_or_check start_checks lane request_id sequence digest (some auth) passed =
      start_checks sequence digest auth
  commit_or_check start_checks lane request_id sequence digest none passed =
      act (set_phase ctx Phase.committing)
      >> wait ctx lane request_id (Task.commit_persist sequence digest passed) Effect.persist

  unfoldable pub commit_bound :
      (WorkLane → Option String → ℕ → String → String → Handler)
      → WorkLane
      → Option String
      → ℕ
      → String
      → Option String
      → Bool
      → Handler
  unfolding recheck wait
  commit_bound start_checks lane request_id sequence digest auth passed =
      recheck ctx services lane
        (commit_or_check (start_checks lane request_id) lane request_id sequence digest auth passed)

  -- `CommitSend` committed.
  unfoldable pub commit_done : WorkLane → Option String → String → Bool → Handler
  unfolding complete wait
  commit_done lane request_id digest passed =
      let request : String = or_request request_id (own_request_id ctx) in
      let response : String = services.terminal_text ctx.owner "committed" request passed in
      act (set_connection ctx Connection.none) >> (λ s.
        demand (live_record s.durable) "commit_record"
          (λ r.
            let terminal : Value = terminal_log ctx "committed" request r.counters.usage in
            complete ctx Phase.committed digest response
            >> wait ctx lane (some request)
                (final_reply (Reply.value response) (Reply.value response) (terminal ∷ [])
                  (request_log ctx "transaction_terminal_unrecorded" request ∷ terminal ∷ []))
                Effect.persist)
          s)

  -- `RollbackBinding` allowed.
  unfoldable pub rollback_bound : WorkLane → Option String → ℕ → String → Handler
  unfolding recheck wait
  rollback_bound lane request_id sequence digest = recheck ctx services lane (
      act (set_connection ctx Connection.closing)
      >> wait ctx lane request_id (Task.rollback_send sequence digest) Effect.rollback)

  -- `RollbackSend` rolled back, or failed to.
  unfoldable pub rollback_done : WorkLane → Option String → String → Handler
  unfolding complete wait
  rollback_done lane request_id digest =
      let request : String = or_request request_id (own_request_id ctx) in
      let response : String = services.terminal_text ctx.owner "rolled_back" request false in
      act (set_connection ctx Connection.none) >> (λ s.
        demand (live_record s.durable) "rollback_record"
          (λ r.
            complete ctx Phase.rolled_back digest response
            >> wait ctx lane (some request)
                (final_reply (Reply.value response) (Reply.error Code.internal)
                  (terminal_log ctx "rolled_back" request r.counters.usage ∷ []) [])
                Effect.persist)
          s)
