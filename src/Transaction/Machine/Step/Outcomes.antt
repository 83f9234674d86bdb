-- ===== src/Transaction/Machine/Step/Outcomes.antt =====
-- The outcome of a callback's effect, whichever it is, emits no COMMIT and keeps the durable part the
-- owner's (step/checks.rs, `callback_outcome`).
use Prim.Native.String.{String}
use policysql.Prelude.{
  ℕ, refl, Bool, not, ◌&&◌, ◌||◌, Option, none, some, List, ltb, length, str_eq, byte_len, is_some,
  sat_add, is_none, if-rule,
}
use policysql.Transaction.Machine.Compiler.{Result, Validated}
use policysql.Transaction.Machine.Connection.{WorkLane, is_open}
use policysql.Transaction.Machine.Io.{
  Effect, Event, Reply, Lane, Code, Class, DriverResult, for_class,
}
use policysql.Transaction.Machine.Step.CallbackLane.{
  release-Holds, wait_callback-Holds, fail_validation-Holds, log_core_error-Holds,
}
use policysql.Transaction.Machine.Step.CallbackOutcome.{
  sole, verdict_of, is_ended, free_connection, resume, deferred_of, after_deferred, after_callback,
  callback_failed, answer_query, validated_query, after_codec, callback_executed, counted_in,
  is_late, query_bound, failed_execution, released_failure, callback_task, callback_of,
  callback_outcome,
}
use policysql.Transaction.Machine.Step.Callbacks.{CallbackText, capability_live, fail_with}
use policysql.Transaction.Machine.Step.Checks.{CheckServices}
use policysql.Transaction.Machine.Step.Context.{Context, act, fail, pure}
use policysql.Transaction.Machine.Step.Held.{
  IsHeld, Holds, then-Holds, state-Holds, plain-Holds, branch-Holds, if-Holds, option-Holds,
  demand-Holds, fail-Holds, emit-Holds, volatile-Holds, close_again-Holds,
}
use policysql.Transaction.Machine.Step.Plumbing.{
  live_record, map_volatile, respond_callback, rollback_requested, work, connection,
}
use policysql.Transaction.Machine.Step.Results.{
  FailureDetail, log_unclassified, is_unclassified, unclassified_record, is_too_complex,
  complexity_record, failed_index, ok_of, codec_failure, redactions_of,
}
use policysql.Transaction.Machine.Step.Services.{Services, Redaction, driver_calls}
use policysql.Transaction.Machine.Step.Statement.{failed_log, failed_reply}
use policysql.Transaction.Machine.Step.Validating.{verdict-Holds}
use policysql.Transaction.Machine.Step.Verdicts.{verdict}
use policysql.Transaction.Machine.Volatile.{
  CallbackQuery, CallbackTask, CallbackWork, Capability, Work,
}

module _ (ctx : Context) (services : Services) (checks : CheckServices)
    (callback_text : CallbackText) where
  fail_with-Holds :
      (code : Code) → Holds ctx.owner (fail_with ctx services checks callback_text code)
  fail_with-Holds code = fail_validation-Holds ctx services checks callback_text (Reply.error code)

  free_connection-Holds : Holds ctx.owner (free_connection ctx services checks callback_text)
  free_connection-Holds =
      branch-Holds ctx.owner
        (λ s.
          rollback_requested s
          && (is_none (work s) && is_open (connection s))
          && is_ended ctx services checks callback_text s)
        _ pure (close_again-Holds ctx WorkLane.background none)
        (plain-Holds ctx.owner pure λ s. (refl, refl))

  resume-Holds :
      (deferred : Work) → Holds ctx.owner (resume ctx services checks callback_text deferred)
  resume-Holds deferred =
      option-Holds ctx.owner (verdict_of deferred.task) (fail "deferred_task")
        (λ v. verdict ctx checks deferred.lane deferred.request_id v.0 v.1)
        (fail-Holds ctx.owner "deferred_task")
        (λ v. verdict-Holds ctx checks deferred.lane deferred.request_id v.0 v.1)

  after_deferred-Holds :
      (deferred : Option Work)
      → Holds ctx.owner (after_deferred ctx services checks callback_text deferred)
  after_deferred-Holds none = free_connection-Holds
  after_deferred-Holds (some deferred) = resume-Holds deferred

  after_callback-Holds : Holds ctx.owner (after_callback ctx services checks callback_text)
  unfolding after_callback
  after_callback-Holds = record {
    at = λ s held.
        (after_deferred-Holds (deferred_of ctx services checks callback_text s)).at
          (map_volatile (λ v. record v { deferred = none }) s)
          ((volatile-Holds ctx.owner (λ v. record v { deferred = none })).at s held);
  }

  respond-Holds : (reply : Reply) → Holds ctx.owner (act (respond_callback reply))
  respond-Holds reply = emit-Holds ctx.owner (Effect.respond Lane.callback reply) refl

  callback_failed-Holds :
      (live : Bool) (reply : Reply)
      → Holds ctx.owner (callback_failed ctx services checks callback_text live reply)
  unfolding callback_failed
  callback_failed-Holds live reply =
      if-Holds ctx.owner live _ _ (fail_validation-Holds ctx services checks callback_text reply) (
        then-Holds ctx.owner _ _ (respond-Holds (Reply.error Code.unavailable))
          after_callback-Holds)

  answer_query-Holds :
      (capability : Capability) (request : String) (q : CallbackQuery) (v : Validated)
      (redactions : List Redaction)
      → Holds ctx.owner
          (answer_query ctx services checks callback_text capability request q v redactions)
  answer_query-Holds capability request q v redactions =
      let response = callback_text q.sequence v redactions request q.versions capability.role in
      let rows : ℕ = sat_add capability.rows (length v.rows) in
      let result_bytes : ℕ = sat_add capability.result_bytes (byte_len response) in
      if-Holds ctx.owner
        (ltb ctx.limits.max_callback_rows rows
          || ltb ctx.limits.max_transaction_result_bytes result_bytes)
        _ _ (fail_with-Holds Code.transaction_limit)
        (then-Holds ctx.owner
          (act (counted_in ctx services checks callback_text q response rows result_bytes)) _
          (volatile-Holds ctx.owner _) (respond-Holds (Reply.value response)))

  validated_query-Holds :
      (capability : Capability) (request : String) (q : CallbackQuery) (r : Result Validated)
      → Holds ctx.owner (validated_query ctx services checks callback_text capability request q r)
  validated_query-Holds capability request q (Result.err e) =
      then-Holds ctx.owner _ _ (log_core_error-Holds ctx.owner e)
        (fail_validation-Holds ctx services checks callback_text (Reply.core_error e))
  validated_query-Holds capability request q (Result.ok v) =
      demand-Holds ctx.owner (redactions_of v.columns 0 v.redactions) "redaction_column" _
        λ redactions. answer_query-Holds capability request q v redactions

  after_codec-Holds :
      (capability : Capability) (request : String) (q : CallbackQuery) (result : DriverResult)
      (code : Option Code)
      → Holds ctx.owner
          (after_codec ctx services checks callback_text capability request q result code)
  after_codec-Holds capability request q result (some code) =
      then-Holds ctx.owner _ _ (release-Holds ctx.owner q.handle) (fail_with-Holds code)
  after_codec-Holds capability request q result none = state-Holds ctx.owner _ λ s.
      demand-Holds ctx.owner (ok_of (ctx.compiler.raw_result_bound s.calls q.handle)) "plan" _
        λ bound.
          then-Holds ctx.owner _ _ (release-Holds ctx.owner q.handle)
            (validated_query-Holds capability request q _)

  callback_executed-Holds :
      (live : Option Capability) (request : String) (q : CallbackQuery)
      (results : List DriverResult)
      → Holds ctx.owner (callback_executed ctx services checks callback_text live request q results)
  unfolding callback_executed
  callback_executed-Holds none request q results =
      then-Holds ctx.owner _ _ (release-Holds ctx.owner q.handle) (
        then-Holds ctx.owner _ _ (respond-Holds (Reply.error Code.unavailable))
          after_callback-Holds)
  callback_executed-Holds (some capability) request q results =
      option-Holds ctx.owner (sole results) _ _
        (then-Holds ctx.owner _ _ (release-Holds ctx.owner q.handle)
          (fail_with-Holds Code.internal))
        (λ result. after_codec-Holds capability request q result (codec_failure result))

  query_bound-Holds :
      (live : Option Capability) (waiting : CallbackWork) (q : CallbackQuery)
      → Holds ctx.owner (query_bound ctx services checks callback_text live waiting q)
  unfolding query_bound
  query_bound-Holds none waiting q =
      then-Holds ctx.owner _ _ (release-Holds ctx.owner q.handle) (
        then-Holds ctx.owner _ _ (respond-Holds (Reply.error Code.unavailable))
          after_callback-Holds)
  query_bound-Holds (some capability) waiting q = state-Holds ctx.owner _ λ s.
      demand-Holds ctx.owner (live_record s.durable) "callback_record" _ λ r.
        if-Holds ctx.owner
          (is_late ctx services checks callback_text capability r
            || not (str_eq r.snapshot ctx.compiler.snapshot))
          _ _
          (then-Holds ctx.owner _ _ (release-Holds ctx.owner q.handle)
            (fail_with-Holds Code.unavailable))
          (demand-Holds ctx.owner (ok_of (ctx.compiler.statements s.calls q.handle)) "plan" _
            λ statements.
              demand-Holds ctx.owner (driver_calls statements) "parameter_namespace" _ λ calls.
                demand-Holds ctx.owner (ok_of (ctx.compiler.raw_result_bound s.calls q.handle))
                  "plan" _
                  λ bound.
                    wait_callback-Holds ctx services checks callback_text waiting.request_id
                      waiting.token_hash (CallbackTask.execute q)
                      (λ id. Effect.execute id calls none bound) (λ id. refl))

  unclassified-Holds :
      (class : Class) (code : Option String) → Holds ctx.owner (act (log_unclassified class code))
  unclassified-Holds class none = plain-Holds ctx.owner _ λ s. (refl, refl)
  unclassified-Holds class (some c) = record {
    at = λ s held.
        if-rule (IsHeld ctx.owner) (is_unclassified class) _ _
          ((emit-Holds ctx.owner (Effect.log (unclassified_record s.request c)) refl).at s held)
          held;
  }

  failed_log-Holds :
      (code : Code) (class : Class) (detail : FailureDetail)
      → Holds ctx.owner (act (failed_log ctx services code class detail))
  failed_log-Holds code class detail = record {
    at = λ s held.
        let t = log_unclassified class detail.database_code s in
        let kept = (unclassified-Holds class detail.database_code).at s held in
        if-rule (IsHeld ctx.owner) (is_too_complex code) _ _
          ((emit-Holds ctx.owner
              (Effect.log (
                complexity_record t.request
                  (failed_index ctx.limits.max_statements detail.statement) detail))
              refl).at
            t kept)
          kept;
  }

  released_failure-Holds :
      (live : Bool) (q : CallbackQuery) (code : Code)
      → Holds ctx.owner (released_failure ctx services checks callback_text live q code)
  released_failure-Holds live q code =
      then-Holds ctx.owner _ _ (release-Holds ctx.owner q.handle)
        (callback_failed-Holds live (Reply.error code))

  failed_execution-Holds :
      (live : Bool) (q : CallbackQuery) (class : Class) (statement : Option ℕ)
      (code cause : Option String)
      → Holds ctx.owner
          (failed_execution ctx services checks callback_text live q class statement code cause)
  failed_execution-Holds live q class statement code cause =
      let detail : FailureDetail = record {
        statement = statement;
        database_code = code;
        cause = cause;
        versions = some q.versions;
      } in
      then-Holds ctx.owner _ _ (release-Holds ctx.owner q.handle) (
        then-Holds ctx.owner (act (failed_log ctx services (for_class class) class detail)) _
          (failed_log-Holds (for_class class) class detail)
          (callback_failed-Holds live (failed_reply ctx services (for_class class) detail)))

  callback_task-Holds :
      (live : Option Capability) (waiting : CallbackWork) (task : CallbackTask) (event : Event)
      → Holds ctx.owner (callback_task ctx services checks callback_text live waiting task event)
  unfolding callback_task
  callback_task-Holds live waiting (CallbackTask.binding q) (Event.binding_checked id allowed) =
      if-Holds ctx.owner allowed _ _ (query_bound-Holds live waiting q)
        (released_failure-Holds (is_some live) q Code.binding_rejected)
  callback_task-Holds live waiting (CallbackTask.binding q) (Event.binding_check_failed id class) =
      released_failure-Holds (is_some live) q (for_class class)
  callback_task-Holds live waiting (CallbackTask.binding q)
        (Event.execute_failed id class statement code cause) =
      released_failure-Holds (is_some live) q Code.internal
  callback_task-Holds live waiting (CallbackTask.execute q)
        (Event.execute_failed id class statement code cause) =
      failed_execution-Holds (is_some live) q class statement code cause
  callback_task-Holds live waiting (CallbackTask.execute q) (Event.binding_check_failed id class) =
      released_failure-Holds (is_some live) q Code.internal
  callback_task-Holds live waiting (CallbackTask.execute q) (Event.executed id results) =
      callback_executed-Holds live waiting.request_id q results
  callback_task-Holds live waiting task event = fail-Holds ctx.owner "unexpected_callback_outcome"

  -- Whatever the outcome of a callback's effect, no COMMIT is emitted, and the durable part stays the
  -- owner's, in a phase that is not `discarded`.
  pub callback_outcome-Holds :
      (event : Event) → Holds ctx.owner (callback_outcome ctx services checks callback_text event)
  unfolding callback_outcome
  callback_outcome-Holds event = record {
    at = λ s held.
        (demand-Holds ctx.owner (callback_of ctx services checks callback_text s) "no_callback" _
            λ waiting.
              state-Holds ctx.owner
                (λ t.
                  callback_task ctx services checks callback_text
                    (capability_live ctx services checks callback_text (some waiting.token_hash) t)
                    waiting waiting.task event)
                λ t. callback_task-Holds _ waiting waiting.task event).at
          (map_volatile (λ v. record v { callback = none }) s)
          ((volatile-Holds ctx.owner (λ v. record v { callback = none })).at s held);
  }
