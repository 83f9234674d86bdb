-- ===== src/Transaction/Machine/Step/CallbackOutcome.antt =====
-- crates/policysql-transaction/src/machine/step/checks.rs: the outcomes of a callback's effects, and
-- what runs once the connection is free again.
use Prim.Native.String.{String}
use policysql.Prelude.{
  ℕ, ◌+◌, Bool, not, ◌&&◌, ◌||◌, Option, none, some, List, [], ◌∷◌, leb, ltb, str_eq, length,
  byte_len, is_some, is_none, is_none_or, is_some_and, sat_add, u64_max, if◌then◌else◌, ◌>>=◌,
}
use policysql.Transaction.Machine.Compiler.{Result, Validated, RawResult}
use policysql.Transaction.Machine.Connection.{WorkLane, is_open}
use policysql.Transaction.Machine.Io.{Effect, Event, Reply, Code, Class, DriverResult, for_class}
use policysql.Transaction.Machine.State.{Record, is_terminal}
use policysql.Transaction.Machine.Step.Closing.{close}
use policysql.Transaction.Machine.Step.Context.{
  Context, Step, Handler, act, branch, demand, fail, pure, ◌>>◌,
}
use policysql.Transaction.Machine.Step.Plumbing.{
  live_record, connection, rollback_requested, respond_callback, map_volatile, release, work,
  phase_of, or_failed,
}
use policysql.Transaction.Machine.Step.Callbacks.{
  CallbackText, capability_live, wait_callback, fail_validation, fail_with,
}
use policysql.Transaction.Machine.Step.Checks.{CheckServices}
use policysql.Transaction.Machine.Step.Verdicts.{verdict}
use policysql.Transaction.Machine.Step.Results.{
  ok_of, codec_failure, redactions_of, FailureDetail, log_core_error,
}
use policysql.Transaction.Machine.Step.Services.{Services, Redaction, driver_calls}
use policysql.Transaction.Machine.Step.Statement.{failed_log, failed_reply}
use policysql.Transaction.Machine.Volatile.{
  CommitChecks, CallbackQuery, CallbackTask, CallbackWork, Capability, Task, Work,
}

abbrev pub verdict_of : Task → Option (CommitChecks × Bool)
verdict_of (Task.verdict waiting allowed) = some (waiting, allowed)
verdict_of _ = none

abbrev pub sole : List DriverResult → Option DriverResult
sole (result ∷ []) = some result
sole _ = none

module _ (ctx : Context) (services : Services) (checks : CheckServices)
    (callback_text : CallbackText) where
  abbrev pub fail_here : Code → Handler
  fail_here = fail_with ctx services checks callback_text

  abbrev pub end_validation : Reply → Handler
  end_validation = fail_validation ctx services checks callback_text

  abbrev pub is_ended : Step → Bool
  is_ended s = is_some_and (phase_of s.durable) is_terminal

  abbrev pub free_connection : Handler
  free_connection =
      branch
        (λ s. rollback_requested s && (is_none (work s) && is_open (connection s)) && is_ended s)
        (λ s. close ctx WorkLane.background (or_failed (phase_of s.durable)) none s) pure

  abbrev pub resume : Work → Handler
  resume deferred = elim (verdict_of deferred.task) [
    | none ↦ fail "deferred_task"
    | some (waiting, allowed) ↦ verdict ctx checks deferred.lane deferred.request_id waiting allowed
  ]

  abbrev pub deferred_of : Step → Option Work
  deferred_of s = elim s.volatile [ none ↦ none | some v ↦ v.deferred ]

  abbrev pub after_deferred : Option Work → Handler
  after_deferred none = free_connection
  after_deferred (some deferred) = resume deferred

  -- `after_callback`.
  unfoldable pub after_callback : Handler
  unfolding close verdict
  after_callback s =
      let t = map_volatile (λ v. record v { deferred = none }) s in after_deferred (deferred_of s) t

  -- `callback_failed`.
  unfoldable pub callback_failed : Bool → Reply → Handler
  unfolding fail_validation after_callback
  callback_failed live reply =
      if live
      then end_validation reply
      else act (respond_callback (Reply.error Code.unavailable)) >> after_callback

  -- The live capability counts the query, and keeps it as the last.
  abbrev pub counted : CallbackQuery → String → ℕ → ℕ → Capability → Capability
  counted q response rows result_bytes capability = record capability {
    next_sequence = q.sequence + 1;
    last = some (record { digest = q.digest; response = response });
    rows = rows;
    result_bytes = result_bytes;
  }

  abbrev pub counted_in : CallbackQuery → String → ℕ → ℕ → Step → Step
  counted_in q response rows result_bytes = map_volatile λ v. record v {
    capability =
        v.capability >>= λ capability. some (counted q response rows result_bytes capability);
  }

  abbrev pub answer_query :
      Capability → String → CallbackQuery → Validated → List Redaction → Handler
  answer_query capability request q v redactions =
      let response = callback_text q.sequence v redactions request q.versions capability.role in
      let rows = sat_add capability.rows (length v.rows) in
      let result_bytes = sat_add capability.result_bytes (byte_len response) in
      if ltb ctx.limits.max_callback_rows rows
        || ltb ctx.limits.max_transaction_result_bytes result_bytes
      then fail_here Code.transaction_limit
      else act (counted_in q response rows result_bytes)
        >> act (respond_callback (Reply.value response))

  abbrev pub validated_query : Capability → String → CallbackQuery → Result Validated → Handler
  validated_query capability request q (Result.err e) =
      act (log_core_error e) >> end_validation (Reply.core_error e)
  validated_query capability request q (Result.ok v) =
      demand (redactions_of v.columns 0 v.redactions) "redaction_column"
        λ redactions. answer_query capability request q v redactions

  abbrev pub raw_of : DriverResult → RawResult
  raw_of result = record {
    columns = result.columns;
    rows = result.rows;
    affected_rows = result.rows_affected;
  }

  abbrev pub after_codec :
      Capability → String → CallbackQuery → DriverResult → Option Code → Handler
  after_codec capability request q result (some code) = act (release q.handle) >> fail_here code
  after_codec capability request q result none = λ s.
      demand (ok_of (ctx.compiler.raw_result_bound s.calls q.handle)) "plan"
        (λ bound.
          act (release q.handle)
          >> validated_query capability request q (
              ctx.compiler.validate s.calls q.handle 0 (raw_of result) (record {
                raw_bytes = bound;
                values = ctx.limits.max_json_values;
                result_bytes = u64_max;
              })))
        s

  abbrev pub one_result : Capability → String → CallbackQuery → DriverResult → Handler
  one_result capability request q result =
      after_codec capability request q result (codec_failure result)

  -- `callback_executed`.
  unfoldable pub callback_executed :
      Option Capability → String → CallbackQuery → List DriverResult → Handler
  unfolding fail_validation release codec_failure redactions_of after_callback
  callback_executed none request q results =
      act (release q.handle)
      >> (act (respond_callback (Reply.error Code.unavailable)) >> after_callback)
  callback_executed (some capability) request q results = elim (sole results) [
    | none ↦ act (release q.handle) >> fail_here Code.internal
    | some result ↦ one_result capability request q result
  ]

  abbrev pub is_late : Capability → Record → Bool
  is_late capability r =
      is_none_or r.expires_at_ms (λ at. leb at ctx.host.now_ms)
      || leb capability.expires_at_ms ctx.host.now_ms

  -- The binding holds: the query is executed, if its capability still lives.
  unfoldable pub query_bound : Option Capability → CallbackWork → CallbackQuery → Handler
  unfolding fail_validation release after_callback wait_callback driver_calls
  query_bound none waiting q =
      act (release q.handle)
      >> (act (respond_callback (Reply.error Code.unavailable)) >> after_callback)
  query_bound (some capability) waiting q = λ s.
      demand (live_record s.durable) "callback_record"
        (λ r.
          if is_late capability r || not (str_eq r.snapshot ctx.compiler.snapshot)
          then act (release q.handle) >> fail_here Code.unavailable
          else demand (ok_of (ctx.compiler.statements s.calls q.handle)) "plan" λ statements.
            demand (driver_calls statements) "parameter_namespace" λ calls.
              demand (ok_of (ctx.compiler.raw_result_bound s.calls q.handle)) "plan" λ bound.
                wait_callback ctx services checks callback_text waiting.request_id
                  waiting.token_hash (CallbackTask.execute q)
                  (λ id. Effect.execute id calls none bound))
        s

  abbrev pub failed_execution :
      Bool → CallbackQuery → Class → Option ℕ → Option String → Option String → Handler
  failed_execution live q class statement database_code cause =
      let detail : FailureDetail = record {
        statement = statement;
        database_code = database_code;
        cause = cause;
        versions = some q.versions;
      } in
      act (release q.handle)
      >> (act (failed_log ctx services (for_class class) class detail)
          >> callback_failed live (failed_reply ctx services (for_class class) detail))

  abbrev pub released_failure : Bool → CallbackQuery → Code → Handler
  released_failure live q code = act (release q.handle) >> callback_failed live (Reply.error code)

  -- The match of `callback_outcome`.
  unfoldable pub callback_task : Option Capability → CallbackWork → CallbackTask → Event → Handler
  unfolding query_bound callback_executed release callback_failed
  callback_task live waiting (CallbackTask.binding q) (Event.binding_checked id allowed) =
      if allowed
      then query_bound live waiting q
      else released_failure (is_some live) q Code.binding_rejected
  callback_task live waiting (CallbackTask.binding q) (Event.binding_check_failed id class) =
      released_failure (is_some live) q (for_class class)
  callback_task live waiting (CallbackTask.binding q)
        (Event.execute_failed id class statement code cause) =
      released_failure (is_some live) q Code.internal
  callback_task live waiting (CallbackTask.execute q)
        (Event.execute_failed id class statement code cause) =
      failed_execution (is_some live) q class statement code cause
  callback_task live waiting (CallbackTask.execute q) (Event.binding_check_failed id class) =
      released_failure (is_some live) q Code.internal
  callback_task live waiting (CallbackTask.execute q) (Event.executed id results) =
      callback_executed live waiting.request_id q results
  callback_task live waiting task event = fail "unexpected_callback_outcome"

  abbrev pub callback_of : Step → Option CallbackWork
  callback_of s = elim s.volatile [ none ↦ none | some v ↦ v.callback ]

  -- `callback_outcome`.
  unfoldable pub callback_outcome : Event → Handler
  unfolding capability_live callback_task
  callback_outcome event s =
      demand (callback_of s) "no_callback"
        (λ waiting. λ t.
          callback_task
            (capability_live ctx services checks callback_text (some waiting.token_hash) t) waiting
            waiting.task event t)
        (map_volatile (λ v. record v { callback = none }) s)
