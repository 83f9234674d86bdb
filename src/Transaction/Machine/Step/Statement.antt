-- ===== src/Transaction/Machine/Step/Statement.antt =====
-- crates/policysql-transaction/src/machine/step.rs: the execution of a statement and what its
-- outcome does to the record (`consume` at `StatementBinding` and `StatementExecute`, `executed`).
use Prim.Native.String.{String}
use policysql.Prelude.{
  ℕ, ◌+◌, Bool, true, false, not, ◌&&◌, ◌||◌, Option, none, some, List, [], ◌∷◌, ◌++◌, ltb, length,
  byte_len, u64_max, sat_add, u32_add, if◌then◌else◌,
}
use policysql.Transaction.Machine.Compiler.{
  CoreError, Result, DriverStatement, RawResult, Validated,
}
use policysql.Transaction.Machine.Connection.{Connection, WorkLane}
use policysql.Transaction.Machine.Io.{
  Effect, Reply, Code, Class, DriverResult, DriverCall, for_class,
}
use policysql.Transaction.Machine.State.{
  Phase, Operation, Usage, Mutation, Record, Durable, mutates, max_durable_bytes, usage_is_valid,
  f64_is_finite,
}
use policysql.Transaction.Machine.State.Wire.{to_json}
use policysql.Transaction.Machine.Step.Begin.{or_request, recheck, expire_client, text_member}
use policysql.Transaction.Machine.Step.Closing.{close}
use policysql.Transaction.Machine.Step.Context.{Context, Step, Handler, act, branch, demand, ◌>>◌}
use policysql.Transaction.Machine.Step.Plumbing.{
  live_record, rollback_requested, log, emit, set_connection, wait, release, own_request_id,
}
use policysql.Transaction.Machine.Step.Results.{
  ok_of, or_default, codec_failure, redactions_of, FailureDetail, is_too_complex, failed_index,
  complexity_record, log_unclassified, log_core_error,
}
use policysql.Transaction.Machine.Step.Services.{
  Services, driver_call, driver_calls, operation_text,
}
use policysql.Transaction.Machine.Value.{Value, Members, Number}
use policysql.Transaction.Machine.Volatile.{Task, StatementTask}

abbrev pub usage_value : Usage → Value
usage_value u = Value.object (
    Members.member "rowsRead" (Value.number (Number.unsigned u.rows_read)) (
      Members.member "rowsWritten" (Value.number (Number.unsigned u.rows_written)) (
        Members.member "queryDurationMs" (Value.number (Number.float u.query_duration_ms))
          Members.end)))

abbrev is_insert : Operation → Bool
is_insert Operation.insert = true
is_insert _ = false

abbrev is_empty : List String → Bool
is_empty [] = true
is_empty (c ∷ cs) = false

module _ (ctx : Context) (services : Services) where
  -- `execute_failed_reply`: what is logged, and the reply.
  abbrev pub failed_log : Code → Class → FailureDetail → Step → Step
  failed_log code class detail s =
      let t = log_unclassified class detail.database_code s in
      if is_too_complex code
      then log
          (complexity_record t.request (failed_index ctx.limits.max_statements detail.statement)
            detail)
          t
      else t

  abbrev pub failed_reply : Code → FailureDetail → Reply
  failed_reply code detail =
      if is_too_complex code
      then Reply.error_at code (failed_index ctx.limits.max_statements detail.statement)
      else Reply.error code

  -- `StatementBinding` allowed.
  unfoldable pub statement_bound : WorkLane → Option String → StatementTask → Handler
  unfolding recheck wait driver_calls
  statement_bound lane request_id t = recheck ctx services lane λ s.
      demand (ok_of (ctx.compiler.statements s.calls t.handle)) "plan"
        (λ statements. demand (driver_calls statements) "parameter_namespace" λ calls.
          demand (ok_of (ctx.compiler.raw_result_bound s.calls t.handle)) "plan" λ bound.
            wait ctx lane request_id (Task.statement_execute t ctx.host.now_ms)
              (λ id. Effect.execute id calls none bound))
        s

  -- `StatementExecute` failed.
  unfoldable pub statement_failed :
      WorkLane → StatementTask → Class → Option ℕ → Option String → Option String → Handler
  unfolding expire_client close release
  statement_failed lane t class statement database_code cause =
      let detail : FailureDetail = record {
        statement = statement;
        database_code = database_code;
        cause = cause;
        versions = some t.versions;
      } in
      act (set_connection ctx Connection.opened)
      >> (act (release t.handle)
          >> branch rollback_requested (expire_client ctx services lane) (
              act (failed_log (for_class class) class detail)
              >> close ctx lane Phase.failed (some (failed_reply (for_class class) detail))))

  -- The record once the statement completed; `executed`'s `next`.
  abbrev pub pushed_mutation : StatementTask → ℕ → Validated → List Mutation → List Mutation
  pushed_mutation t index v ms = elim t.resource [
    | none ↦ ms
    | some resource ↦
        if mutates t.operation && ltb 0 v.affected_rows
        then ms ++ (record { index = index; operation = t.operation; resource = resource } ∷ [])
        else ms
  ]

  unfoldable pub completed : Record → StatementTask → Validated → ℕ → Usage → String → Record
  completed r t v result_bytes usage response = record r {
    next_sequence = t.sequence + 1;
    last = some (record { digest = t.digest; response = response });
    counters = record {
      statements = u32_add r.counters.statements 1;
      result_bytes = result_bytes;
      usage = usage;
    };
    mutations = pushed_mutation t r.counters.statements v r.mutations;
    versions = some t.versions;
  }

  abbrev usage_log : String → Usage → Value
  usage_log request usage = Value.object (
      text_member "event" "transaction_usage" (
        text_member "transactionId" ctx.owner (
          text_member "requestId" request
            (Members.member "usage" (usage_value usage) Members.end))))

  abbrev close_failed : WorkLane → Code → Handler
  close_failed lane code = close ctx lane Phase.failed (some (Reply.error code))

  -- The text of the durable part, kept to restore it.
  abbrev restore_text : Option Durable → Option String
  restore_text none = none
  restore_text (some d) = some (to_json ctx.serde.codec d)

  abbrev record_completed : WorkLane → String → StatementTask → Record → Usage → String → Handler
  record_completed lane request t next usage response s =
      if ltb max_durable_bytes (byte_len (to_json ctx.serde.codec (Durable.live next)))
      then close_failed lane Code.transaction_limit s
      else wait ctx lane (some request)
          (Task.reply (record {
            reply = some (Reply.value response);
            failure = some (Reply.error Code.internal);
            logs = [];
            failure_logs = [];
            expire_after = true;
            restore = restore_text s.durable;
          }))
          Effect.persist
          (log (usage_log request usage) (record s { durable = some (Durable.live next) }))

  -- `executed`, once the result is shaped: the limits, the usage, and the record.
  unfoldable pub record_statement :
      WorkLane → String → StatementTask → DriverResult → Validated → String → Record → Handler
  unfolding close wait completed usage_is_valid
  record_statement lane request t result v shaped r =
      let result_bytes : ℕ = sat_add r.counters.result_bytes (byte_len shaped) in
      let usage : Usage = record {
        rows_read = sat_add r.counters.usage.rows_read result.usage.rows_read;
        rows_written = sat_add r.counters.usage.rows_written result.usage.rows_written;
        query_duration_ms =
            services.round_ms
              (services.f64_add r.counters.usage.query_duration_ms result.usage.query_duration_ms);
      } in
      let response : String = services.statement_text ctx.owner t.sequence shaped request in
      if ltb ctx.limits.max_transaction_result_bytes result_bytes
      then close_failed lane Code.transaction_limit
      else if not (usage_is_valid usage) || not (f64_is_finite result.usage.query_duration_ms)
      then close_failed lane Code.internal
      else record_completed lane request t (completed r t v result_bytes usage response) usage
          response

  abbrev observe_effect : String → StatementTask → Record → DriverCall → ℕ → Effect
  observe_effect request t r call cap =
      Effect.observe (call ∷ [])
        (record {
          request_id = request;
          binding = r.binding;
          statements =
              record {
                operation = operation_text t.operation;
                resource = t.resource;
                explain_resource = t.explain_resource;
              }
              ∷ [];
        })
        cap

  abbrev observe_first : List DriverStatement → String → StatementTask → ℕ → Handler → Handler
  observe_first [] request t cap next = next
  observe_first (d ∷ ds) request t cap next =
      if is_insert t.operation
      then next
      else demand (driver_call d.cost_sql d) "parameter_namespace" λ call. λ s.
        demand (live_record s.durable) "statement_record"
          (λ r. act (emit (observe_effect request t r call cap)) >> next) s

  abbrev shape_and_record : WorkLane → String → StatementTask → DriverResult → Validated → Handler
  shape_and_record lane request t result v =
      demand (redactions_of v.columns 0 v.redactions) "redaction_column" λ redactions. λ s.
        demand (live_record s.durable) "statement_record"
          (record_statement lane request t result v
            (services.result_text (some t.sequence) t.operation v redactions))
          s

  abbrev validated_result : WorkLane → String → StatementTask → DriverResult → Validated → Handler
  validated_result lane request t result v s =
      let observed : List DriverStatement =
        or_default (ctx.compiler.statements s.calls t.handle) [] in
      let cap : ℕ = or_default (ctx.compiler.raw_result_bound s.calls t.handle) 0 in
      observe_first observed request t cap (shape_and_record lane request t result v)
        (release t.handle s)

  -- `RawResult` of a driver result: the row count of a mutation with columns, else the driver's.
  abbrev raw_of : StatementTask → DriverResult → RawResult
  raw_of t result = record {
    columns = result.columns;
    rows = result.rows;
    affected_rows =
        if mutates t.operation && not (is_empty result.columns)
        then length result.rows
        else result.rows_affected;
  }

  abbrev rejected_result : WorkLane → StatementTask → CoreError → Handler
  rejected_result lane t e =
      act (release t.handle)
      >> (act (log_core_error e) >> close ctx lane Phase.failed (some (Reply.core_error e)))

  abbrev validation : WorkLane → String → StatementTask → DriverResult → Result Validated → Handler
  validation lane request t result (Result.ok v) = validated_result lane request t result v
  validation lane request t result (Result.err e) = rejected_result lane t e

  abbrev one_result : WorkLane → String → StatementTask → DriverResult → Handler
  one_result lane request t result s = elim (codec_failure result) [
    | some code ↦ (act (release t.handle) >> close_failed lane code) s
    | none ↦
        demand (ok_of (ctx.compiler.raw_result_bound s.calls t.handle)) "plan"
          (λ bound. validation lane request t result (
            ctx.compiler.validate s.calls t.handle 0 (raw_of t result) (record {
              raw_bytes = bound;
              values = ctx.limits.max_json_values;
              result_bytes = u64_max;
            })))
          s
  ]

  abbrev sole_result : WorkLane → String → StatementTask → List DriverResult → Handler
  sole_result lane request t (result ∷ []) = one_result lane request t result
  sole_result lane request t _ = act (release t.handle) >> close_failed lane Code.internal

  -- `executed`.
  unfoldable pub executed : WorkLane → Option String → StatementTask → List DriverResult → Handler
  unfolding expire_client close release codec_failure redactions_of driver_call record_statement
  executed lane request_id t results =
      act (set_connection ctx Connection.opened)
      >> branch rollback_requested (act (release t.handle) >> expire_client ctx services lane)
          (sole_result lane (or_request request_id (own_request_id ctx)) t results)
