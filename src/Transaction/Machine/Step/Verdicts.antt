-- ===== src/Transaction/Machine/Step/Verdicts.antt =====
-- crates/policysql-transaction/src/machine/step/checks.rs: the checks of a commit, one after the
-- other: each is issued a capability and its validator is called, and its verdict leads to the next
-- check, to the commit, or to the end of the transaction.
use Prim.Native.String.{String}
use Prim.Native.Nat.{min}
use policysql.Prelude.{
  ℕ, ◌+◌, ◌-◌, Bool, true, false, not, ◌||◌, Option, none, some, List, [], ◌∷◌, map, leb, ltb,
  str_eq, any, find_if, length, codes, is_none, is_none_or, sat_add, if◌then◌else◌, ◌>>=◌,
}
use policysql.Transaction.Canonical.{Json, get, as_text, parse}
use policysql.Transaction.Canonical.Writer.{write_value}
use policysql.Transaction.Machine.Compiler.{TriggeredCheck}
use policysql.Transaction.Machine.Connection.{WorkLane, is_open}
use policysql.Transaction.Machine.Io.{Effect, Reply, Code}
use policysql.Transaction.Machine.State.{Phase, Versions, Record}
use policysql.Transaction.Machine.Step.Begin.{or_request, text_member}
use policysql.Transaction.Machine.Step.Closing.{close}
use policysql.Transaction.Machine.Step.Context.{
  Context, Step, Handler, act, branch, demand, fail, ◌>>◌,
}
use policysql.Transaction.Machine.Step.Plumbing.{
  live_record, connection, rollback_requested, respond, log, update_volatile, volatile_or_new, wait,
  set_phase, own_request_id, work,
}
use policysql.Transaction.Machine.Step.Answers.{pending_id}
use policysql.Transaction.Machine.Step.Checks.{
  HookStatement, HookPayload, CheckServices, sort_checks, dedup_checks, entropy_bytes,
  validation_id, check_at, atomic_run, told, executing, drop_capability,
}
use policysql.Transaction.Machine.Step.Tokens.{base64url, callback_session}
use policysql.Transaction.Machine.Value.{Value, Members}
use policysql.Transaction.Machine.Volatile.{CommitChecks, Task, AtomicRun, Work, Capability}

abbrev is_empty {ℓ} : {A : Type ℓ} → List A → Bool
is_empty [] = true
is_empty (x ∷ xs) = false

abbrev pub mark_passed : AtomicRun → AtomicRun
mark_passed a = record a { checks_passed = true }

abbrev pub set_request : Option String → Step → Step
set_request request s = record s { request = request }

module _ (ctx : Context) (services : CheckServices) where
  -- `sorted_checks` and `triggered`.
  unfoldable pub sorted_checks : List String → List TriggeredCheck
  unfolding sort_checks dedup_checks
  sorted_checks [] = []
  sorted_checks (r ∷ resources) =
      dedup_checks (sort_checks (ctx.compiler.triggered_checks (r ∷ resources)))

  unfoldable pub triggered : Record → List TriggeredCheck
  unfolding sorted_checks
  triggered r = sorted_checks (map (λ m. m.resource) r.mutations)

  abbrev pub unconfigured_log : String → TriggeredCheck → Value
  unconfigured_log request missing = Value.object (
      text_member "event" "commit_check_unconfigured"
        (text_member "requestId" request (text_member "check" missing.id Members.end)))

  abbrev pub reject : WorkLane → Handler
  reject lane = close ctx lane Phase.failed (some (Reply.error Code.check_rejected))

  abbrev is_unconfigured : TriggeredCheck → Bool
  is_unconfigured check = not (any (λ id. str_eq id check.id) ctx.host.configured_checks)

  -- `start_checks`.
  unfoldable pub start_checks : WorkLane → Option String → ℕ → String → String → Handler
  unfolding triggered close wait
  start_checks lane request_id sequence digest auth s =
      let request : String = or_request request_id (own_request_id ctx) in
      demand (live_record s.durable) "checks_record"
        (λ r.
          let checks : List TriggeredCheck = triggered r in
          if is_empty checks || is_none r.versions
          then fail "checks_trigger"
          else elim (find_if is_unconfigured checks) [
            | some missing ↦ act (log (unconfigured_log request missing)) >> reject lane
            | none ↦
                act (set_phase ctx Phase.validating)
                >> wait ctx lane (some request)
                    (Task.validating_persist (record {
                      sequence = sequence;
                      digest = digest;
                      auth = auth;
                      checks = checks;
                      index = 0;
                    }))
                    Effect.persist
          ])
        s

  -- The role that a check's validator acts in: the check's, or the session's.
  abbrev pub role_of : TriggeredCheck → Json → Option String
  role_of check auth = elim check.role [
    | some role ↦ some role
    | none ↦ get auth "role" >>= as_text
  ]

  abbrev pub grant : TriggeredCheck → String → Json → String → ℕ → Capability
  grant check token session role expires_at_ms = record {
    token_hash = services.text_of (services.sha256_hex (codes token));
    expires_at_ms = expires_at_ms;
    check = check.id;
    session = services.text_of (write_value services.float_text session);
    role = role;
    next_sequence = 1;
    last = none;
    rows = 0;
    result_bytes = 0;
  }

  abbrev pub give : Capability → Step → Step
  give capability = update_volatile ctx λ v. record v { capability = some capability }

  -- The end of `issue`: the capability, and the awaited call.
  unfoldable pub call_validator :
      WorkLane
      → String
      → CommitChecks
      → TriggeredCheck
      → ℕ
      → String
      → HookPayload
      → Json
      → String
      → Handler
  unfolding wait write_value
  call_validator lane request checks check expires_at_ms token payload session role =
      act (give (grant check token session role expires_at_ms))
      >> wait ctx lane (some request) (Task.validator checks) (λ id.
        Effect.call_validator id check.id (services.payload_text payload)
          (record { token = token; expires_at_ms = expires_at_ms })
          (expires_at_ms - ctx.host.now_ms))

  abbrev pub is_dead : ℕ → Step → Bool
  is_dead expires_at_ms s = leb expires_at_ms ctx.host.now_ms || not (is_open (connection s))

  abbrev pub payload_of :
      String → TriggeredCheck → Versions → String → Json → List HookStatement → HookPayload
  payload_of request check versions role variables statements = record {
    validation_id = services.text_of (validation_id ctx.owner);
    check = check.id;
    request_id = request;
    policy_version = versions.policy;
    schema_version = versions.schema;
    role = role;
    session = write_value services.float_text variables;
    statements = statements;
  }

  -- `issue`, once it is known until when the capability lives.
  unfoldable pub issue_until :
      WorkLane
      → String
      → CommitChecks
      → TriggeredCheck
      → ℕ
      → Versions
      → List HookStatement
      → Handler
  unfolding close write_value get parse callback_session base64url entropy_bytes validation_id
      call_validator
  issue_until lane request checks check expires_at_ms versions statements =
      branch (is_dead expires_at_ms) (reject lane) (
        demand (parse services.events checks.auth) "checks_auth" λ auth.
          demand (role_of check auth) "checks_role" λ role.
            demand (callback_session auth role) "checks_session" λ session.
              demand (get auth "session") "checks_session" λ variables.
                demand (entropy_bytes ctx.host) "entropy" λ bytes.
                  call_validator lane request checks check expires_at_ms
                    (services.text_of (base64url bytes))
                    (payload_of request check versions role variables statements) session role)

  -- `issue`.
  unfoldable pub issue : WorkLane → Option String → CommitChecks → Handler
  unfolding issue_until
  issue lane request_id checks =
      let request : String = or_request request_id (own_request_id ctx) in
      demand (check_at checks.checks checks.index) "check_index" λ check. λ s.
        demand (live_record s.durable) "checks_record"
          (λ r. demand r.expires_at_ms "checks_deadline" λ deadline. told r (atomic_run s) λ about.
            issue_until lane request checks check
              (min (sat_add ctx.host.now_ms check.timeout_ms) deadline) about.0 about.1)
          s

  abbrev is_late : Step → Bool
  is_late s =
      is_none_or (live_record s.durable >>= λ r. r.expires_at_ms) λ at. leb at ctx.host.now_ms

  -- `validating_persisted`.
  unfoldable pub validating_persisted : WorkLane → Option String → CommitChecks → Handler
  unfolding close issue
  validating_persisted lane request_id checks =
      branch (λ s. is_late s || rollback_requested s)
        (close ctx lane Phase.expired (some (Reply.error Code.check_rejected)))
        (issue lane request_id checks)

  -- `atomic_commit_binding` of step/atomic.rs.
  abbrev pub atomic_commit_binding : WorkLane → String → Handler
  atomic_commit_binding lane request s =
      demand (live_record s.durable) "atomic_record"
        (λ r.
          wait ctx lane (some request) Task.atomic_commit_binding
            λ id. Effect.check_binding id r.binding r.expires_at_ms)
        s

  abbrev pub pass_atomic : AtomicRun → Step → Step
  pass_atomic a = update_volatile ctx λ v. record v { atomic = some (mark_passed a) }

  abbrev pub binding_again :
      WorkLane → Option String → CommitChecks → Step → Option AtomicRun → Handler
  binding_again lane request_id checks s (some a) =
      act (pass_atomic a) >> atomic_commit_binding lane (or_request request_id (own_request_id ctx))
  binding_again lane request_id checks s none = demand (live_record s.durable) "checks_record" λ r.
      wait ctx lane request_id (Task.commit_binding checks.sequence checks.digest none true)
        λ id. Effect.check_binding id r.binding r.expires_at_ms

  -- After the last allow: an atomic run's own check of the binding, or the record's.
  abbrev pub check_binding_again : WorkLane → Option String → CommitChecks → Handler
  check_binding_again lane request_id checks s =
      binding_again lane request_id checks s (atomic_run s) s

  -- `verdict`.
  unfoldable pub verdict : WorkLane → Option String → CommitChecks → Bool → Handler
  unfolding close issue wait
  verdict lane request_id checks allowed =
      act (set_request request_id)
      >> (if not allowed
          then reject lane
          else if ltb (checks.index + 1) (length checks.checks)
          then issue lane request_id (record checks { index = checks.index + 1 })
          else check_binding_again lane request_id checks)

  abbrev pub defer : Work → Step → Step
  defer waiting = update_volatile ctx λ v. record v { deferred = some waiting }

  -- `verdict_arrived`.
  unfoldable pub verdict_arrived : WorkLane → Option String → CommitChecks → Bool → Handler
  unfolding verdict
  verdict_arrived lane request_id checks allowed =
      act drop_capability
      >> branch executing
          (act (
            defer (record {
              lane = lane;
              request_id = request_id;
              task = Task.verdict checks allowed;
            })))
          (verdict lane request_id checks allowed)

  abbrev pub ask_rollback : Step → Step
  ask_rollback = update_volatile ctx λ v. record v { rollback_requested = true }

  abbrev pub take_work : Step → Step
  take_work = update_volatile ctx λ v. record v {
    capability = none;
    work = none;
    pending = none;
    revoked_validator = pending_id v.pending;
  }

  abbrev pub take_deferred : Step → Step
  take_deferred = update_volatile ctx λ v. record v { capability = none; deferred = none }

  -- `expire_validating`, once the work that waits is known.
  abbrev pub expire_waiting : Work → Handler
  expire_waiting waiting =
      act (set_request waiting.request_id)
      >> (act (respond (Reply.error Code.check_rejected))
          >> (act (set_phase ctx Phase.expired)
              >> branch executing (act ask_rollback)
                  (close ctx WorkLane.background Phase.expired none)))

  unfoldable pub expire_validating : Handler
  unfolding close
  expire_validating s = elim (work s) [
    | some waiting ↦ (act take_work >> expire_waiting waiting) s
    | none ↦
        demand ((volatile_or_new ctx s).deferred) "expire_validating" expire_waiting
          (take_deferred s)
  ]
