-- ===== src/Transaction/Machine/Step/Validating.antt =====
-- Nothing in a commit's checks can emit COMMIT, and the durable part stays the owner's
-- (step/checks.rs; step/atomic.rs, `atomic_commit_binding`).
use Prim.Native.String.{String}
use Prim.Native.Nat.{min}
use policysql.Prelude.{
  ℕ, ◌+◌, ◌-◌, refl, Bool, true, Option, none, some, List, Option-cases, inl, inr, sat_add,
}
use policysql.Transaction.Canonical.{Json, get, parse}
use policysql.Transaction.Machine.Compiler.{TriggeredCheck}
use policysql.Transaction.Machine.Connection.{WorkLane}
use policysql.Transaction.Machine.Io.{Effect, Reply, Lane, Code}
use policysql.Transaction.Machine.State.{Phase, Kind, Versions, Record}
use policysql.Transaction.Machine.Step.Begin.{or_request}
use policysql.Transaction.Machine.Step.Closing.{close}
use policysql.Transaction.Machine.Step.Context.{Context, Step, Handler, act, fail, demand}
use policysql.Transaction.Machine.Step.Plumbing.{
  live_record, own_request_id, work, volatile_or_new, wait,
}
use policysql.Transaction.Machine.Step.Checks.{
  HookStatement, HookPayload, CheckServices, entropy_bytes, check_at, atomic_run, told, executing,
}
use policysql.Transaction.Machine.Step.Held.{
  Holds, then-Holds, state-Holds, plain-Holds, branch-Holds, if-Holds, option-Holds, demand-Holds,
  fail-Holds, emit-Holds, volatile-Holds, wait-Holds, close-Holds, set_phase-Holds,
}
use policysql.Transaction.Machine.Step.Tokens.{base64url, callback_session}
use policysql.Transaction.Machine.Step.Verdicts.{
  is_dead, payload_of, role_of, issue_until, give, grant, pass_atomic, atomic_commit_binding, defer,
  ask_rollback, take_work, take_deferred, expire_waiting, binding_again, check_binding_again,
  triggered, unconfigured_log, reject, set_request, start_checks, call_validator, issue,
  validating_persisted, verdict, verdict_arrived, expire_validating,
}
use policysql.Transaction.Machine.Volatile.{CommitChecks, Task, AtomicRun, Work}

told-Holds :
    (o : String) (r : Record) (run : Option AtomicRun)
    (next : (Versions × List HookStatement) → Handler)
    → ((about : Versions × List HookStatement) → Holds o (next about))
    → Holds o (told r run next)
told-Holds o r run next keeps =
    elim r.kind as (λ k. Holds o (told (record r { kind = k }) run next)) [
      | Kind.atomic ↦
          option-Holds o run (fail "checks_atomic") _ (fail-Holds o "checks_atomic") λ a. keeps _
      | Kind.interactive ↦ demand-Holds o r.versions "checks_versions" _ λ versions. keeps _
    ]

module _ (ctx : Context) (services : CheckServices) where
  reject-Holds : (lane : WorkLane) → Holds ctx.owner (reject ctx services lane)
  unfolding close
  reject-Holds lane =
      close-Holds ctx lane Phase.failed (some (Reply.error Code.check_rejected)) refl

  pub start_checks-Holds :
      (lane : WorkLane) (request_id : Option String) (sequence : ℕ) (digest auth : String)
      → Holds ctx.owner (start_checks ctx services lane request_id sequence digest auth)
  unfolding start_checks
  start_checks-Holds lane request_id sequence digest auth = state-Holds ctx.owner _ λ s.
      let request = or_request request_id (own_request_id ctx) in
      demand-Holds ctx.owner (live_record s.durable) "checks_record" _ λ r.
        if-Holds ctx.owner _ _ _ (fail-Holds ctx.owner "checks_trigger") (
          option-Holds ctx.owner _ _ _
            (then-Holds ctx.owner _ _ (set_phase-Holds ctx Phase.validating refl) (
              wait-Holds ctx lane (some request)
                (Task.validating_persist (record {
                  sequence = sequence;
                  digest = digest;
                  auth = auth;
                  checks = triggered ctx services r;
                  index = 0;
                }))
                Effect.persist (λ id. refl)))
            (λ missing.
              then-Holds ctx.owner _ _
                (emit-Holds ctx.owner (Effect.log (unconfigured_log ctx services request missing))
                  refl)
                (reject-Holds lane)))

  call_validator-Holds :
      (lane : WorkLane) (request : String) (checks : CommitChecks) (check : TriggeredCheck)
      (expires_at_ms : ℕ) (token : String) (payload : HookPayload) (session : Json) (role : String)
      → Holds ctx.owner (
          call_validator ctx services lane request checks check expires_at_ms token payload session
            role)
  unfolding call_validator
  call_validator-Holds lane request checks check expires_at_ms token payload session role =
      then-Holds ctx.owner _ _
        (plain-Holds ctx.owner
          (act (give ctx services (grant ctx services check token session role expires_at_ms)))
          λ s. (refl, refl))
        (wait-Holds ctx lane (some request) (Task.validator checks)
          (λ id.
            Effect.call_validator id check.id (services.payload_text payload)
              (record { token = token; expires_at_ms = expires_at_ms })
              (expires_at_ms - ctx.host.now_ms))
          (λ id. refl))

  issue_until-Holds :
      (lane : WorkLane) (request : String) (checks : CommitChecks) (check : TriggeredCheck)
      (expires_at_ms : ℕ) (versions : Versions) (statements : List HookStatement)
      → Holds ctx.owner
          (issue_until ctx services lane request checks check expires_at_ms versions statements)
  unfolding issue_until
  issue_until-Holds lane request checks check expires_at_ms versions statements =
      let o = ctx.owner in
      branch-Holds o (is_dead ctx services expires_at_ms) _ _ (reject-Holds lane) (
        demand-Holds o (parse services.events checks.auth) "checks_auth" _ λ auth.
          demand-Holds o (role_of ctx services check auth) "checks_role" _ λ role.
            demand-Holds o (callback_session auth role) "checks_session" _ λ session.
              demand-Holds o (get auth "session") "checks_session" _ λ variables.
                demand-Holds o (entropy_bytes ctx.host) "entropy" _ λ bytes.
                  call_validator-Holds lane request checks check expires_at_ms
                    (services.text_of (base64url bytes))
                    (payload_of ctx services request check versions role variables statements)
                    session role)

  issue-Holds :
      (lane : WorkLane) (request_id : Option String) (checks : CommitChecks)
      → Holds ctx.owner (issue ctx services lane request_id checks)
  unfolding issue
  issue-Holds lane request_id checks =
      let o = ctx.owner in
      let request = or_request request_id (own_request_id ctx) in
      demand-Holds o (check_at checks.checks checks.index) "check_index" _ λ check.
        state-Holds o _ λ s. demand-Holds o (live_record s.durable) "checks_record" _ λ r.
          demand-Holds o r.expires_at_ms "checks_deadline" _ λ deadline.
            told-Holds o r (atomic_run s) _ λ about.
              issue_until-Holds lane request checks check
                (min (sat_add ctx.host.now_ms check.timeout_ms) deadline) about.0 about.1

  -- However the first persist of `validating` finds the transaction, no COMMIT is emitted.
  pub validating_persisted-Holds :
      (lane : WorkLane) (request_id : Option String) (checks : CommitChecks)
      → Holds ctx.owner (validating_persisted ctx services lane request_id checks)
  unfolding validating_persisted
  validating_persisted-Holds lane request_id checks =
      branch-Holds ctx.owner _ _ _
        (close-Holds ctx lane Phase.expired (some (Reply.error Code.check_rejected)) refl)
        (issue-Holds lane request_id checks)

  expire_waiting-Holds : (waiting : Work) → Holds ctx.owner (expire_waiting ctx services waiting)
  unfolding close
  expire_waiting-Holds waiting =
      then-Holds ctx.owner _ _
        (plain-Holds ctx.owner (act (set_request waiting.request_id)) λ s. (refl, refl))
        (then-Holds ctx.owner _ _
          (emit-Holds ctx.owner (Effect.respond Lane.client (Reply.error Code.check_rejected)) refl)
          (then-Holds ctx.owner _ _ (set_phase-Holds ctx Phase.expired refl) (
            branch-Holds ctx.owner executing _ _
              (plain-Holds ctx.owner (act (ask_rollback ctx services)) λ s. (refl, refl))
              (close-Holds ctx WorkLane.background Phase.expired none refl))))

  -- An expiry that ends a validation emits no COMMIT.
  pub expire_validating-Holds : Holds ctx.owner (expire_validating ctx services)
  unfolding expire_validating
  expire_validating-Holds = record {
    at = λ s held. elim (Option-cases (work s)) [
      | inr (waiting, e) ↦
          rw (e, expire_validating)
            ((then-Holds ctx.owner (act (take_work ctx services))
                (expire_waiting ctx services waiting)
                (plain-Holds ctx.owner (act (take_work ctx services)) λ s. (refl, refl))
                (expire_waiting-Holds waiting)).at
              s held)
      | inl e ↦
          rw (e, expire_validating)
            ((demand-Holds ctx.owner ((volatile_or_new ctx s).deferred) "expire_validating"
                (expire_waiting ctx services) expire_waiting-Holds).at
              (take_deferred ctx services s) held)
    ];
  }

  -- An atomic run's own check of the binding.
  atomic_commit_binding-Holds :
      (lane : WorkLane) (request : String)
      → Holds ctx.owner (atomic_commit_binding ctx services lane request)
  atomic_commit_binding-Holds lane request =
      state-Holds ctx.owner
        (λ s. demand (live_record s.durable) "atomic_record" λ r.
          wait ctx lane (some request) Task.atomic_commit_binding
            λ id. Effect.check_binding id r.binding r.expires_at_ms)
        λ s. demand-Holds ctx.owner (live_record s.durable) "atomic_record" _ λ r.
          wait-Holds ctx lane (some request) Task.atomic_commit_binding
            (λ id. Effect.check_binding id r.binding r.expires_at_ms) (λ id. refl)

  binding_again-Holds :
      (lane : WorkLane) (request_id : Option String) (checks : CommitChecks) (s : Step)
      (run : Option AtomicRun)
      → Holds ctx.owner (binding_again ctx services lane request_id checks s run)
  binding_again-Holds lane request_id checks s (some a) =
      then-Holds ctx.owner _ _
        (plain-Holds ctx.owner (act (pass_atomic ctx services a)) λ s. (refl, refl))
        (atomic_commit_binding-Holds lane (or_request request_id (own_request_id ctx)))
  binding_again-Holds lane request_id checks s none =
      demand-Holds ctx.owner (live_record s.durable) "checks_record" _ λ r.
        wait-Holds ctx lane request_id (Task.commit_binding checks.sequence checks.digest none true)
          (λ id. Effect.check_binding id r.binding r.expires_at_ms) (λ id. refl)

  check_binding_again-Holds :
      (lane : WorkLane) (request_id : Option String) (checks : CommitChecks)
      → Holds ctx.owner (check_binding_again ctx services lane request_id checks)
  check_binding_again-Holds lane request_id checks =
      state-Holds ctx.owner
        (λ s. binding_again ctx services lane request_id checks s (atomic_run s))
        λ s. binding_again-Holds lane request_id checks s (atomic_run s)

  pub verdict-Holds :
      (lane : WorkLane) (request_id : Option String) (checks : CommitChecks) (allowed : Bool)
      → Holds ctx.owner (verdict ctx services lane request_id checks allowed)
  unfolding verdict
  verdict-Holds lane request_id checks allowed =
      then-Holds ctx.owner _ _
        (plain-Holds ctx.owner (act (set_request request_id)) λ s. (refl, refl))
        (if-Holds ctx.owner _ _ _ (reject-Holds lane) (
          if-Holds ctx.owner _ _ _
            (issue-Holds lane request_id (record checks { index = checks.index + 1 }))
            (check_binding_again-Holds lane request_id checks)))

  -- Whatever a validator's verdict is, no COMMIT is emitted, and the durable part stays the owner's,
  -- in a phase that is not `discarded`.
  pub verdict_arrived-Holds :
      (lane : WorkLane) (request_id : Option String) (checks : CommitChecks) (allowed : Bool)
      → Holds ctx.owner (verdict_arrived ctx services lane request_id checks allowed)
  unfolding verdict_arrived
  verdict_arrived-Holds lane request_id checks allowed =
      then-Holds ctx.owner _ _ (volatile-Holds ctx.owner (λ v. record v { capability = none })) (
        branch-Holds ctx.owner executing _ _
          (plain-Holds ctx.owner
            (act (
              defer ctx services (record {
                lane = lane;
                request_id = request_id;
                task = Task.verdict checks allowed;
              })))
            λ s. (refl, refl))
          (verdict-Holds lane request_id checks allowed))
