-- ===== src/Transaction/Machine/Step/Committing.antt =====
-- What a commit does to the record (step.rs, `consume` at `CommitPersist` and `CommitSend`).
use Prim.Native.String.{String}
use policysql.Prelude.{
  ℕ, ◌≡◌, ◌<◌, refl, Bool, true, false, Option, none, some, [], ◌∷◌, Option-cases, inl, inr,
  if-rule, is_none, ap, ◌∙◌, if◌then◌else◌, Bool-cases, ◌>>=◌, any, any-append, arith, leb,
}
use policysql.Transaction.Machine.Connection.{Pending, Connection, WorkLane, is_open, is_client}
use policysql.Transaction.Machine.Io.{Effect, Reply, Code, Class, Lane}
use policysql.Transaction.Machine.Limits.{max_safe_integer}
use policysql.Transaction.Machine.State.{Phase, Record, Durable}
use policysql.Transaction.Machine.Step.Answers.{
  respond_to, plain_reply, internal_failure, or_own, is_busy,
}
use policysql.Transaction.Machine.Step.Commit.{
  send_commit, commit_persisted, commit_failed, is_not_committed, final_reply,
}
use policysql.Transaction.Machine.Step.Closing.{given_up, close, persist_phase}
use policysql.Transaction.Machine.Step.Context.{Context, Step, Outcome, Handler, branch}
use policysql.Transaction.Machine.Step.Plumbing.{
  live_record, volatile_or_new, rollback_requested, clear_work, connection, set_connection,
  set_phase, wait, durable_in_phase, release_all, own_request_id,
}
use policysql.Transaction.Machine.Volatile.{Task, Volatile}

abbrev pub is_commit : Effect → Bool
is_commit (Effect.commit id) = true
is_commit _ = false

abbrev pub work_task : Option Volatile → Option Task
work_task none = none
work_task (some v) = elim v.work [ none ↦ none | some w ↦ some w.task ]

abbrev pub pending_of : Option Volatile → Option Pending
pending_of none = none
pending_of (some v) = v.pending

abbrev pub volatile_connection : Option Volatile → Connection
volatile_connection none = Connection.none
volatile_connection (some v) = v.connection

no_commit-false : {b : Bool} → b ≡ true → b ≡ false → ⊥
no_commit-false t f = cc

branch-yes :
    (test : Step → Bool) (m n : Handler) (s : Step) (P : Outcome × Step → Type 0)
    → test s ≡ true
    → P (m s)
    → P (branch test m n s)
branch-yes test m n s P e p = rw (e, branch) p

deadline-live :
    (d : Option Durable) (at : ℕ)
    → (live_record d >>= λ r. r.expires_at_ms) ≡ some at
    → (r : Record) × (d ≡ some (Durable.live r)) × (r.expires_at_ms ≡ some at)
deadline-live (some (Durable.live r)) at e = (r, refl, e)
deadline-live (some (Durable.tombstone name)) at e = cc
deadline-live none at e = cc

module _ (ctx : Context) where
  pub wait-quiet :
      (lane : WorkLane) (request_id : Option String) (task : Task) (effect : ℕ → Effect)
      → ((id : ℕ) → is_commit (effect id) ≡ false)
      → (s : Step) → any is_commit s.effects ≡ false
      → any is_commit (wait ctx lane request_id task effect s).1.effects ≡ false
  unfolding wait
  wait-quiet lane request_id task effect no_commit s quiet =
      let v = volatile_or_new ctx s in
      ground (
        arith,
        any-append is_commit s.effects (effect v.next_effect_id ∷ []),
        no_commit v.next_effect_id,
      )

  pub given_up-same :
      (s : Step) → ((given_up ctx s).effects ≡ s.effects) × ((given_up ctx s).durable ≡ s.durable)
  unfolding release_all
  given_up-same s = elim (Option-cases s.volatile) [
    | inl e ↦ rw e (refl, refl)
    | inr (v, e) ↦ rw e (refl, refl)
  ]

  cleared-quiet :
      (reply : Option Reply) (s : Step)
      → any is_commit s.effects ≡ false
      → any is_commit (clear_work (respond_to reply s)).effects ≡ false
  cleared-quiet none s quiet = ground arith
  cleared-quiet (some r) s quiet =
      ground (arith, any-append is_commit s.effects (Effect.respond Lane.client r ∷ []))

  persist_phase-quiet :
      (lane : WorkLane) (request_id : Option String) (phase : Phase) (reply : Option Reply)
      (s : Step)
      → any is_commit s.effects ≡ false
      → any is_commit (persist_phase ctx lane request_id phase reply s).1.effects ≡ false
  unfolding persist_phase
  persist_phase-quiet lane request_id phase reply s quiet =
      if-rule (λ (o : Outcome × Step). any is_commit o.1.effects ≡ false) (is_none s.durable) _ _
        (cleared-quiet reply s quiet)
        (wait-quiet lane request_id (plain_reply reply (internal_failure reply)) Effect.persist
          (λ id. refl) (set_phase ctx phase s) quiet)

  pub close-quiet :
      (lane : WorkLane) (phase : Phase) (reply : Option Reply) (s : Step)
      → any is_commit s.effects ≡ false
      → any is_commit (close ctx lane phase reply s).1.effects ≡ false
  unfolding close
  close-quiet lane phase reply s quiet =
      let t = given_up ctx s in
      let same : any is_commit t.effects ≡ false = ap (any is_commit) (given_up-same s).0 ∙ quiet in
      if-rule (λ (o : Outcome × Step). any is_commit o.1.effects ≡ false) (is_busy s.volatile) _ _
        quiet
        (if-rule (λ (o : Outcome × Step). any is_commit o.1.effects ≡ false)
          (is_open (connection t)) _ _
          (wait-quiet lane (if is_client lane then or_own t.request (own_request_id ctx) else none)
            (Task.close_rollback phase reply) Effect.rollback (λ id. refl)
            (set_connection ctx Connection.closing t) same)
          (persist_phase-quiet lane
            (if is_client lane then or_own t.request (own_request_id ctx) else none) phase reply
            (set_connection ctx Connection.none t) same))

  -- COMMIT is sent only for a record whose deadline is still ahead, and with no expiry requested.
  pub commit_persisted-deadline :
      (lane : WorkLane) (request_id : Option String) (sequence : ℕ) (digest : String)
      (passed : Bool) (s : Step)
      → any is_commit s.effects ≡ false
      → any is_commit (commit_persisted ctx lane request_id sequence digest passed s).1.effects
        ≡ true
      → (r : Record) × (at : ℕ) × (s.durable ≡ some (Durable.live r))
        × (r.expires_at_ms ≡ some at)
        × (ctx.host.now_ms < at)
        × (rollback_requested s ≡ false)
  unfolding commit_persisted
  commit_persisted-deadline lane request_id sequence digest passed s before after =
      elim (Option-cases (live_record s.durable >>= λ r. r.expires_at_ms)) [
        | inl e ↦ absurd (no_commit-false after (rw e before))
        | inr (at, e) ↦
            elim (Bool-cases (if leb at ctx.host.now_ms then true else rollback_requested s)) [
              | inl late ↦ absurd (
                  no_commit-false after (
                    rw e (
                      branch-yes
                        (λ (t : Step).
                          if leb at ctx.host.now_ms then true else rollback_requested t)
                        (close ctx lane Phase.expired (some (Reply.error Code.unavailable)))
                        (send_commit ctx lane request_id sequence digest passed) s
                        (λ (o : Outcome × Step). any is_commit o.1.effects ≡ false) late
                        (close-quiet lane Phase.expired (some (Reply.error Code.unavailable)) s
                          before))))
              | inr early ↦
                  let (r, live, deadline) = deadline-live s.durable at e in
                  (r, at, live, deadline, ground arith, ground arith)
            ]
      ]

  -- As long as the effect ids are not used up, a COMMIT that failed in any other way than provably
  -- unsent leaves an unknown commit and no connection, and its reply, whether the record is stored or
  -- not, is that the outcome is unknown.
  pub commit_failed-unknown :
      (lane : WorkLane) (request_id : Option String) (class : Class) (r : Record) (s : Step)
      → s.durable ≡ some (Durable.live r)
      → is_not_committed class ≡ false
      → (volatile_or_new ctx s).next_effect_id < max_safe_integer
      → ((commit_failed ctx lane request_id class s).0 ≡ Outcome.done)
        × ((commit_failed ctx lane request_id class s).1.durable
            ≡ some (Durable.live (record r { phase = Phase.commit_unknown; expires_at_ms = none })))
        × (work_task (commit_failed ctx lane request_id class s).1.volatile
            ≡ some (
                final_reply
                  (Reply.error Code.outcome_unknown)
                  (Reply.error Code.outcome_unknown)
                  []
                  []))
        × (volatile_connection (commit_failed ctx lane request_id class s).1.volatile
            ≡ Connection.none)
  unfolding commit_failed durable_in_phase wait
  commit_failed-unknown lane request_id class r s live known e = ground arith
