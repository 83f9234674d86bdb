-- ===== src/Transaction/Machine/Step/Decided.antt =====
-- What the persist before COMMIT leads to (step.rs, `CommitPersist` persisted).
use Prim.Native.String.{String}
use mathlib.Core.Path.{subst}
use policysql.Prelude.{
  ℕ, ◌≡◌, ◌<◌, ◌≤◌, ◌⊎◌, sym, Bool, true, false, Option, some, List, [], ◌∷◌, ◌++◌, arith,
  Bool-cases, inl, inr, leb, if◌then◌else◌,
}
use policysql.Transaction.Machine.Connection.{Connection, Awaited, WorkLane, is_open}
use policysql.Transaction.Machine.Io.{Effect, Reply, Code}
use policysql.Transaction.Machine.Limits.{max_safe_integer}
use policysql.Transaction.Machine.State.{Phase, Record, Durable}
use policysql.Transaction.Machine.Step.Closed.{IsRollingBack, close-IsRollingBack}
use policysql.Transaction.Machine.Step.Closing.{close}
use policysql.Transaction.Machine.Step.Commit.{commit_persisted, send_commit}
use policysql.Transaction.Machine.Step.Committing.{work_task, pending_of, volatile_connection}
use policysql.Transaction.Machine.Step.Context.{Context, Step, Outcome}
use policysql.Transaction.Machine.Step.Plumbing.{wait}
use policysql.Transaction.Machine.Volatile.{Volatile, Task, callback_executing}

-- The step ended well: to the effects given it added one, the COMMIT of the id given, which is pending;
-- the durable part is as given, and the connection is closing.
abbrev pub IsCommitting : Outcome × Step → List Effect → ℕ → Option Durable → Task → Type 0
IsCommitting o before id d task =
    (o.0 ≡ Outcome.done)
    × (o.1.effects ≡ before ++ (Effect.commit id ∷ []))
    × (o.1.durable ≡ d)
    × (work_task o.1.volatile ≡ some task)
    × (pending_of o.1.volatile ≡ some (record { id = id; effect = Awaited.commit }))
    × (volatile_connection o.1.volatile ≡ Connection.closing)

module _ (ctx : Context) where
  send_commit-IsCommitting :
      (lane : WorkLane) (request_id : Option String) (sequence : ℕ) (digest : String)
      (passed : Bool) (v : Volatile) (s : Step)
      → s.volatile ≡ some v
      → v.next_effect_id < max_safe_integer
      → IsCommitting
          (send_commit ctx lane request_id sequence digest passed s)
          s.effects
          v.next_effect_id
          s.durable
          (Task.commit_send sequence digest passed)
  unfolding wait
  send_commit-IsCommitting lane request_id sequence digest passed v s held free =
      rw held (ground arith)

  -- On an open connection that no callback query holds, as long as the effect ids are not used up, the
  -- persist before COMMIT leads to one of two ends: at the deadline, or once an expiry was requested,
  -- ROLLBACK is sent, to be recorded as expired and answered as unavailable; before the deadline, with
  -- none requested, COMMIT is sent. Either is the one effect added, and is awaited.
  pub commit_persisted-decides :
      (lane : WorkLane) (request_id : Option String) (sequence : ℕ) (digest : String)
      (passed : Bool) (r : Record) (at : ℕ) (v : Volatile) (s : Step)
      → s.durable ≡ some (Durable.live r)
      → r.expires_at_ms ≡ some at
      → s.volatile ≡ some v
      → callback_executing v ≡ false
      → is_open v.connection ≡ true
      → v.next_effect_id < max_safe_integer
      → ((at ≤ ctx.host.now_ms) ⊎ (v.rollback_requested ≡ true))
          × IsRollingBack
              (commit_persisted ctx lane request_id sequence digest passed s)
              s.effects
              v.next_effect_id
              s.durable
              Phase.expired
              (some (Reply.error Code.unavailable))
        ⊎ (ctx.host.now_ms < at)
          × (v.rollback_requested ≡ false)
          × IsCommitting
              (commit_persisted ctx lane request_id sequence digest passed s)
              s.effects
              v.next_effect_id
              s.durable
              (Task.commit_send sequence digest passed)
  unfolding commit_persisted
  commit_persisted-decides lane request_id sequence digest passed r at v s live deadline held idle
        connected free =
      elim (Bool-cases (if leb at ctx.host.now_ms then true else v.rollback_requested)) [
        | inl late ↦ inl (
          late_by late,
          subst
              (λ o.
                IsRollingBack o s.effects v.next_effect_id s.durable Phase.expired
                  (some (Reply.error Code.unavailable)))
              (sym (closes late))
              (close-IsRollingBack ctx lane Phase.expired (some (Reply.error Code.unavailable)) v s
                held idle connected free),
        )
        | inr early ↦ inr (
          ground arith,
          ground arith,
          subst
              (λ o.
                IsCommitting o s.effects v.next_effect_id s.durable
                  (Task.commit_send sequence digest passed))
              (sym (sends early))
              (send_commit-IsCommitting lane request_id sequence digest passed v s held free),
        )
      ]
    where
      late_by :
          (if leb at ctx.host.now_ms then true else v.rollback_requested) ≡ true
          → (at ≤ ctx.host.now_ms) ⊎ (v.rollback_requested ≡ true)
      late_by late = ground arith

      closes :
          (if leb at ctx.host.now_ms then true else v.rollback_requested) ≡ true
          → commit_persisted ctx lane request_id sequence digest passed s
            ≡ close ctx lane Phase.expired (some (Reply.error Code.unavailable)) s
      closes late = ground (arith, live, deadline, held, late)

      sends :
          (if leb at ctx.host.now_ms then true else v.rollback_requested) ≡ false
          → commit_persisted ctx lane request_id sequence digest passed s
            ≡ send_commit ctx lane request_id sequence digest passed s
      sends early = ground (arith, live, deadline, held, early)
