-- ===== src/Transaction/Machine/Step/Closed.antt =====
-- What `close` does before it persists anything (step.rs, `close`, and `Reply` whose record was not
-- stored).
use Prim.Native.String.{String}
use policysql.Prelude.{◌≡◌, ◌<◌, true, false, Option, some, List, ℕ, [], ◌∷◌, ◌++◌, arith}
use policysql.Transaction.Machine.Connection.{Connection, Awaited, WorkLane, is_open}
use policysql.Transaction.Machine.Io.{Effect, Reply}
use policysql.Transaction.Machine.Limits.{max_safe_integer}
use policysql.Transaction.Machine.State.{Phase, Durable}
use policysql.Transaction.Machine.Step.Closing.{close}
use policysql.Transaction.Machine.Step.Committing.{work_task, pending_of, volatile_connection}
use policysql.Transaction.Machine.Step.Context.{Context, Step, Outcome}
use policysql.Transaction.Machine.Step.Plumbing.{wait, release_all}
use policysql.Transaction.Machine.Step.Services.{Services}
use policysql.Transaction.Machine.Value.{Value}
use policysql.Transaction.Machine.Volatile.{Volatile, Task, callback_executing}

-- The step ended well: to the effects given it added one, the ROLLBACK of the id given, which is
-- pending; the durable part is as given, and the task awaiting it then records `phase` and sends
-- `reply`.
abbrev pub IsRollingBack :
    Outcome × Step → List Effect → ℕ → Option Durable → Phase → Option Reply → Type 0
IsRollingBack o before id d phase reply =
    (o.0 ≡ Outcome.done)
    × (o.1.effects ≡ before ++ (Effect.rollback id ∷ []))
    × (o.1.durable ≡ d)
    × (work_task o.1.volatile ≡ some (Task.close_rollback phase reply))
    × (pending_of o.1.volatile ≡ some (record { id = id; effect = Awaited.rollback }))
    × (volatile_connection o.1.volatile ≡ Connection.closing)

module _ (ctx : Context) where
  -- As long as the effect ids are not used up, closing on an open connection that no callback query
  -- holds sends ROLLBACK, the one effect it adds, and waits for it: the record stays as it is, and the
  -- phase is recorded and the reply sent by the task that waits.
  pub close-IsRollingBack :
      (lane : WorkLane) (phase : Phase) (reply : Option Reply) (v : Volatile) (s : Step)
      → s.volatile ≡ some v
      → callback_executing v ≡ false
      → is_open v.connection ≡ true
      → v.next_effect_id < max_safe_integer
      → IsRollingBack
          (close ctx lane phase reply s)
          s.effects
          v.next_effect_id
          s.durable
          phase
          reply
  unfolding close release_all wait
  close-IsRollingBack lane phase reply v s held idle connected free =
      rw (held, idle, connected) (ground arith)
