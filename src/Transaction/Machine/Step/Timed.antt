-- ===== src/Transaction/Machine/Step/Timed.antt =====
-- What a timer does to an interactive transaction (step.rs, `timer`).
use mathlib.Core.Path.{subst}
use policysql.Transaction.Machine.Step.Closing.{close}
use policysql.Prelude.{sym, ℕ, ◌≡◌, ◌≤◌, ◌<◌, ◌⊎◌, Bool, true, false, none, some, arith}
use policysql.Transaction.Machine.Connection.{WorkLane, is_open}
use policysql.Transaction.Machine.Limits.{max_safe_integer}
use policysql.Transaction.Machine.State.{Phase, Kind, Record, Durable}
use policysql.Transaction.Machine.Step.Closed.{IsRollingBack, close-IsRollingBack}
use policysql.Transaction.Machine.Step.Context.{Context, Step, Outcome, Handler}
use policysql.Transaction.Machine.Step.Timer.{timer}
use policysql.Transaction.Machine.Volatile.{Volatile, callback_executing}

module _ (ctx : Context) (atomic_timer : Bool → Handler) (expire_validating : Handler) where
  -- Once a transaction is committing, and before its deadline in any phase, a timer changes nothing.
  pub timer-same :
      (r : Record) (at : ℕ) (s : Step)
      → s.durable ≡ some (Durable.live r)
      → r.kind ≡ Kind.interactive
      → r.expires_at_ms ≡ some at
      → (r.phase ≡ Phase.committing) ⊎ (ctx.host.now_ms < at)
      → timer ctx atomic_timer expire_validating s ≡ (Outcome.done, s)
  unfolding timer
  timer-same r at s live kind deadline early = ground arith

  -- At its deadline, an active transaction with an open connection and nothing in progress sends
  -- ROLLBACK and waits for it, to be recorded as expired, with no one to answer.
  pub timer-IsRollingBack :
      (r : Record) (at : ℕ) (v : Volatile) (s : Step)
      → s.durable ≡ some (Durable.live r)
      → r.kind ≡ Kind.interactive
      → r.phase ≡ Phase.active
      → r.expires_at_ms ≡ some at
      → at ≤ ctx.host.now_ms
      → s.volatile ≡ some v
      → v.work ≡ none
      → callback_executing v ≡ false
      → is_open v.connection ≡ true
      → v.next_effect_id < max_safe_integer
      → IsRollingBack
          (timer ctx atomic_timer expire_validating s)
          s.effects
          v.next_effect_id
          s.durable
          Phase.expired
          none
  unfolding timer
  timer-IsRollingBack r at v s live kind active deadline due held idle quiet connected free =
      let closes : timer ctx atomic_timer expire_validating s
          ≡ close ctx WorkLane.background Phase.expired none s =
        ground arith in
      subst (λ o. IsRollingBack o s.effects v.next_effect_id s.durable Phase.expired none)
        (sym closes)
        (close-IsRollingBack ctx WorkLane.background Phase.expired none v s held quiet connected
          free)
