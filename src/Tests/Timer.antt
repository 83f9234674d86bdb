-- ===== src/Tests/Timer.antt =====
-- The theorems on the timer and on deadlines, applied to the sample owner.
use policysql.Prelude.{◌≡◌, ◌⊎◌, ◌≤◌, ◌<◌, true, false, refl, none, some, [], inl, arith}
use policysql.Transaction.Machine.State.{Phase, Durable}
use policysql.Transaction.Machine.Step.Closed.{IsRollingBack}
use policysql.Transaction.Machine.Step.Context.{Context, Step, Outcome, pure}
use policysql.Transaction.Machine.Connection.{WorkLane}
use policysql.Transaction.Machine.Io.{Reply, Code}
use policysql.Transaction.Machine.Step.Commit.{commit_persisted}
use policysql.Transaction.Machine.Step.Decided.{IsCommitting, commit_persisted-decides}
use policysql.Transaction.Machine.Volatile.{Task}
use policysql.Transaction.Machine.Step.Timed.{timer-same, timer-IsRollingBack}
use policysql.Transaction.Machine.Step.Timer.{timer}
use policysql.Tests.Records.{open_volatile, open_step}
use policysql.Tests.Samples.{
  sample_context, sample_host, active_record, committing_record, committing_step,
}

-- The sample owner past its deadline.
abbrev late_context : Context
late_context = record sample_context { host = record sample_host { now_ms = 3000 } }

timer-same_example :
    timer late_context (λ due. pure) pure committing_step ≡ (Outcome.done, committing_step)
timer-same_example =
    timer-same late_context (λ due. pure) pure committing_record 2000 committing_step refl refl refl
      (inl refl)

timer-IsRollingBack_example :
    IsRollingBack
      (timer late_context (λ due. pure) pure open_step)
      []
      7
      (some (Durable.live active_record))
      Phase.expired
      none
timer-IsRollingBack_example =
    timer-IsRollingBack late_context (λ due. pure) pure active_record 2000 open_volatile open_step
      refl refl refl refl (omega arith) refl refl refl refl (omega arith)

-- The sample owner with an open connection, its COMMIT decided.
abbrev decided_step : Step
decided_step = record open_step { durable = some (Durable.live committing_record) }

abbrev decided : Context → Outcome × Step
decided ctx = commit_persisted ctx WorkLane.client none 1 "d" false decided_step

commit_persisted-decides_example :
    ((2000 ≤ late_context.host.now_ms) ⊎ (open_volatile.rollback_requested ≡ true))
      × IsRollingBack
          (decided late_context)
          []
          7
          (some (Durable.live committing_record))
          Phase.expired
          (some (Reply.error Code.unavailable))
    ⊎ (late_context.host.now_ms < 2000)
      × (open_volatile.rollback_requested ≡ false)
      × IsCommitting
          (decided late_context)
          []
          7
          (some (Durable.live committing_record))
          (Task.commit_send 1 "d" false)
commit_persisted-decides_example =
    commit_persisted-decides late_context WorkLane.client none 1 "d" false committing_record 2000
      open_volatile decided_step refl refl refl refl refl (omega arith)
