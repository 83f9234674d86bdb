-- ===== src/Tests/Records.antt =====
-- The theorems on records and on closing, applied to the sample owner.
use policysql.Prelude.{◌≡◌, refl, true, false, none, some, [], arith}
use policysql.Transaction.Machine.Compiler.{Validated}
use policysql.Transaction.Machine.Connection.{Connection, WorkLane}
use policysql.Transaction.Machine.Io.{Reply, Code}
use policysql.Transaction.Machine.State.{
  Phase, Operation, Durable, short_text, no_usage, usage_is_valid, is_consistent,
}
use policysql.Transaction.Machine.Step.Closed.{IsRollingBack, close-IsRollingBack}
use policysql.Transaction.Machine.Step.Closing.{close}
use policysql.Transaction.Machine.Step.Context.{Step}
use policysql.Transaction.Machine.Step.Recorded.{completed-is_consistent}
use policysql.Transaction.Machine.Step.Statement.{completed}
use policysql.Transaction.Machine.Volatile.{Volatile, StatementTask, ReplyTask}
use policysql.Tests.Machine.{reply_text}
use policysql.Tests.Samples.{
  sample_hash, sample_owner, sample_context, sample_services, active_record, committing_step,
  active_record-consistent,
}

abbrev sample_statement : StatementTask
sample_statement = record {
  sequence = 1;
  digest = sample_hash;
  handle = 3;
  operation = Operation.update;
  resource = some "orders";
  versions = record { schema = "1"; policy = "1" };
  explain_resource = none;
}

abbrev sample_result : Validated
sample_result = record {
  raw_bytes = 10;
  values = 0;
  columns = [];
  rows = [];
  redactions = [];
  affected_rows = 2;
  result_columns = [];
  operation_check = false;
}

abbrev pub open_volatile : Volatile
open_volatile = record {
  v = 1;
  owner = some sample_owner;
  next_effect_id = 7;
  connection = Connection.opened;
  handles = [];
  pending = none;
  work = none;
  rollback_requested = false;
  callback = none;
  capability = none;
  deferred = none;
  revoked_validator = none;
  atomic = none;
}

abbrev pub open_step : Step
open_step = record committing_step {
  durable = some (Durable.live active_record);
  volatile = some open_volatile;
}

abbrev statement_reply : ReplyTask
statement_reply = record {
  reply = some (Reply.value "{}");
  failure = some (Reply.error Code.internal);
  logs = [];
  failure_logs = [];
  expire_after = true;
  restore = some "{}";
}

short_text-one : short_text "1" ≡ true
unfolding short_text
short_text-one = refl

no_usage-holds : usage_is_valid no_usage ≡ true
unfolding usage_is_valid
no_usage-holds = refl

completed-is_consistent_example :
    is_consistent (
      completed sample_context sample_services active_record sample_statement sample_result 2
        no_usage "{}")
    ≡ true
completed-is_consistent_example =
    completed-is_consistent sample_context sample_services active_record sample_statement
      sample_result 2 no_usage "{}" active_record-consistent refl refl refl (omega arith)
      (omega arith) (omega arith) refl reply_text short_text-one short_text-one no_usage-holds
      (omega arith)

close-IsRollingBack_example :
    IsRollingBack
      (close sample_context WorkLane.background Phase.expired none open_step)
      []
      7
      (some (Durable.live active_record))
      Phase.expired
      none
close-IsRollingBack_example =
    close-IsRollingBack sample_context WorkLane.background Phase.expired none open_volatile
      open_step refl refl refl (omega arith)
