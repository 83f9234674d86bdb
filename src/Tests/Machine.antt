-- ===== src/Tests/Machine.antt =====
-- The theorems on the machine, applied to the sample owner.
use policysql.Prelude.{ℕ, ◌≡◌, refl, ◌<◌, ◌≤◌, true, false, none, some, [], ◌∷◌, inl, arith}
use policysql.Transaction.Machine.Connection.{Connection, WorkLane}
use policysql.Transaction.Machine.Io.{
  entropy_u64, Event, Effect, Reply, Code, Class, host_is_valid, valid_request_id,
}
use policysql.Transaction.Machine.Limits.{event_bound, largest_read, max_safe_integer}
use policysql.Transaction.Bounds
use policysql.Transaction.Machine.State.{
  Phase, Durable, Record, is_consistent, hex64, owner_name, last_holds, max_durable_bytes,
}
use policysql.Transaction.Machine.State.Settled.{settled-is_consistent}
use policysql.Transaction.Machine.State.RoundTrip.{
  from_wire-to_wire, to_wire-from_wire, parse-to_json, parse-IsStorable, IsStorable,
}
use policysql.Transaction.Machine.State.Wire.{
  from_wire, to_wire, to_json, parse, Parsed, Unreadable,
}
use policysql.Transaction.Machine.Step.Commit.{
  commit_persisted, commit_failed, commit_done, rollback_done, final_reply, request_log,
}
use policysql.Transaction.Machine.Step.Committing.{
  commit_persisted-deadline, commit_failed-unknown, work_task, volatile_connection,
}
use policysql.Transaction.Machine.Step.Completed.{
  commit_done-committed, rollback_done-rolled_back, after_completion, terminal_of,
}
use policysql.Transaction.Machine.Step.Closing.{fail_closed, abandon, discard, next_id}
use policysql.Transaction.Machine.Step.Context.{Context, Handler, Outcome}
use policysql.Transaction.Machine.Step.Driver.{run, run_event}
use policysql.Transaction.Machine.Step.Sent.{IsSent, discard-IsSent}
use policysql.Transaction.Machine.Step.Interrupted.{
  fail_closed-commit_unknown, abandon-commit_unknown,
}
use policysql.Transaction.Machine.Step.Keeps.{commit_persisted-KeepsPhased}
use policysql.Transaction.Machine.Step.Outputs.{IsSafe, run-IsSafe}
use policysql.Transaction.Machine.Step.Plumbing.{wait, fresh_volatile, seed_id}
use policysql.Transaction.Machine.Step.Safety.{KeepsPhased}
use policysql.Tests.Samples.{
  sample_hash, sample_owner, sample_codec, sample_host, sample_serde, sample_compiler,
  sample_limits, sample_context, sample_services, active_record, committing_record, committing_step,
  in_phase, active_record-consistent, committing_record-consistent,
}

from_wire-to_wire_example :
    from_wire (to_wire (Durable.live active_record)) ≡ some (Durable.live active_record)
from_wire-to_wire_example =
    from_wire-to_wire (Durable.live active_record) (active_record-consistent, refl)

read_back : from_wire (to_wire (Durable.live active_record)) ≡ some (Durable.live active_record)
read_back = from_wire-to_wire (Durable.live active_record) (active_record-consistent, refl)

to_wire-from_wire_example :
    (to_wire (Durable.live active_record) ≡ to_wire (Durable.live active_record))
    × IsStorable (Durable.live active_record)
unfolding to_wire
to_wire-from_wire_example =
    to_wire-from_wire (to_wire (Durable.live active_record)) (Durable.live active_record) refl
      read_back

parse-to_json_example :
    parse sample_codec (to_json sample_codec (Durable.live committing_record)) sample_owner
    ≡ Parsed.ok (Durable.live committing_record)
unfolding to_wire to_json
parse-to_json_example =
    parse-to_json sample_codec (Durable.live committing_record) refl refl
      (committing_record-consistent, refl) (omega arith)

pub parsed_text : parse sample_codec "{}" sample_owner ≡ Parsed.ok (Durable.live committing_record)
unfolding to_wire to_json
parsed_text =
    parse-to_json sample_codec (Durable.live committing_record) refl refl
      (committing_record-consistent, refl) (omega arith)

settled-is_consistent_example :
    is_consistent (record active_record { phase = Phase.expired; expires_at_ms = none }) ≡ true
settled-is_consistent_example =
    settled-is_consistent active_record Phase.expired active_record-consistent refl (inl refl)

fail_closed-commit_unknown_example :
    (fail_closed sample_context "batch_rule" Event.timer_fired false committing_step).durable
    ≡ some (Durable.live (in_phase Phase.commit_unknown none))
fail_closed-commit_unknown_example =
    fail_closed-commit_unknown sample_context "batch_rule" Event.timer_fired false committing_record
      committing_step refl refl

abandon-commit_unknown_example :
    (abandon sample_context committing_step).durable
    ≡ some (Durable.live (in_phase Phase.commit_unknown none))
abandon-commit_unknown_example =
    abandon-commit_unknown sample_context committing_record committing_step refl refl

unreadable_step : next_id sample_context committing_step.volatile < max_safe_integer
unfolding seed_id
unreadable_step = omega arith

discard-IsSent_example :
    IsSent
      (discard sample_context Unreadable.malformed Event.timer_fired committing_step)
      Effect.persist
    × ((discard sample_context Unreadable.malformed Event.timer_fired committing_step).durable
        ≡ some (Durable.tombstone sample_owner))
    × ((discard sample_context Unreadable.malformed Event.timer_fired committing_step).reset
        ≡ false)
discard-IsSent_example =
    discard-IsSent sample_context Unreadable.malformed Event.timer_fired committing_step refl
      unreadable_step

commit_persisted-deadline_example :
    (r : Record) × (at : ℕ) × (committing_step.durable ≡ some (Durable.live r))
    × (r.expires_at_ms ≡ some at)
    × (1000 < at)
    × (false ≡ false)
unfolding commit_persisted wait seed_id fresh_volatile entropy_u64
commit_persisted-deadline_example =
    commit_persisted-deadline sample_context WorkLane.client none 1 sample_hash false
      committing_step refl refl

commit_failed-unknown_example :
    ((commit_failed sample_context WorkLane.client none Class.timeout committing_step).0
      ≡ Outcome.done)
    × ((commit_failed sample_context WorkLane.client none Class.timeout committing_step).1.durable
        ≡ some (Durable.live (in_phase Phase.commit_unknown none)))
    × (work_task
          (commit_failed sample_context WorkLane.client none Class.timeout
            committing_step).1.volatile
        ≡ some (
            final_reply
              (Reply.error Code.outcome_unknown)
              (Reply.error Code.outcome_unknown)
              []
              []))
    × (volatile_connection
          (commit_failed sample_context WorkLane.client none Class.timeout
            committing_step).1.volatile
        ≡ Connection.none)
unfolding seed_id fresh_volatile
commit_failed-unknown_example =
    commit_failed-unknown sample_context WorkLane.client none Class.timeout committing_record
      committing_step refl refl (omega arith)

parse-IsStorable_example :
    IsStorable (Durable.live committing_record)
    × (sample_owner ≡ sample_owner)
    × (2 ≤ max_durable_bytes)
parse-IsStorable_example =
    parse-IsStorable sample_codec "{}" sample_owner (Durable.live committing_record) parsed_text

pub reply_text : last_holds (some (record { digest = sample_hash; response = "{}" })) ≡ true
unfolding last_holds hex64
reply_text = refl

commit_done-committed_example :
    ((commit_done sample_context sample_services WorkLane.client none sample_hash false
        committing_step).0
      ≡ Outcome.done)
    × ((commit_done sample_context sample_services WorkLane.client none sample_hash false
          committing_step).1.durable
        ≡ some (Durable.live (after_completion committing_record Phase.committed sample_hash "{}")))
    × (is_consistent (after_completion committing_record Phase.committed sample_hash "{}") ≡ true)
    × (work_task
          (commit_done sample_context sample_services WorkLane.client none sample_hash false
            committing_step).1.volatile
        ≡ some (
            final_reply
              (Reply.value "{}")
              (Reply.value "{}")
              (terminal_of sample_context sample_services none "committed" committing_record ∷ [])
              (request_log sample_context "transaction_terminal_unrecorded" "r1"
                ∷ terminal_of sample_context sample_services none "committed" committing_record
                ∷ [])))
unfolding fresh_volatile seed_id entropy_u64
commit_done-committed_example =
    commit_done-committed sample_context sample_services WorkLane.client none sample_hash false
      committing_record committing_step refl committing_record-consistent refl reply_text
      (omega arith) (omega arith)

rollback_done-rolled_back_example :
    ((rollback_done sample_context sample_services WorkLane.client none sample_hash
        committing_step).0
      ≡ Outcome.done)
    × ((rollback_done sample_context sample_services WorkLane.client none sample_hash
          committing_step).1.durable
        ≡ some
            (Durable.live (after_completion committing_record Phase.rolled_back sample_hash "{}")))
    × (is_consistent (after_completion committing_record Phase.rolled_back sample_hash "{}") ≡ true)
    × (work_task
          (rollback_done sample_context sample_services WorkLane.client none sample_hash
            committing_step).1.volatile
        ≡ some (
            final_reply
              (Reply.value "{}")
              (Reply.error Code.internal)
              (terminal_of sample_context sample_services none "rolled_back" committing_record ∷ [])
              []))
unfolding fresh_volatile seed_id entropy_u64
rollback_done-rolled_back_example =
    rollback_done-rolled_back sample_context sample_services WorkLane.client none sample_hash
      committing_record committing_step refl committing_record-consistent refl reply_text
      (omega arith) (omega arith)

-- A machine whose every event is the outcome of the persist before COMMIT.
abbrev persisting : Context → Event → Handler
persisting ctx event = commit_persisted ctx WorkLane.client none 1 sample_hash false

persisting-KeepsPhased :
    (ctx : Context) (event : Event) → KeepsPhased ctx.owner (persisting ctx event)
persisting-KeepsPhased ctx event =
    commit_persisted-KeepsPhased ctx WorkLane.client none 1 sample_hash false

sample_run :
    run sample_compiler sample_limits sample_serde persisting [] (some "{}") none "{}" "{}"
    ≡ some (
        run_event sample_context
          (persisting sample_context)
          []
          (some "{}")
          none
          (Event.persisted 7))
unfolding run host_is_valid hex64 valid_request_id owner_name event_bound largest_read
    Bounds.event_bytes Bounds.largest_read_bytes Bounds.raw_result_bound_max
sample_run = refl

run-IsSafe_example :
    IsSafe sample_codec sample_owner
      (run_event sample_context (persisting sample_context) [] (some "{}") none (Event.persisted 7))
run-IsSafe_example =
    run-IsSafe sample_compiler sample_limits sample_serde persisting [] (some "{}") none "{}" "{}"
      sample_host
      (run_event sample_context (persisting sample_context) [] (some "{}") none (Event.persisted 7))
      persisting-KeepsPhased refl sample_run
