-- ===== src/Transaction/Machine/Step/Completed.antt =====
-- What a terminal command that completes leaves (step.rs, `complete`, `CommitSend` and
-- `RollbackSend` answered).
use Prim.Native.String.{String}
use policysql.Prelude.{◌+◌, ◌≡◌, ◌<◌, ◌⊎◌, Bool, true, false, Option, none, some, [], ◌∷◌, arith}
use policysql.Transaction.Machine.Connection.{WorkLane}
use policysql.Transaction.Machine.Io.{Reply, Code}
use policysql.Transaction.Machine.Limits.{max_safe_integer}
use policysql.Transaction.Machine.State.{
  Phase, Kind, Record, Durable, is_consistent, kind_holds, deadline_holds, sequence_holds,
  terminal_reply_holds, last_holds,
}
use policysql.Transaction.Machine.Step.Begin.{or_request}
use policysql.Transaction.Machine.Step.Commit.{
  complete, commit_done, rollback_done, terminal_log, request_log, final_reply,
}
use policysql.Transaction.Machine.Step.Context.{Context, Step, Outcome}
use policysql.Transaction.Machine.Step.Plumbing.{
  volatile_or_new, wait, durable_in_phase, own_request_id,
}
use policysql.Transaction.Machine.Step.Services.{Services}
use policysql.Transaction.Machine.Step.Committing.{work_task}
use policysql.Transaction.Machine.Value.{Value}

-- The record of a completed terminal command.
abbrev pub after_completion : Record → Phase → String → String → Record
after_completion r phase digest response = record r {
  phase = phase;
  expires_at_ms = none;
  next_sequence = r.next_sequence + 1;
  last = some (record { digest = digest; response = response });
}

complete-is_consistent :
    (r : Record) (phase : Phase) (digest response : String)
    → is_consistent r ≡ true
    → r.kind ≡ Kind.interactive
    → (phase ≡ Phase.committed) ⊎ (phase ≡ Phase.rolled_back)
    → r.next_sequence < max_safe_integer
    → last_holds (some (record { digest = digest; response = response })) ≡ true
    → is_consistent (after_completion r phase digest response) ≡ true
unfolding is_consistent kind_holds deadline_holds sequence_holds terminal_reply_holds
complete-is_consistent r phase digest response h k p small last = ground arith

module _ (ctx : Context) (services : Services) where
  abbrev pub response_of : Option String → String → Bool → String
  response_of request_id status passed =
      services.terminal_text ctx.owner status (or_request request_id (own_request_id ctx)) passed

  abbrev pub terminal_of : Option String → String → Record → Value
  terminal_of request_id status r =
      terminal_log ctx status (or_request request_id (own_request_id ctx)) r.counters.usage

  -- As long as the sequence and the effect ids are not used up,
  -- a COMMIT that applied leaves a committed and consistent record with the next sequence, whose
  -- last command is this one; and it answers with the commit's response whether the record is then
  -- stored or not, logging the terminal state in both cases.
  pub commit_done-committed :
      (lane : WorkLane) (request_id : Option String) (digest : String) (passed : Bool) (r : Record)
      (s : Step)
      → s.durable ≡ some (Durable.live r)
      → is_consistent r ≡ true
      → r.kind ≡ Kind.interactive
      → last_holds
          (some (record { digest = digest; response = response_of request_id "committed" passed }))
        ≡ true
      → r.next_sequence < max_safe_integer
      → (volatile_or_new ctx s).next_effect_id < max_safe_integer
      → ((commit_done ctx services lane request_id digest passed s).0 ≡ Outcome.done)
        × ((commit_done ctx services lane request_id digest passed s).1.durable
            ≡ some (
                Durable.live (
                  after_completion r Phase.committed digest
                    (response_of request_id "committed" passed))))
        × (is_consistent (
              after_completion r Phase.committed digest (response_of request_id "committed" passed))
            ≡ true)
        × (work_task (commit_done ctx services lane request_id digest passed s).1.volatile
            ≡ some (
                final_reply
                  (Reply.value (response_of request_id "committed" passed))
                  (Reply.value (response_of request_id "committed" passed))
                  (terminal_of request_id "committed" r ∷ [])
                  (request_log ctx "transaction_terminal_unrecorded"
                      (or_request request_id (own_request_id ctx))
                    ∷ terminal_of request_id "committed" r
                    ∷ [])))
  unfolding commit_done complete durable_in_phase wait
  commit_done-committed lane request_id digest passed r s live h k last small free = ground (
    arith,
    complete-is_consistent r Phase.committed digest (response_of request_id "committed" passed),
  )

  -- As long as the sequence and the effect ids are not used up,
  -- a rollback leaves a rolled-back and consistent record likewise, whether the database answered
  -- ROLLBACK or failed it.
  pub rollback_done-rolled_back :
      (lane : WorkLane) (request_id : Option String) (digest : String) (r : Record) (s : Step)
      → s.durable ≡ some (Durable.live r)
      → is_consistent r ≡ true
      → r.kind ≡ Kind.interactive
      → last_holds
          (some (record { digest = digest; response = response_of request_id "rolled_back" false }))
        ≡ true
      → r.next_sequence < max_safe_integer
      → (volatile_or_new ctx s).next_effect_id < max_safe_integer
      → ((rollback_done ctx services lane request_id digest s).0 ≡ Outcome.done)
        × ((rollback_done ctx services lane request_id digest s).1.durable
            ≡ some (
                Durable.live (
                  after_completion r Phase.rolled_back digest
                    (response_of request_id "rolled_back" false))))
        × (is_consistent (
              after_completion r Phase.rolled_back digest
                (response_of request_id "rolled_back" false))
            ≡ true)
        × (work_task (rollback_done ctx services lane request_id digest s).1.volatile
            ≡ some (
                final_reply
                  (Reply.value (response_of request_id "rolled_back" false))
                  (Reply.error Code.internal)
                  (terminal_of request_id "rolled_back" r ∷ [])
                  []))
  unfolding rollback_done complete durable_in_phase wait
  rollback_done-rolled_back lane request_id digest r s live h k last small free = ground (
    arith,
    complete-is_consistent r Phase.rolled_back digest (response_of request_id "rolled_back" false),
  )
