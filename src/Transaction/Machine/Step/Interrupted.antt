-- ===== src/Transaction/Machine/Step/Interrupted.antt =====
-- What a transaction is left as when the machine fails closed or the engine abandons the owner
-- (step.rs, `fail_closed` and `abandon`).
use Prim.Native.String.{String}
use policysql.Prelude.{
  ◌≡◌, ◌<◌, refl, Bool, true, Option, none, some, [], arith, is_some, ap, ◌∙◌, if◌then◌else◌,
}
use policysql.Transaction.Machine.Io.{Event}
use policysql.Transaction.Machine.Limits.{max_safe_integer}
use policysql.Transaction.Machine.State.{Phase, Record, Durable}
use policysql.Transaction.Machine.Step.Answered.{Answers-fail_closed, durable-release_all}
use policysql.Transaction.Machine.Step.Answers.{interrupted}
use policysql.Transaction.Machine.Step.Closing.{
  abandon, fail_closed, fail_closed_answers, finish_failed,
}
use policysql.Transaction.Machine.Step.Context.{Context, Step}
use policysql.Transaction.Machine.Step.Plumbing.{
  phase_of, durable_in_phase, release_all, wait, fresh_volatile, seed_id,
}

interrupted-committing :
    (held : Bool) (d : Option Durable) (r : Record)
    → d ≡ some (Durable.live r)
    → r.phase ≡ Phase.committing
    → interrupted held (phase_of d) ≡ some Phase.commit_unknown
interrupted-committing held d r live phase = ground arith

module _ (ctx : Context) where
  seed_id-small : seed_id ctx < max_safe_integer
  unfolding seed_id
  seed_id-small = omega arith

  finish_failed-durable :
      (p : Phase) (s : Step)
      → s.volatile ≡ none
      → ((finish_failed ctx (some p) s).durable ≡ durable_in_phase ctx p s.durable)
        × ((finish_failed ctx (some p) s).reset ≡ s.reset)
  unfolding wait fresh_volatile
  finish_failed-durable p s e = ground (arith, seed_id-small)

  -- A fault never leaves a COMMIT that may have been sent as a definite failure: a committing
  -- record is left in an unknown commit, whatever the fault, the event, and the connection.
  pub fail_closed-commit_unknown :
      (reason : String) (event : Event) (unknown : Bool) (r : Record) (s : Step)
      → s.durable ≡ some (Durable.live r)
      → r.phase ≡ Phase.committing
      → (fail_closed ctx reason event unknown s).durable
        ≡ some (Durable.live (record r { phase = Phase.commit_unknown; expires_at_ms = none }))
  unfolding fail_closed durable_in_phase
  fail_closed-commit_unknown reason event unknown r s live phase =
      let held : Bool = if unknown then true else is_some s.volatile in
      let s0 : Step = record s { effects = [] } in
      let answered = fail_closed_answers ctx reason event s0 in
      let t : Step = record (release_all answered) { volatile = none } in
      let kept : t.durable ≡ some (Durable.live r) =
        durable-release_all ctx answered
        ∙ (Answers-fail_closed ctx s0 reason event).durable
        ∙ live in
      ap (λ p. (finish_failed ctx p t).durable) (interrupted-committing held s.durable r live phase)
      ∙ (finish_failed-durable Phase.commit_unknown t refl).0
      ∙ ap (durable_in_phase ctx Phase.commit_unknown) kept

  -- An owner abandoned while its record is committing is left in an unknown commit.
  pub abandon-commit_unknown :
      (r : Record) (s : Step)
      → s.durable ≡ some (Durable.live r)
      → r.phase ≡ Phase.committing
      → (abandon ctx s).durable
        ≡ some (Durable.live (record r { phase = Phase.commit_unknown; expires_at_ms = none }))
  unfolding abandon durable_in_phase release_all
  abandon-commit_unknown r s live phase = ground arith
