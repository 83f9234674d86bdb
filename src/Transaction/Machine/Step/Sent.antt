-- ===== src/Transaction/Machine/Step/Sent.antt =====
-- A step that is not reset when it fails closed or is discarded sends an effect, and waits for it
-- (step.rs, `fail_closed`, `discard`).
use Prim.Native.String.{String}
use mathlib.Core.Path.{subst}
use policysql.Prelude.{
  ℕ, ◌≡◌, ◌<◌, refl, sym, inl, inr, Bool, true, false, Option, none, some, arith, ◌∙◌, is_some,
  last?, ap, Bool-cases, Option-cases,
}
use policysql.Transaction.Machine.Connection.{Connection, WorkLane, is_none_connection}
use policysql.Transaction.Machine.Io.{Event, Effect, is_awaited, effect_id}
use policysql.Transaction.Machine.Limits.{max_safe_integer}
use policysql.Transaction.Machine.State.{Durable, Phase}
use policysql.Transaction.Machine.State.Wire.{Unreadable}
use policysql.Transaction.Machine.Step.Answered.{
  Answers-discard, Answers-release_all-IsQuiet, reset-release_all, next_id-release_all,
}
use policysql.Transaction.Machine.Step.Answers.{interrupted, or_reset, is_idle_open, plain_reply}
use policysql.Transaction.Machine.Step.Closing.{next_id, discard, discard_wait, discard_answers}
use policysql.Transaction.Machine.Step.Context.{Context, Step}
use policysql.Transaction.Machine.Step.Driver.{batch_rule, pending_rule}
use policysql.Transaction.Machine.Step.Ends.{IsKept, interrupted-IsKept}
use policysql.Transaction.Machine.Step.Plumbing.{
  wait, phase_of, durable_in_phase, release_all, map_volatile, connection, seed_id, fresh_volatile,
}
use policysql.Transaction.Machine.Step.Quiet.{IsQuiet, snoc-batch_rule, last-snoc, find-snoc}
use policysql.Transaction.Machine.Volatile.{Task, Volatile}

-- A batch whose last effect is the one given, the only one awaited, and pending.
abbrev pub IsSent : Step → (ℕ → Effect) → Type 0
IsSent s effect =
    (id : ℕ) × (last? s.effects ≡ some (effect id))
    × (batch_rule s.effects ≡ true)
    × (pending_rule s ≡ true)

-- There is a durable part, and it is a record of the owner that can be stored and read back.
abbrev pub IsHere : String → Option Durable → Type 0
IsHere owner d = (is_some d ≡ true) × IsKept owner d

pub interrupted-IsHere :
    (ctx : Context) (held : Bool) (d : Option Durable) (p : Phase)
    → IsKept ctx.owner d
    → interrupted held (phase_of d) ≡ some p
    → IsHere ctx.owner (durable_in_phase ctx p d)
unfolding durable_in_phase
interrupted-IsHere ctx held none p kept h = cc
interrupted-IsHere ctx held (some (Durable.tombstone name)) p kept h = cc
interrupted-IsHere ctx held (some (Durable.live r)) p kept h =
    (ground arith, interrupted-IsKept ctx held (some (Durable.live r)) p kept h)

module _ (ctx : Context) where
  seed_id-free : seed_id ctx < max_safe_integer
  unfolding seed_id
  seed_id-free = omega arith

  module _ (lane : WorkLane) (request_id : Option String) (task : Task) (effect : ℕ → Effect)
      (numbered : (id : ℕ)
        → (is_awaited (effect id) ≡ true) × (effect_id (effect id) ≡ some id)) where
    wait-IsSent :
        (s : Step)
        → IsQuiet s.effects
        → next_id ctx s.volatile < max_safe_integer
        → IsSent (or_reset (wait ctx lane request_id task effect s)) effect
          × ((or_reset (wait ctx lane request_id task effect s)).durable ≡ s.durable)
          × ((or_reset (wait ctx lane request_id task effect s)).reset ≡ s.reset)
    unfolding wait pending_rule fresh_volatile
    wait-IsSent s quiet free =
        let id : ℕ = next_id ctx s.volatile in
        let e = effect id in
        (
          (
            id,
            ground (arith, free, last-snoc s.effects e),
            ground (arith, free, numbered id, snoc-batch_rule s.effects e quiet),
            ground (arith, free, numbered id, find-snoc s.effects e quiet),
          ),
          ground (arith, free),
          ground (arith, free),
        )

  -- How failing closed ends: by a reset, or with the record in the phase given and a Persist sent.
  abbrev pub IsFailedClosed : Option Phase → Option Durable → Bool → Step → Type 0
  IsFailedClosed none d reset t = (t.reset ≡ true) × (t.durable ≡ d)
  IsFailedClosed (some p) d reset t =
      (t.durable ≡ durable_in_phase ctx p d)
      × IsHere ctx.owner t.durable
      × (t.reset ≡ reset)
      × IsSent t Effect.persist

  -- The effect that a discard sends: ROLLBACK on an open connection with nothing in progress.
  abbrev pub discarding : Bool → ℕ → Effect
  discarding true = Effect.rollback
  discarding false = Effect.persist

  closing-same :
      (f : Volatile → Volatile)
      → ((v : Volatile) → (f v).next_effect_id ≡ v.next_effect_id)
      → (s : Step)
      → ((map_volatile f s).effects ≡ s.effects)
        × ((map_volatile f s).durable ≡ s.durable)
        × ((map_volatile f s).reset ≡ s.reset)
        × (next_id ctx (map_volatile f s).volatile ≡ next_id ctx s.volatile)
  closing-same f numbered s = elim (Option-cases s.volatile) [
    | inl e ↦ rw e (refl, refl, refl, refl)
    | inr (v, e) ↦ rw e (refl, refl, refl, numbered v)
  ]

  discard_wait-IsSent :
      (idle_open : Bool) (s : Step)
      → IsQuiet s.effects
      → next_id ctx s.volatile < max_safe_integer
      → IsSent (or_reset (discard_wait ctx idle_open s)) (discarding idle_open)
        × ((or_reset (discard_wait ctx idle_open s)).durable ≡ s.durable)
        × ((or_reset (discard_wait ctx idle_open s)).reset ≡ s.reset)
  discard_wait-IsSent true s quiet free =
      let closing : Volatile → Volatile =
        λ v. record v { work = none; connection = Connection.closing } in
      let same = closing-same closing (λ v. refl) s in
      let sent =
        wait-IsSent WorkLane.background none (Task.close_rollback Phase.discarded none)
          Effect.rollback (λ id. (refl, refl)) (map_volatile closing s)
          (subst IsQuiet (sym same.0) quiet)
          (subst (λ n. n < max_safe_integer) (sym same.3) free) in
      (sent.0, sent.1 ∙ same.1, sent.2 ∙ same.2)
  discard_wait-IsSent false s quiet free =
      let persist_with = λ (task : Task).
        wait-IsSent WorkLane.background none task Effect.persist (λ id. (refl, refl))
          (record s { volatile = none }) quiet seed_id-free in
      elim (Bool-cases (is_none_connection (connection s))) [
        | inl e ↦ rw e (persist_with (plain_reply none none))
        | inr e ↦ rw e (persist_with Task.reset_after_persist)
      ]

  -- Discarding an unreadable record, as long as the effect ids are not used up, does not reset: it
  -- leaves the tombstone of the owner and sends, last and awaited, ROLLBACK on an open connection with
  -- nothing in progress, and otherwise the Persist.
  pub discard-IsSent :
      (reason : Unreadable) (event : Event) (s : Step)
      → IsQuiet s.effects
      → next_id ctx s.volatile < max_safe_integer
      → IsSent (discard ctx reason event s) (discarding (is_idle_open s.volatile))
        × ((discard ctx reason event s).durable ≡ some (Durable.tombstone ctx.owner))
        × ((discard ctx reason event s).reset ≡ s.reset)
  unfolding discard
  discard-IsSent reason event s quiet free =
      let answered = discard_answers ctx reason event s in
      let given = Answers-discard ctx s reason event in
      let t : Step = record (release_all answered) {
        durable = some (Durable.tombstone ctx.owner);
      } in
      let same = next_id-release_all ctx answered ∙ ap (next_id ctx) given.volatile in
      let sent =
        discard_wait-IsSent (is_idle_open s.volatile) t
          (Answers-release_all-IsQuiet ctx answered (given.quiet quiet))
          (subst (λ n. n < max_safe_integer) (sym same) free) in
      (sent.0, sent.1, sent.2 ∙ (reset-release_all ctx answered ∙ given.reset))
