-- ===== src/Transaction/Machine/Step/Ends.antt =====
-- The ways to end that no handler decides are safe (step.rs, `fail_closed`, `discard`): they reset,
-- or leave at most one awaited effect, last and pending, and a durable part that reads back.
use Prim.Native.String.{String}
use mathlib.Core.Path.{subst}
use policysql.Prelude.{
  ℕ, ◌≡◌, refl, sym, ◌⊎◌, inl, inr, Bool, true, false, none, some, Option, [], arith, ◌∙◌, is_some,
  if◌then◌else◌,
}
use policysql.Transaction.Machine.Connection.{Connection, WorkLane, is_none_connection}
use policysql.Transaction.Machine.Io.{Event, Effect, is_awaited, effect_id}
use policysql.Transaction.Machine.State.{Durable, Phase, owner_name, durable_owner}
use policysql.Transaction.Machine.State.Settled.{settled-is_consistent, committing-interactive}
use policysql.Transaction.Machine.State.Wire.{Unreadable, is_discarded}
use policysql.Transaction.Machine.State.RoundTrip.{IsStorable}
use policysql.Transaction.Machine.Step.Answered.{
  Answers-fail_closed, Answers-discard, Answers-release_all-IsQuiet, durable-release_all,
}
use policysql.Transaction.Machine.Step.Answers.{interrupted, or_reset, is_idle_open, plain_reply}
use policysql.Transaction.Machine.Step.Closing.{
  fail_closed, finish_failed, discard, discard_wait, fail_closed_answers, discard_answers,
}
use policysql.Transaction.Machine.Step.Context.{Context, Step, Outcome, is_fault}
use policysql.Transaction.Machine.Step.Driver.{batch_rule, pending_rule, live_is_consistent}
use policysql.Transaction.Machine.Step.Plumbing.{
  wait, phase_of, durable_in_phase, release_all, map_volatile, connection,
}
use policysql.Transaction.Machine.Step.Quiet.{IsQuiet, wait-batch_rule}
use policysql.Transaction.Machine.Volatile.{Task, Volatile}

-- The durable part, when there is one, is a record of the owner that can be stored and read back.
abbrev pub IsKept : String → Option Durable → Type 0
IsKept owner none = Unit
IsKept owner (some d) = IsStorable d × (durable_owner d ≡ owner)

-- A step of the owner ends in a reset, or within the batch rule and with a durable part it keeps.
abbrev pub IsEnd : String → Step → Type 0
IsEnd owner s =
    (s.reset ≡ true)
    ⊎ ((batch_rule s.effects ≡ true) × (pending_rule s ≡ true) × IsKept owner s.durable)

-- What every handler keeps of the durable part: it is the owner's, a live record is never in the
-- tombstone's phase, and a tombstone has an owner name.
abbrev pub IsPhased : String → Option Durable → Type 0
IsPhased owner none = Unit
IsPhased owner (some (Durable.tombstone name)) = (owner_name name ≡ true) × (name ≡ owner)
IsPhased owner (some (Durable.live r)) = (is_discarded r.phase ≡ false) × (r.owner ≡ owner)

pub IsPhased-of : (owner : String) (d : Option Durable) → IsKept owner d → IsPhased owner d
IsPhased-of owner none kept = tt
IsPhased-of owner (some (Durable.tombstone name)) kept = kept
IsPhased-of owner (some (Durable.live r)) kept = (kept.0.1, kept.1)

pub IsKept-of :
    (owner : String) (d : Option Durable)
    → IsPhased owner d
    → live_is_consistent d ≡ true
    → IsKept owner d
IsKept-of owner none phased h = tt
IsKept-of owner (some (Durable.tombstone name)) phased h = phased
IsKept-of owner (some (Durable.live r)) phased h = ((h, phased.0), phased.1)

or_reset-IsEnd :
    (owner : String) (o : Outcome × Step)
    → (is_fault o.0 ≡ true) ⊎ ((batch_rule o.1.effects ≡ true) × (pending_rule o.1 ≡ true))
    → IsKept owner o.1.durable
    → IsEnd owner (or_reset o)
or_reset-IsEnd owner (Outcome.done, s) h kept = elim h [
  | inl e ↦ cc
  | inr rules ↦ inr (rules.0, rules.1, kept)
]
or_reset-IsEnd owner (Outcome.fault reason, s) h kept = inl refl

if-IsEnd :
    (owner : String) (b : Bool) (m n : Outcome × Step)
    → IsEnd owner (or_reset m)
    → IsEnd owner (or_reset n)
    → IsEnd owner (or_reset (if b then m else n))
if-IsEnd owner true m n p q = p
if-IsEnd owner false m n p q = q

map_volatile-same :
    (f : Volatile → Volatile) (s : Step)
    → ((map_volatile f s).effects ≡ s.effects) × ((map_volatile f s).durable ≡ s.durable)
map_volatile-same f s = ground arith

module _ (ctx : Context) where
  pub durable-wait :
      (lane : WorkLane) (request_id : Option String) (task : Task) (effect : ℕ → Effect) (s : Step)
      → (wait ctx lane request_id task effect s).1.durable ≡ s.durable
  unfolding wait
  durable-wait lane request_id task effect s = ground arith

  or_reset-wait-IsEnd :
      (lane : WorkLane) (request_id : Option String) (task : Task) (effect : ℕ → Effect)
      → ((id : ℕ) → (is_awaited (effect id) ≡ true) × (effect_id (effect id) ≡ some id))
      → (s : Step) → IsQuiet s.effects
      → IsKept ctx.owner s.durable
      → IsEnd ctx.owner (or_reset (wait ctx lane request_id task effect s))
  or_reset-wait-IsEnd lane request_id task effect numbered s quiet kept =
      or_reset-IsEnd ctx.owner (wait ctx lane request_id task effect s)
        (wait-batch_rule ctx lane request_id task effect numbered s quiet)
        (subst (IsKept ctx.owner) (sym (durable-wait lane request_id task effect s)) kept)

  pub interrupted-IsKept :
      (held : Bool) (d : Option Durable) (p : Phase)
      → IsKept ctx.owner d
      → interrupted held (phase_of d) ≡ some p
      → IsKept ctx.owner (durable_in_phase ctx p d)
  unfolding durable_in_phase
  interrupted-IsKept held none p kept h = cc
  interrupted-IsKept held (some (Durable.tombstone name)) p kept h = cc
  interrupted-IsKept held (some (Durable.live r)) p kept h =
      ground (arith, settled-is_consistent r p, committing-interactive r)

  finish_failed-IsEnd :
      (held : Bool) (d : Option Durable) (s : Step)
      → s.durable ≡ d
      → IsQuiet s.effects
      → IsKept ctx.owner d
      → IsEnd ctx.owner (finish_failed ctx (interrupted held (phase_of d)) s)
  finish_failed-IsEnd held d s same quiet kept = go (interrupted held (phase_of d)) refl
    where
      go :
          (next : Option Phase)
          → interrupted held (phase_of d) ≡ next
          → IsEnd ctx.owner (finish_failed ctx next s)
      go none e = inl refl
      go (some p) e =
          or_reset-wait-IsEnd WorkLane.background none Task.reset_after_persist Effect.persist
            (λ id. (refl, refl)) (record s { durable = durable_in_phase ctx p s.durable }) quiet
            (subst (λ x. IsKept ctx.owner (durable_in_phase ctx p x)) (sym same)
              (interrupted-IsKept held d p kept e))

  -- Failing closed on a durable part that is absent or can be stored resets, or leaves a batch with at
  -- most one awaited effect, the last and the pending one, and such a durable part.
  pub fail_closed-IsEnd :
      (reason : String) (event : Event) (unknown : Bool) (s : Step)
      → IsKept ctx.owner s.durable
      → IsEnd ctx.owner (fail_closed ctx reason event unknown s)
  unfolding fail_closed
  fail_closed-IsEnd reason event unknown s kept =
      let s0 : Step = record s { effects = [] } in
      let answered = fail_closed_answers ctx reason event s0 in
      let given = Answers-fail_closed ctx s0 reason event in
      finish_failed-IsEnd (if unknown then true else is_some s.volatile) s.durable
        (record (release_all answered) { volatile = none })
        (durable-release_all ctx answered ∙ given.durable)
        (Answers-release_all-IsQuiet ctx answered (given.quiet refl)) kept

  discard_wait-IsEnd :
      (idle_open : Bool) (s : Step)
      → IsQuiet s.effects
      → IsKept ctx.owner s.durable
      → IsEnd ctx.owner (or_reset (discard_wait ctx idle_open s))
  discard_wait-IsEnd true s quiet kept =
      let closing : Volatile → Volatile =
        λ v. record v { work = none; connection = Connection.closing } in
      let same = map_volatile-same closing s in
      or_reset-wait-IsEnd WorkLane.background none (Task.close_rollback Phase.discarded none)
        Effect.rollback (λ id. (refl, refl)) (map_volatile closing s)
        (subst IsQuiet (sym same.0) quiet) (subst (IsKept ctx.owner) (sym same.1) kept)
  discard_wait-IsEnd false s quiet kept =
      if-IsEnd ctx.owner (is_none_connection (connection s)) _ _
        (or_reset-wait-IsEnd WorkLane.background none (plain_reply none none) Effect.persist
          (λ id. (refl, refl)) (record s { volatile = none }) quiet kept)
        (or_reset-wait-IsEnd WorkLane.background none Task.reset_after_persist Effect.persist
          (λ id. (refl, refl)) (record s { volatile = none }) quiet kept)

  -- Discarding an unreadable record resets, or leaves a batch within the batch rule and a durable part
  -- that is absent or can be stored, if the owner is named and nothing was awaited yet.
  pub discard-IsEnd :
      (reason : Unreadable) (event : Event) (s : Step)
      → owner_name ctx.owner ≡ true
      → IsQuiet s.effects
      → IsEnd ctx.owner (discard ctx reason event s)
  unfolding discard
  discard-IsEnd reason event s named quiet =
      let answered = discard_answers ctx reason event s in
      let given = Answers-discard ctx s reason event in
      discard_wait-IsEnd (is_idle_open s.volatile)
        (record (release_all answered) { durable = some (Durable.tombstone ctx.owner) })
        (Answers-release_all-IsQuiet ctx answered (given.quiet quiet)) (named, refl)
