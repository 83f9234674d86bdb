-- ===== src/Transaction/Machine/Step/Answered.antt =====
-- The answers given when a transaction fails closed or is discarded are immediate effects, and
-- leave the durable part as it is (step.rs, `fail_closed`, `discard`).
use Prim.Native.String.{String}
use policysql.Prelude.{◌≡◌, refl, Bool, true, false, none, some, Option, arith, if◌then◌else◌, ◌∙◌}
use policysql.Transaction.Machine.Io.{Event, Code, Reply, Lane, Effect}
use policysql.Transaction.Machine.State.Wire.{Unreadable}
use policysql.Transaction.Machine.Step.Answers.{
  respond_if, respond_callback_if, answer_waiting, answer_event, discard_waiting, discard_event,
  has_callback, has_deferred, is_kind,
}
use policysql.Transaction.Machine.Step.Closing.{
  next_id, fail_closed_answers, fail_closed_record, discard_answers, discarded_record,
}
use policysql.Transaction.Machine.Step.Context.{Context, Step}
use policysql.Transaction.Machine.Step.Plumbing.{log, work, respond, respond_callback, release_all}
use policysql.Transaction.Machine.Step.Quiet.{IsQuiet, emit-IsQuiet}
use policysql.Transaction.Machine.Value.{Value}
use policysql.Transaction.Machine.Volatile.{Work}

-- `t` is `s` with immediate effects added.
pub record Answers (s t : Step) : Type 0 where
  pub quiet : IsQuiet s.effects → IsQuiet t.effects
  pub durable : t.durable ≡ s.durable
  pub volatile : t.volatile ≡ s.volatile
  pub reset : t.reset ≡ s.reset

Answers-refl : (s : Step) → Answers s s
Answers-refl s = record { quiet = λ q. q; durable = refl; volatile = refl; reset = refl }

Answers-trans : {s t u : Step} → Answers s t → Answers t u → Answers s u
Answers-trans p q = record {
  quiet = λ h. q.quiet (p.quiet h);
  durable = q.durable ∙ p.durable;
  volatile = q.volatile ∙ p.volatile;
  reset = q.reset ∙ p.reset;
}

Answers-respond : (s : Step) (r : Reply) → Answers s (respond r s)
Answers-respond s r = record {
  quiet = emit-IsQuiet s (Effect.respond Lane.client r) refl;
  durable = refl;
  volatile = refl;
  reset = refl;
}

Answers-respond_callback : (s : Step) (r : Reply) → Answers s (respond_callback r s)
Answers-respond_callback s r = record {
  quiet = emit-IsQuiet s (Effect.respond Lane.callback r) refl;
  durable = refl;
  volatile = refl;
  reset = refl;
}

pub Answers-log : (s : Step) (v : Value) → Answers s (log v s)
Answers-log s v = record {
  quiet = emit-IsQuiet s (Effect.log v) refl;
  durable = refl;
  volatile = refl;
  reset = refl;
}

Answers-if :
    {s : Step} (b : Bool) (t u : Step) → Answers s t → Answers s u → Answers s (if b then t else u)
Answers-if true t u p q = p
Answers-if false t u p q = q

Answers-respond_if : (s : Step) (b : Bool) (c : Code) → Answers s (respond_if b c s)
Answers-respond_if s true c = Answers-respond s (Reply.error c)
Answers-respond_if s false c = Answers-refl s

Answers-respond_callback_if :
    (s : Step) (b : Bool) (c : Code) → Answers s (respond_callback_if b c s)
Answers-respond_callback_if s true c = Answers-respond_callback s (Reply.error c)
Answers-respond_callback_if s false c = Answers-refl s

Answers-waiting : (s : Step) (u : Bool) (w : Option Work) → Answers s (answer_waiting u w s)
Answers-waiting s u none = Answers-refl s
Answers-waiting s u (some w) = Answers-respond_if s _ _

Answers-event : (s : Step) (u : Bool) (e : Event) → Answers s (answer_event u e s)
Answers-event s u (Event.request operation) = Answers-respond s (Reply.error Code.internal)
Answers-event s u (Event.forwarded input) =
    Answers-if (is_kind input "callbackQuery") _ _ (Answers-respond_callback s _)
      (Answers-respond s _)
Answers-event s u _ = Answers-refl s

Answers-discard_waiting : (s : Step) (w : Option Work) → Answers s (discard_waiting w s)
Answers-discard_waiting s none = Answers-refl s
Answers-discard_waiting s (some w) = Answers-respond_if s _ _

Answers-discard_event : (s : Step) (e : Event) → Answers s (discard_event e s)
Answers-discard_event s (Event.forwarded input) =
    Answers-if (is_kind input "commit") _ _ (Answers-respond s _) (
      Answers-if (is_kind input "atomic") _ _ (Answers-respond s _) (
        Answers-if (is_kind input "callbackQuery") _ _ (Answers-respond_callback s _)
          (Answers-respond s _)))
Answers-discard_event s _ = Answers-refl s

module _ (ctx : Context) (s : Step) where
  pub Answers-fail_closed :
      (reason : String) (event : Event) → Answers s (fail_closed_answers ctx reason event s)
  unfolding fail_closed_answers
  Answers-fail_closed reason event = Answers-trans (Answers-log s (fail_closed_record ctx reason)) (
      Answers-trans (Answers-waiting _ _ (work s)) (
        Answers-trans (Answers-respond_if _ (has_deferred s.volatile) _) (
          Answers-trans (Answers-respond_callback_if _ (has_callback s.volatile) _)
            (Answers-event _ _ event))))

  pub Answers-discard :
      (reason : Unreadable) (event : Event) → Answers s (discard_answers ctx reason event s)
  unfolding discard_answers
  Answers-discard reason event = Answers-trans (Answers-log s (discarded_record ctx reason)) (
      Answers-trans (Answers-discard_waiting _ (work s)) (
        Answers-trans (Answers-respond_if _ (has_deferred s.volatile) _) (
          Answers-trans (Answers-respond_callback_if _ (has_callback s.volatile) _)
            (Answers-discard_event _ event))))

  pub Answers-release_all-IsQuiet : IsQuiet s.effects → IsQuiet (release_all s).effects
  unfolding release_all
  Answers-release_all-IsQuiet q = ground arith

  pub durable-release_all : (release_all s).durable ≡ s.durable
  unfolding release_all
  durable-release_all = ground arith

  pub reset-release_all : (release_all s).reset ≡ s.reset
  unfolding release_all
  reset-release_all = ground arith

  pub effects-release_all : (release_all s).effects ≡ s.effects
  unfolding release_all
  effects-release_all = ground arith

  pub next_id-release_all : next_id ctx (release_all s).volatile ≡ next_id ctx s.volatile
  unfolding release_all
  next_id-release_all = ground arith
