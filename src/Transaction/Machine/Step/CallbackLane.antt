-- ===== src/Transaction/Machine/Step/CallbackLane.antt =====
-- Nothing on the callback lane can emit COMMIT, and the durable part stays the owner's: how a
-- validation that fails ends (step/checks.rs, `fail_validation`, `wait_callback`).
use Prim.Native.String.{String}
use mathlib.Core.Path.{subst}
use policysql.Prelude.{
  ℕ, ◌≡◌, refl, sym, false, Option, none, some, [], ◌∷◌, any, any-append, leb, if-rule,
  Option-cases, inl, inr,
}
use policysql.Transaction.Machine.Compiler.{CoreError, Result, Compiled}
use policysql.Transaction.Machine.Connection.{WorkLane}
use policysql.Transaction.Machine.Io.{Effect, Reply, Lane, Code}
use policysql.Transaction.Machine.Limits.{max_safe_integer}
use policysql.Transaction.Machine.State.{Phase}
use policysql.Transaction.Machine.Step.Closing.{close}
use policysql.Transaction.Machine.Step.Committing.{is_commit}
use policysql.Transaction.Machine.Step.Context.{Context, Step, Outcome, act}
use policysql.Transaction.Machine.Step.Plumbing.{work, release, volatile_or_new}
use policysql.Transaction.Machine.Step.Callbacks.{
  RawMembers, CallbackText, compile_members, raw_member, may_repeat_members, compile_envelope,
  judged, wait_callback, dropped, drop_callback, stop_validator, drop_work, end_work, end_waiting,
  fail_validation,
}
use policysql.Transaction.Machine.Step.Checks.{CheckServices}
use policysql.Transaction.Machine.Step.Held.{
  IsHeld, Holds, then-Holds, state-Holds, plain-Holds, if-Holds, demand-Holds, fail-Holds,
  emit-Holds, close-Holds,
}
use policysql.Transaction.Machine.Step.Ends.{IsPhased}
use policysql.Transaction.Machine.Step.Results.{log_core_error, optional_text}
use policysql.Transaction.Machine.Step.Services.{Services}
use policysql.Transaction.Machine.Step.Verdicts.{set_request}
use policysql.Transaction.Machine.Value.{Value, Members, as_object}
use policysql.Transaction.Machine.Volatile.{CallbackTask, CallbackWork, Work, is_validator}

same-IsHeld :
    (o : String) (s t : Step)
    → (t.durable ≡ s.durable) × (t.effects ≡ s.effects)
    → IsHeld o s
    → IsHeld o t
same-IsHeld o s t same held = (
  subst (IsPhased o) (sym same.0) held.0,
  subst (λ es. any is_commit es ≡ false) (sym same.1) held.1,
)

pub log_core_error-Holds : (o : String) (e : CoreError) → Holds o (act (log_core_error e))
log_core_error-Holds o e = record {
  at = λ s held. elim (Option-cases e.log) [
    | inl h ↦ rw (h, log_core_error) held
    | inr (v, h) ↦
        rw (h, log_core_error)
          (elim (Option-cases (as_object v)) [
            | inl k ↦ rw k held
            | inr (m, k) ↦ rw k (
                (emit-Holds o
                    (Effect.log
                      (Value.object (Members.member "requestId" (optional_text s.request) m)))
                    refl).at
                  s held)
          ])
  ];
}

pub release-Holds : (o : String) (handle : ℕ) → Holds o (act (release handle))
unfolding release
release-Holds o handle = plain-Holds o _ λ s. elim (Option-cases s.volatile) [
  | inl e ↦ rw e (refl, refl)
  | inr (v, e) ↦ rw e (refl, refl)
]

module _ (ctx : Context) (services : Services) (checks : CheckServices)
    (callback_text : CallbackText) where
  pub wait_callback-Holds :
      (request_id token_hash : String) (task : CallbackTask) (effect : ℕ → Effect)
      → ((id : ℕ) → is_commit (effect id) ≡ false)
      → Holds ctx.owner
          (wait_callback ctx services checks callback_text request_id token_hash task effect)
  unfolding wait_callback
  wait_callback-Holds request_id token_hash task effect plain = record {
    at = λ s held.
        let id = (volatile_or_new ctx s).next_effect_id in
        if-rule (λ (r : Outcome × Step). IsHeld ctx.owner r.1) (leb max_safe_integer id) _ _ held
          (
            held.0,
            rw (any-append is_commit s.effects (effect id ∷ [])) (rw (held.1, plain id) refl),
          );
  }

  dropped-Holds :
      (waiting : Option CallbackWork)
      → Holds ctx.owner (act (dropped ctx services checks callback_text waiting))
  unfolding dropped
  dropped-Holds none = plain-Holds ctx.owner _ λ s. (refl, refl)
  dropped-Holds (some c) = plain-Holds ctx.owner _ λ s. (refl, refl)

  drop_callback-Holds : Holds ctx.owner (act (drop_callback ctx services checks callback_text))
  drop_callback-Holds =
      state-Holds ctx.owner
        (λ s. act (dropped ctx services checks callback_text (volatile_or_new ctx s).callback))
        λ s. dropped-Holds (volatile_or_new ctx s).callback

  end_work-Holds :
      (waiting : Work) → Holds ctx.owner (end_work ctx services checks callback_text waiting)
  unfolding close
  end_work-Holds waiting =
      then-Holds ctx.owner _ _
        (plain-Holds ctx.owner (act (drop_work ctx services checks callback_text))
          λ s. (refl, refl))
        (if-Holds ctx.owner (is_validator waiting.task) _ _
          (then-Holds ctx.owner _ _
            (plain-Holds ctx.owner (act (set_request waiting.request_id)) λ s. (refl, refl))
            (close-Holds ctx WorkLane.client Phase.failed (some (Reply.error Code.check_rejected))
              refl))
          (fail-Holds ctx.owner "callback_without_commit"))

  end_waiting-Holds : Holds ctx.owner (end_waiting ctx services checks callback_text)
  unfolding end_waiting
  end_waiting-Holds =
      state-Holds ctx.owner _
        λ s. demand-Holds ctx.owner (work s) "callback_without_commit" _ end_work-Holds

  pub fail_validation-Holds :
      (reply : Reply) → Holds ctx.owner (fail_validation ctx services checks callback_text reply)
  unfolding fail_validation
  fail_validation-Holds reply =
      then-Holds ctx.owner _ _ (emit-Holds ctx.owner (Effect.respond Lane.callback reply) refl) (
        then-Holds ctx.owner _ _ drop_callback-Holds (
          then-Holds ctx.owner _ _
            (plain-Holds ctx.owner (act (stop_validator ctx services checks callback_text))
              λ s. (refl, refl))
            end_waiting-Holds))

  -- Compiling a query, or judging by it, adds calls only.
  abbrev Same : Step → Step → Type 0
  Same s t = (t.durable ≡ s.durable) × (t.effects ≡ s.effects)

  compile_envelope-Same :
      (auth : String) (sql params expect : Option String) (s : Step)
      → Same s (compile_envelope ctx services checks callback_text auth sql params expect s).1
  compile_envelope-Same auth none params expect s = (refl, refl)
  compile_envelope-Same auth (some sql) none expect s = (refl, refl)
  compile_envelope-Same auth (some sql) (some params) expect s = (refl, refl)

  judged-Same :
      (r : Result Compiled × Step) → Same r.1 (judged ctx services checks callback_text r).1
  judged-Same (Result.ok compiled, s) = (refl, refl)
  judged-Same (Result.err e, s) = (refl, refl)

  pub compile_members-IsHeld :
      (auth : String) (members : RawMembers) (s : Step)
      → IsHeld ctx.owner s
      → IsHeld ctx.owner (compile_members ctx services checks callback_text auth members s).1
  unfolding compile_members
  compile_members-IsHeld auth members s held =
      let sql = raw_member members "sql" in
      let params = raw_member members "params" in
      let expect = raw_member members "expect" in
      same-IsHeld ctx.owner s
        (compile_envelope ctx services checks callback_text auth sql params expect s).1
        (compile_envelope-Same auth sql params expect s) held

  pub may_repeat_members-IsHeld :
      (auth : String) (members : RawMembers) (s : Step)
      → IsHeld ctx.owner s
      → IsHeld ctx.owner (may_repeat_members ctx services checks callback_text auth members s).1
  unfolding may_repeat_members
  may_repeat_members-IsHeld auth members s held =
      same-IsHeld ctx.owner (compile_members ctx services checks callback_text auth members s).1
        (judged ctx services checks callback_text
          (compile_members ctx services checks callback_text auth members s)).1
        (judged-Same (compile_members ctx services checks callback_text auth members s))
        (compile_members-IsHeld auth members s held)
