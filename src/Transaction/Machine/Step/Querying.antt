-- ===== src/Transaction/Machine/Step/Querying.antt =====
-- A callback query, whatever is asked with whatever token, emits no COMMIT and keeps the durable
-- part the owner's (step/checks.rs, `callback_query`).
use Prim.Native.String.{String}
use policysql.Prelude.{
  ℕ, ◌+◌, refl, Bool, true, false, not, ◌||◌, Option, none, some, ◌==◌, length, codes, if-rule,
  Option-cases, inl, inr,
}
use policysql.Transaction.Machine.Compiler.{Result, Compiled, read_only}
use policysql.Transaction.Machine.Io.{Effect, Reply, Lane, Code}
use policysql.Transaction.Machine.State.{Replay, Record}
use policysql.Transaction.Machine.Step.Answers.{has_callback}
use policysql.Transaction.Machine.Step.CallbackLane.{
  release-Holds, wait_callback-Holds, fail_validation-Holds, log_core_error-Holds,
  compile_members-IsHeld, may_repeat_members-IsHeld,
}
use policysql.Transaction.Machine.Step.CallbackQuery.{
  is_routed, query_parts, late, is_skewed, add_handle, min_deadline, query_compiled, after_compile,
  fresh_query, replayed_or, live_query, parsed_query, authorized_query, answer_live, routed_query,
  callback_query,
}
use policysql.Transaction.Machine.Step.Callbacks.{
  RawMembers, CallbackText, parse_callback, text_digest, compile_members, may_repeat_members,
  capability_live, fail_with, answer,
}
use policysql.Transaction.Machine.Step.Checks.{CheckServices}
use policysql.Transaction.Machine.Step.Context.{Context, Step, Outcome, act}
use policysql.Transaction.Machine.Step.Held.{
  IsHeld, Holds, then-Holds, plain-Holds, if-Holds, option-Holds, demand-Holds, emit-Holds,
}
use policysql.Transaction.Machine.Step.Plumbing.{live_record, own_request_id}
use policysql.Transaction.Machine.Step.Services.{Services}
use policysql.Transaction.Machine.Step.Tokens.{same_hash}
use policysql.Transaction.Machine.Value.{Value}
use policysql.Transaction.Machine.Volatile.{CallbackTask, Capability}

module _ (ctx : Context) (services : Services) (checks : CheckServices)
    (callback_text : CallbackText) where
  fail_with-Holds :
      (code : Code) → Holds ctx.owner (fail_with ctx services checks callback_text code)
  fail_with-Holds code = fail_validation-Holds ctx services checks callback_text (Reply.error code)

  answer-Holds : (code : Code) → Holds ctx.owner (answer ctx services checks callback_text code)
  answer-Holds code = emit-Holds ctx.owner (Effect.respond Lane.callback (Reply.error code)) refl

  query_compiled-Holds :
      (text : String) (r : Record) (capability : Capability) (sequence : ℕ) (compiled : Compiled)
      → Holds ctx.owner
          (query_compiled ctx services checks callback_text text r capability sequence compiled)
  query_compiled-Holds text r capability sequence compiled =
      let o = ctx.owner in
      then-Holds o _ _
        (plain-Holds o (act (add_handle ctx services checks callback_text compiled.handle))
          λ s. (refl, refl))
        (if-Holds o (not (read_only compiled) || not (length compiled.statements == 1)) _ _
          (then-Holds o _ _ (release-Holds o compiled.handle) (fail_with-Holds Code.conflict))
          (option-Holds o (text_digest checks text) _ _
            (then-Holds o _ _ (release-Holds o compiled.handle) (fail_with-Holds Code.internal))
            (λ digest.
              wait_callback-Holds ctx services checks callback_text (own_request_id ctx)
                capability.token_hash
                (CallbackTask.binding (record {
                  sequence = sequence;
                  digest = digest;
                  handle = compiled.handle;
                  versions = record {
                    schema = compiled.schema_version;
                    policy = compiled.policy_version;
                  };
                }))
                (λ id.
                  Effect.check_binding id r.binding
                    (min_deadline ctx services checks callback_text r capability))
                (λ id. refl))))

  after_compile-IsHeld :
      (text : String) (r : Record) (capability : Capability) (sequence : ℕ)
      (m : Result Compiled × Step)
      → IsHeld ctx.owner m.1
      → IsHeld ctx.owner
          (after_compile ctx services checks callback_text text r capability sequence m).1
  after_compile-IsHeld text r capability sequence (Result.ok compiled, s) held =
      (query_compiled-Holds text r capability sequence compiled).at s held
  after_compile-IsHeld text r capability sequence (Result.err e, s) held =
      (then-Holds ctx.owner _ _ (log_core_error-Holds ctx.owner e)
          (fail_validation-Holds ctx services checks callback_text (Reply.core_error e))).at
        s held

  fresh_query-Holds :
      (text : String) (r : Record) (capability : Capability) (members : RawMembers) (sequence : ℕ)
      → Holds ctx.owner
          (fresh_query ctx services checks callback_text text r capability members sequence)
  fresh_query-Holds text r capability members sequence = record {
    at = λ s held.
        if-rule (λ (x : Outcome × Step). IsHeld ctx.owner x.1) _ _ _
          ((fail_with-Holds Code.conflict).at s held)
          (after_compile-IsHeld text r capability sequence
            (compile_members ctx services checks callback_text capability.session members s)
            (compile_members-IsHeld ctx services checks callback_text capability.session members s
              held));
  }

  replayed_or-IsHeld :
      (text : String) (r : Record) (capability : Capability) (members : RawMembers) (sequence : ℕ)
      (last : Replay) (m : Bool × Step)
      → IsHeld ctx.owner m.1
      → IsHeld ctx.owner
          (replayed_or ctx services checks callback_text text r capability members sequence last
            m).1
  replayed_or-IsHeld text r capability members sequence last (false, s) held =
      (fresh_query-Holds text r capability members sequence).at s held
  replayed_or-IsHeld text r capability members sequence last (true, s) held =
      elim (Option-cases (text_digest checks text)) [
        | inl e ↦ rw (e, replayed_or) ((fail_with-Holds Code.internal).at s held)
        | inr (digest, e) ↦
            rw (e, replayed_or)
              (if-rule (λ (x : Outcome × Step). IsHeld ctx.owner x.1)
                (same_hash (codes digest) (codes last.digest)) _ _
                ((emit-Holds ctx.owner (Effect.respond Lane.callback (Reply.value last.response))
                    refl).at
                  s held)
                ((fresh_query-Holds text r capability members sequence).at s held))
      ]

  live_query-Holds :
      (text : String) (r : Record) (capability : Capability) (members : RawMembers) (sequence : ℕ)
      → Holds ctx.owner
          (live_query ctx services checks callback_text text r capability members sequence)
  live_query-Holds text r capability members sequence = record {
    at = λ s held. elim (Option-cases capability.last) [
      | inl e ↦
          rw (e, live_query) ((fresh_query-Holds text r capability members sequence).at s held)
      | inr (last, e) ↦
          rw (e, live_query)
            (if-rule (λ (x : Outcome × Step). IsHeld ctx.owner x.1)
              (sequence + 1 == capability.next_sequence) _ _
              (replayed_or-IsHeld text r capability members sequence last
                (may_repeat_members ctx services checks callback_text capability.session members s)
                (may_repeat_members-IsHeld ctx services checks callback_text capability.session
                  members s held))
              ((fresh_query-Holds text r capability members sequence).at s held))
    ];
  }

  parsed-IsHeld :
      (capability : Capability) (parsed : Option (RawMembers × ℕ)) (text : String) (s : Step)
      → IsHeld ctx.owner s
      → IsHeld ctx.owner (parsed_query ctx services checks callback_text text capability parsed s).1
  parsed-IsHeld capability none text s held = (fail_with-Holds Code.unavailable).at s held
  parsed-IsHeld capability (some (members, sequence)) text s held =
      (demand-Holds ctx.owner (live_record s.durable) "callback_record" _ λ r.
          if-Holds ctx.owner
            (late ctx services checks callback_text capability r
              || is_skewed ctx services checks callback_text r)
            _ _ (fail_with-Holds Code.unavailable)
            (live_query-Holds text r capability members sequence)).at
        s held

  authorized_query-Holds :
      (token text : String) (capability : Capability)
      → Holds ctx.owner (authorized_query ctx services checks callback_text token text capability)
  unfolding authorized_query
  authorized_query-Holds token text capability = record {
    at = λ s held.
        if-rule (λ (x : Outcome × Step). IsHeld ctx.owner x.1) _ _ _
          ((fail_with-Holds Code.unavailable).at s held)
          (parsed-IsHeld capability (parse_callback checks services text) text s held);
  }

  live-IsHeld :
      (token text : String) (live : Option Capability) (s : Step)
      → IsHeld ctx.owner s
      → IsHeld ctx.owner (answer_live ctx services checks callback_text token text live s).1
  live-IsHeld token text none s held = (answer-Holds Code.unavailable).at s held
  live-IsHeld token text (some capability) s held =
      (authorized_query-Holds token text capability).at s held

  routed_query-Holds :
      (validation token text : String)
      → Holds ctx.owner (routed_query ctx services checks callback_text validation token text)
  routed_query-Holds validation token text = record {
    at = λ s held.
        if-rule (λ (x : Outcome × Step). IsHeld ctx.owner x.1)
          (not (is_routed ctx.owner validation)) _ _ ((answer-Holds Code.unavailable).at s held)
          (if-rule (λ (x : Outcome × Step). IsHeld ctx.owner x.1) (has_callback s.volatile) _ _
            ((answer-Holds Code.internal).at s held)
            (live-IsHeld token text (capability_live ctx services checks callback_text none s) s
              held));
  }

  -- Whatever a callback query asks, with whatever token, it emits no COMMIT, and the durable part stays
  -- the owner's, in a phase that is not `discarded`.
  pub callback_query-Holds :
      (input : Value) → Holds ctx.owner (callback_query ctx services checks callback_text input)
  unfolding callback_query
  callback_query-Holds input = elim (Option-cases (query_parts input)) [
    | inl e ↦ rw (e, callback_query) (answer-Holds Code.invalid)
    | inr ((validation, token, text), e) ↦
        rw (e, callback_query) (routed_query-Holds validation token text)
  ]
