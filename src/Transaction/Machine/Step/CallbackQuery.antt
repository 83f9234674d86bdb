-- ===== src/Transaction/Machine/Step/CallbackQuery.antt =====
-- crates/policysql-transaction/src/machine/step/checks.rs: a callback query from its arrival to its
-- answer: `callback_query`, `callback_outcome`, `callback_executed`, and what follows.
use Prim.Native.String.{String}
use Prim.Native.Nat.{min}
use policysql.Prelude.{
  ℕ, ◌+◌, Bool, false, not, ◌&&◌, ◌||◌, Option, none, some, [], ◌∷◌, ◌++◌, leb, ltb, ◌==◌, str_eq,
  length, codes, same_codes, strip_codes, is_none_or, if◌then◌else◌, ◌>>=◌,
}
use policysql.Transaction.Machine.Compiler.{Result, Compiled, read_only}
use policysql.Transaction.Machine.Io.{Effect, Reply, Code}
use policysql.Transaction.Machine.State.{Replay, Record}
use policysql.Transaction.Machine.Step.Context.{Context, Step, Outcome, Handler, act, demand, ◌>>◌}
use policysql.Transaction.Machine.Step.Plumbing.{
  live_record, respond_callback, update_volatile, release, own_request_id,
}
use policysql.Transaction.Machine.Step.Answers.{has_callback}
use policysql.Transaction.Machine.Step.Callbacks.{
  RawMembers, CallbackText, parse_callback, text_digest, compile_members, may_repeat_members,
  capability_live, wait_callback, fail_validation, fail_with, answer,
}
use policysql.Transaction.Machine.Step.Checks.{CheckServices}
use policysql.Transaction.Machine.Step.Tokens.{token_syntax, same_hash}
use policysql.Transaction.Machine.Step.Results.{log_core_error}
use policysql.Transaction.Machine.Step.Services.{Services}
use policysql.Transaction.Machine.Value.{Value, exact_object, get_str}
use policysql.Transaction.Machine.Volatile.{CallbackTask, Capability}

-- The routed validation: `cval_` and then what follows `tx_` in the owner's name.
abbrev pub is_routed : String → String → Bool
is_routed owner validation = elim (strip_codes (codes "cval_") (codes validation)) [
  | none ↦ false
  | some hex ↦ elim (strip_codes (codes "tx_") (codes owner)) [
    | none ↦ false
    | some own ↦ same_codes own hex
  ]
]

-- The validation, the token, and the command's text.
unfoldable pub query_parts : Value → Option (String × String × String)
unfolding exact_object
query_parts input =
    exact_object input ("kind" ∷ "validationId" ∷ "capability" ∷ "command" ∷ []) [] >>= λ fields.
    get_str fields "validationId" >>= λ validation. get_str fields "capability" >>= λ token.
    get_str fields "command" >>= λ text. some (validation, token, text)

module _ (ctx : Context) (services : Services) (checks : CheckServices)
    (callback_text : CallbackText) where
  abbrev pub fail_here : Code → Handler
  fail_here = fail_with ctx services checks callback_text

  abbrev pub end_validation : Reply → Handler
  end_validation = fail_validation ctx services checks callback_text

  abbrev pub late : Capability → Record → Bool
  late capability r = is_none_or r.expires_at_ms λ at. leb at ctx.host.now_ms

  abbrev pub is_skewed : Record → Bool
  is_skewed r = not (str_eq r.snapshot ctx.compiler.snapshot)

  abbrev pub add_handle : ℕ → Step → Step
  add_handle handle s =
      update_volatile ctx (λ v. record v { handles = v.handles ++ (handle ∷ []) })
        (record s { allocated = s.allocated ++ (handle ∷ []) })

  abbrev pub min_deadline : Record → Capability → Option ℕ
  min_deadline r capability = r.expires_at_ms >>= λ at. some (min at capability.expires_at_ms)

  -- A compiled query: a read of one statement, its digest, and then the check of the binding.
  abbrev pub query_compiled : String → Record → Capability → ℕ → Compiled → Handler
  query_compiled text r capability sequence compiled =
      act (add_handle compiled.handle)
      >> (if not (read_only compiled) || not (length compiled.statements == 1)
          then act (release compiled.handle) >> fail_here Code.conflict
          else elim (text_digest checks text) [
            | none ↦ act (release compiled.handle) >> fail_here Code.internal
            | some digest ↦
                wait_callback ctx services checks callback_text (own_request_id ctx)
                  capability.token_hash
                  (CallbackTask.binding (record {
                    sequence = sequence;
                    digest = digest;
                    handle = compiled.handle;
                    versions = record {
                      schema = compiled.schema_version;
                      policy = compiled.policy_version;
                    };
                  }))
                  (λ id. Effect.check_binding id r.binding (min_deadline r capability))
          ])

  abbrev pub after_compile :
      String → Record → Capability → ℕ → Result Compiled × Step → Outcome × Step
  after_compile text r capability sequence (Result.ok compiled, s) =
      query_compiled text r capability sequence compiled s
  after_compile text r capability sequence (Result.err e, s) =
      (act (log_core_error e) >> end_validation (Reply.core_error e)) s

  -- A query that is not the last one again.
  abbrev pub fresh_query : String → Record → Capability → RawMembers → ℕ → Handler
  fresh_query text r capability members sequence s =
      if not (sequence == capability.next_sequence)
        || ltb ctx.limits.max_transaction_statements sequence
      then fail_here Code.conflict s
      else after_compile text r capability sequence
          (compile_members ctx services checks callback_text capability.session members s)

  -- An exact retry of the last query replays it.
  abbrev pub replayed_or :
      String → Record → Capability → RawMembers → ℕ → Replay → Bool × Step → Outcome × Step
  replayed_or text r capability members sequence last (may_be, s) =
      if may_be
      then elim (text_digest checks text) [
        | none ↦ fail_here Code.internal s
        | some digest ↦
            if same_hash (codes digest) (codes last.digest)
            then act (respond_callback (Reply.value last.response)) s
            else fresh_query text r capability members sequence s
      ]
      else fresh_query text r capability members sequence s

  abbrev pub live_query : String → Record → Capability → RawMembers → ℕ → Handler
  live_query text r capability members sequence s = elim capability.last [
    | none ↦ fresh_query text r capability members sequence s
    | some last ↦
        if sequence + 1 == capability.next_sequence
        then replayed_or text r capability members sequence last
            (may_repeat_members ctx services checks callback_text capability.session members s)
        else fresh_query text r capability members sequence s
  ]

  abbrev pub parsed_query : String → Capability → Option (RawMembers × ℕ) → Handler
  parsed_query text capability none s = fail_here Code.unavailable s
  parsed_query text capability (some (members, sequence)) s =
      demand (live_record s.durable) "callback_record"
        (λ r.
          if late capability r || is_skewed r
          then fail_here Code.unavailable
          else live_query text r capability members sequence)
        s

  -- The query that a live capability answers to, its token presented.
  unfoldable pub authorized_query : String → String → Capability → Handler
  unfolding fail_validation release text_digest wait_callback compile_members may_repeat_members
      same_hash token_syntax parse_callback
  authorized_query token text capability s =
      if not (
          token_syntax (codes token)
          && same_hash (checks.sha256_hex (codes token)) (codes capability.token_hash))
        || leb capability.expires_at_ms ctx.host.now_ms
      then fail_here Code.unavailable s
      else parsed_query text capability (parse_callback checks services text) s

  abbrev pub answer_live : String → String → Option Capability → Handler
  answer_live token text none = answer ctx services checks callback_text Code.unavailable
  answer_live token text (some capability) = authorized_query token text capability

  abbrev pub routed_query : String → String → String → Handler
  routed_query validation token text s =
      if not (is_routed ctx.owner validation)
      then answer ctx services checks callback_text Code.unavailable s
      else if has_callback s.volatile
      then answer ctx services checks callback_text Code.internal s
      else answer_live token text (capability_live ctx services checks callback_text none s) s

  -- `callback_query`.
  unfoldable pub callback_query : Value → Handler
  unfolding query_parts authorized_query capability_live
  callback_query input = elim (query_parts input) [
    | none ↦ answer ctx services checks callback_text Code.invalid
    | some (validation, token, text) ↦ routed_query validation token text
  ]
