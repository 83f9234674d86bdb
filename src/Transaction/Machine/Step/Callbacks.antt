-- ===== src/Transaction/Machine/Step/Callbacks.antt =====
-- crates/policysql-transaction/src/machine/step/checks.rs: the queries that a validator sends back
-- while it is awaited, on the callback lane; and, of step.rs, the compiling of a command's members.
use Prim.Native.String.{String}
use policysql.Prelude.{
  ℕ, ◌+◌, ◌^◌, Bool, true, false, ◌&&◌, ◌||◌, Option, none, some, List, [], ◌∷◌, ◌++◌, leb, ltb,
  ◌==◌, str_eq, length, codes, is_none_or, is_some_and, if◌then◌else◌, ◌>>=◌,
}
use policysql.Transaction.Canonical.{Json, parse}
use policysql.Transaction.Canonical.Writer.{safe_integer}
use policysql.Transaction.Identity.{callback_digest}
use policysql.Transaction.Machine.Compiler.{CoreError, Result, Compiled, Call, Validated}
use policysql.Transaction.Machine.Connection.{WorkLane, is_open}
use policysql.Transaction.Machine.Io.{Effect, Reply, Code}
use policysql.Transaction.Machine.Limits.{max_safe_integer}
use policysql.Transaction.Machine.State.{Phase, Versions, Record, is_atomic}
use policysql.Transaction.Machine.Step.Closing.{close}
use policysql.Transaction.Machine.Step.Context.{
  Context, Step, Outcome, Handler, act, demand, fail, ◌>>◌,
}
use policysql.Transaction.Machine.Step.Plumbing.{
  live_record, connection, respond_callback, update_volatile, volatile_or_new, release, work,
}
use policysql.Transaction.Machine.Step.Answers.{pending_id}
use policysql.Transaction.Machine.Step.Checks.{CheckServices}
use policysql.Transaction.Machine.Step.Verdicts.{set_request, reject}
use policysql.Transaction.Machine.Step.Services.{Services, Redaction}
use policysql.Transaction.Machine.Value.{Number}
use policysql.Transaction.Machine.Volatile.{
  CallbackQuery, CallbackTask, CallbackWork, Capability, Work, callback_awaits, is_validator,
  work_is,
}

-- The members of a verified text, in key order, each with its raw text.
abbrev pub RawMembers : Type 0
RawMembers = List (String × String)

abbrev pub raw_member : RawMembers → String → Option String
raw_member [] key = none
raw_member ((k, v) ∷ rest) key = if str_eq k key then some v else raw_member rest key

abbrev opens_with : ℕ → List ℕ → Bool
opens_with first [] = false
opens_with first (c ∷ text) = c == first

abbrev raw_opens : ℕ → Option String → Bool
raw_opens first raw = is_some_and raw λ text. opens_with first (codes text)

-- `as_u64`, or a double that is an integer of at least 1.
abbrev whole_number : Number → Option ℕ
whole_number (Number.unsigned n) = some n
whole_number (Number.negative n) = none
whole_number (Number.float bits) = if ltb bits (2 ^ 63) then safe_integer bits else none

abbrev whole_json : Json → Option ℕ
whole_json (Json.number n) = whole_number n
whole_json _ = none

abbrev in_range : ℕ → Option ℕ
in_range n = if leb 1 n && leb n max_safe_integer then some n else none

-- `sequence_value`.
unfoldable pub sequence_value : (String → Option Json) → String → Option ℕ
unfolding parse safe_integer
sequence_value events text = parse events text >>= λ v. whole_json v >>= in_range

-- `parse_callback`.
unfoldable pub parse_callback : CheckServices → Services → String → Option (RawMembers × ℕ)
unfolding sequence_value
parse_callback checks services text = services.read_members text >>= λ members.
    raw_member members "sequence" >>= λ raw. sequence_value checks.events raw >>= λ sequence.
    if length members == 3
      && raw_opens b'"' (raw_member members "sql")
      && raw_opens b'{' (raw_member members "params")
    then some (members, sequence)
    else none

-- `callback_digest` of the verified text.
unfoldable pub text_digest : CheckServices → String → Option String
unfolding parse callback_digest
text_digest checks text = parse checks.events text >>= λ command.
    some
      (checks.text_of (callback_digest checks.float_text checks.sha256_hex checks.events command))

abbrev pub internal_error : CoreError
internal_error = record {
  code = "POLICYSQL_INTERNAL";
  message = "The request could not be completed.";
  path = none;
  log = none;
}

-- What serde_json prints of a callback's reply: the sequence, the result, the request, the versions,
-- and the role.
abbrev pub CallbackText : Type 0
CallbackText = ℕ → Validated → List Redaction → String → Versions → String → String

module _ (ctx : Context) (services : Services) (checks : CheckServices)
    (callback_text : CallbackText) where
  abbrev pub compile_envelope :
      String → Option String → Option String → Option String → Step → Result Compiled × Step
  compile_envelope auth none params expect s = (Result.err internal_error, s)
  compile_envelope auth (some sql) none expect s = (Result.err internal_error, s)
  compile_envelope auth (some sql) (some params) expect s =
      let envelope = services.write_envelope sql params expect in
      (
        ctx.compiler.compile s.calls auth envelope,
        record s { calls = Call.compiled auth envelope ∷ s.calls },
      )

  -- `compile_members`: a compile is a call that the compiler remembers.
  unfoldable pub compile_members : String → RawMembers → Step → Result Compiled × Step
  compile_members auth members =
      compile_envelope auth (raw_member members "sql") (raw_member members "params")
        (raw_member members "expect")

  abbrev pub inconclusive : CoreError → Bool
  inconclusive e =
      str_eq e.code "POLICYSQL_DATABASE_UNAVAILABLE" || str_eq e.code "POLICYSQL_INTERNAL"

  abbrev pub judged : Result Compiled × Step → Bool × Step
  judged (Result.ok compiled, s) =
      (true, record s { calls = Call.released compiled.handle ∷ s.calls })
  judged (Result.err e, s) = (inconclusive e, s)

  -- `may_repeat_members`.
  unfoldable pub may_repeat_members : String → RawMembers → Step → Bool × Step
  unfolding compile_members
  may_repeat_members auth members s = judged (compile_members auth members s)

  -- `capability_live`.
  abbrev pub record_validates : Record → Bool
  record_validates r = elim r.phase [
    | Phase.validating ↦ true
    | Phase.active ↦ is_atomic r.kind
    | _ ↦ false
  ]

  abbrev pub capability_of : Step → Option Capability
  capability_of s = elim s.volatile [ none ↦ none | some v ↦ v.capability ]

  unfoldable pub capability_live : Option String → Step → Option Capability
  capability_live token_hash s = capability_of s >>= λ capability.
      if is_some_and (live_record s.durable) record_validates
        && is_open (connection s)
        && work_is is_validator (work s)
        && is_none_or token_hash (λ hash. str_eq hash capability.token_hash)
      then some capability
      else none

  -- `wait_callback`.
  unfoldable pub wait_callback : String → String → CallbackTask → (ℕ → Effect) → Handler
  wait_callback request_id token_hash task effect s =
      let v = volatile_or_new ctx s in
      if leb max_safe_integer v.next_effect_id
      then (Outcome.fault "effect_ids", record s { volatile = some v })
      else (
        Outcome.done,
        record s {
          volatile = some (record v {
            next_effect_id = v.next_effect_id + 1;
            callback = some (record {
              pending = record { id = v.next_effect_id; effect = callback_awaits task };
              request_id = request_id;
              token_hash = token_hash;
              task = task;
            });
          });
          effects = s.effects ++ (effect v.next_effect_id ∷ []);
        },
      )

  abbrev pub query_of : CallbackTask → CallbackQuery
  query_of (CallbackTask.binding q) = q
  query_of (CallbackTask.execute q) = q

  -- `callback.take()`, and the release of its handle.
  unfoldable pub dropped : Option CallbackWork → Step → Step
  unfolding release
  dropped none s = update_volatile ctx (λ v. v) s
  dropped (some c) s =
      release (query_of c.task).handle (update_volatile ctx (λ v. record v { callback = none }) s)

  abbrev pub drop_callback : Step → Step
  drop_callback s = dropped (volatile_or_new ctx s).callback s

  abbrev pub stop_validator : Step → Step
  stop_validator =
      update_volatile ctx λ v. record v {
        capability = none;
        pending = none;
        revoked_validator = pending_id v.pending;
      }

  abbrev pub drop_work : Step → Step
  drop_work = update_volatile ctx λ v. record v { work = none }

  -- The commit that waits on the validator is rejected.
  abbrev pub end_work : Work → Handler
  end_work waiting =
      act drop_work
      >> (if is_validator waiting.task
          then act (set_request waiting.request_id) >> reject ctx checks WorkLane.client
          else fail "callback_without_commit")

  unfoldable pub end_waiting : Handler
  unfolding close
  end_waiting s = demand (work s) "callback_without_commit" end_work s

  -- `fail_validation`.
  unfoldable pub fail_validation : Reply → Handler
  unfolding dropped end_waiting
  fail_validation reply =
      act (respond_callback reply) >> (act drop_callback >> (act stop_validator >> end_waiting))

  abbrev pub fail_with : Code → Handler
  fail_with code = fail_validation (Reply.error code)

  abbrev pub answer : Code → Handler
  answer code = act (respond_callback (Reply.error code))
