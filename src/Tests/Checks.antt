-- ===== src/Tests/Checks.antt =====
-- The theorems on commit checks and callbacks, applied to the sample owner.
use policysql.Prelude.{String, ℕ, ◌≡◌, refl, true, none, some, List, [], ◌∷◌, find_if, length}
use policysql.Transaction.Canonical.{Json, Items, Fields, key_le, codes_le}
use policysql.Transaction.Identity.Session.{
  Auth, Identified, read_auth, has_exact_keys, field_names, all_string_fields,
}
use policysql.Transaction.Machine.Connection.{WorkLane}
use policysql.Transaction.Machine.Io.{Event, host_is_valid, valid_request_id}
use policysql.Transaction.Machine.State.{hex64, owner_name}
use policysql.Transaction.Machine.Step.Entropy.{entropy_bytes-token_syntax}
use policysql.Transaction.Machine.Step.Callbacks.{CallbackText}
use policysql.Transaction.Machine.Step.CallbackQuery.{callback_query}
use policysql.Transaction.Machine.Step.CallbackOutcome.{callback_outcome}
use policysql.Transaction.Machine.Step.Checks.{
  CheckServices, sort_checks, dedup_checks, insert_check, dedup_after, entropy_bytes,
}
use policysql.Transaction.Machine.Step.Held.{Holds}
use policysql.Transaction.Machine.Step.Issued.{base64url-token_syntax, callback_session-Reads}
use policysql.Transaction.Machine.Step.Outcomes.{callback_outcome-Holds}
use policysql.Transaction.Machine.Step.Querying.{callback_query-Holds}
use policysql.Transaction.Machine.Step.Tokens.{base64url, token_syntax, callback_session}
use policysql.Transaction.Machine.Step.Validating.{verdict_arrived-Holds}
use policysql.Transaction.Machine.Step.Verdicts.{verdict_arrived, sorted_checks}
use policysql.Transaction.Machine.Step.Ordered.{has_id, ascending, sorted_checks-ascending}
use policysql.Transaction.Machine.Step.Context.{Context}
use policysql.Transaction.Machine.Compiler.{TriggeredCheck}
use policysql.Transaction.Machine.Value.{Value, Members}
use policysql.Tests.Samples.{
  sample_context, sample_compiler, sample_host, sample_services, sample_hash,
}

abbrev entropy : List ℕ
entropy =
    0 ∷ 1 ∷ 2 ∷ 3 ∷ 4 ∷ 5 ∷ 6 ∷ 7 ∷ 8 ∷ 9 ∷ 10 ∷ 11 ∷ 12 ∷ 13 ∷ 14 ∷ 15 ∷ 250 ∷ 251 ∷ 252 ∷ 253
    ∷ 254 ∷ 255 ∷ 22 ∷ 23 ∷ 24 ∷ 25 ∷ 26 ∷ 27 ∷ 28 ∷ 29 ∷ 30 ∷ 31 ∷ []

base64url-token_syntax_example : token_syntax (base64url entropy) ≡ true
base64url-token_syntax_example = base64url-token_syntax entropy refl

abbrev session : Fields
session = Fields.field "principal" (Json.string "p") (
    Fields.field "role" (Json.string "member") (
      Fields.field "roles" (Json.array (Items.item (Json.string "member") Items.no_items)) (
        Fields.field "session" (Json.object Fields.no_fields)
          (Fields.field "subject" (Json.string "s") Fields.no_fields))))

abbrev auth : Auth
auth = record {
  principal = Json.string "p";
  subject = Json.string "s";
  role = Json.string "member";
  session = Json.object Fields.no_fields;
}

session_read : read_auth (some (Json.object session)) ≡ Identified.ok auth
unfolding read_auth has_exact_keys field_names all_string_fields
session_read = refl

callback_session-Reads_example :
    (s : Json) × (callback_session (Json.object session) "validator" ≡ some s)
    × (read_auth (some s) ≡ Identified.ok (record auth { role = Json.string "validator" }))
callback_session-Reads_example = callback_session-Reads session "validator" auth session_read

abbrev check_services : CheckServices
check_services = record {
  events = λ text. some (Json.object session);
  text_of = λ text. sample_hash;
  float_text = λ bits. [];
  sha256_hex = λ text. text;
  payload_text = λ payload. "{}";
}

abbrev callback_text : CallbackText
callback_text sequence validated redactions request versions role = "{}"

abbrev query : Value
query = Value.object (Members.member "kind" (Value.string "callbackQuery") Members.end)

callback_query-Holds_example :
    Holds sample_context.owner
      (callback_query sample_context sample_services check_services callback_text query)
callback_query-Holds_example =
    callback_query-Holds sample_context sample_services check_services callback_text query

callback_outcome-Holds_example : Holds sample_context.owner (
    callback_outcome sample_context sample_services check_services callback_text
      (Event.binding_checked 7 true))
callback_outcome-Holds_example =
    callback_outcome-Holds sample_context sample_services check_services callback_text
      (Event.binding_checked 7 true)

verdict_arrived-Holds_example : Holds sample_context.owner (
    verdict_arrived sample_context check_services WorkLane.client none
      (record { sequence = 1; digest = sample_hash; auth = "{}"; checks = []; index = 0 })
      true)
verdict_arrived-Holds_example =
    verdict_arrived-Holds sample_context check_services WorkLane.client none
      (record { sequence = 1; digest = sample_hash; auth = "{}"; checks = []; index = 0 }) true

abbrev check : String → TriggeredCheck
check id = record { id = id; role = none; timeout_ms = 100 }

-- The sample owner with a compiler that gives the checks out of order, one of them twice.
abbrev disordered : Context
disordered = record sample_context {
  compiler = record sample_compiler {
    triggered_checks = λ resources. check "b" ∷ check "a" ∷ check "b" ∷ [];
  };
}

sorted_checks-ascending_example :
    (ascending (sorted_checks disordered check_services ("orders" ∷ [])) ≡ true)
    × (find_if (has_id "b") (sorted_checks disordered check_services ("orders" ∷ []))
        ≡ some (check "b"))
sorted_checks-ascending_example = sorted_checks-ascending disordered check_services "orders" [] "b"

-- All three in order.
in_order : sorted_checks disordered check_services ("orders" ∷ []) ≡ check "a" ∷ check "b" ∷ []
unfolding sorted_checks sort_checks dedup_checks insert_check dedup_after key_le codes_le
in_order = refl

sample_host-valid : host_is_valid sample_host ≡ true
unfolding host_is_valid hex64 valid_request_id owner_name
sample_host-valid = refl

entropy_bytes-token_syntax_example :
    (bytes : List ℕ) × (entropy_bytes sample_host ≡ some bytes)
    × (length bytes ≡ 32)
    × (token_syntax (base64url bytes) ≡ true)
entropy_bytes-token_syntax_example = entropy_bytes-token_syntax sample_host sample_host-valid
