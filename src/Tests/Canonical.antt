-- ===== src/Tests/Canonical.antt =====
-- The theorems on JSON values, identities, and costs, applied to samples.
use Prim.Native.String.{String}
use policysql.Prelude.{
  ℕ, ◌≡◌, ◌≢◌, refl, true, false, Option, none, some, List, [], ◌∷◌, arith, codes, ◌+◌, ◌≤◌,
  usize_max,
}
use policysql.Transaction.Canonical.{
  Json, Items, Fields, find_field, codes_le, key_le, insert_field, sort_fields, has_repeat, build,
  build_items,
}
use policysql.Transaction.Canonical.Built.{is_built, build-is_built}
use policysql.Transaction.Canonical.Lengths.{js_value_len-write_value}
use policysql.Transaction.Canonical.Order.{SameJson, SameFields, write_value-SameJson}
use policysql.Transaction.Canonical.Stable.{build-idempotent}
use policysql.Transaction.Canonical.Writer.{digits, digits_in, bytes, write_value, js_value_len}
use policysql.Transaction.Cost.{
  Statement, PlanResult, Input, Estimate, Costed, evaluate, positive, get_resource,
  default_estimate, planned_from, count_steps, modify_at, priced, bound, bound_all, with_bounds,
}
use policysql.Transaction.Cost.Budget.{fits, evaluate-fits}
use policysql.Transaction.Identity.{Output, request, auth_fingerprint, operate, object_with}
use policysql.Transaction.Identity.Session.{Identified, binding, ◌>>=◌, has_exact_keys, field_names}
use policysql.Transaction.Identity.Agreement.{operate-auth_fingerprint}
use policysql.Transaction.Identity.Snapshot.{rebound, request-put_snapshot}
use policysql.Transaction.Machine.Value.{Value, Members, Number, get_member, get}
use policysql.Transaction.Strict.{Walk, over, count, check_value}
use policysql.Transaction.Strict.Builds.{all_finite, in_key_order, check_value-build}
use policysql.Transaction.Strict.Sound.{is_strict, size, check_value-passes}

abbrev number : ℕ → Json
number n = Json.number (Number.unsigned n)

-- `{"b":1,"a":[2]}`, and in key order.
abbrev sample : Json
sample = Json.object (
    Fields.field "b" (number 1)
      (Fields.field "a" (Json.array (Items.item (number 2) Items.no_items)) Fields.no_fields))

abbrev sorted : Json
sorted = Json.object (
    Fields.field "a" (Json.array (Items.item (number 2) Items.no_items))
      (Fields.field "b" (number 1) Fields.no_fields))

abbrev float_text : ℕ → List ℕ
float_text bits = codes "0.5"

abbrev hash : List ℕ → List ℕ
hash text = text

abbrev events : String → Option Json
events text = some sample

js_value_len-write_value_example :
    js_value_len float_text sample ≡ bytes (write_value float_text sample)
js_value_len-write_value_example = js_value_len-write_value float_text sample

b_apart : codes "b" ≢ codes "a"
b_apart = λ h. ground (arith, h)

write_value-SameJson_example : write_value float_text sample ≡ write_value float_text sorted
write_value-SameJson_example = write_value-SameJson float_text sample sorted (
    SameJson.object _ _ (
      SameFields.swap "b" "a" (number 1) (Json.array (Items.item (number 2) Items.no_items))
        Fields.no_fields b_apart))

sample_built : build 2 sample ≡ some sorted
unfolding build build_items sort_fields insert_field key_le codes_le has_repeat
sample_built = refl

build-is_built_example : is_built 2 sorted ≡ true
build-is_built_example = build-is_built sample 2 sorted sample_built

build-idempotent_example : build 2 sorted ≡ some sorted
build-idempotent_example = build-idempotent sample 2 sorted sample_built

sample_small : 0 + size sample ≤ usize_max
unfolding size
sample_small = omega arith

sample_strict : is_strict 2 sample ≡ true
unfolding is_strict
sample_strict = refl

sample_within : over (some 9) (0 + size sample) ≡ false
unfolding size
sample_within = refl

check_value-passes_example : check_value (some 9) 2 sample 0 ≡ Walk.counted (0 + size sample)
check_value-passes_example =
    check_value-passes (some 9) sample 2 0 sample_small sample_strict sample_within

sample_finite : all_finite sample ≡ true
unfolding all_finite
sample_finite = refl

sample_checked : check_value (some 9) 2 sample 0 ≡ Walk.counted 6
unfolding check_value count
sample_checked = refl

check_value-build_example : build 2 sample ≡ some (in_key_order sample)
check_value-build_example = check_value-build (some 9) sample 2 0 6 sample_checked sample_finite

abbrev sample_auth : Json
sample_auth = object_with (
    ("principal", Json.string "p")
    ∷ ("subject", Json.string "s")
    ∷ ("role", Json.string "member")
    ∷ ("session", Json.object Fields.no_fields)
    ∷ [])

abbrev binding_fields : Fields
binding_fields = Fields.field "databaseId" (Json.string "db") (
    Fields.field "generation" (Json.string "g1") (
      Fields.field "scope" (Json.string "app") (
        Fields.field "snapshot" (Json.string "old")
          (Fields.field "version" (number 1) Fields.no_fields))))

binding_read :
    binding (some (Json.object binding_fields)) ≡ Identified.ok (Json.object binding_fields)
unfolding binding has_exact_keys field_names
binding_read = refl

-- A request as it is read, its members in the order of their keys.
abbrev request_fields : Fields
request_fields = Fields.field "auth" sample_auth (
    Fields.field "binding" (Json.object binding_fields) (
      Fields.field "body" (Json.string "{}") (
        Fields.field "endpoint" (Json.string "execute") (
          Fields.field "key" (Json.string "0123456789abcdef")
            (Fields.field "op" (Json.string "request") Fields.no_fields)))))

request-put_snapshot_example :
    request float_text hash events (Json.object (rebound "new" binding_fields request_fields))
    ≡ request float_text hash events (Json.object request_fields)
unfolding find_field
request-put_snapshot_example =
    request-put_snapshot float_text hash events "new" binding_fields request_fields refl
      binding_read

operate-auth_fingerprint_example :
    operate float_text hash events (
      object_with (
        ("op", Json.string "auth")
        ∷ ("auth", sample_auth)
        ∷ ("binding", Json.object binding_fields)
        ∷ []))
    ≡ (auth_fingerprint float_text hash events
          (some sample_auth)
          (some (Json.object binding_fields))
        >>= λ h. Identified.ok (Output.fingerprint h))
operate-auth_fingerprint_example =
    operate-auth_fingerprint float_text hash events sample_auth (Json.object binding_fields)

abbrev amount : ℕ → Value
amount n = Value.number (Number.unsigned n)

abbrev catalog : Members
catalog = Members.member "maxEstimatedRowsRead" (amount 100) (
    Members.member "maxEstimatedRowsWritten" (amount 100) (
      Members.member "resources"
        (Value.object (
          Members.member "1" (Value.object (Members.member "upperRows" (amount 20) Members.end))
            Members.end))
        Members.end))

abbrev update : Statement
update = record { operation = "update"; resource = none; explain_resource = some 1 }

abbrev plan : PlanResult
plan = record { columns = "detail" ∷ []; rows = (Value.string "SCAN" ∷ []) ∷ [] }

abbrev input : Input
input = record { catalog = some catalog; statements = update ∷ []; results = plan ∷ [] }

abbrev estimates : List Estimate
estimates = with_bounds 20 20 1 (default_estimate update) ∷ []

input_estimated : evaluate input ≡ Costed.ok estimates
unfolding evaluate positive get_member get_resource digits digits_in default_estimate planned_from
    count_steps modify_at priced bound bound_all get
input_estimated = refl

reads_within : positive (get_member catalog "maxEstimatedRowsRead") ≡ some 100
unfolding positive get_member
reads_within = refl

writes_within : positive (get_member catalog "maxEstimatedRowsWritten") ≡ some 100
unfolding positive get_member
writes_within = refl

evaluate-fits_example : fits 100 100 input.statements estimates ≡ true
evaluate-fits_example =
    evaluate-fits input catalog 100 100 estimates refl reads_within writes_within input_estimated
