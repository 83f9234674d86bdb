-- ===== src/Transaction/Machine/Step/Results.antt =====
-- crates/policysql-transaction/src/machine/step.rs: what the machine reads in driver results,
-- validated results, and failures, and what it logs of them.
use Prim.Native.String.{String}
use policysql.Prelude.{
  ℕ, zero, suc, Bool, true, false, not, ◌&&◌, ◌||◌, Option, none, some, List, [], ◌∷◌, ◌++◌, leb,
  ltb, str_eq, all, any, codes, is_upper, is_digit, ◌==◌, byte_len, if◌then◌else◌,
}
use policysql.Transaction.Machine.Compiler.{CoreError, Result}
use policysql.Transaction.Machine.Io.{Code, Class, DriverResult}
use policysql.Transaction.Machine.State.{Versions}
use policysql.Transaction.Machine.Step.Begin.{text_member}
use policysql.Transaction.Machine.Step.Context.{Step}
use policysql.Transaction.Machine.Step.Plumbing.{log}
use policysql.Transaction.Machine.Step.Services.{Redaction}
use policysql.Transaction.Machine.Value.{
  Value, Members, Number, as_object, get_member, as_str, is_true,
}

-- `ok_or(Fault(..))` on the compiler's results, and its `unwrap_or_default`.
abbrev pub ok_of {ℓ} : {A : Type ℓ} → Result A → Option A
ok_of (Result.ok a) = some a
ok_of (Result.err e) = none

abbrev pub or_default {ℓ} : {A : Type ℓ} → Result A → A → A
or_default (Result.ok a) d = a
or_default (Result.err e) d = d

-- `codec_failure`: the first value over the limit decides, else any other marker.
abbrev pub marker_type : Members → Option String
marker_type m = elim (get_member m "type") [ none ↦ none | some v ↦ as_str v ]

abbrev pub names_type : Members → String → Bool
names_type m name = elim (marker_type m) [ none ↦ false | some t ↦ str_eq t name ]

abbrev pub limit_member : Members → Bool
limit_member m = elim (get_member m "limit") [ none ↦ false | some v ↦ is_true v ]

unfoldable pub codec_failure_from : Option Code → List Value → Option Code
codec_failure_from code [] = code
codec_failure_from code (v ∷ vs) = elim (as_object v) [
  | none ↦ codec_failure_from code vs
  | some m ↦ elim (names_type m "invalid" && limit_member m) [
    | true ↦ some Code.limit_exceeded
    | false ↦
        codec_failure_from (if names_type m "blob" then code else some Code.schema_mismatch) vs
  ]
]

unfoldable pub flatten : List (List Value) → List Value
flatten [] = []
flatten (row ∷ rows) = row ++ flatten rows

unfoldable pub codec_failure : DriverResult → Option Code
unfolding codec_failure_from flatten
codec_failure r = codec_failure_from none (flatten r.rows)

-- `redactions_of`: every flag that is set, with its column; a flag past the columns is a fault.
abbrev pub column_at : List String → ℕ → Option String
column_at [] i = none
column_at (c ∷ cs) zero = some c
column_at (c ∷ cs) (suc i) = column_at cs i

unfoldable pub row_redactions : List String → ℕ → ℕ → List Bool → Option (List Redaction)
row_redactions columns row i [] = some []
row_redactions columns row i (false ∷ flags) = row_redactions columns row (suc i) flags
row_redactions columns row i (true ∷ flags) = elim (column_at columns i) [
  | none ↦ none
  | some c ↦ elim (row_redactions columns row (suc i) flags) [
    | none ↦ none
    | some rs ↦ some ((row, c) ∷ rs)
  ]
]

unfoldable pub redactions_of : List String → ℕ → List (List Bool) → Option (List Redaction)
unfolding row_redactions
redactions_of columns row [] = some []
redactions_of columns row (flags ∷ more) = elim (row_redactions columns row 0 flags) [
  | none ↦ none
  | some rs ↦ elim (redactions_of columns (suc row) more) [
    | none ↦ none
    | some qs ↦ some (rs ++ qs)
  ]
]

-- `FailureDetail`.
pub record FailureDetail : Type 0 where
  pub statement : Option ℕ
  pub database_code : Option String
  pub cause : Option String
  pub versions : Option Versions

abbrev pub complexity_causes : List String
complexity_causes =
    "columns" ∷ "parameters" ∷ "like_pattern" ∷ "database_expression_depth" ∷ "function_arguments"
    ∷ "compound_terms" ∷ "join_tables" ∷ []

abbrev pub is_unclassified : Class → Bool
is_unclassified Class.unavailable = true
is_unclassified Class.unknown = true
is_unclassified _ = false

abbrev pub is_safe_code : String → Bool
is_safe_code c =
    leb (byte_len c) 64
    && not (byte_len c == 0)
    && all (λ b. is_upper b || is_digit b || b == b'_') (codes c)

abbrev pub is_too_complex : Code → Bool
is_too_complex Code.sql_too_complex = true
is_too_complex _ = false

abbrev pub optional_text : Option String → Value
optional_text none = Value.null
optional_text (some t) = Value.string t

abbrev pub unclassified_record : Option String → String → Value
unclassified_record request c = Value.object (
    text_member "event" "database_error_unclassified" (
      Members.member "requestId" (optional_text request)
        (text_member "code" (if is_safe_code c then c else "UNKNOWN") Members.end)))

abbrev pub log_unclassified : Class → Option String → Step → Step
log_unclassified class none s = s
log_unclassified class (some c) s =
    if is_unclassified class then log (unclassified_record s.request c) s else s

abbrev pub failed_index : ℕ → Option ℕ → ℕ
failed_index bound none = 0
failed_index bound (some i) = if ltb i bound then i else 0

abbrev pub known_cause : Option String → String
known_cause none = "database"
known_cause (some c) = if any (λ k. str_eq k c) complexity_causes then c else "database"

abbrev pub schema_of : Option Versions → Value
schema_of none = Value.null
schema_of (some v) = Value.string v.schema

abbrev pub policy_of : Option Versions → Value
policy_of none = Value.null
policy_of (some v) = Value.string v.policy

abbrev pub complexity_record : Option String → ℕ → FailureDetail → Value
complexity_record request index d = Value.object (
    text_member "event" "sql_too_complex" (
      Members.member "requestId" (optional_text request) (
        Members.member "statementIndex" (Value.number (Number.unsigned index)) (
          Members.member "schemaVersion" (schema_of d.versions) (
            Members.member "policyVersion" (policy_of d.versions)
              (text_member "cause" (known_cause d.cause) Members.end))))))

-- `log_core_error`: the compiler's record with this request's id.
abbrev pub log_core_error : CoreError → Step → Step
log_core_error e s = elim e.log [
  | none ↦ s
  | some v ↦ elim (as_object v) [
    | none ↦ s
    | some m ↦ log (Value.object (Members.member "requestId" (optional_text s.request) m)) s
  ]
]
