-- ===== src/Transaction/Machine/Step/Checks.antt =====
-- crates/policysql-transaction/src/machine/step/checks.rs: the checks that a commit triggers,
-- in order, and what their validators are told.
use Prim.Native.String.{String}
use policysql.Prelude.{
  ℕ, zero, suc, ◌+◌, ◌*◌, ◌-◌, Bool, ◌&&◌, Option, none, some, List, [], ◌∷◌, ◌++◌, map, str_eq,
  length, codes, strip_codes, is_hex, is_digit, if◌then◌else◌, ◌>>=◌,
}
use policysql.Transaction.Canonical.{Json, key_le}
use policysql.Transaction.Machine.Compiler.{TriggeredCheck}
use policysql.Transaction.Machine.Io.{HostFacts}
use policysql.Transaction.Machine.State.{Kind, Operation, Mutation, Versions, Record}
use policysql.Transaction.Machine.Step.Context.{Step, Handler, demand, fail}
use policysql.Transaction.Machine.Step.Plumbing.{map_volatile}
use policysql.Transaction.Machine.Step.Answers.{is_busy}
use policysql.Transaction.Machine.Volatile.{AtomicRun}

pub record HookStatement : Type 0 where
  pub index : ℕ
  pub operation : Operation
  pub resource : String

-- `HookPayload`; `session` is exact JSON text.
pub record HookPayload : Type 0 where
  pub validation_id : String
  pub check : String
  pub request_id : String
  pub policy_version : String
  pub schema_version : String
  pub role : String
  pub session : List ℕ
  pub statements : List HookStatement

-- What the handlers of checks take from serde_json, sha2, and the library's texts.
pub record CheckServices : Type 0 where
  pub events : String → Option Json
  pub text_of : List ℕ → String
  pub float_text : ℕ → List ℕ
  pub sha256_hex : List ℕ → List ℕ
  pub payload_text : HookPayload → String

-- `sort_by` on the ids, and `dedup_by`.
unfoldable pub insert_check : TriggeredCheck → List TriggeredCheck → List TriggeredCheck
insert_check c [] = c ∷ []
insert_check c (d ∷ ds) =
    let after = insert_check c ds in if key_le c.id d.id then c ∷ d ∷ ds else d ∷ after

unfoldable pub sort_checks : List TriggeredCheck → List TriggeredCheck
unfolding insert_check
sort_checks [] = []
sort_checks (c ∷ cs) = insert_check c (sort_checks cs)

-- A check goes when its id is that of the last one kept.
unfoldable pub dedup_after : TriggeredCheck → List TriggeredCheck → List TriggeredCheck
dedup_after c [] = c ∷ []
dedup_after c (d ∷ ds) =
    let rest = dedup_after (if str_eq c.id d.id then c else d) ds in
    if str_eq c.id d.id then rest else c ∷ rest

unfoldable pub dedup_checks : List TriggeredCheck → List TriggeredCheck
unfolding dedup_after
dedup_checks [] = []
dedup_checks (c ∷ cs) = dedup_after c cs

-- Two hex digits for each of the 32 bytes.
abbrev pub hex_digit : ℕ → ℕ
hex_digit c = if is_digit c then c - b'0' else c - b'a' + 10

abbrev pub hex_bytes : ℕ → List ℕ → Option (List ℕ)
hex_bytes zero digits = some []
hex_bytes (suc left) (h ∷ l ∷ digits) =
    let more = hex_bytes left digits in
    if is_hex h && is_hex l
    then (more >>= λ bytes. some ((hex_digit h * 16 + hex_digit l) ∷ bytes))
    else none
hex_bytes (suc left) (h ∷ []) = none
hex_bytes (suc left) [] = none

-- `HostFacts::entropy_bytes`, on the lowercase digits that valid facts hold.
unfoldable pub entropy_bytes : HostFacts → Option (List ℕ)
entropy_bytes host = hex_bytes 32 (codes host.entropy)

-- `trim_start_matches("tx_")`, which takes the prefix off as often as it stands there.
abbrev trimmed : ℕ → List ℕ → List ℕ
trimmed zero s = s
trimmed (suc left) s = elim (strip_codes (codes "tx_") s) [
  | none ↦ s
  | some rest ↦ trimmed left rest
]

unfoldable pub validation_id : String → List ℕ
validation_id owner = codes "cval_" ++ trimmed (length (codes owner)) (codes owner)

abbrev pub check_at : List TriggeredCheck → ℕ → Option TriggeredCheck
check_at [] i = none
check_at (c ∷ cs) zero = some c
check_at (c ∷ cs) (suc i) = check_at cs i

-- The mutations by their position, and as an atomic run lists them.
unfoldable pub numbered_from : ℕ → List Mutation → List HookStatement
numbered_from i [] = []
numbered_from i (m ∷ ms) =
    record { index = i; operation = m.operation; resource = m.resource } ∷ numbered_from (i + 1) ms

abbrev listed : Mutation → HookStatement
listed m = record { index = m.index; operation = m.operation; resource = m.resource }

abbrev pub atomic_run : Step → Option AtomicRun
atomic_run s = elim s.volatile [ none ↦ none | some v ↦ v.atomic ]

-- The versions and the statements that a validator is told of, or the fault.
abbrev pub told : Record → Option AtomicRun → ((Versions × List HookStatement) → Handler) → Handler
told r run next = elim r.kind [
  | Kind.atomic ↦ elim run [
    | none ↦ fail "checks_atomic"
    | some a ↦ next (a.versions, map listed a.mutations)
  ]
  | Kind.interactive ↦
      demand r.versions "checks_versions" λ versions. next (versions, numbered_from 0 r.mutations)
]

abbrev pub executing : Step → Bool
executing s = is_busy s.volatile

abbrev pub drop_capability : Step → Step
drop_capability = map_volatile (λ v. record v { capability = none })
