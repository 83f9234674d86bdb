-- ===== src/Transaction/Machine/State.antt =====
-- crates/policysql-transaction/src/machine/state.rs: the durable record of an owner and what makes
-- it consistent. A `u64` or `u32` is a number; an `f64` is its bit pattern.
pub mod Wire
pub mod RoundTrip
pub mod Mutations
pub mod Settled
use Prim.Native.String.{String}
use policysql.Prelude.{
  ℕ, zero, suc, ◌+◌, ◌*◌, ◌/◌, ◌%◌, ◌^◌, Bool, true, false, not, ◌&&◌, ◌||◌, Option, none, some,
  List, [], ◌∷◌, ltb, leb, ◌==◌, str_eq, same_bool, is_some, is_none, is_none_or, is_some_and,
  length, all, codes, byte_len, strip_codes, is_alphanumeric, is_hex, is_control, if◌then◌else◌,
}
use policysql.Transaction.Machine.Limits.{max_safe_integer, max_time_ms}

abbrev pub tx_state_version : ℕ
tx_state_version = 1

abbrev pub max_durable_bytes : ℕ
max_durable_bytes = 96 * 1024

abbrev pub max_mutations : ℕ
max_mutations = 256

abbrev pub max_resource_name_bytes : ℕ
max_resource_name_bytes = 1024

pub data Phase : Type 0 where
  active validating committing committed rolled_back failed expired commit_unknown discarded : Phase

abbrev pub has_deadline : Phase → Bool
has_deadline Phase.active = true
has_deadline Phase.validating = true
has_deadline Phase.committing = true
has_deadline _ = false

abbrev pub is_terminal : Phase → Bool
is_terminal p = not (has_deadline p)

pub data Kind : Type 0 where
  interactive atomic : Kind

pub data Mode : Type 0 where
  read write : Mode

pub data Operation : Type 0 where
  select insert update delete : Operation

-- `Operation != Select`.
abbrev pub mutates : Operation → Bool
mutates Operation.select = false
mutates _ = true

pub record AtomicIds : Type 0 where
  pub transaction_id : String
  pub key_hash : Option String

pub record Identity : Type 0 where
  pub auth_fingerprint : String
  pub replay : String
  pub start_fingerprint : String
  pub mode : Mode

pub record Binding : Type 0 where
  pub version : ℕ
  pub scope : String
  pub database_id : String
  pub generation : String
  pub snapshot : String

-- `response` is exact JSON text.
pub record Replay : Type 0 where
  pub digest : String
  pub response : String

pub record Usage : Type 0 where
  pub rows_read : ℕ
  pub rows_written : ℕ
  pub query_duration_ms : ℕ

pub record Counters : Type 0 where
  pub statements : ℕ
  pub result_bytes : ℕ
  pub usage : Usage

pub record Mutation : Type 0 where
  pub index : ℕ
  pub operation : Operation
  pub resource : String

pub record Versions : Type 0 where
  pub schema : String
  pub policy : String

pub record Record : Type 0 where
  pub owner : String
  pub kind : Kind
  pub phase : Phase
  pub identity : Identity
  pub binding : Binding
  pub snapshot : String
  pub expires_at_ms : Option ℕ
  pub next_sequence : ℕ
  pub last : Option Replay
  pub counters : Counters
  pub mutations : List Mutation
  pub versions : Option Versions
  pub atomic : Option AtomicIds

pub data Durable : Type 0 where
  tombstone : String → Durable
  live : Record → Durable

unfoldable pub hex64 : String → Bool
hex64 s = byte_len s == 64 && all is_hex (codes s)

unfoldable pub owner_name : String → Bool
owner_name s =
    is_some_and (strip_codes (codes "tx_") (codes s)) (λ hex. length hex == 32 && all is_hex hex)

unfoldable pub short_text : String → Bool
short_text s =
    not (byte_len s == 0) && leb (byte_len s) 1024 && all (λ c. not (is_control c)) (codes s)

abbrev is_binding_char : ℕ → Bool
is_binding_char c = is_alphanumeric c || c == b'_' || c == b'.' || c == b':' || c == b'-'

unfoldable pub binding_part : String → Bool
binding_part s = leb 1 (byte_len s) && leb (byte_len s) 256 && all is_binding_char (codes s)

unfoldable pub binding_is_valid : Binding → Bool
binding_is_valid b =
    b.version == 1 && all binding_part (b.scope ∷ b.database_id ∷ b.generation ∷ b.snapshot ∷ [])

unfoldable pub atomic_ids_is_valid : AtomicIds → Bool
unfolding hex64
atomic_ids_is_valid ids =
    is_some_and (strip_codes (codes "atomic_") (codes ids.transaction_id))
      (λ hex. (length hex == 24 || length hex == 32) && all is_hex hex)
    && is_none_or ids.key_hash hex64

-- The sign is bit 63 and the exponent bits 52 to 62: an exponent of 2047 is an infinity or a NaN,
-- and -0.0 is both equal to 0.0 and not below it.
abbrev pub f64_is_finite : ℕ → Bool
f64_is_finite x = not (x / 2 ^ 52 % 2048 == 2047)

abbrev pub f64_is_zero : ℕ → Bool
f64_is_zero x = x == 0 || x == 2 ^ 63

unfoldable pub usage_is_valid : Usage → Bool
usage_is_valid u =
    f64_is_finite u.query_duration_ms
    && leb u.query_duration_ms (2 ^ 63)
    && leb u.rows_read max_safe_integer
    && leb u.rows_written max_safe_integer

-- `Counters::default()`.
abbrev pub no_usage : Usage
no_usage = record { rows_read = 0; rows_written = 0; query_duration_ms = 0 }

abbrev pub no_counters : Counters
no_counters = record { statements = 0; result_bytes = 0; usage = no_usage }

-- `counters == Counters::default()`.
unfoldable pub is_no_counters : Counters → Bool
is_no_counters c =
    c.statements == 0
    && c.result_bytes == 0
    && c.usage.rows_read == 0
    && c.usage.rows_written == 0
    && f64_is_zero c.usage.query_duration_ms

-- The parts of `Record::is_consistent`, one for each of its `let`s.
unfoldable pub hashes_hold : Identity → Bool
hashes_hold i = hex64 i.auth_fingerprint && hex64 i.replay && hex64 i.start_fingerprint

unfoldable pub deadline_holds : Phase → Option ℕ → Bool
deadline_holds phase expires =
    same_bool (is_some expires) (has_deadline phase)
    && is_none_or expires (λ at. leb at max_time_ms)

unfoldable pub sequence_holds : ℕ → Option Replay → ℕ → Bool
sequence_holds next last statements =
    leb 1 next
    && leb next max_safe_integer
    && same_bool (is_some last) (ltb 1 next)
    && ltb statements next

abbrev opens_object : List ℕ → Bool
opens_object [] = false
opens_object (c ∷ s) = c == b'{'

unfoldable pub last_holds : Option Replay → Bool
last_holds last = is_none_or last (λ r. hex64 r.digest && opens_object (codes r.response))

abbrev pub is_atomic : Kind → Bool
is_atomic Kind.atomic = true
is_atomic Kind.interactive = false

-- `Committed | RolledBack`.
abbrev pub answers_retries : Phase → Bool
answers_retries Phase.committed = true
answers_retries Phase.rolled_back = true
answers_retries _ = false

unfoldable pub terminal_reply_holds : Kind → Phase → Option Replay → Bool
terminal_reply_holds kind phase last = is_atomic kind || not (answers_retries phase) || is_some last

-- `Active | Committed | Failed | Expired`.
abbrev pub is_atomic_phase : Phase → Bool
is_atomic_phase Phase.active = true
is_atomic_phase Phase.committed = true
is_atomic_phase Phase.failed = true
is_atomic_phase Phase.expired = true
is_atomic_phase _ = false

abbrev is_write : Mode → Bool
is_write Mode.write = true
is_write Mode.read = false

abbrev is_empty : List Mutation → Bool
is_empty [] = true
is_empty (m ∷ ms) = false

-- The atomic record's part that its phase does not decide.
unfoldable pub atomic_holds : Record → Bool
atomic_holds r =
    is_some_and r.atomic atomic_ids_is_valid
    && r.next_sequence == 1
    && is_no_counters r.counters
    && is_empty r.mutations
    && is_write r.identity.mode

abbrev kind_dispatch : Kind → Record → Bool
kind_dispatch Kind.interactive r = is_none r.atomic
kind_dispatch Kind.atomic r = is_atomic_phase r.phase && atomic_holds r

unfoldable pub kind_holds : Record → Bool
kind_holds r = kind_dispatch r.kind r

-- `windows(2)`: each index is below the next.
abbrev pub increasing : List Mutation → Bool
increasing [] = true
increasing (m ∷ []) = true
increasing (m ∷ n ∷ ms) = ltb m.index n.index && increasing (n ∷ ms)

-- What holds of each mutation of a record with that many statements.
abbrev pub mutation_holds : ℕ → Mutation → Bool
mutation_holds statements m =
    ltb m.index statements
    && mutates m.operation
    && not (byte_len m.resource == 0)
    && leb (byte_len m.resource) max_resource_name_bytes

unfoldable pub mutations_hold : List Mutation → ℕ → Bool
mutations_hold ms statements =
    leb (length ms) max_mutations && increasing ms && all (mutation_holds statements) ms

unfoldable pub versions_hold : Option Versions → ℕ → Bool
versions_hold versions statements =
    same_bool (is_some versions) (ltb 0 statements)
    && is_none_or versions (λ v. short_text v.schema && short_text v.policy)

-- `Record::is_consistent`.
unfoldable pub is_consistent : Record → Bool
is_consistent r =
    hashes_hold r.identity
    && kind_holds r
    && deadline_holds r.phase r.expires_at_ms
    && sequence_holds r.next_sequence r.last r.counters.statements
    && last_holds r.last
    && terminal_reply_holds r.kind r.phase r.last
    && mutations_hold r.mutations r.counters.statements
    && versions_hold r.versions r.counters.statements
    && usage_is_valid r.counters.usage
    && leb r.counters.result_bytes max_safe_integer
    && binding_is_valid r.binding
    && str_eq r.binding.snapshot r.snapshot
    && short_text r.snapshot
    && owner_name r.owner

abbrev pub durable_owner : Durable → String
durable_owner (Durable.tombstone owner) = owner
durable_owner (Durable.live r) = r.owner

abbrev pub durable_phase : Durable → Phase
durable_phase (Durable.tombstone owner) = Phase.discarded
durable_phase (Durable.live r) = r.phase

-- A record that can be read back: what `from_wire` accepts.
abbrev pub durable_is_consistent : Durable → Bool
durable_is_consistent (Durable.tombstone owner) = owner_name owner
durable_is_consistent (Durable.live r) = is_consistent r
