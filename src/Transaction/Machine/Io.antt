-- ===== src/Transaction/Machine/Io.antt =====
-- crates/policysql-transaction/src/machine/io.rs: events, host facts, effects, codes, replies.
use Prim.Native.String.{String}
use policysql.Prelude.{
  ℕ, ◌*◌, ◌+◌, ◌-◌, Bool, true, false, ◌&&◌, not, Option, none, some, List, [], ◌∷◌, leb, length,
  all, codes, byte_len, is_none_or, is_digit, is_hex, if◌then◌else◌,
}
use policysql.Transaction.Machine.Connection.{Awaited}
use policysql.Transaction.Machine.Limits.{max_time_ms}
use policysql.Transaction.Machine.State.{Binding, Mode, hex64, owner_name}
use policysql.Transaction.Machine.Value.{Value, Members}
use policysql.Transaction.Machine.Compiler.{CoreError}

pub record HostFacts : Type 0 where
  pub now_ms : ℕ
  pub entropy : String
  pub request_id : String
  pub owner : Option String
  pub configured_checks : List String

unfoldable pub valid_request_id : String → Bool
valid_request_id s =
    leb 1 (byte_len s) && leb (byte_len s) 128 && all (λ c. leb 0x21 c && leb c 0x7e) (codes s)

-- `HostFacts::is_valid`.
unfoldable pub host_is_valid : HostFacts → Bool
host_is_valid h =
    leb h.now_ms max_time_ms
    && hex64 h.entropy
    && valid_request_id h.request_id
    && is_none_or h.owner owner_name
    && leb (length h.configured_checks) 64
    && all (λ id. not (leb (byte_len id) 0) && leb (byte_len id) 128) h.configured_checks

abbrev hex_value : ℕ → ℕ
hex_value c = if is_digit c then c - b'0' else c - b'a' + 10

-- Twelve lowercase hex digits, all that valid entropy holds, most significant first; a text that is
-- shorter or holds another character reads as 0.
abbrev hex_number : ℕ → ℕ → List ℕ → ℕ
hex_number ℕ.zero total digits = total
hex_number (ℕ.suc left) total [] = 0
hex_number (ℕ.suc left) total (c ∷ digits) =
    let rest = hex_number left (total * 16 + hex_value c) digits in if is_hex c then rest else 0

-- `entropy_u64(0)`: the first 12 digits. The machine takes no other offset.
unfoldable pub entropy_u64 : HostFacts → ℕ
entropy_u64 h = hex_number 12 0 (codes h.entropy)

pub data Class : Type 0 where
  timeout unavailable rejected not_committed unknown limit complex : Class

pub record DriverUsage : Type 0 where
  pub rows_read : ℕ
  pub rows_written : ℕ
  pub query_duration_ms : ℕ

pub record DriverResult : Type 0 where
  pub columns : List String
  pub rows : List (List Value)
  pub rows_affected : ℕ
  pub usage : DriverUsage

pub data Event : Type 0 where
  request : Value → Event
  forwarded : Value → Event
  timer_fired : Event
  opened : ℕ → Event
  open_failed : ℕ → Class → Event
  binding_checked : ℕ → Bool → Event
  binding_check_failed : ℕ → Class → Event
  executed : ℕ → List DriverResult → Event
  execute_failed : ℕ → Class → Option ℕ → Option String → Option String → Event
  committed : ℕ → Event
  commit_failed : ℕ → Class → Event
  rolled_back : ℕ → Event
  rollback_failed : ℕ → Class → Event
  persisted : ℕ → Event
  persist_failed : ℕ → Event
  timer_set : ℕ → Event
  timer_failed : ℕ → Event
  validator_replied : ℕ → Bool → Value → Event
  validator_failed : ℕ → Class → Event
  owner_replied : ℕ → Value → Event
  forward_failed : ℕ → Class → Event
  abandon : Event

-- `Event::outcome_id`.
abbrev pub outcome_id : Event → Option ℕ
outcome_id (Event.request operation) = none
outcome_id (Event.forwarded input) = none
outcome_id Event.timer_fired = none
outcome_id Event.abandon = none
outcome_id (Event.opened id) = some id
outcome_id (Event.open_failed id c) = some id
outcome_id (Event.binding_checked id b) = some id
outcome_id (Event.binding_check_failed id c) = some id
outcome_id (Event.executed id results) = some id
outcome_id (Event.execute_failed id c s d cause) = some id
outcome_id (Event.committed id) = some id
outcome_id (Event.commit_failed id c) = some id
outcome_id (Event.rolled_back id) = some id
outcome_id (Event.rollback_failed id c) = some id
outcome_id (Event.persisted id) = some id
outcome_id (Event.persist_failed id) = some id
outcome_id (Event.timer_set id) = some id
outcome_id (Event.timer_failed id) = some id
outcome_id (Event.validator_replied id b v) = some id
outcome_id (Event.validator_failed id c) = some id
outcome_id (Event.owner_replied id v) = some id
outcome_id (Event.forward_failed id c) = some id

-- `Event::answers`.
abbrev pub answers : Event → Option Awaited
answers (Event.request operation) = none
answers (Event.forwarded input) = none
answers Event.timer_fired = none
answers Event.abandon = none
answers (Event.opened id) = some Awaited.opening
answers (Event.open_failed id c) = some Awaited.opening
answers (Event.binding_checked id b) = some Awaited.check_binding
answers (Event.binding_check_failed id c) = some Awaited.check_binding
answers (Event.executed id results) = some Awaited.execute
answers (Event.execute_failed id c s d cause) = some Awaited.execute
answers (Event.committed id) = some Awaited.commit
answers (Event.commit_failed id c) = some Awaited.commit
answers (Event.rolled_back id) = some Awaited.rollback
answers (Event.rollback_failed id c) = some Awaited.rollback
answers (Event.persisted id) = some Awaited.persist
answers (Event.persist_failed id) = some Awaited.persist
answers (Event.timer_set id) = some Awaited.set_timer
answers (Event.timer_failed id) = some Awaited.set_timer
answers (Event.validator_replied id b v) = some Awaited.call_validator
answers (Event.validator_failed id c) = some Awaited.call_validator
answers (Event.owner_replied id v) = some Awaited.forward
answers (Event.forward_failed id c) = some Awaited.forward

pub record DriverCall : Type 0 where
  pub sql : String
  pub args : Members

pub record ObservedStatement : Type 0 where
  pub operation : String
  pub resource : Option String
  pub explain_resource : Option ℕ

pub record ObserveContext : Type 0 where
  pub request_id : String
  pub binding : Binding
  pub statements : List ObservedStatement

pub record CapabilityGrant : Type 0 where
  pub token : String
  pub expires_at_ms : ℕ

pub data Code : Type 0 where
  invalid conflict unavailable internal outcome_unknown transaction_limit mode_violation : Code
  check_rejected stale binding_rejected database_timeout database_unavailable : Code
  schema_mismatch limit_exceeded idempotency_conflict key_invalid timeout : Code
  sql_too_complex json_too_deep : Code

-- `Code::for_class`.
abbrev pub for_class : Class → Code
for_class Class.timeout = Code.database_timeout
for_class Class.unavailable = Code.database_unavailable
for_class Class.rejected = Code.binding_rejected
for_class Class.not_committed = Code.internal
for_class Class.unknown = Code.internal
for_class Class.limit = Code.limit_exceeded
for_class Class.complex = Code.sql_too_complex

-- A reply, as what serde writes into its text: `error_reply`, `error_reply_at`, `core_error_reply`,
-- and `value_reply` of exact JSON text.
pub data Reply : Type 0 where
  error : Code → Reply
  error_at : Code → ℕ → Reply
  core_error : CoreError → Reply
  value : String → Reply

-- The lane of a `Respond` effect.
pub data Lane : Type 0 where
  client callback : Lane

pub data Effect : Type 0 where
  forward : ℕ → String → String → String → Effect
  open_connection : ℕ → Binding → Mode → ℕ → ℕ → Effect
  check_binding : ℕ → Binding → Option ℕ → Effect
  execute : ℕ → List DriverCall → Option String → ℕ → Effect
  commit : ℕ → Effect
  rollback : ℕ → Effect
  set_timer : ℕ → ℕ → Effect
  persist : ℕ → Effect
  call_validator : ℕ → String → String → CapabilityGrant → ℕ → Effect
  respond : Lane → Reply → Effect
  observe : List DriverCall → ObserveContext → ℕ → Effect
  log : Value → Effect
  reset : Effect

-- `Effect::id`.
abbrev pub effect_id : Effect → Option ℕ
effect_id (Effect.forward id owner lane input) = some id
effect_id (Effect.open_connection id b m t d) = some id
effect_id (Effect.check_binding id b d) = some id
effect_id (Effect.execute id s t m) = some id
effect_id (Effect.commit id) = some id
effect_id (Effect.rollback id) = some id
effect_id (Effect.set_timer id at) = some id
effect_id (Effect.persist id) = some id
effect_id (Effect.call_validator id c p g t) = some id
effect_id (Effect.respond l r) = none
effect_id (Effect.observe s c m) = none
effect_id (Effect.log r) = none
effect_id Effect.reset = none

-- `Effect::is_awaited`.
abbrev pub is_awaited : Effect → Bool
is_awaited (Effect.respond l r) = false
is_awaited (Effect.observe s c m) = false
is_awaited (Effect.log r) = false
is_awaited Effect.reset = false
is_awaited _ = true
