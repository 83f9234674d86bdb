-- ===== src/Transaction/Machine/State/Wire.antt =====
-- crates/policysql-transaction/src/machine/state.rs: the wire form of a durable record, and its
-- reader and writer. The JSON text of a wire value is serde's: a parameter.
use Prim.Native.String.{String}
use policysql.Prelude.{
  ℕ, Bool, true, false, not, ◌&&◌, Option, none, some, List, ltb, ◌==◌, str_eq, is_none, byte_len,
  if◌then◌else◌, ◌>>=◌, then_some,
}
use policysql.Transaction.Machine.State.{
  Phase, Kind, Identity, Binding, Replay, Counters, Mutation, Versions, AtomicIds, Record, Durable,
  tx_state_version, max_durable_bytes, owner_name, is_consistent,
}

-- Every field but `v`, `owner`, and `phase` is absent in a tombstone.
pub record DurableWire : Type 0 where
  pub v : ℕ
  pub owner : String
  pub phase : Phase
  pub kind : Option Kind
  pub identity : Option Identity
  pub binding : Option Binding
  pub snapshot : Option String
  pub expires_at_ms : Option ℕ
  pub next_sequence : Option ℕ
  pub last : Option Replay
  pub counters : Option Counters
  pub mutations : Option (List Mutation)
  pub versions : Option Versions
  pub atomic : Option AtomicIds

pub data Unreadable : Type 0 where
  too_large malformed version owner inconsistent : Unreadable

-- What serde_json gives the program: the `v` of a text that is JSON (`probe`), the wire value of a
-- text (`read`), and the text of a wire value (`write`).
pub record Codec : Type 0 where
  pub probe : String → Option (Option ℕ)
  pub read : String → Option DurableWire
  pub write : DurableWire → String

abbrev pub is_discarded : Phase → Bool
is_discarded Phase.discarded = true
is_discarded _ = false

unfoldable pub is_bare : DurableWire → Bool
is_bare w =
    is_none w.kind
    && is_none w.identity
    && is_none w.binding
    && is_none w.snapshot
    && is_none w.expires_at_ms
    && is_none w.next_sequence
    && is_none w.last
    && is_none w.counters
    && is_none w.mutations
    && is_none w.versions
    && is_none w.atomic

-- The record of a wire value whose required members are present.
unfoldable pub record_of : DurableWire → Option Record
record_of w = do
  kind ← w.kind
  identity ← w.identity
  binding ← w.binding
  snapshot ← w.snapshot
  next_sequence ← w.next_sequence
  counters ← w.counters
  mutations ← w.mutations
  some (record {
    owner = w.owner;
    kind = kind;
    phase = w.phase;
    identity = identity;
    binding = binding;
    snapshot = snapshot;
    expires_at_ms = w.expires_at_ms;
    next_sequence = next_sequence;
    last = w.last;
    counters = counters;
    mutations = mutations;
    versions = w.versions;
    atomic = w.atomic;
  })

-- `record.is_consistent().then(..)`.
unfoldable pub checked : Record → Option Durable
checked r = then_some (is_consistent r) (Durable.live r)

unfoldable pub from_wire : DurableWire → Option Durable
unfolding is_bare record_of checked
from_wire w =
    if not (owner_name w.owner)
    then none
    else if is_discarded w.phase
    then then_some (is_bare w) (Durable.tombstone w.owner)
    else record_of w >>= checked

unfoldable pub to_wire : Durable → DurableWire
to_wire (Durable.tombstone name) = record {
  v = tx_state_version;
  owner = name;
  phase = Phase.discarded;
  kind = none;
  identity = none;
  binding = none;
  snapshot = none;
  expires_at_ms = none;
  next_sequence = none;
  last = none;
  counters = none;
  mutations = none;
  versions = none;
  atomic = none;
}
to_wire (Durable.live r) = record {
  v = tx_state_version;
  owner = r.owner;
  phase = r.phase;
  kind = some r.kind;
  identity = some r.identity;
  binding = some r.binding;
  snapshot = some r.snapshot;
  expires_at_ms = r.expires_at_ms;
  next_sequence = some r.next_sequence;
  last = r.last;
  counters = some r.counters;
  mutations = some r.mutations;
  versions = r.versions;
  atomic = r.atomic;
}

pub data Parsed : Type 0 where
  ok : Durable → Parsed
  err : Unreadable → Parsed

abbrev accept : Option Durable → Parsed
accept none = Parsed.err Unreadable.inconsistent
accept (some d) = Parsed.ok d

module _ (codec : Codec) where
  unfoldable pub to_json : Durable → String
  to_json d = codec.write (to_wire d)

  abbrev read_wire : Option DurableWire → String → Parsed
  read_wire none name = Parsed.err Unreadable.malformed
  read_wire (some w) name =
      if str_eq w.owner name then accept (from_wire w) else Parsed.err Unreadable.owner

  abbrev read_version : Option (Option ℕ) → String → String → Parsed
  read_version none text name = Parsed.err Unreadable.malformed
  read_version (some none) text name = Parsed.err Unreadable.version
  read_version (some (some v)) text name =
      if v == tx_state_version
      then read_wire (codec.read text) name
      else Parsed.err Unreadable.version

  -- `Durable::parse`.
  unfoldable pub parse : String → String → Parsed
  parse text name =
      if ltb max_durable_bytes (byte_len text)
      then Parsed.err Unreadable.too_large
      else read_version (codec.probe text) text name
