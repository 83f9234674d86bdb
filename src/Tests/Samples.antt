-- ===== src/Tests/Samples.antt =====
-- A sample owner: an interactive transaction, the texts that stand for it, and a compiler and host.
use Prim.Native.String.{String}
use policysql.Prelude.{ℕ, ◌≡◌, refl, true, false, Option, none, some, []}
use policysql.Transaction.Machine.Compiler.{Compiler, CoreError, Result}
use policysql.Transaction.Machine.Io.{HostFacts, Event}
use policysql.Transaction.Machine.Limits.{Limits}
use policysql.Transaction.Machine.State.{
  Phase, Kind, Mode, Binding, Record, Durable, no_counters, hex64, owner_name, short_text,
  binding_part, binding_is_valid, usage_is_valid, hashes_hold, deadline_holds, sequence_holds,
  last_holds, terminal_reply_holds, kind_holds, mutations_hold, versions_hold, is_consistent,
}
use policysql.Transaction.Machine.State.Wire.{Codec, to_wire}
use policysql.Transaction.Machine.Step.Context.{Context, Serde, Step}
use policysql.Transaction.Machine.Step.Services.{Services, StrictResult}

abbrev pub sample_hash : String
sample_hash = "0123456789abcdef0123456789abcdef0123456789abcdef0123456789abcdef"

abbrev pub sample_owner : String
sample_owner = "tx_0123456789abcdef0123456789abcdef"

abbrev pub sample_binding : Binding
sample_binding = record {
  version = 1;
  scope = "tenant";
  database_id = "main";
  generation = "1";
  snapshot = "s1";
}

abbrev pub in_phase : Phase → Option ℕ → Record
in_phase phase expires = record {
  owner = sample_owner;
  kind = Kind.interactive;
  phase = phase;
  identity = record {
    auth_fingerprint = sample_hash;
    replay = sample_hash;
    start_fingerprint = sample_hash;
    mode = Mode.write;
  };
  binding = sample_binding;
  snapshot = "s1";
  expires_at_ms = expires;
  next_sequence = 1;
  last = none;
  counters = no_counters;
  mutations = [];
  versions = none;
  atomic = none;
}

abbrev pub active_record : Record
active_record = in_phase Phase.active (some 2000)

abbrev pub committing_record : Record
committing_record = in_phase Phase.committing (some 2000)

abbrev pub sample_codec : Codec
sample_codec = record {
  probe = λ text. some (some 1);
  read = λ text. some (to_wire (Durable.live committing_record));
  write = λ w. "{}";
}

abbrev pub sample_host : HostFacts
sample_host = record {
  now_ms = 1000;
  entropy = sample_hash;
  request_id = "r1";
  owner = some sample_owner;
  configured_checks = [];
}

abbrev pub sample_serde : Serde
sample_serde = record {
  codec = sample_codec;
  read_volatile = λ text. none;
  write_volatile = λ v. "{}";
  read_host = λ text. some sample_host;
  read_event = λ text. some (Event.persisted 7);
  read_value = λ text. none;
}

abbrev sample_error : CoreError
sample_error = record { code = "INTERNAL_ERROR"; message = ""; path = none; log = none }

abbrev pub sample_compiler : Compiler
sample_compiler = record {
  snapshot = "s1";
  compile = λ calls auth envelope. Result.err sample_error;
  statements = λ calls handle. Result.err sample_error;
  raw_result_bound = λ calls handle. Result.err sample_error;
  validate = λ calls handle index raw budget. Result.err sample_error;
  triggered_checks = λ mutated. [];
}

abbrev pub sample_limits : Limits
sample_limits = record {
  transaction_ms = 1000;
  max_transaction_statements = 10;
  max_transaction_result_bytes = 1000;
  begin_timeout_ms = 100;
  max_callback_rows = 10;
  max_statements = 1;
  max_request_bytes = 1000;
  max_result_bytes = 1000;
  max_json_values = 100;
  max_response_bytes = 1000;
}

abbrev pub sample_context : Context
sample_context = record {
  compiler = sample_compiler;
  limits = sample_limits;
  host = sample_host;
  owner = sample_owner;
  serde = sample_serde;
}

abbrev pub committing_step : Step
committing_step = record {
  durable = some (Durable.live committing_record);
  volatile = none;
  effects = [];
  reset = false;
  request = none;
  allocated = [];
  abandoned = false;
  calls = [];
}

abbrev pub sample_services : Services
sample_services = record {
  read_binding = λ value. none;
  read_members = λ text. none;
  write_envelope = λ auth request trace. "{}";
  public_state_text = λ owner status next expires request. "{}";
  terminal_text = λ owner status request passed. "{}";
  statement_text = λ owner sequence result request. "{}";
  result_text = λ sequence operation v redactions. "{}";
  f64_add = λ a b. a;
  round_ms = λ a. a;
  canonical_of = λ value. none;
  number_of = λ text. none;
  auth_fingerprint = λ auth binding. none;
  replay_identity = λ auth binding. none;
  command_digest = λ command auth. none;
  strict_check = λ text. StrictResult.accepted;
  iso_from_ms = λ ms. "";
}

pub sample_owner-named : owner_name sample_owner ≡ true
unfolding owner_name
sample_owner-named = refl

pub active_record-consistent : is_consistent active_record ≡ true
unfolding is_consistent hex64 owner_name short_text binding_part binding_is_valid usage_is_valid
    hashes_hold deadline_holds sequence_holds last_holds terminal_reply_holds kind_holds
    mutations_hold versions_hold
active_record-consistent = refl

pub committing_record-consistent : is_consistent committing_record ≡ true
unfolding is_consistent hex64 owner_name short_text binding_part binding_is_valid usage_is_valid
    hashes_hold deadline_holds sequence_holds last_holds terminal_reply_holds kind_holds
    mutations_hold versions_hold
committing_record-consistent = refl
