-- ===== src/Transaction/Machine/Step/Begin.antt =====
-- crates/policysql-transaction/src/machine/step.rs: the begin of an interactive transaction, from
-- its input to its reply, and the checks that later commands share.
use Prim.Native.String.{String}
use policysql.Prelude.{
  ℕ, Bool, true, false, not, ◌||◌, Option, none, some, [], ◌∷◌, leb, str_eq, is_none_or,
  checked_add, if◌then◌else◌, ◌>>=◌,
}
use policysql.Transaction.Machine.Connection.{Connection, WorkLane, is_open, is_client}
use policysql.Transaction.Machine.Io.{Effect, Reply, Code}
use policysql.Transaction.Machine.Limits.{max_time_ms}
use policysql.Transaction.Machine.State.{
  Phase, Kind, Mode, Identity, Binding, Record, Durable, hex64, no_counters,
}
use policysql.Transaction.Machine.Step.Answers.{plain_reply}
use policysql.Transaction.Machine.Step.Closing.{close}
use policysql.Transaction.Machine.Step.Context.{Context, Step, Handler, act, branch, demand, ◌>>◌}
use policysql.Transaction.Machine.Step.Plumbing.{
  live_record, connection, work, rollback_requested, respond, log, set_connection, wait, set_phase,
  own_request_id,
}
use policysql.Transaction.Machine.Step.Services.{
  Services, reply_with, or_respond, same_binding, parse_binding, phase_text,
}
use policysql.Transaction.Machine.Value.{
  Value, Members, exact_object, get_member, get_str, is_object,
}
use policysql.Transaction.Machine.Volatile.{Volatile, Task}

abbrev pub or_request : Option String → String → String
or_request none own = own
or_request (some r) own = r

-- `Step::busy`.
abbrev has_deferred : Option Volatile → Bool
has_deferred none = false
has_deferred (some v) = elim v.deferred [ none ↦ false | some d ↦ true ]

unfoldable pub busy : Step → Option Code
busy s = if has_deferred s.volatile then some Code.internal else elim (work s) [
  | none ↦ none
  | some w ↦ some (if is_client w.lane then Code.internal else Code.unavailable)
]

abbrev pub unless_busy : Handler → Handler
unless_busy next s = elim (busy s) [ none ↦ next s | some code ↦ reply_with code s ]

abbrev mode_named : Option String → Option Mode
mode_named none = none
mode_named (some text) =
    if str_eq text "read"
    then some Mode.read
    else if str_eq text "write"
    then some Mode.write
    else none

abbrev filtered : Option String → (String → Bool) → Option String
filtered none p = none
filtered (some text) p = if p text then some text else none

abbrev pub mode_text : Mode → String
mode_text Mode.read = "read"
mode_text Mode.write = "write"

abbrev is_active : Phase → Bool
is_active Phase.active = true
is_active _ = false

abbrev is_interactive : Kind → Bool
is_interactive Kind.interactive = true
is_interactive Kind.atomic = false

abbrev pub text_member : String → String → Members → Members
text_member k text rest = Members.member k (Value.string text) rest

module _ (ctx : Context) (services : Services) where
  -- `public_state`.
  unfoldable pub public_state : Record → String → String
  public_state r request =
      services.public_state_text r.owner (phase_text r.phase)
        (if is_active r.phase then some r.next_sequence else none)
        (if is_active r.phase
          then elim r.expires_at_ms [ none ↦ none | some at ↦ some (services.iso_from_ms at) ]
          else none)
        request

  unfoldable pub persist_reply : Option String → Reply → Reply → Handler
  unfolding wait
  persist_reply request_id reply failure =
      wait ctx WorkLane.client request_id (plain_reply (some reply) (some failure)) Effect.persist

  abbrev pub log_unavailable : String → Step → Step
  log_unavailable reason = log (
      Value.object (
        text_member "event" "transaction_owner_unavailable"
          (text_member "transactionId" ctx.owner (text_member "reason" reason Members.end))))

  unfoldable pub expire_client : WorkLane → Handler
  unfolding close
  expire_client lane =
      act (log_unavailable "expired")
      >> close ctx lane Phase.expired (some (Reply.error Code.unavailable))

  -- `recheck`: the work ends if the transaction expired or the runtime changed meanwhile.
  unfoldable pub recheck : WorkLane → Handler → Handler
  unfolding expire_client close
  recheck lane next s =
      demand (live_record s.durable) "recheck_record"
        (λ r.
          if is_none_or r.expires_at_ms (λ at. leb at ctx.host.now_ms) || rollback_requested s
          then expire_client lane
          else if not (str_eq r.snapshot ctx.compiler.snapshot)
          then close ctx lane Phase.failed (some (Reply.error Code.unavailable))
          else next)
        s

  abbrev skew_record : String → Option String → Value
  skew_record input request = Value.object (
      text_member "event" "owner_snapshot_skew" (
        text_member "input" input (
          Members.member "requestId" (elim request [ none ↦ Value.null | some r ↦ Value.string r ])
            Members.end)))

  abbrev begin_wait : Mode → String → String → Binding → String → String → Handler
  begin_wait mode start snapshot binding fingerprint replay =
      wait ctx WorkLane.client (some (own_request_id ctx))
        (Task.begin_binding
          (record {
            auth_fingerprint = fingerprint;
            replay = replay;
            start_fingerprint = start;
            mode = mode;
          })
          binding snapshot)
        (λ id. Effect.check_binding id binding none)

  abbrev begin_bound : Mode → String → String → Value → Value → Handler
  begin_bound mode start snapshot auth_value binding_value =
      or_respond (parse_binding services binding_value) Code.binding_rejected λ binding.
        if not (str_eq binding.snapshot snapshot)
        then reply_with Code.stale
        else or_respond (services.canonical_of auth_value) Code.internal λ auth.
          or_respond (services.canonical_of binding_value) Code.internal λ binding_json.
            or_respond (services.auth_fingerprint auth binding_json) Code.internal λ fingerprint.
              or_respond (services.replay_identity auth binding_json) Code.internal
                λ replay. unless_busy (begin_wait mode start snapshot binding fingerprint replay)

  -- `begin`.
  unfoldable pub begin : Value → Handler
  unfolding busy wait parse_binding exact_object get_member
  begin input =
      or_respond
        (exact_object input
          ("kind" ∷ "transactionId" ∷ "startFingerprint" ∷ "mode" ∷ "auth" ∷ "databaseBinding"
            ∷ "snapshot" ∷ [])
          ("expected" ∷ []))
        Code.invalid
        λ fields. or_respond (mode_named (get_str fields "mode")) Code.invalid λ mode.
          or_respond (filtered (get_str fields "startFingerprint") hex64) Code.invalid λ start.
            or_respond (get_str fields "snapshot") Code.invalid λ snapshot.
              or_respond (filtered (get_str fields "transactionId") (λ id. str_eq id ctx.owner))
                Code.invalid
                λ id. or_respond (get_member fields "auth") Code.invalid λ auth.
                  if not (is_object auth)
                  then reply_with Code.invalid
                  else if not (str_eq snapshot ctx.compiler.snapshot)
                  then (λ s. reply_with Code.conflict (log (skew_record "begin" s.request) s))
                  else begin_bound mode start snapshot auth
                      (elim (get_member fields "databaseBinding") [
                        | none ↦ Value.null
                        | some b ↦ b
                      ])

  abbrev begin_open : String → Identity → Binding → String → Handler
  begin_open request identity binding snapshot =
      demand
        (checked_add ctx.host.now_ms ctx.limits.transaction_ms >>= λ at.
          if leb at max_time_ms then some at else none)
        "deadline"
        λ expires.
          act (set_connection ctx Connection.opening)
          >> wait ctx WorkLane.client (some request)
              (Task.begin_open identity binding snapshot expires)
              (λ id.
                Effect.open_connection id binding identity.mode ctx.limits.begin_timeout_ms expires)

  -- The reply of a begin whose record exists.
  abbrev begin_again : Phase → Bool → String → Record → Handler
  begin_again Phase.committing connected request r = reply_with Code.unavailable
  begin_again Phase.commit_unknown connected request r = reply_with Code.unavailable
  begin_again Phase.discarded connected request r = reply_with Code.unavailable
  begin_again Phase.active false request r =
      act (set_phase ctx Phase.failed)
      >> persist_reply (some request) (Reply.error Code.unavailable) (Reply.error Code.internal)
  begin_again _ connected request r = act (respond (Reply.value (public_state r request)))

  abbrev begin_live : String → Identity → Binding → String → Record → Handler
  begin_live request identity binding snapshot r s =
      if not (is_interactive r.kind)
        || not (str_eq r.identity.start_fingerprint identity.start_fingerprint)
        || not (str_eq r.identity.auth_fingerprint identity.auth_fingerprint)
        || not (str_eq r.snapshot snapshot)
        || not (same_binding r.binding binding)
      then reply_with Code.conflict s
      else begin_again r.phase (is_open (connection s)) request r s

  abbrev begin_on : Option Durable → String → Identity → Binding → String → Handler
  begin_on none request identity binding snapshot = begin_open request identity binding snapshot
  begin_on (some (Durable.tombstone name)) request identity binding snapshot =
      reply_with Code.unavailable
  begin_on (some (Durable.live r)) request identity binding snapshot =
      begin_live request identity binding snapshot r

  -- `begin_checked`.
  unfoldable pub begin_checked : Option String → Identity → Binding → String → Handler
  unfolding wait persist_reply public_state same_binding
  begin_checked request_id identity binding snapshot s =
      begin_on s.durable (or_request request_id (own_request_id ctx)) identity binding snapshot s

  -- `BeginOpen` answered by `Opened`: the record of the new transaction.
  abbrev pub new_record : Identity → Binding → String → ℕ → Record
  new_record identity binding snapshot expires = record {
    owner = ctx.owner;
    kind = Kind.interactive;
    phase = Phase.active;
    identity = identity;
    binding = binding;
    snapshot = snapshot;
    expires_at_ms = some expires;
    next_sequence = 1;
    last = none;
    counters = no_counters;
    mutations = [];
    versions = none;
    atomic = none;
  }

  unfoldable pub begin_opened : WorkLane → Option String → Identity → Binding → String → ℕ → Handler
  unfolding wait
  begin_opened lane request_id identity binding snapshot expires =
      act (set_connection ctx Connection.opened)
      >> (act (λ s. record s {
        durable = some (Durable.live (new_record identity binding snapshot expires));
      })
          >> wait ctx lane request_id Task.begin_persist Effect.persist)

  unfoldable pub begin_persisted : WorkLane → Option String → Handler
  unfolding wait
  begin_persisted lane request_id s =
      demand (live_record s.durable >>= λ r. r.expires_at_ms) "begin_record"
        (λ at. wait ctx lane request_id Task.begin_timer (λ id. Effect.set_timer id at)) s

  abbrev started_record : Record → String → Value
  started_record r request = Value.object (
      text_member "event" "transaction_started" (
        text_member "transactionId" ctx.owner (
          text_member "mode" (mode_text r.identity.mode)
            (text_member "requestId" request Members.end))))

  abbrev begin_started : Option String → Handler
  begin_started request_id s =
      demand (live_record s.durable) "begin_record"
        (λ r.
          let request = or_request request_id (own_request_id ctx) in
          act (λ t.
            respond (Reply.value (public_state r request)) (log (started_record r request) t)))
        s

  unfoldable pub begin_timed : WorkLane → Option String → Handler
  unfolding expire_client public_state
  begin_timed lane request_id =
      branch rollback_requested (expire_client lane) (begin_started request_id)
