-- ===== src/Transaction/Machine/Step/Driver.antt =====
-- crates/policysql-transaction/src/machine/step.rs: `run`, `run_dispatch`, `check_output`, and
-- `finish_output`, over the handler that `dispatch` names.
use Prim.Native.String.{String}
use policysql.Prelude.{
  ℕ, Bool, true, false, not, ◌&&◌, ◌||◌, Option, none, some, List, [], ◌∷◌, ◌++◌, ltb, leb, ◌==◌,
  str_eq, is_none, is_some_and, count_if, find_if, last?, byte_len, if◌then◌else◌, ◌>>=◌, then_some,
}
use policysql.Transaction.Machine.Compiler.{Compiler, Call}
use policysql.Transaction.Machine.Io.{
  HostFacts, Event, Effect, host_is_valid, is_awaited, effect_id,
}
use policysql.Transaction.Machine.Limits.{Limits, volatile_bound, event_bound}
use policysql.Transaction.Machine.State.{
  Durable, is_consistent, max_durable_bytes, tx_state_version,
}
use policysql.Transaction.Machine.State.Wire.{Unreadable, Parsed, parse, to_json}
use policysql.Transaction.Machine.Step.Answers.{is_kind}
use policysql.Transaction.Machine.Step.Closing.{fail_closed, discard, discarded_record}
use policysql.Transaction.Machine.Step.Context.{Context, Step, Outcome, Handler, Serde}
use policysql.Transaction.Machine.Step.Plumbing.{release_calls, release_all, log}
use policysql.Transaction.Machine.Value.{Value, Values, get, as_str, as_u64}
use policysql.Transaction.Machine.Volatile.{Volatile, volatile_is_consistent, is_idle}

-- `Output`, with the calls made to the compiler.
pub record Output : Type 0 where
  pub durable : Option String
  pub volatile : Option String
  pub effects : List Effect
  pub calls : List Call

-- The id that an effect has is the one of a pending effect.
abbrev same_id : Option ℕ → Option ℕ → Bool
same_id none none = true
same_id (some a) (some b) = a == b
same_id _ _ = false

abbrev pending_on_work : Option Volatile → Option ℕ
pending_on_work none = none
pending_on_work (some v) = elim v.pending [ none ↦ none | some p ↦ some p.id ]

abbrev pending_on_callback : Option Volatile → Option ℕ
pending_on_callback none = none
pending_on_callback (some v) = elim v.callback [ none ↦ none | some c ↦ some c.pending.id ]

-- At most one awaited effect, and it is the last.
unfoldable pub batch_rule : List Effect → Bool
batch_rule effects =
    let awaited = count_if is_awaited effects in
    not (ltb 1 awaited || (awaited == 1 && not (is_some_and (last? effects) is_awaited)))

-- The awaited effect is the one recorded as pending on its lane; `Abandon`'s has no outcome.
unfoldable pub pending_rule : Step → Bool
pending_rule s = elim (find_if is_awaited s.effects) [
  | none ↦ true
  | some e ↦
      (s.abandoned && is_none s.volatile)
      || same_id (pending_on_work s.volatile) (effect_id e)
      || same_id (pending_on_callback s.volatile) (effect_id e)
]

abbrev pub live_is_consistent : Option Durable → Bool
live_is_consistent none = true
live_is_consistent (some (Durable.tombstone name)) = true
live_is_consistent (some (Durable.live r)) = is_consistent r

abbrev pub same_owner : Option String → Option String → Bool
same_owner none none = true
same_owner (some a) (some b) = str_eq a b
same_owner _ _ = false

-- `Volatile::parse`.
unfoldable pub parse_volatile : Serde → String → Option String → ℕ → Option Volatile
parse_volatile serde text owner bound =
    if ltb bound (byte_len text)
    then none
    else serde.read_volatile text >>= λ v.
        if v.v == tx_state_version && same_owner v.owner owner && volatile_is_consistent v
        then some v
        else none

-- The unsigned numbers of a `handles` array, 64 at most.
abbrev handles_in : ℕ → Values → List ℕ
handles_in ℕ.zero vs = []
handles_in (ℕ.suc left) Values.nil = []
handles_in (ℕ.suc left) (Values.cons v vs) = elim (as_u64 v) [
  | none ↦ handles_in (ℕ.suc left) vs
  | some h ↦ h ∷ handles_in left vs
]

abbrev handles_member : Option Value → List ℕ
handles_member (some (Value.array vs)) = handles_in 64 vs
handles_member _ = []

abbrev owner_member : Value → Option String
owner_member value = get value "owner" >>= as_str

-- `readable_handles`: the handles of a volatile text that is invalid otherwise.
unfoldable pub readable_handles : Serde → String → Option String → ℕ → List ℕ
readable_handles serde text owner bound =
    if ltb bound (byte_len text) then [] else elim (serde.read_value text) [
      | none ↦ []
      | some value ↦
          if same_owner (owner_member value) owner then handles_member (get value "handles") else []
    ]

abbrev pub durable_text : Serde → Option Durable → Option String
durable_text serde none = none
durable_text serde (some d) = some (to_json serde.codec d)

unfoldable pub finish_output : Serde → Step → Output
unfolding release_all
finish_output serde s =
    if s.reset
    then (let t = release_all s in
        record {
          durable = none;
          volatile = none;
          effects = t.effects ++ (Effect.reset ∷ []);
          calls = t.calls;
        })
    else record {
      durable = durable_text serde s.durable;
      volatile = elim s.volatile [
        | none ↦ none
        | some v ↦ if is_idle v then none else some (serde.write_volatile v)
      ];
      effects = s.effects;
      calls = s.calls;
    }

module _ (ctx : Context) where
  abbrev durable_fits : Option Durable → Bool
  durable_fits none = true
  durable_fits (some d) = leb (byte_len (to_json ctx.serde.codec d)) max_durable_bytes

  abbrev volatile_fits : Option Volatile → Bool
  volatile_fits none = true
  volatile_fits (some v) =
      leb (byte_len (ctx.serde.write_volatile v)) (volatile_bound ctx.limits)
      && volatile_is_consistent v

  -- `check_output`: bounds and the batch rule of the state that the step leaves.
  unfoldable pub check_output : Step → Outcome
  check_output s =
      if s.reset
      then Outcome.done
      else if not (durable_fits s.durable)
      then Outcome.fault "durable_bound"
      else if not (volatile_fits s.volatile)
      then Outcome.fault "volatile_bound"
      else if not (batch_rule s.effects)
      then Outcome.fault "batch_rule"
      else if not (pending_rule s)
      then Outcome.fault "pending_mismatch"
      else if not (live_is_consistent s.durable)
      then Outcome.fault "durable_inconsistent"
      else Outcome.done

  -- `run_dispatch`, over the handler of the event. A fault gives up what the handler changed, but
  -- for the calls that it made, and fails closed.
  abbrev pub recover : Event → Step → Outcome → Step → Step
  recover event before Outcome.done after = after
  recover event before (Outcome.fault reason) after =
      fail_closed ctx reason event false (record after {
        durable = before.durable;
        volatile = before.volatile;
        effects = [];
        reset = false;
        allocated = [];
        calls = release_calls after.allocated after.calls;
      })

  abbrev pub checked : Outcome × Step → Outcome × Step
  checked (Outcome.fault reason, s) = (Outcome.fault reason, s)
  checked (Outcome.done, s) = (check_output s, s)

  unfoldable pub run_dispatch : Handler → Event → Step → Step
  unfolding check_output fail_closed release_calls
  run_dispatch handler event before =
      let (outcome, after) = checked (handler before) in recover event before outcome after

-- The durable state as read: absent, unreadable, or a record.
pub data Stored : Type 0 where
  absent : Stored
  unreadable : Unreadable → Stored
  readable : Durable → Stored

abbrev pub stored_of : Parsed → Stored
stored_of (Parsed.ok d) = Stored.readable d
stored_of (Parsed.err reason) = Stored.unreadable reason

abbrev pub read_durable : Serde → Option String → String → Stored
read_durable serde none owner = Stored.absent
read_durable serde (some text) owner = stored_of (parse serde.codec text owner)

-- The volatile state as read: absent, invalid with its text, or a value.
pub data Held : Type 0 where
  absent : Held
  invalid : String → Held
  valid : Volatile → Held

abbrev held_of : String → Option Volatile → Held
held_of text none = Held.invalid text
held_of text (some v) = Held.valid v

abbrev durable_of : Stored → Option Durable
durable_of Stored.absent = none
durable_of (Stored.unreadable reason) = none
durable_of (Stored.readable d) = some d

abbrev volatile_of : Held → Option Volatile
volatile_of Held.absent = none
volatile_of (Held.invalid text) = none
volatile_of (Held.valid v) = some v

abbrev pub start : Option Durable → Option Volatile → List Call → Step
start durable volatile calls = record {
  durable = durable;
  volatile = volatile;
  effects = [];
  reset = false;
  request = none;
  allocated = [];
  abandoned = false;
  calls = calls;
}

abbrev pub is_atomic_input : Event → Bool
is_atomic_input (Event.forwarded input) = is_kind input "atomic"
is_atomic_input _ = false

-- The calls that release what an invalid volatile text still names.
unfoldable pub freed : Context → String → List Call → List Call
unfolding readable_handles release_calls
freed ctx text calls =
    release_calls (readable_handles ctx.serde text ctx.host.owner (volatile_bound ctx.limits)) calls

-- The step on what was read, over the handlers of the machine.
unfoldable pub step_read :
    (ctx : Context) → (Event → Handler) → List Call → Stored → Held → Event → Step
unfolding run_dispatch freed discard fail_closed
step_read ctx dispatch calls (Stored.unreadable reason) Held.absent event =
    if is_atomic_input event
    then run_dispatch ctx (dispatch event) event
        (log (discarded_record ctx reason) (start none none calls))
    else discard ctx reason event (start none none calls)
step_read ctx dispatch calls (Stored.unreadable reason) held event =
    discard ctx reason event (start none (volatile_of held) calls)
step_read ctx dispatch calls stored (Held.invalid text) event =
    fail_closed ctx "volatile_invalid" event true
      (start (durable_of stored) none (freed ctx text calls))
step_read ctx dispatch calls stored held event =
    run_dispatch ctx (dispatch event) event (start (durable_of stored) (volatile_of held) calls)

-- The owner a step runs for: none holds no durable state.
abbrev pub owner_of : Option String → Option String → Option String
owner_of (some owner) durable = some owner
owner_of none none = some ""
owner_of none (some text) = none

abbrev pub held_in : Serde → ℕ → Option String → Option String → Held
held_in serde bound owner none = Held.absent
held_in serde bound owner (some text) = held_of text (parse_volatile serde text owner bound)

-- The context of a step of `owner`.
abbrev pub context_of : Compiler → Limits → Serde → HostFacts → String → Context
context_of compiler limits serde host owner = record {
  compiler = compiler;
  limits = limits;
  host = host;
  owner = owner;
  serde = serde;
}

-- `step::run`, once the host facts, the owner, and the event are read.
unfoldable pub run_event :
    (ctx : Context) → (Event → Handler) → List Call → Option String → Option String → Event → Output
unfolding step_read finish_output parse_volatile
run_event ctx dispatch calls durable volatile event = finish_output ctx.serde (
    step_read ctx dispatch calls (read_durable ctx.serde durable ctx.owner)
      (held_in ctx.serde (volatile_bound ctx.limits) ctx.host.owner volatile) event)

-- `step::run`. `none` is an unreadable or invalid input, on which the engine keeps its state.
unfoldable pub run :
    Compiler
    → Limits
    → Serde
    → (Context → Event → Handler)
    → List Call
    → Option String
    → Option String
    → String
    → String
    → Option Output
unfolding run_event
run compiler limits serde dispatch calls durable volatile event_text host_text = do
  host ← serde.read_host host_text
  valid_host ← then_some (host_is_valid host) host
  owner ← owner_of valid_host.owner durable
  fitting ← then_some (leb (byte_len event_text) (event_bound limits)) event_text
  event ← serde.read_event fitting
  let ctx : Context = context_of compiler limits serde valid_host owner
  some (run_event ctx (dispatch ctx) calls durable volatile event)
