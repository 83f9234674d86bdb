-- ===== src/Transaction/Machine/Step/Plumbing.antt =====
-- crates/policysql-transaction/src/machine/step.rs: the plumbing of a step: the volatile part, the
-- connection, handles, replies, logs, and the awaited effect of a task.
use Prim.Native.String.{String}
use Prim.Native.Nat.{max}
use policysql.Prelude.{
  ℕ, ◌+◌, ◌%◌, ◌^◌, Bool, false, not, Option, none, some, List, [], ◌∷◌, ◌++◌, leb, ◌==◌, byte_len,
  if◌then◌else◌,
}
use policysql.Transaction.Machine.Compiler.{Call}
use policysql.Transaction.Machine.Connection.{Connection, WorkLane}
use policysql.Transaction.Machine.Io.{Effect, Reply, Lane, entropy_u64}
use policysql.Transaction.Machine.Limits.{max_safe_integer}
use policysql.Transaction.Machine.State.{
  Durable, Record, Phase, tx_state_version, has_deadline, durable_phase,
}
use policysql.Transaction.Machine.State.Wire.{is_discarded}
use policysql.Transaction.Machine.Step.Context.{Context, Step, Outcome, Handler}
use policysql.Transaction.Machine.Value.{Value}
use policysql.Transaction.Machine.Volatile.{Volatile, Work, Task, awaited_by}

-- `Step::record`.
abbrev pub live_record : Option Durable → Option Record
live_record none = none
live_record (some (Durable.tombstone name)) = none
live_record (some (Durable.live r)) = some r

abbrev pub phase_of : Option Durable → Option Phase
phase_of none = none
phase_of (some d) = some (durable_phase d)

-- `map_or(Phase::Failed, Durable::phase)`.
abbrev pub or_failed : Option Phase → Phase
or_failed none = Phase.failed
or_failed (some phase) = phase

abbrev pub connection : Step → Connection
connection s = elim s.volatile [ none ↦ Connection.none | some v ↦ v.connection ]

abbrev pub work : Step → Option Work
work s = elim s.volatile [ none ↦ none | some v ↦ v.work ]

abbrev pub rollback_requested : Step → Bool
rollback_requested s = elim s.volatile [ none ↦ false | some v ↦ v.rollback_requested ]

-- `if let Some(volatile) = &mut self.volatile`.
abbrev pub map_volatile : (Volatile → Volatile) → Step → Step
map_volatile f s = elim s.volatile [ none ↦ s | some v ↦ record s { volatile = some (f v) } ]

abbrev pub emit : Effect → Step → Step
emit e s = record s { effects = s.effects ++ (e ∷ []) }

abbrev pub respond : Reply → Step → Step
respond r = emit (Effect.respond Lane.client r)

abbrev pub respond_callback : Reply → Step → Step
respond_callback r = emit (Effect.respond Lane.callback r)

abbrev pub log : Value → Step → Step
log v = emit (Effect.log v)

abbrev pub clear_work : Step → Step
clear_work = map_volatile (λ v. record v { work = none; pending = none })

-- `drain(..)`: the handles are released in order.
unfoldable pub release_calls : List ℕ → List Call → List Call
release_calls [] calls = calls
release_calls (h ∷ hs) calls = release_calls hs (Call.released h ∷ calls)

unfoldable pub release_all : Step → Step
unfolding release_calls
release_all s = elim s.volatile [
  | none ↦ s
  | some v ↦ record s {
    volatile = some (record v { handles = [] });
    calls = release_calls v.handles s.calls;
  }
]

-- `handles.retain(|live| *live != handle)`.
unfoldable pub without_handle : ℕ → List ℕ → List ℕ
without_handle h [] = []
without_handle h (x ∷ xs) = let rest = without_handle h xs in if x == h then rest else x ∷ rest

unfoldable pub release : ℕ → Step → Step
unfolding without_handle
release h s =
    map_volatile (λ v. record v { handles = without_handle h v.handles })
      (record s { calls = Call.released h ∷ s.calls })

module _ (ctx : Context) where
  abbrev pub on_owner : Bool
  on_owner = not (byte_len ctx.owner == 0)

  unfoldable pub seed_id : ℕ
  seed_id = max (entropy_u64 ctx.host % 2 ^ 48) 1

  -- The volatile part that `volatile_mut` inserts.
  unfoldable pub fresh_volatile : Volatile
  unfolding seed_id
  fresh_volatile = record {
    v = tx_state_version;
    owner = if not (byte_len ctx.owner == 0) then some ctx.owner else none;
    next_effect_id = seed_id;
    connection = Connection.none;
    handles = [];
    pending = none;
    work = none;
    rollback_requested = false;
    callback = none;
    capability = none;
    deferred = none;
    revoked_validator = none;
    atomic = none;
  }

  -- `volatile_mut`: `get_or_insert_with`.
  abbrev pub volatile_or_new : Step → Volatile
  volatile_or_new s = elim s.volatile [ none ↦ fresh_volatile | some v ↦ v ]

  abbrev pub update_volatile : (Volatile → Volatile) → Step → Step
  update_volatile f s = record s { volatile = some (f (volatile_or_new s)) }

  abbrev pub set_connection : Connection → Step → Step
  set_connection c = update_volatile (λ v. record v { connection = c })

  -- `Step::wait`: emits the awaited effect of `task`, built from its id, and records it.
  unfoldable pub wait : WorkLane → Option String → Task → (ℕ → Effect) → Handler
  wait lane request_id task effect s =
      let v = volatile_or_new s in
      if leb max_safe_integer v.next_effect_id
      then (Outcome.fault "effect_ids", record s { volatile = some v })
      else (
        Outcome.done,
        record s {
          volatile = some (record v {
            next_effect_id = v.next_effect_id + 1;
            pending = some (record { id = v.next_effect_id; effect = awaited_by task });
            work = some (record { lane = lane; request_id = request_id; task = task });
          });
          effects = s.effects ++ (effect v.next_effect_id ∷ []);
        },
      )

  -- `set_phase` on the durable part.
  unfoldable pub durable_in_phase : Phase → Option Durable → Option Durable
  durable_in_phase phase none =
      if is_discarded phase then some (Durable.tombstone ctx.owner) else none
  durable_in_phase phase (some (Durable.tombstone name)) =
      some (Durable.tombstone (if is_discarded phase then ctx.owner else name))
  durable_in_phase phase (some (Durable.live r)) =
      if is_discarded phase
      then some (Durable.tombstone ctx.owner)
      else if has_deadline phase
      then some (Durable.live (record r { phase = phase }))
      else some (Durable.live (record r { phase = phase; expires_at_ms = none }))

  abbrev pub set_phase : Phase → Step → Step
  set_phase phase s = record s { durable = durable_in_phase phase s.durable }

  abbrev pub own_request_id : String
  own_request_id = ctx.host.request_id
