-- ===== src/Transaction/Machine/Step/Context.antt =====
-- crates/policysql-transaction/src/machine/step.rs: what a step reads (`Step`'s borrowed fields and
-- what serde and the sibling modules give it), the state it changes (`Step`'s owned fields), and
-- the handlers' way to return: `Result<T>` over that state.
use Prim.Native.String.{String}
use policysql.Prelude.{ℕ, Bool, true, false, Option, none, some, List}
use policysql.Transaction.Machine.Compiler.{Compiler, Call}
use policysql.Transaction.Machine.Io.{HostFacts, Event, Effect}
use policysql.Transaction.Machine.Limits.{Limits}
use policysql.Transaction.Machine.State.{Durable}
use policysql.Transaction.Machine.State.Wire.{Codec}
use policysql.Transaction.Machine.Volatile.{Volatile}
use policysql.Transaction.Machine.Value.{Value}

-- What serde_json gives besides the durable codec: readers and writers of the texts that cross the
-- interface.
pub record Serde : Type 0 where
  pub codec : Codec
  pub read_volatile : String → Option Volatile
  pub write_volatile : Volatile → String
  pub read_host : String → Option HostFacts
  pub read_event : String → Option Event
  pub read_value : String → Option Value

pub record Context : Type 0 where
  pub compiler : Compiler
  pub limits : Limits
  pub host : HostFacts
  pub owner : String
  pub serde : Serde

-- The fields of `Step` that a step changes, and the calls made to the compiler, the newest first.
pub record Step : Type 0 where
  pub durable : Option Durable
  pub volatile : Option Volatile
  pub effects : List Effect
  pub reset : Bool
  pub request : Option String
  pub allocated : List ℕ
  pub abandoned : Bool
  pub calls : List Call

-- A fault leaves behind what was changed before it.
pub data Outcome : Type 0 where
  done : Outcome
  fault : String → Outcome

-- `Result<()>` of a handler.
abbrev pub Handler : Type 0
Handler = Step → Outcome × Step

abbrev pub pure : Handler
pure s = (Outcome.done, s)

abbrev pub fail : String → Handler
fail reason s = (Outcome.fault reason, s)

-- An infallible statement.
abbrev pub act : (Step → Step) → Handler
act f s = (Outcome.done, f s)

abbrev pub continue : Outcome → Handler → Handler
continue Outcome.done next s = next s
continue (Outcome.fault reason) next s = (Outcome.fault reason, s)

infixl 5 ◌>>◌
abbrev pub ◌>>◌ : Handler → Handler → Handler
◌>>◌ m next s = let (r, s') = m s in continue r next s'

-- A test on the state as it is then.
abbrev pub branch : (Step → Bool) → Handler → Handler → Handler
branch test yes_case no_case s = elim (test s) [ true ↦ yes_case s | false ↦ no_case s ]

-- A value of the state, with its absence a fault (`ok_or`).
abbrev pub demand {ℓ} : {A : Type ℓ} → Option A → String → (A → Handler) → Handler
demand none reason next s = (Outcome.fault reason, s)
demand (some a) reason next s = next a s

abbrev pub is_fault : Outcome → Bool
is_fault Outcome.done = false
is_fault (Outcome.fault reason) = true
