-- ===== src/Transaction/Machine/Connection.antt =====
-- crates/policysql-transaction/src/machine/state.rs: the database connection as the owner sees it,
-- the awaited effects, and the lanes.
use Prim.Native.Nat.{ℕ}
use mathlib.Core.Bool.{Bool, true, false}

pub data Connection : Type 0 where
  none opening opened closing : Connection

pub data Awaited : Type 0 where
  opening check_binding execute commit rollback set_timer persist call_validator forward : Awaited

pub data WorkLane : Type 0 where
  client background : WorkLane

pub record Pending : Type 0 where
  pub id : ℕ
  pub effect : Awaited

abbrev pub is_none_connection : Connection → Bool
is_none_connection Connection.none = true
is_none_connection _ = false

-- `connection == Connection::Open`.
abbrev pub is_open : Connection → Bool
is_open Connection.opened = true
is_open _ = false

abbrev pub is_client : WorkLane → Bool
is_client WorkLane.client = true
is_client WorkLane.background = false

-- `==` on `Awaited`.
abbrev pub code_of : Awaited → ℕ
code_of Awaited.opening = 0
code_of Awaited.check_binding = 1
code_of Awaited.execute = 2
code_of Awaited.commit = 3
code_of Awaited.rollback = 4
code_of Awaited.set_timer = 5
code_of Awaited.persist = 6
code_of Awaited.call_validator = 7
code_of Awaited.forward = 8
