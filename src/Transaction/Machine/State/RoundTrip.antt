-- ===== src/Transaction/Machine/State/RoundTrip.antt =====
-- Reading back what was written, and writing back what was read.
use Prim.Native.String.{String}
use policysql.Prelude.{◌≡◌, ◌≤◌, true, false, some, arith, byte_len, Option-cases, inl, inr}
use policysql.Transaction.Machine.State.{
  Durable, Record, tx_state_version, max_durable_bytes, owner_name, is_consistent, durable_owner,
}
use policysql.Transaction.Machine.State.Wire.{
  DurableWire, Codec, Parsed, is_discarded, from_wire, to_wire, to_json, parse,
}
use text.Mathlib.TextEquality.{eq_iff}
use text.Mathlib.TextPositions.{eq_refl}

-- A record that the machine may keep: consistent, and live only in a phase other than `discarded`.
abbrev pub IsStorable : Durable → Type 0
IsStorable (Durable.tombstone owner) = owner_name owner ≡ true
IsStorable (Durable.live r) = (is_consistent r ≡ true) × (is_discarded r.phase ≡ false)

owner-IsConsistent : (r : Record) → is_consistent r ≡ true → owner_name r.owner ≡ true
unfolding is_consistent
owner-IsConsistent r h = ground arith

-- A storable record is read back from its wire value as itself.
pub from_wire-to_wire : (d : Durable) → IsStorable d → from_wire (to_wire d) ≡ some d
unfolding from_wire to_wire
from_wire-to_wire (Durable.tombstone owner) h = rw h
from_wire-to_wire (Durable.live r) h = rw (owner-IsConsistent r h.0, h.1, h.0)

-- A wire value of this version that is accepted is the wire value of what it is read as, and that is
-- a storable record.
pub to_wire-from_wire :
    (w : DurableWire) (d : Durable)
    → w.v ≡ tx_state_version
    → from_wire w ≡ some d
    → (to_wire d ≡ w) × IsStorable d
unfolding from_wire to_wire
to_wire-from_wire w d v h = ground arith

from_wire-owner : (w : DurableWire) (d : Durable) → from_wire w ≡ some d → durable_owner d ≡ w.owner
unfolding from_wire
from_wire-owner w d h = ground arith

from_wire-IsStorable : (w : DurableWire) (d : Durable) → from_wire w ≡ some d → IsStorable d
unfolding from_wire
from_wire-IsStorable w d h = ground arith

-- The text of a storable record within the size bound is read back by its owner as that record,
-- when serde reads back the wire value it wrote for it.
pub parse-to_json :
    (codec : Codec) (d : Durable)
    → codec.probe (codec.write (to_wire d)) ≡ some (some (to_wire d).v)
    → codec.read (codec.write (to_wire d)) ≡ some (to_wire d)
    → IsStorable d
    → byte_len (to_json codec d) ≤ max_durable_bytes
    → parse codec (to_json codec d) (durable_owner d) ≡ Parsed.ok d
unfolding parse to_json
parse-to_json codec (Durable.tombstone name) probed found h fits = rw probed (
    rw found (
      unfold to_wire in ground (arith, from_wire-to_wire (Durable.tombstone name) h, eq_refl name)))
parse-to_json codec (Durable.live r) probed found h fits = rw probed (
    rw found
      (unfold to_wire in ground (arith, from_wire-to_wire (Durable.live r) h, eq_refl r.owner)))

-- What is read is storable, belongs to the owner that asked, and was within the size bound.
pub parse-IsStorable :
    (codec : Codec) (text name : String) (d : Durable)
    → parse codec text name ≡ Parsed.ok d
    → IsStorable d × (durable_owner d ≡ name) × (byte_len text ≤ max_durable_bytes)
unfolding parse
parse-IsStorable codec text name d h = elim (Option-cases (codec.read text)) [
  | inl missing ↦ ground arith
  | inr (w, found) ↦
      ground (arith, from_wire-owner w d, from_wire-IsStorable w d, eq_iff w.owner name)
]
