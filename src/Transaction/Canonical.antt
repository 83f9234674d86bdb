-- ===== src/Transaction/Canonical.antt =====
-- crates/policysql-transaction/src/canonical.rs: JSON values, their reading from serde_json's events,
-- and their canonical text, as code points. The text of a double that is not an integer is serde's.
pub mod Writer
pub mod Order
pub mod Lengths
pub mod Built
pub mod Stable
use Prim.Native.String.{String}
use policysql.Prelude.{
  ℕ, zero, suc, ◌+◌, ◌-◌, ◌*◌, ◌/◌, ◌%◌, ◌^◌, Bool, true, false, not, ◌&&◌, ◌||◌, Option, none,
  some, List, [], ◌∷◌, leb, ltb, ◌==◌, str_eq, codes, if◌then◌else◌, ◌>>=◌,
}
use policysql.Transaction.Machine.State.{f64_is_finite}
use policysql.Transaction.Machine.Value.{Number}

abbrev pub max_depth : ℕ
max_depth = 64

-- `Json`. Also what serde_json's events say of a text: its members in order, duplicates included.
mutual
  pub data Json : Type 0 where
    null : Json
    bool : Bool → Json
    number : Number → Json
    string : String → Json
    array : Items → Json
    object : Fields → Json

  pub data Items : Type 0 where
    no_items : Items
    item : Json → Items → Items

  pub data Fields : Type 0 where
    no_fields : Fields
    field : String → Json → Fields → Fields

-- `Json::get` on members, and on a value; `Json::as_text`.
unfoldable pub find_field : Fields → String → Option Json
find_field Fields.no_fields key = none
find_field (Fields.field k v rest) key = if str_eq k key then some v else find_field rest key

unfoldable pub get : Json → String → Option Json
unfolding find_field
get (Json.object fs) key = find_field fs key
get _ key = none

abbrev pub as_text : Json → Option String
as_text (Json.string s) = some s
as_text _ = none

-- `str` order: UTF-8 bytes, which order as code points.
unfoldable pub codes_le : List ℕ → List ℕ → Bool
codes_le [] t = true
codes_le (a ∷ s) [] = false
codes_le (a ∷ s) (b ∷ t) = let rest = codes_le s t in ltb a b || (a == b && rest)

unfoldable pub key_le : String → String → Bool
unfolding codes_le
key_le k l = codes_le (codes k) (codes l)

unfoldable pub insert_field : String → Json → Fields → Fields
unfolding key_le
insert_field k v Fields.no_fields = Fields.field k v Fields.no_fields
insert_field k v (Fields.field l w rest) =
    let after = insert_field k v rest in
    if key_le k l then Fields.field k v (Fields.field l w rest) else Fields.field l w after

-- `members.sort_unstable_by(..)`; equal keys are refused.
unfoldable pub sort_fields : Fields → Fields
unfolding insert_field
sort_fields Fields.no_fields = Fields.no_fields
sort_fields (Fields.field k v rest) = insert_field k v (sort_fields rest)

-- `members.windows(2).any(|pair| pair[0].0 == pair[1].0)`.
unfoldable pub has_repeat : Fields → Bool
has_repeat Fields.no_fields = false
has_repeat (Fields.field k v Fields.no_fields) = false
has_repeat (Fields.field k v (Fields.field l w rest)) =
    let more = has_repeat (Fields.field l w rest) in str_eq k l || more

abbrev number_of : Number → Option Json
number_of (Number.float bits) =
    if f64_is_finite bits then some (Json.number (Number.float bits)) else none
number_of n = some (Json.number n)

abbrev pub object_of : Fields → Option Json
object_of fs = if has_repeat fs then none else some (Json.object fs)

-- `ValueVisitor`, with the levels left of `max_depth`: an array or an object at no level left is an
-- error, as is a double that is not finite and a repeated key.
unfoldable mutual
  unfolding sort_fields has_repeat

  pub build : ℕ → Json → Option Json
  build left Json.null = some Json.null
  build left (Json.bool b) = some (Json.bool b)
  build left (Json.number n) = number_of n
  build left (Json.string s) = some (Json.string s)
  build zero (Json.array items) = none
  build (suc left) (Json.array items) = build_items left items >>= λ built. some (Json.array built)
  build zero (Json.object members) = none
  build (suc left) (Json.object members) =
      build_fields left members >>= λ built. object_of (sort_fields built)

  pub build_items : ℕ → Items → Option Items
  build_items left Items.no_items = some Items.no_items
  build_items left (Items.item v rest) =
      build left v >>= λ w. build_items left rest >>= λ more. some (Items.item w more)

  pub build_fields : ℕ → Fields → Option Fields
  build_fields left Fields.no_fields = some Fields.no_fields
  build_fields left (Fields.field k v rest) =
      build left v >>= λ w. build_fields left rest >>= λ more. some (Fields.field k w more)

-- `parse_with_max_depth` and `parse`, over serde_json's events of a text (none: not strict JSON, or
-- trailing content).
unfoldable pub parse_with_max_depth : (String → Option Json) → String → ℕ → Option Json
unfolding build
parse_with_max_depth events text depth = events text >>= build depth

unfoldable pub parse : (String → Option Json) → String → Option Json
unfolding parse_with_max_depth
parse events text = parse_with_max_depth events text max_depth
