-- ===== src/Transaction/Machine/Value.antt =====
-- The JSON values (`serde_json::Value`) that events and log records hold, with the accessors the
-- program uses. An object is its members in key order.
use Prim.Native.String.{String}
use policysql.Prelude.{
  ℕ, Bool, true, false, ◌&&◌, ◌||◌, Option, none, some, List, [], ◌∷◌, str_eq, all, any, is_some,
  if◌then◌else◌,
}

-- A JSON number: an unsigned word, a negative integer -(n + 1), or the bits of an `f64`.
pub data Number : Type 0 where
  unsigned negative float : ℕ → Number

mutual
  pub data Value : Type 0 where
    null : Value
    bool : Bool → Value
    number : Number → Value
    string : String → Value
    array : Values → Value
    object : Members → Value

  pub data Values : Type 0 where
    nil : Values
    cons : Value → Values → Values

  pub data Members : Type 0 where
    end : Members
    member : String → Value → Members → Members

-- `as_str`, `as_u64`, `as_object`, `is_object`.
abbrev pub as_str : Value → Option String
as_str (Value.string s) = some s
as_str _ = none

abbrev pub as_u64 : Value → Option ℕ
as_u64 (Value.number (Number.unsigned n)) = some n
as_u64 _ = none

abbrev pub as_object : Value → Option Members
as_object (Value.object m) = some m
as_object _ = none

abbrev pub is_object : Value → Bool
is_object v = is_some (as_object v)

abbrev pub is_true : Value → Bool
is_true (Value.bool true) = true
is_true _ = false

-- `Map::get`, and `Value::get` with a key.
unfoldable pub get_member : Members → String → Option Value
get_member Members.end key = none
get_member (Members.member k v rest) key = if str_eq k key then some v else get_member rest key

unfoldable pub get : Value → String → Option Value
unfolding get_member
get (Value.object m) key = get_member m key
get _ key = none

abbrev pub get_str : Members → String → Option String
get_str m key = elim (get_member m key) [ none ↦ none | some v ↦ as_str v ]

unfoldable pub keys : Members → List String
keys Members.end = []
keys (Members.member k v rest) = k ∷ keys rest

abbrev pub contains_text : List String → String → Bool
contains_text texts key = any (λ t. str_eq t key) texts

-- `exact_object` of step.rs: an object with exactly the `required` keys plus any of `optional`.
unfoldable pub exact_object : Value → List String → List String → Option Members
unfolding get_member keys
exact_object value required optional = elim (as_object value) [
  | none ↦ none
  | some m ↦
      if all (λ key. contains_text required key || contains_text optional key) (keys m)
        && all (λ key. is_some (get_member m key)) required
      then some m
      else none
]

-- A member list for the log records that the machine writes (`json!`).
abbrev pub text_or_null : Option String → Value
text_or_null none = Value.null
text_or_null (some s) = Value.string s
