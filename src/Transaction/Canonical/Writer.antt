-- ===== src/Transaction/Canonical/Writer.antt =====
-- crates/policysql-transaction/src/canonical.rs: the writer of the canonical text, and the length of
-- a value so printed.
use Prim.Native.String.{String}
use policysql.Prelude.{
  ℕ, zero, suc, ◌+◌, ◌-◌, ◌/◌, ◌%◌, ◌^◌, Bool, true, false, not, ◌&&◌, Option, none, some, List, [],
  ◌∷◌, ◌++◌, leb, ltb, ◌==◌, codes, if◌then◌else◌,
}
use policysql.Transaction.Canonical.{Json, Items, Fields, key_le}
use policysql.Transaction.Machine.Value.{Number}

-- The decimal digits of a word, at most 20 of them.
unfoldable pub digits_in : ℕ → ℕ → List ℕ → List ℕ
digits_in zero n after = after
digits_in (suc left) n after =
    let more = digits_in left (n / 10) ((b'0' + n % 10) ∷ after) in
    if ltb n 10 then (b'0' + n) ∷ after else more

unfoldable pub digits : ℕ → List ℕ
unfolding digits_in
digits n = digits_in 20 n []

-- A finite double as an integer magnitude, when it is one of at most 2^53 - 1: its mantissa, with the
-- hidden bit of a normal number, times a power of 2.
abbrev exponent : ℕ → ℕ
exponent bits = bits / 2 ^ 52 % 2048

abbrev mantissa : ℕ → ℕ
mantissa bits = if exponent bits == 0 then bits % 2 ^ 52 else bits % 2 ^ 52 + 2 ^ 52

-- `value.fract() == 0.0 && value.abs() <= MAX_SAFE_INTEGER`: below 2^0 only zero is an integer, and
-- from 2^53 on, the first
-- that the exponent 1076 stands for, every double is over the bound.
unfoldable pub safe_integer : ℕ → Option ℕ
safe_integer bits =
    if mantissa bits == 0
    then some 0
    else if ltb (exponent bits) 1023
    then none
    else if leb 1076 (exponent bits)
    then none
    else if mantissa bits % 2 ^ (1075 - exponent bits) == 0
    then some (mantissa bits / 2 ^ (1075 - exponent bits))
    else none

abbrev is_negative : ℕ → Bool
is_negative bits = bits / 2 ^ 63 == 1

abbrev signed : Bool → ℕ → List ℕ
signed negative n = if negative && not (n == 0) then b'-' ∷ digits n else digits n

-- `write_number`, over the text that serde_json prints of any other double.
unfoldable pub write_number : (ℕ → List ℕ) → Number → List ℕ
unfolding digits safe_integer
write_number float_text (Number.unsigned n) = digits n
write_number float_text (Number.negative n) = b'-' ∷ digits (n + 1)
write_number float_text (Number.float bits) = elim (safe_integer bits) [
  | some n ↦ signed (is_negative bits) n
  | none ↦ float_text bits
]

abbrev hex_digit : ℕ → ℕ
hex_digit n = if ltb n 10 then b'0' + n else b'a' + (n - 10)

-- `JSON.stringify`'s escapes.
unfoldable pub escape : ℕ → List ℕ
escape c =
    if c == b'"'
    then b'\\' ∷ b'"' ∷ []
    else if c == b'\\'
    then b'\\' ∷ b'\\' ∷ []
    else if c == 0x08
    then b'\\' ∷ b'b' ∷ []
    else if c == 0x09
    then b'\\' ∷ b't' ∷ []
    else if c == 0x0a
    then b'\\' ∷ b'n' ∷ []
    else if c == 0x0c
    then b'\\' ∷ b'f' ∷ []
    else if c == 0x0d
    then b'\\' ∷ b'r' ∷ []
    else if ltb c 0x20
    then b'\\' ∷ b'u' ∷ b'0' ∷ b'0' ∷ hex_digit (c / 16) ∷ hex_digit (c % 16) ∷ []
    else c ∷ []

unfoldable pub escape_all : List ℕ → List ℕ
unfolding escape
escape_all [] = []
escape_all (c ∷ s) = escape c ++ escape_all s

unfoldable pub write_string : String → List ℕ
unfolding escape_all
write_string s = b'"' ∷ (escape_all (codes s) ++ (b'"' ∷ []))

-- A member as printed, under its key.
abbrev pub Printed : Type 0
Printed = String × List ℕ

unfoldable pub insert : Printed → List Printed → List Printed
unfolding key_le
insert p [] = p ∷ []
insert p (q ∷ rest) =
    let after = insert p rest in if key_le p.0 q.0 then p ∷ q ∷ rest else q ∷ after

-- `sorted.sort_by(..)`, which is stable, on the members as printed.
unfoldable pub sort : List Printed → List Printed
unfolding insert
sort [] = []
sort (p ∷ rest) = insert p (sort rest)

-- The parts with a comma between them.
unfoldable pub commas : List (List ℕ) → List ℕ
commas [] = []
commas (t ∷ []) = t
commas (t ∷ u ∷ rest) = t ++ (b',' ∷ commas (u ∷ rest))

unfoldable pub texts : List Printed → List (List ℕ)
texts [] = []
texts (p ∷ rest) = p.1 ∷ texts rest

abbrev word : String → List ℕ
word s = codes s

-- `write_value`.
unfoldable mutual
  unfolding write_number write_string sort commas texts

  pub write_value : (ℕ → List ℕ) → Json → List ℕ
  write_value float_text Json.null = word "null"
  write_value float_text (Json.bool true) = word "true"
  write_value float_text (Json.bool false) = word "false"
  write_value float_text (Json.number n) = write_number float_text n
  write_value float_text (Json.string s) = write_string s
  write_value float_text (Json.array items) =
      b'[' ∷ (commas (print_items float_text items) ++ (b']' ∷ []))
  write_value float_text (Json.object fields) =
      b'{' ∷ (commas (texts (sort (print_fields float_text fields))) ++ (b'}' ∷ []))

  pub print_items : (ℕ → List ℕ) → Items → List (List ℕ)
  print_items float_text Items.no_items = []
  print_items float_text (Items.item v rest) =
      write_value float_text v ∷ print_items float_text rest

  pub print_fields : (ℕ → List ℕ) → Fields → List Printed
  print_fields float_text Fields.no_fields = []
  print_fields float_text (Fields.field k v rest) =
      (k, write_string k ++ (b':' ∷ write_value float_text v)) ∷ print_fields float_text rest

-- The UTF-8 bytes of code points.
abbrev pub width : ℕ → ℕ
width c = if ltb c 0x80 then 1 else if ltb c 0x800 then 2 else if ltb c 0x10000 then 3 else 4

unfoldable pub bytes : List ℕ → ℕ
bytes [] = 0
bytes (c ∷ s) = width c + bytes s

unfoldable pub js_string_len : String → ℕ
unfolding write_string bytes
js_string_len s = bytes (write_string s)

unfoldable pub item_count : Items → ℕ
item_count Items.no_items = 0
item_count (Items.item v rest) = suc (item_count rest)

unfoldable pub field_count : Fields → ℕ
field_count Fields.no_fields = 0
field_count (Fields.field k v rest) = suc (field_count rest)

-- `js_value_len`; `saturating_sub` is `-`.
unfoldable mutual
  unfolding write_number js_string_len bytes item_count field_count

  pub js_value_len : (ℕ → List ℕ) → Json → ℕ
  js_value_len float_text Json.null = 4
  js_value_len float_text (Json.bool true) = 4
  js_value_len float_text (Json.bool false) = 5
  js_value_len float_text (Json.number n) = bytes (write_number float_text n)
  js_value_len float_text (Json.string s) = js_string_len s
  js_value_len float_text (Json.array items) =
      2 + (item_count items - 1) + items_len float_text items
  js_value_len float_text (Json.object fields) =
      2 + (field_count fields - 1) + fields_len float_text fields

  pub items_len : (ℕ → List ℕ) → Items → ℕ
  items_len float_text Items.no_items = 0
  items_len float_text (Items.item v rest) = js_value_len float_text v + items_len float_text rest

  pub fields_len : (ℕ → List ℕ) → Fields → ℕ
  fields_len float_text Fields.no_fields = 0
  fields_len float_text (Fields.field k v rest) =
      js_string_len k + 1 + js_value_len float_text v + fields_len float_text rest
