-- ===== src/Prelude/Text.antt =====
-- Texts: the code points of a `String`, its length in bytes, and the tests the program makes.
use Prim.Native.Nat.{ℕ}
use Prim.Native.Char.{code}
use Prim.Native.String.{String, len}
use mathlib.Core.Bool.{Bool, true, false, ◌&&◌, ◌||◌}
use mathlib.Core.List.{List, [], ◌∷◌}
use mathlib.Core.Option.{Option, none, some}
use policysql.Prelude.Tests.{leb, ◌==◌, if◌then◌else◌}

-- The code points of a text. A test that only ASCII bytes pass says the same of the UTF-8 bytes.
abbrev pub codes : String → List ℕ
codes String.[] = []
codes (String.◌∷◌ c s) = code c ∷ codes s

-- `str::len`: UTF-8 bytes.
abbrev pub byte_len : String → ℕ
byte_len s = len s

-- `str::strip_prefix` on code points.
abbrev pub strip_codes : List ℕ → List ℕ → Option (List ℕ)
strip_codes [] s = some s
strip_codes (p ∷ ps) [] = none
strip_codes (p ∷ ps) (c ∷ s) = let rest = strip_codes ps s in if p == c then rest else none

-- `u8::is_ascii_digit`, `is_ascii_uppercase`, `is_ascii_lowercase`, `is_ascii_alphanumeric`.
abbrev pub is_digit : ℕ → Bool
is_digit c = leb b'0' c && leb c b'9'

abbrev pub is_upper : ℕ → Bool
is_upper c = leb b'A' c && leb c b'Z'

abbrev pub is_lower : ℕ → Bool
is_lower c = leb b'a' c && leb c b'z'

abbrev pub is_alphanumeric : ℕ → Bool
is_alphanumeric c = is_digit c || is_upper c || is_lower c

-- A lowercase hex digit.
abbrev pub is_hex : ℕ → Bool
is_hex c = is_digit c || leb b'a' c && leb c b'f'

-- `char::is_control`: the Unicode category Cc.
abbrev pub is_control : ℕ → Bool
is_control c = leb c 31 || leb 127 c && leb c 159

-- `==` on texts, as code points.
abbrev pub same_codes : List ℕ → List ℕ → Bool
same_codes [] [] = true
same_codes [] (d ∷ ds) = false
same_codes (c ∷ cs) [] = false
same_codes (c ∷ cs) (d ∷ ds) = c == d && same_codes cs ds
