-- ===== src/Transaction/Machine/Step/Tokens.antt =====
-- crates/policysql-transaction/src/machine/step/checks.rs: a validator's decision, the capability
-- tokens, and the session of a callback.
use Prim.Native.String.{String}
use Prim.Native.Nat.{bit_or, bit_xor}
use policysql.Prelude.{
  ℕ, ◌+◌, ◌*◌, ◌/◌, ◌%◌, ◌-◌, Bool, true, false, ◌&&◌, ◌||◌, Option, none, some, List, [], ◌∷◌, ltb,
  ◌==◌, str_eq, length, all, any, is_alphanumeric, if◌then◌else◌, ◌>>=◌,
}
use policysql.Transaction.Canonical.{Json, Items, Fields, get}
use policysql.Transaction.Machine.Value.{Value, is_true, get_member, keys}

-- `allowed_decision`.
abbrev is_text : Option Value → Bool
is_text (some (Value.string s)) = true
is_text _ = false

abbrev exact_error : Option Value → Bool
exact_error none = true
exact_error (some (Value.object m)) = length (keys m) == 1 && is_text (get_member m "code")
exact_error (some _) = false

abbrev is_version_1 : Option Value → Bool
is_version_1 (some (Value.string s)) = str_eq s "1"
is_version_1 _ = false

abbrev says_true : Option Value → Bool
says_true none = false
says_true (some v) = is_true v

unfoldable pub allowed_decision : Value → Bool
unfolding get_member keys
allowed_decision (Value.object m) =
    all (λ key. any (λ k. str_eq k key) ("version" ∷ "allowed" ∷ "error" ∷ [])) (keys m)
    && is_version_1 (get_member m "version")
    && exact_error (get_member m "error")
    && says_true (get_member m "allowed")
allowed_decision _ = false

-- `ALPHABET`.
abbrev pub alphabet : ℕ → ℕ
alphabet i =
    if ltb i 26
    then b'A' + i
    else if ltb i 52
    then b'a' + (i - 26)
    else if ltb i 62
    then b'0' + (i - 52)
    else if i == 62
    then b'-'
    else b'_'

abbrev pub sextet : ℕ → ℕ → ℕ
sextet triple place = alphabet (triple / place % 64)

-- `base64url`: each chunk of three bytes is four sextets of its 24 bits, a last chunk of two or one
-- three or two.
unfoldable pub base64url : List ℕ → List ℕ
base64url [] = []
base64url (a ∷ []) = let t = a * 65536 in sextet t 262144 ∷ sextet t 4096 ∷ []
base64url (a ∷ b ∷ []) =
    let t = a * 65536 + b * 256 in sextet t 262144 ∷ sextet t 4096 ∷ sextet t 64 ∷ []
base64url (a ∷ b ∷ c ∷ bytes) =
    let t = a * 65536 + b * 256 + c in
    sextet t 262144 ∷ sextet t 4096 ∷ sextet t 64 ∷ sextet t 1 ∷ base64url bytes

-- `token_syntax`, on code points: what it passes is ASCII.
abbrev pub token_char : ℕ → Bool
token_char b = is_alphanumeric b || b == b'-' || b == b'_'

unfoldable pub token_syntax : List ℕ → Bool
token_syntax token = length token == 43 && all token_char token

-- `same_hash`: every byte is compared, whatever the first difference.
unfoldable pub difference : ℕ → List ℕ → List ℕ → ℕ
difference so_far [] right = so_far
difference so_far (a ∷ left) [] = so_far
difference so_far (a ∷ left) (b ∷ right) = difference (bit_or so_far (bit_xor a b)) left right

unfoldable pub same_hash : List ℕ → List ℕ → Bool
unfolding difference
same_hash left right = length left == length right && difference 0 left right == 0

-- `callback_session`.
abbrev is_role : String → Json → Bool
is_role role (Json.string s) = str_eq s role
is_role role _ = false

unfoldable pub contains_role : String → Items → Bool
contains_role role Items.no_items = false
contains_role role (Items.item v rest) = is_role role v || contains_role role rest

unfoldable pub push : Json → Items → Items
push v Items.no_items = Items.item v Items.no_items
push v (Items.item w rest) = Items.item w (push v rest)

unfoldable pub session_role : String → Bool
session_role key = str_eq key "role" || str_eq key "roles" || str_eq key "access"

unfoldable pub without_roles : Fields → Fields
unfolding session_role
without_roles Fields.no_fields = Fields.no_fields
without_roles (Fields.field k v rest) =
    let more = without_roles rest in if session_role k then more else Fields.field k v more

unfoldable pub append_fields : Fields → Fields → Fields
append_fields Fields.no_fields gs = gs
append_fields (Fields.field k v rest) gs = Fields.field k v (append_fields rest gs)

abbrev pub roles_of : Option Json → Option Items
roles_of none = some Items.no_items
roles_of (some (Json.array roles)) = some roles
roles_of (some _) = none

unfoldable pub with_role : String → Items → Items
unfolding contains_role push
with_role role roles = if contains_role role roles then roles else push (Json.string role) roles

unfoldable pub role_fields : String → Items → Fields
unfolding with_role
role_fields role roles = Fields.field "role" (Json.string role) (
    Fields.field "roles" (Json.array (with_role role roles)) (
      Fields.field "access" (Json.array (Items.item (Json.string "execute") Items.no_items))
        Fields.no_fields))

unfoldable pub callback_session : Json → String → Option Json
unfolding get without_roles append_fields role_fields
callback_session (Json.object members) role =
    roles_of (get (Json.object members) "roles") >>= λ roles.
    some (Json.object (append_fields (without_roles members) (role_fields role roles)))
callback_session _ role = none
