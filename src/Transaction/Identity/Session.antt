-- ===== src/Transaction/Identity/Session.antt =====
-- crates/policysql-transaction/src/identity.rs: the parts that identities are made of: keys, sessions, and
-- bindings, each checked as it is read.
use Prim.Native.String.{String}
use policysql.Prelude.{
  Bool, true, false, ◌&&◌, ◌||◌, Option, none, some, List, [], ◌∷◌, ◌++◌, leb, ◌==◌, str_eq, codes,
  byte_len, strip_codes, length, is_alphanumeric, is_hex, all, any, is_some, if◌then◌else◌,
}
use policysql.Transaction.Canonical.{Json, Items, Fields, get, find_field, as_text}
use policysql.Transaction.Machine.Value.{Number}

pub data IdentityError : Type 0 where
  key_invalid internal : IdentityError

-- `Result<T, IdentityError>`, and `?`.
pub data Identified {ℓ} (A : Type ℓ) : Type ℓ where
  ok : A → Identified A
  err : IdentityError → Identified A

infixl 5 ◌>>=◌
abbrev pub ◌>>=◌ {ℓ κ} :
    {A : Type ℓ} {B : Type κ} → Identified A → (A → Identified B) → Identified B
Identified.ok a >>= f = f a
Identified.err e >>= f = Identified.err e

abbrev pub ok_or {ℓ} : {A : Type ℓ} → Option A → IdentityError → Identified A
ok_or (some a) e = Identified.ok a
ok_or none e = Identified.err e

-- `return Err(..)` unless the test holds.
abbrev pub require {ℓ} : {A : Type ℓ} → Bool → IdentityError → Identified A → Identified A
require true e next = next
require false e next = Identified.err e

unfoldable pub valid_idempotency_key : String → Bool
valid_idempotency_key key =
    leb 16 (byte_len key)
    && leb (byte_len key) 128
    && all
        (λ b.
          is_alphanumeric b
          || b == b'.'
          || b == b'_'
          || b == b':'
          || b == b'-'
          || b == b'+'
          || b == b'/'
          || b == b'=')
        (codes key)

unfoldable pub valid_transaction_id : String → Bool
valid_transaction_id value = elim (strip_codes (codes "tx_") (codes value)) [
  | none ↦ false
  | some hex ↦ length hex == 32 && all is_hex hex
]

abbrev pub text_value : Option Json → Identified String
text_value none = Identified.err IdentityError.internal
text_value (some v) = ok_or (as_text v) IdentityError.internal

abbrev pub is_string : Option Json → Bool
is_string (some (Json.string s)) = true
is_string _ = false

unfoldable pub field_names : Fields → List String
field_names Fields.no_fields = []
field_names (Fields.field k v rest) = k ∷ field_names rest

-- `exact_keys`: an object whose keys are all of `required`, plus any of `optional`.
unfoldable pub has_exact_keys : Json → List String → List String → Bool
unfolding field_names
has_exact_keys (Json.object members) required optional =
    all (λ name. any (λ key. str_eq key name) (required ++ optional)) (field_names members)
    && all (λ key. is_some (find_field members key)) required
has_exact_keys _ required optional = false

abbrev pub exact_keys {ℓ} :
    {A : Type ℓ} → Json → List String → List String → Identified A → Identified A
exact_keys value required optional next =
    require (has_exact_keys value required optional) IdentityError.internal next

unfoldable pub all_strings : Items → Bool
all_strings Items.no_items = true
all_strings (Items.item v rest) = is_string (some v) && all_strings rest

unfoldable pub all_string_fields : Fields → Bool
all_string_fields Fields.no_fields = true
all_string_fields (Fields.field k v rest) = is_string (some v) && all_string_fields rest

pub record Auth : Type 0 where
  pub principal : Json
  pub subject : Json
  pub role : Json
  pub session : Json

abbrev pub string_list : Option Json → Bool
unfolding all_strings
string_list none = true
string_list (some (Json.array items)) = all_strings items
string_list (some _) = false

abbrev pub entries : Json → Bool
unfolding all_string_fields
entries (Json.object members) = all_string_fields members
entries _ = false

-- `Auth::read`.
unfoldable pub read_auth : Option Json → Identified Auth
unfolding get has_exact_keys all_strings all_string_fields
read_auth none = Identified.err IdentityError.internal
read_auth (some value) =
    exact_keys value ("principal" ∷ "subject" ∷ "role" ∷ "session" ∷ []) ("roles" ∷ "access" ∷ []) (
      require (all (λ list. string_list (get value list)) ("roles" ∷ "access" ∷ []))
        IdentityError.internal
        (require (all (λ name. is_string (get value name)) ("principal" ∷ "subject" ∷ "role" ∷ []))
          IdentityError.internal
          (ok_or (get value "session") IdentityError.internal >>= λ session.
            require (entries session) IdentityError.internal (
              ok_or (get value "principal") IdentityError.internal >>= λ principal.
              ok_or (get value "subject") IdentityError.internal >>= λ subject.
              ok_or (get value "role") IdentityError.internal >>= λ role. Identified.ok (record {
                principal = principal;
                subject = subject;
                role = role;
                session = session;
              })))))

-- `version.as_f64() == Some(1.0)`, the bits of 1.0 among them.
abbrev pub is_version_1 : Option Json → Bool
is_version_1 (some (Json.number (Number.unsigned n))) = n == 1
is_version_1 (some (Json.number (Number.float bits))) = bits == 4607182418800017408
is_version_1 _ = false

abbrev pub binding_keys : List String
binding_keys = "version" ∷ "scope" ∷ "databaseId" ∷ "generation" ∷ "snapshot" ∷ []

-- `binding`.
unfoldable pub binding : Option Json → Identified Json
unfolding get has_exact_keys
binding none = Identified.err IdentityError.internal
binding (some value) = exact_keys value binding_keys [] (
    require (is_version_1 (get value "version")) IdentityError.internal (
      require
        (all (λ part. is_string (get value part))
          ("scope" ∷ "databaseId" ∷ "generation" ∷ "snapshot" ∷ []))
        IdentityError.internal (Identified.ok value)))

-- `without_snapshot`.
unfoldable pub drop_snapshot : Fields → Fields
drop_snapshot Fields.no_fields = Fields.no_fields
drop_snapshot (Fields.field k v rest) =
    let more = drop_snapshot rest in if str_eq k "snapshot" then more else Fields.field k v more

unfoldable pub without_snapshot : Json → Identified Json
unfolding drop_snapshot
without_snapshot (Json.object parts) = Identified.ok (Json.object (drop_snapshot parts))
without_snapshot _ = Identified.err IdentityError.internal
