-- ===== src/Transaction/Identity.antt =====
-- crates/policysql-transaction/src/identity.rs: request identities, fingerprints, and digests. SHA-256,
-- from the text hashed (code points for its UTF-8 bytes) to lowercase hexadecimal, is a parameter, as
-- are serde_json's events of a text and its printing of a double that is not an integer.

pub mod Snapshot
pub mod Agreement
pub mod Reading
pub mod Session
use Prim.Native.String.{String}
use policysql.Prelude.{
  ℕ, zero, suc, ◌+◌, Bool, true, false, ◌&&◌, ◌||◌, not, Option, none, some, List, [], ◌∷◌, ◌++◌,
  leb, ltb, ◌==◌, str_eq, codes, byte_len, strip_codes, length, is_alphanumeric, is_digit, is_hex,
  all, any, is_some, if◌then◌else◌,
}
use policysql.Transaction.Canonical.{
  Json, Items, Fields, get, find_field, as_text, max_depth, parse, parse_with_max_depth,
}
use policysql.Transaction.Canonical.Writer.{write_value}
use policysql.Transaction.Machine.Value.{Number}
use policysql.Transaction.Identity.Session.{
  IdentityError, Identified, ◌>>=◌, ok_or, require, valid_idempotency_key, valid_transaction_id,
  text_value, is_string, field_names, has_exact_keys, exact_keys, all_strings, all_string_fields,
  Auth, string_list, entries, read_auth, is_version_1, binding_keys, binding, drop_snapshot,
  without_snapshot,
}

abbrev command_envelope_depth : ℕ
command_envelope_depth = 1

abbrev fields_of : List (String × Json) → Fields
fields_of [] = Fields.no_fields
fields_of ((k, v) ∷ rest) = Fields.field k v (fields_of rest)

-- `Json::Object(vec![member(..), ..])`.
abbrev pub object_with : List (String × Json) → Json
object_with members = Json.object (fields_of members)

-- What `identity_json` prints.
pub data Output : Type 0 where
  no_idempotency : Output
  idempotency : List ℕ → List ℕ → Output
  fingerprint : List ℕ → Output
  digest : List ℕ → Output

-- `KEY_INVALID` and `INTERNAL`, and the texts of `identity_json`'s results.
abbrev error_text : IdentityError → List ℕ
error_text IdentityError.key_invalid =
    codes
      "{\"error\":{\"code\":\"POLICYSQL_IDEMPOTENCY_KEY_INVALID\",\"message\":\"Idempotency-Key must be 16-128 characters from letters, digits, and . _ : - + / = when provided.\",\"path\":null}}"
error_text IdentityError.internal =
    codes
      "{\"error\":{\"code\":\"POLICYSQL_INTERNAL\",\"message\":\"The request could not be completed.\",\"path\":null}}"

abbrev output_text : Output → List ℕ
output_text Output.no_idempotency = codes "{\"idempotency\":null}"
output_text (Output.idempotency key_hash print) =
    codes "{\"idempotency\":{\"keyHash\":\""
    ++ (key_hash ++ (codes "\",\"fingerprint\":\"" ++ (print ++ codes "\"}}")))
output_text (Output.fingerprint hash) = codes "{\"fingerprint\":\"" ++ (hash ++ codes "\"}")
output_text (Output.digest hash) = codes "{\"digest\":\"" ++ (hash ++ codes "\"}")

abbrev text_of : Identified Output → List ℕ
text_of (Identified.ok output) = output_text output
text_of (Identified.err e) = error_text e

module _ (float_text : ℕ → List ℕ) (sha256_hex : List ℕ → List ℕ)
    (events : String → Option Json) where
  abbrev pub hash_of : Json → List ℕ
  hash_of value = sha256_hex (write_value float_text value)

  abbrev caller : Auth → Json → Json
  caller auth database = object_with (
      ("principal", auth.principal)
      ∷ ("subject", auth.subject)
      ∷ ("role", auth.role)
      ∷ ("session", auth.session)
      ∷ ("databaseBinding", database)
      ∷ [])

  -- `auth_fingerprint`.
  unfoldable pub auth_fingerprint : Option Json → Option Json → Identified (List ℕ)
  unfolding read_auth binding
  auth_fingerprint auth_value binding_value = read_auth auth_value >>= λ auth.
      binding binding_value >>= λ database. Identified.ok (hash_of (caller auth database))

  -- `replay_identity`.
  unfoldable pub replay_identity : Option Json → Option Json → Identified (List ℕ)
  unfolding read_auth binding without_snapshot
  replay_identity auth_value binding_value = read_auth auth_value >>= λ auth.
      binding binding_value >>= λ whole. without_snapshot whole >>= λ database. Identified.ok (
        hash_of (
          object_with (
            ("replay", Json.string "v1")
            ∷ ("principal", auth.principal)
            ∷ ("subject", auth.subject)
            ∷ ("role", auth.role)
            ∷ ("session", auth.session)
            ∷ ("database", database)
            ∷ [])))

  -- `command_digest` and `callback_digest`.
  unfoldable pub command_digest : String → Json → List ℕ
  command_digest kind command =
      hash_of (object_with (("kind", Json.string kind) ∷ ("command", command) ∷ []))

  unfoldable pub callback_digest : Json → List ℕ
  callback_digest command = hash_of command

  abbrev pub body : Option Json → Identified Json
  body value = text_value value >>= λ t. ok_or (parse events t) IdentityError.internal

  abbrev identity_text : Auth → String → Json → Json → List ℕ
  identity_text auth endpoint scope database_id = write_value float_text (
      object_with (
        ("principal", auth.principal)
        ∷ ("subject", auth.subject)
        ∷ ("role", auth.role)
        ∷ ("session", auth.session)
        ∷ ("endpoint", Json.string endpoint)
        ∷ ("database", object_with (("scope", scope) ∷ ("databaseId", database_id) ∷ []))
        ∷ []))

  -- `request` once its parts are read: no identity without a key.
  unfoldable pub keyed : Auth → Json → Json → String → Option Json → Identified Output
  unfolding get without_snapshot valid_idempotency_key
  keyed auth database parsed endpoint none = Identified.ok Output.no_idempotency
  keyed auth database parsed endpoint (some value) =
      ok_or (as_text value) IdentityError.key_invalid >>= λ key.
      require (valid_idempotency_key key) IdentityError.key_invalid (
        ok_or (get database "scope") IdentityError.internal >>= λ scope.
        ok_or (get database "databaseId") IdentityError.internal >>= λ database_id.
        without_snapshot database >>= λ kept.
        let identity = identity_text auth endpoint scope database_id in
        Identified.ok (
          Output.idempotency (sha256_hex (identity ++ (b':' ∷ codes key))) (
            sha256_hex (
              identity
              ++ (b':'
                  ∷ (write_value float_text parsed ++ (b':' ∷ write_value float_text kept)))))))

  unfoldable pub request : Json → Identified Output
  unfolding get has_exact_keys read_auth binding keyed
  request input =
      exact_keys input ("op" ∷ "endpoint" ∷ "auth" ∷ "binding" ∷ "body" ∷ []) ("key" ∷ []) (
        text_value (get input "endpoint") >>= λ endpoint.
        require (str_eq endpoint "execute" || str_eq endpoint "interactive-start")
          IdentityError.internal
          (read_auth (get input "auth") >>= λ auth. binding (get input "binding") >>= λ database.
            body (get input "body") >>= λ parsed.
            keyed auth database parsed endpoint (get input "key")))

  abbrev start : Json → Identified Output
  start input = exact_keys input ("op" ∷ "transactionId" ∷ "body" ∷ []) [] (
      text_value (get input "transactionId") >>= λ transaction_id.
      require (valid_transaction_id transaction_id) IdentityError.internal (
        body (get input "body") >>= λ parsed. Identified.ok (
          Output.digest (
            hash_of (
              object_with
                (("transactionId", Json.string transaction_id) ∷ ("request", parsed) ∷ []))))))

  abbrev command : Json → Identified Output
  command input = exact_keys input ("op" ∷ "kind" ∷ "command" ∷ []) [] (
      text_value (get input "kind") >>= λ kind.
      require (any (λ k. str_eq k kind) ("statement" ∷ "commit" ∷ "rollback" ∷ []))
        IdentityError.internal
        (ok_or (get input "command") IdentityError.internal >>= λ value. Identified.ok (
          Output.digest
            (hash_of (object_with (("kind", Json.string kind) ∷ ("command", value) ∷ []))))))

  abbrev auth_operation : Json → Identified Output
  auth_operation input = exact_keys input ("op" ∷ "auth" ∷ "binding" ∷ []) [] (
      read_auth (get input "auth") >>= λ auth. binding (get input "binding") >>= λ database.
      Identified.ok (Output.fingerprint (hash_of (caller auth database))))

  abbrev callback : Json → Identified Output
  callback input = exact_keys input ("op" ∷ "command" ∷ []) [] (
      ok_or (get input "command") IdentityError.internal >>= λ value.
      Identified.ok (Output.digest (hash_of value)))

  -- `match op` of `compute`, on the value read.
  unfoldable pub operate : Json → Identified Output
  unfolding get request has_exact_keys read_auth binding valid_transaction_id
  operate input = text_value (get input "op") >>= λ op.
      if str_eq op "request"
      then request input
      else if str_eq op "auth"
      then auth_operation input
      else if str_eq op "start"
      then start input
      else if str_eq op "command"
      then command input
      else if str_eq op "callback"
      then callback input
      else Identified.err IdentityError.internal

  unfoldable pub compute : String → ℕ → Identified Output
  unfolding operate
  compute input max_input_bytes =
      if ltb max_input_bytes (byte_len input)
      then Identified.err IdentityError.internal
      else ok_or (parse_with_max_depth events input (max_depth + command_envelope_depth))
          IdentityError.internal
        >>= operate

  -- `identity_json`.
  unfoldable pub identity_json : String → ℕ → List ℕ
  unfolding compute
  identity_json input max_input_bytes = text_of (compute input max_input_bytes)
