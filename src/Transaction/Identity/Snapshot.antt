-- ===== src/Transaction/Identity/Snapshot.antt =====
-- What the snapshot of a binding has no part in (identity.rs, `without_snapshot`).
use Prim.Native.String.{String}
use text.Mathlib.TextEquality.{eq_iff}
use policysql.Prelude.{
  ℕ, ◌≡◌, refl, ap, Bool, true, Option, none, some, List, [], ◌∷◌, arith, str_eq, all, is_some,
  if◌then◌else◌,
}
use policysql.Transaction.Canonical.{Json, Fields, get, find_field, as_text}
use policysql.Transaction.Identity.{replay_identity, keyed, request, body}
use policysql.Transaction.Identity.Session.{
  IdentityError, Identified, text_value, ◌>>=◌, ok_or, require, is_string, field_names,
  has_exact_keys, Auth, read_auth, binding, binding_keys, drop_snapshot, valid_idempotency_key,
}

-- The members with another value for one key.
unfoldable pub put_member : String → Json → Fields → Fields
put_member key x Fields.no_fields = Fields.no_fields
put_member key x (Fields.field k v rest) =
    Fields.field k (if str_eq k key then x else v) (put_member key x rest)

-- A binding's members with another snapshot.
abbrev pub put_snapshot : String → Fields → Fields
put_snapshot s fs = put_member "snapshot" (Json.string s) fs

-- A request's members with another snapshot in the binding.
abbrev pub rebound : String → Fields → Fields → Fields
rebound s fs members = put_member "binding" (Json.object (put_snapshot s fs)) members

field_names-put_member :
    (key : String) (x : Json) (fs : Fields) → field_names (put_member key x fs) ≡ field_names fs
unfolding field_names put_member
field_names-put_member key x Fields.no_fields = refl
field_names-put_member key x (Fields.field k v fs) =
    ap (λ names. k ∷ names) (field_names-put_member key x fs)

drop_snapshot-put_snapshot :
    (s : String) (fs : Fields) → drop_snapshot (put_snapshot s fs) ≡ drop_snapshot fs
unfolding drop_snapshot put_member
drop_snapshot-put_snapshot s Fields.no_fields = refl
drop_snapshot-put_snapshot s (Fields.field k v fs) = ground (arith, drop_snapshot-put_snapshot s fs)

-- A member of another key is read as before, and one of that key as the new value.
find_field-put_member :
    (key : String) (x : Json) (fs : Fields) (name : String)
    → find_field (put_member key x fs) name ≡ (
        if str_eq name key
        then (if is_some (find_field fs name) then some x else none)
        else find_field fs name)
unfolding find_field put_member
find_field-put_member key x Fields.no_fields name = ground arith
find_field-put_member key x (Fields.field k v fs) name =
    ground
      (arith, find_field-put_member key x fs name, eq_iff k name, eq_iff k key, eq_iff name key)

find_field-put_snapshot :
    (s : String) (fs : Fields) (name : String)
    → find_field (put_snapshot s fs) name ≡ (
        if str_eq name "snapshot"
        then (if is_some (find_field fs name) then some (Json.string s) else none)
        else find_field fs name)
find_field-put_snapshot s = find_field-put_member "snapshot" (Json.string s)

is_some-put_member :
    (key : String) (x : Json) (fs : Fields) (name : String)
    → is_some (find_field (put_member key x fs) name) ≡ is_some (find_field fs name)
is_some-put_member key x fs name = ground (arith, find_field-put_member key x fs name)

present-put_member :
    (key : String) (x : Json) (fs : Fields) (names : List String)
    → all (λ name. is_some (find_field (put_member key x fs) name)) names
      ≡ all (λ name. is_some (find_field fs name)) names
present-put_member key x fs [] = refl
present-put_member key x fs (name ∷ names) =
    cc (is_some-put_member key x fs name, present-put_member key x fs names)

has_exact_keys-put_member :
    (key : String) (x : Json) (fs : Fields) (required optional : List String)
    → has_exact_keys (Json.object (put_member key x fs)) required optional
      ≡ has_exact_keys (Json.object fs) required optional
unfolding has_exact_keys
has_exact_keys-put_member key x fs required optional =
    rw (field_names-put_member key x fs, present-put_member key x fs required) refl

string-put_snapshot :
    (s : String) (fs : Fields) (key : String)
    → is_string (find_field fs key) ≡ true
    → is_string (find_field (put_snapshot s fs) key) ≡ true
string-put_snapshot s fs key h = ground (arith, h, find_field-put_snapshot s fs key)

-- A binding stays one with another snapshot.
binding-put_snapshot :
    (s : String) (fs : Fields)
    → binding (some (Json.object fs)) ≡ Identified.ok (Json.object fs)
    → binding (some (Json.object (put_snapshot s fs)))
      ≡ Identified.ok (Json.object (put_snapshot s fs))
unfolding binding get
binding-put_snapshot s fs h = ground (
  arith,
  h,
  has_exact_keys-put_member "snapshot" (Json.string s) fs binding_keys [],
  find_field-put_snapshot s fs "version",
  string-put_snapshot s fs "scope",
  string-put_snapshot s fs "databaseId",
  string-put_snapshot s fs "generation",
  string-put_snapshot s fs "snapshot",
)

bind-same {ℓ κ} :
    {A : Type ℓ} {B : Type κ} (a : Identified A) (f g : A → Identified B)
    → ((x : A) → f x ≡ g x)
    → (a >>= f) ≡ (a >>= g)
bind-same (Identified.ok x) f g h = h x
bind-same (Identified.err e) f g h = refl

require-same {ℓ} :
    {A : Type ℓ} (b : Bool) (e : IdentityError) (m n : Identified A)
    → m ≡ n
    → require b e m ≡ require b e n
require-same b e m n same = ap (require b e) same

module _ (float_text : ℕ → List ℕ) (sha256_hex : List ℕ → List ℕ)
    (events : String → Option Json) where
  -- A binding's snapshot is no part of the replay identity.
  pub replay_identity-put_snapshot :
      (s : String) (auth : Option Json) (fs : Fields)
      → binding (some (Json.object fs)) ≡ Identified.ok (Json.object fs)
      → replay_identity float_text sha256_hex events auth (some (Json.object (put_snapshot s fs)))
        ≡ replay_identity float_text sha256_hex events auth (some (Json.object fs))
  unfolding replay_identity
  replay_identity-put_snapshot s auth fs h =
      bind-same (read_auth auth) _ _
        λ caller. rw (binding-put_snapshot s fs h, h) (rw (drop_snapshot-put_snapshot s fs) refl)

  keyed-put_snapshot :
      (s : String) (auth : Auth) (fs : Fields) (parsed : Json) (endpoint : String)
      (key : Option Json)
      → keyed float_text sha256_hex events auth
          (Json.object (put_snapshot s fs))
          parsed
          endpoint
          key
        ≡ keyed float_text sha256_hex events auth (Json.object fs) parsed endpoint key
  unfolding keyed get
  keyed-put_snapshot s auth fs parsed endpoint none = refl
  keyed-put_snapshot s auth fs parsed endpoint (some key) =
      bind-same (ok_or (as_text key) IdentityError.key_invalid) _ _ λ k.
        ap (λ next. require (valid_idempotency_key k) IdentityError.key_invalid next)
          (rw (find_field-put_snapshot s fs "scope", find_field-put_snapshot s fs "databaseId")
            (bind-same (ok_or (find_field fs "scope") IdentityError.internal) _ _ λ scope.
              bind-same (ok_or (find_field fs "databaseId") IdentityError.internal) _ _
                λ id. rw (drop_snapshot-put_snapshot s fs) refl))

  -- Another snapshot in the binding of a request, whatever its members and their order, leaves what
  -- the `request` operation gives as it is: the key hash, the fingerprint, and the error it is refused
  -- with, if the binding is one.
  pub request-put_snapshot :
      (s : String) (fs members : Fields)
      → find_field members "binding" ≡ some (Json.object fs)
      → binding (some (Json.object fs)) ≡ Identified.ok (Json.object fs)
      → request float_text sha256_hex events (Json.object (rebound s fs members))
        ≡ request float_text sha256_hex events (Json.object members)
  unfolding request get
  request-put_snapshot s fs members bound h =
      let x : Json = Json.object (put_snapshot s fs) in
      let other : (name : String)
          → find_field (put_member "binding" x members) name ≡ (
              if str_eq name "binding"
              then (if is_some (find_field members name) then some x else none)
              else find_field members name) =
        find_field-put_member "binding" x members in
      rw
        (
          has_exact_keys-put_member "binding" x members
              ("op" ∷ "endpoint" ∷ "auth" ∷ "binding" ∷ "body" ∷ []) ("key" ∷ []),
          other "endpoint",
          other "auth",
          other "binding",
          other "body",
          other "key",
          bound,
        )
        (require-same _ _ _ _ (
          bind-same (text_value (find_field members "endpoint")) _ _ λ endpoint.
            require-same _ _ _ _ (
              bind-same (read_auth (find_field members "auth")) _ _ λ caller.
                rw (binding-put_snapshot s fs h, h)
                  (bind-same (body float_text sha256_hex events (find_field members "body")) _ _
                    λ parsed.
                      keyed-put_snapshot s caller fs parsed endpoint (find_field members "key")))))
