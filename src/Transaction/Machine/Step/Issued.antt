-- ===== src/Transaction/Machine/Step/Issued.antt =====
-- What a check issues passes what is asked of it: a token the syntax check, and a callback session
-- the reading of a session (step/checks.rs, `base64url`, `callback_session`; identity.rs, `Auth::read`).
use Prim.Native.String.{String}
use text.Mathlib.TextEquality.{eq_iff}
use policysql.Prelude.{
  ℕ, ◌+◌, ◌*◌, ◌/◌, ◌%◌, ◌<◌, ◌≡◌, refl, sym, ap, ◌∙◌, Bool, true, false, ◌&&◌, Option, none, some,
  List, [], ◌∷◌, arith, str_eq, ◌++◌, length, all, any, is_some, Bool-cases, inl, inr,
  if◌then◌else◌,
}
use policysql.Transaction.Canonical.{Json, Items, Fields, get, find_field}
use policysql.Transaction.Identity.Session.{
  Auth, Identified, read_auth, has_exact_keys, field_names, all_strings, string_list,
}
use policysql.Transaction.Identity.Reading.{
  Reads, read_auth-Reads, Reads-read_auth, auth_required, auth_optional,
}
use policysql.Transaction.Strict.Sound.{&&-left}
use policysql.Transaction.Machine.Step.Tokens.{
  alphabet, sextet, base64url, token_char, token_syntax, callback_session, append_fields,
  without_roles, role_fields, with_role, roles_of, session_role, push,
}

alphabet-token_char : (i : ℕ) → i < 64 → token_char (alphabet i) ≡ true
alphabet-token_char i h = ground arith

sextet-token_char : (t place : ℕ) → token_char (sextet t place) ≡ true
sextet-token_char t place = alphabet-token_char (t / place % 64) (omega arith)

length-base64url : (bytes : List ℕ) → length (base64url bytes) ≡ (4 * length bytes + 2) / 3
unfolding base64url
length-base64url [] = omega arith
length-base64url (a ∷ []) = omega arith
length-base64url (a ∷ b ∷ []) = omega arith
length-base64url (a ∷ b ∷ c ∷ bytes) = omega (arith, length-base64url bytes)

base64url-token_char : (bytes : List ℕ) → all token_char (base64url bytes) ≡ true
unfolding base64url
base64url-token_char [] = refl
base64url-token_char (a ∷ []) =
    cc (sextet-token_char (a * 65536) 262144, sextet-token_char (a * 65536) 4096)
base64url-token_char (a ∷ b ∷ []) =
    let t = a * 65536 + b * 256 in
    cc (sextet-token_char t 262144, sextet-token_char t 4096, sextet-token_char t 64)
base64url-token_char (a ∷ b ∷ c ∷ bytes) =
    let t = a * 65536 + b * 256 + c in
    cc (
      sextet-token_char t 262144,
      sextet-token_char t 4096,
      sextet-token_char t 64,
      sextet-token_char t 1,
      base64url-token_char bytes,
    )

-- The token that is made of 32 bytes of entropy, whatever they are, passes the syntax check that a
-- presented token must pass.
pub base64url-token_syntax :
    (bytes : List ℕ) → length bytes ≡ 32 → token_syntax (base64url bytes) ≡ true
unfolding token_syntax
base64url-token_syntax bytes h =
    let long : length (base64url bytes) ≡ 43 = omega (arith, length-base64url bytes) in
    ground (arith, long, base64url-token_char bytes)

find_field-append_fields :
    (fs gs : Fields) (key : String)
    → find_field (append_fields fs gs) key
      ≡ (if is_some (find_field fs key) then find_field fs key else find_field gs key)
unfolding find_field append_fields
find_field-append_fields Fields.no_fields gs key = refl
find_field-append_fields (Fields.field k v fs) gs key =
    ground (arith, find_field-append_fields fs gs key)

same_role : (k key : String) → str_eq k key ≡ true → session_role k ≡ session_role key
same_role k key h = ap session_role ((eq_iff k key).0 h)

dropped :
    (key_in same : Bool) (v : Json) (r x : Option Json)
    → (same ≡ true → true ≡ key_in)
    → r ≡ (if key_in then none else x)
    → r ≡ (if key_in then none else (if same then some v else x))
dropped true same v r x h e = e
dropped false true v r x h e = let f = h refl in cc
dropped false false v r x h e = e

kept :
    (key_in same : Bool) (v : Json) (r x : Option Json)
    → (same ≡ true → false ≡ key_in)
    → r ≡ (if key_in then none else x)
    → (if same then some v else r) ≡ (if key_in then none else (if same then some v else x))
kept true true v r x h e = let f = h refl in cc
kept true false v r x h e = e
kept false true v r x h e = refl
kept false false v r x h e = e

find_field-without_roles :
    (fs : Fields) (key : String)
    → find_field (without_roles fs) key ≡ (if session_role key then none else find_field fs key)
unfolding find_field without_roles
find_field-without_roles Fields.no_fields key = ground arith
find_field-without_roles (Fields.field k v fs) key =
    let ih = find_field-without_roles fs key in
    elim (Bool-cases (session_role k)) [
      | inl e ↦ rw e (
          dropped (session_role key) (str_eq k key) v (find_field (without_roles fs) key)
            (find_field fs key) (λ h. sym e ∙ same_role k key h) ih)
      | inr e ↦ rw e (
          kept (session_role key) (str_eq k key) v (find_field (without_roles fs) key)
            (find_field fs key) (λ h. sym e ∙ same_role k key h) ih)
    ]

all-field_names-append_fields :
    (p : String → Bool) (fs gs : Fields)
    → all p (field_names (append_fields fs gs)) ≡ all p (field_names fs) && all p (field_names gs)
unfolding field_names append_fields
all-field_names-append_fields p Fields.no_fields gs = refl
all-field_names-append_fields p (Fields.field k v fs) gs =
    ground (arith, all-field_names-append_fields p fs gs)

all-field_names-without_roles :
    (p : String → Bool) (fs : Fields)
    → all p (field_names fs) ≡ true
    → all p (field_names (without_roles fs)) ≡ true
unfolding field_names without_roles
all-field_names-without_roles p Fields.no_fields h = refl
all-field_names-without_roles p (Fields.field k v fs) h =
    ground (arith, h, all-field_names-without_roles p fs)

all_strings-push :
    (role : String) (xs : Items)
    → all_strings xs ≡ true
    → all_strings (push (Json.string role) xs) ≡ true
unfolding all_strings push
all_strings-push role Items.no_items h = refl
all_strings-push role (Items.item v xs) h = ground (arith, h, all_strings-push role xs)

all_strings-with_role :
    (role : String) (xs : Items) → all_strings xs ≡ true → all_strings (with_role role xs) ≡ true
unfolding with_role
all_strings-with_role role xs h = ground (arith, h, all_strings-push role xs)

-- The members of a callback session.
abbrev session_fields : Fields → String → Items → Fields
session_fields fs role xs = append_fields (without_roles fs) (role_fields role xs)

kept_field :
    (fs : Fields) (role : String) (xs : Items) (key : String) (v : Json)
    → session_role key ≡ false
    → find_field fs key ≡ some v
    → find_field (session_fields fs role xs) key ≡ some v
kept_field fs role xs key v e h =
    let kept : find_field (without_roles fs) key ≡ some v =
      find_field-without_roles fs key ∙ (rw e h) in
    find_field-append_fields (without_roles fs) (role_fields role xs) key ∙ rw kept refl

new_field :
    (fs : Fields) (role : String) (xs : Items) (key : String)
    → session_role key ≡ true
    → find_field (session_fields fs role xs) key ≡ find_field (role_fields role xs) key
new_field fs role xs key e =
    let gone : find_field (without_roles fs) key ≡ none =
      find_field-without_roles fs key ∙ rw e refl in
    find_field-append_fields (without_roles fs) (role_fields role xs) key ∙ rw gone refl

-- The exact keys: what was there stays but for the role members, and those are there.
session_fields-exact :
    (fs : Fields) (role : String) (xs : Items) (a : Auth)
    → Reads (Json.object fs) a
    → has_exact_keys (Json.object (session_fields fs role xs)) auth_required auth_optional ≡ true
unfolding has_exact_keys get role_fields find_field field_names session_role
session_fields-exact fs role xs a r =
    let p = λ (name : String). any (λ key. str_eq key name) (auth_required ++ auth_optional) in
    let names =
      &&-left (all p (field_names fs)) (all (λ key. is_some (find_field fs key)) auth_required)
        r.exact in
    rw (all-field_names-append_fields p (without_roles fs) (role_fields role xs)) (
      rw (all-field_names-without_roles p fs names) (
        rw
          (
            kept_field fs role xs "principal" a.principal refl r.has_principal,
            kept_field fs role xs "subject" a.subject refl r.has_subject,
            kept_field fs role xs "session" a.session refl r.has_session,
            new_field fs role xs "role" refl,
          )
          refl))

roles_of-strings :
    (o : Option Json)
    → string_list o ≡ true
    → (xs : Items) × (roles_of o ≡ some xs) × (all_strings xs ≡ true)
unfolding all_strings
roles_of-strings none h = (Items.no_items, refl, refl)
roles_of-strings (some (Json.array xs)) h = (xs, refl, h)
roles_of-strings (some Json.null) h = cc
roles_of-strings (some (Json.bool b)) h = cc
roles_of-strings (some (Json.number n)) h = cc
roles_of-strings (some (Json.string s)) h = cc
roles_of-strings (some (Json.object m)) h = cc

session_fields-Reads :
    (fs : Fields) (role : String) (xs : Items) (a : Auth)
    → Reads (Json.object fs) a
    → all_strings xs ≡ true
    → Reads (Json.object (session_fields fs role xs)) (record a { role = Json.string role })
unfolding get role_fields find_field session_role all_strings
session_fields-Reads fs role xs a r strings = record {
  exact = session_fields-exact fs role xs a r;
  roles = rw (new_field fs role xs "roles" refl) (all_strings-with_role role xs strings);
  access = rw (new_field fs role xs "access" refl) refl;
  has_principal = kept_field fs role xs "principal" a.principal refl r.has_principal;
  has_subject = kept_field fs role xs "subject" a.subject refl r.has_subject;
  has_role = new_field fs role xs "role" refl;
  has_session = kept_field fs role xs "session" a.session refl r.has_session;
  principal_text = r.principal_text;
  subject_text = r.subject_text;
  role_text = refl;
  session_texts = r.session_texts;
}

-- The session of a callback, made of a session that can be read, can be read: its role is the
-- check's, and its principal, subject, and session variables are those of the commit.
pub callback_session-Reads :
    (fs : Fields) (role : String) (a : Auth)
    → read_auth (some (Json.object fs)) ≡ Identified.ok a
    → (session : Json) × (callback_session (Json.object fs) role ≡ some session)
      × (read_auth (some session) ≡ Identified.ok (record a { role = Json.string role }))
unfolding callback_session
callback_session-Reads fs role a h =
    let r = read_auth-Reads (Json.object fs) a h in
    let (xs, e, strings) = roles_of-strings (get (Json.object fs) "roles") r.roles in
    let session = Json.object (session_fields fs role xs) in
    (
      session,
      rw e refl,
      Reads-read_auth session (record a { role = Json.string role })
          (session_fields-Reads fs role xs a r strings),
    )
