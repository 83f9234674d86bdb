-- ===== src/Transaction/Identity/Reading.antt =====
-- What `Auth::read` accepts, in one record, and back (identity.rs, `Auth::read`).
use Prim.Native.String.{String}
use mathlib.Core.Path.{subst}
use policysql.Prelude.{◌≡◌, refl, Bool, true, false, Option, none, some, List, [], ◌∷◌, arith, all}
use policysql.Transaction.Canonical.{Json, get}
use policysql.Transaction.Identity.Session.{
  IdentityError, Identified, ◌>>=◌, ok_or, require, is_string, string_list, entries, has_exact_keys,
  Auth, read_auth,
}

abbrev pub auth_required : List String
auth_required = "principal" ∷ "subject" ∷ "role" ∷ "session" ∷ []

abbrev pub auth_optional : List String
auth_optional = "roles" ∷ "access" ∷ []

-- A session that `Auth::read` reads as the given fields.
pub record Reads (v : Json) (a : Auth) : Type 0 where
  pub exact : has_exact_keys v auth_required auth_optional ≡ true
  pub roles : string_list (get v "roles") ≡ true
  pub access : string_list (get v "access") ≡ true
  pub has_principal : get v "principal" ≡ some a.principal
  pub has_subject : get v "subject" ≡ some a.subject
  pub has_role : get v "role" ≡ some a.role
  pub has_session : get v "session" ≡ some a.session
  pub principal_text : is_string (some a.principal) ≡ true
  pub subject_text : is_string (some a.subject) ≡ true
  pub role_text : is_string (some a.role) ≡ true
  pub session_texts : entries a.session ≡ true

require-inv {ℓ} :
    {A : Type ℓ} (b : Bool) (e : IdentityError) (next : Identified A) (a : A)
    → require b e next ≡ Identified.ok a
    → (b ≡ true) × (next ≡ Identified.ok a)
require-inv true e next a h = (refl, h)
require-inv false e next a h = cc

bind-inv {ℓ κ} :
    {A : Type ℓ} {B : Type κ} (o : Option A) (e : IdentityError) (f : A → Identified B) (b : B)
    → (ok_or o e >>= f) ≡ Identified.ok b
    → (a : A) × (o ≡ some a) × (f a ≡ Identified.ok b)
bind-inv (some a) e f b h = (a, refl, h)
bind-inv none e f b h = cc

ok-inv : (a b : Auth) → Identified.ok a ≡ Identified.ok b → a ≡ b
ok-inv a b h = cc

pub read_auth-Reads : (v : Json) (a : Auth) → read_auth (some v) ≡ Identified.ok a → Reads v a
unfolding read_auth
read_auth-Reads v a h =
    let (exact, h1) = require-inv (has_exact_keys v auth_required auth_optional) _ _ a h in
    let (lists, h2) = require-inv (all (λ list. string_list (get v list)) auth_optional) _ _ a h1 in
    let (strings, h3) =
      require-inv (all (λ name. is_string (get v name)) ("principal" ∷ "subject" ∷ "role" ∷ [])) _ _
        a h2 in
    let (session, s, h4) = bind-inv (get v "session") _ _ a h3 in
    let (texts, h5) = require-inv (entries session) _ _ a h4 in
    let (principal, p, h6) = bind-inv (get v "principal") _ _ a h5 in
    let (subject, q, h7) = bind-inv (get v "subject") _ _ a h6 in
    let (role, r, h8) = bind-inv (get v "role") _ _ a h7 in
    let built : Auth = record {
      principal = principal;
      subject = subject;
      role = role;
      session = session;
    } in
    subst (Reads v) (ok-inv built a h8) (record {
      exact = exact;
      roles = ground (arith, lists);
      access = ground (arith, lists);
      has_principal = p;
      has_subject = q;
      has_role = r;
      has_session = s;
      principal_text = ground (arith, strings, p);
      subject_text = ground (arith, strings, q);
      role_text = ground (arith, strings, r);
      session_texts = texts;
    })

pub Reads-read_auth : (v : Json) (a : Auth) → Reads v a → read_auth (some v) ≡ Identified.ok a
unfolding read_auth
Reads-read_auth v a r = rw r.exact (
    rw (r.roles, r.access)
      (rw (r.has_principal, r.has_subject, r.has_role, r.has_session)
        (rw (r.principal_text, r.subject_text, r.role_text, r.session_texts) refl)))
