-- ===== src/Transaction/Identity/Agreement.antt =====
-- The identity operations against the functions the machine calls (identity.rs, `compute`).
use Prim.Native.String.{String}
use policysql.Prelude.{ℕ, ◌≡◌, refl, true, Option, some, List, [], ◌∷◌, str_eq, any}
use policysql.Transaction.Canonical.{Json, get, find_field}
use policysql.Transaction.Identity.{
  object_with, Output, auth_fingerprint, command_digest, callback_digest, operate,
}
use policysql.Transaction.Identity.Session.{
  Identified, Auth, ◌>>=◌, has_exact_keys, field_names, read_auth, binding,
}

print-after :
    (a : Identified Auth) (b : Identified Json) (f : Auth → Json → List ℕ)
    → (a >>= λ x. b >>= λ y. Identified.ok (Output.fingerprint (f x y))) ≡ (
        (a >>= λ x. b >>= λ y. Identified.ok (f x y)) >>= λ h. Identified.ok (Output.fingerprint h))
print-after (Identified.ok x) (Identified.ok y) f = refl
print-after (Identified.ok x) (Identified.err e) f = refl
print-after (Identified.err e) b f = refl

module _ (float_text : ℕ → List ℕ) (sha256_hex : List ℕ → List ℕ)
    (events : String → Option Json) where
  abbrev run : Json → Identified Output
  run = operate float_text sha256_hex events

  pub operate-callback_digest :
      (command : Json)
      → run (object_with (("op", Json.string "callback") ∷ ("command", command) ∷ []))
        ≡ Identified.ok (Output.digest (callback_digest float_text sha256_hex events command))
  unfolding operate get find_field has_exact_keys field_names callback_digest
  operate-callback_digest command = refl

  pub operate-command_digest :
      (kind : String) (command : Json)
      → any (λ k. str_eq k kind) ("statement" ∷ "commit" ∷ "rollback" ∷ []) ≡ true
      → run (
          object_with (
            ("op", Json.string "command") ∷ ("kind", Json.string kind) ∷ ("command", command) ∷ []))
        ≡ Identified.ok (Output.digest (command_digest float_text sha256_hex events kind command))
  unfolding operate get find_field has_exact_keys field_names command_digest
  operate-command_digest kind command h = rw h refl

  -- The `auth` operation gives the fingerprint that the machine computes of the same session and
  -- binding, or its error.
  pub operate-auth_fingerprint :
      (auth database : Json)
      → run (object_with (("op", Json.string "auth") ∷ ("auth", auth) ∷ ("binding", database) ∷ []))
        ≡ (auth_fingerprint float_text sha256_hex events (some auth) (some database) >>= λ hash.
            Identified.ok (Output.fingerprint hash))
  unfolding operate get find_field has_exact_keys field_names auth_fingerprint
  operate-auth_fingerprint auth database =
      print-after (read_auth (some auth)) (binding (some database)) _
