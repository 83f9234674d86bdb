-- ===== src/Transaction/Machine/Step/Entropy.antt =====
-- Valid host facts always give the bytes that a token is made of (io.rs, `HostFacts::entropy_bytes`;
-- step/checks.rs, `issue`).
use Prim.Native.String
use Prim.Native.String.{String, ◌∷◌ as cons}
use Prim.Native.Char.{Char, code, len_utf8, len_utf8_def, width}
use Prim.Native.Nat.{compare, Ordering}
use policysql.Prelude.{
  ℕ, zero, suc, ◌+◌, ◌*◌, ◌≡◌, refl, ap, ◌∙◌, true, some, List, [], ◌∷◌, arith, length, codes,
  byte_len, all, is_hex,
}
use policysql.Transaction.Machine.Io.{HostFacts, host_is_valid}
use policysql.Transaction.Machine.Step.Checks.{entropy_bytes, hex_bytes, hex_digit}
use policysql.Transaction.Machine.Step.Issued.{base64url-token_syntax}
use policysql.Transaction.Machine.Step.Tokens.{base64url, token_syntax}
use policysql.Transaction.Machine.State.{hex64}

hex-compare : (n : ℕ) → is_hex n ≡ true → compare n 128 ≡ Ordering.lt
hex-compare n h = ground arith

hex-width : (c : Char) → is_hex (code c) ≡ true → len_utf8 c ≡ 1
hex-width c h =
    len_utf8_def c
    ∙ ap (λ o. width o (compare (code c) 2048) (compare (code c) 65536)) (hex-compare (code c) h)

hex-bytes : (s : String) → all is_hex (codes s) ≡ true → byte_len s ≡ length (codes s)
hex-bytes String.[] h = refl
hex-bytes (String.◌∷◌ c s) h =
    ground (arith, Prim.Native.String.len.cons c s, hex-width c, hex-bytes s)

-- Two digits for each byte.
hex_bytes-some :
    (n : ℕ) (digits : List ℕ)
    → length digits ≡ 2 * n
    → all is_hex digits ≡ true
    → (bytes : List ℕ) × (hex_bytes n digits ≡ some bytes) × (length bytes ≡ n)
hex_bytes-some zero digits long h = ([], refl, refl)
hex_bytes-some (suc n) [] long h = absurd (omega arith)
hex_bytes-some (suc n) (a ∷ []) long h = absurd (omega arith)
hex_bytes-some (suc n) (a ∷ b ∷ digits) long h =
    let more = hex_bytes-some n digits (omega arith) (ground arith) in
    ((hex_digit a * 16 + hex_digit b) ∷ more.0, ground (arith, more.1), omega (arith, more.2))

-- The facts of a host that pass their check always give 32 bytes of entropy, and the token made of them
-- passes the syntax check that a presented token must pass.
pub entropy_bytes-token_syntax :
    (host : HostFacts)
    → host_is_valid host ≡ true
    → (bytes : List ℕ) × (entropy_bytes host ≡ some bytes)
      × (length bytes ≡ 32)
      × (token_syntax (base64url bytes) ≡ true)
unfolding host_is_valid hex64 entropy_bytes
entropy_bytes-token_syntax host valid =
    let hex : all is_hex (codes host.entropy) ≡ true = ground (arith, valid) in
    let long : byte_len host.entropy ≡ 64 = ground (arith, valid) in
    let read =
      hex_bytes-some 32 (codes host.entropy) (omega (arith, hex-bytes host.entropy hex, long))
        hex in
    (read.0, read.1, read.2, base64url-token_syntax read.0 read.2)
