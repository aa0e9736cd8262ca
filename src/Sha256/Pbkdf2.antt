-- ===== src/Sha256/Pbkdf2.antt =====
-- alg/sha256.c: the derivation of a key from a password.
pub mod Derived
use Prim.Native.Nat.{bit_xor}
use libcperciva.Prelude.{
  ℕ, zero, suc, ◌+◌, ◌-◌, ◌*◌, ◌%◌, ◌^◌, List, [], ◌∷◌, ltb, leb, if◌then◌else◌, Outcome, done,
  abort, assert, memcpy,
}
use libcperciva.SysEndian.{be32enc}
use libcperciva.Digest.{bytes4}
use libcperciva.Sha256.{HmacSha256, hmac_init, hmac_update, hmac_final_internal}

-- `T[k] ^= U[k]` for every byte.
unfoldable pub xor_bytes : List ℕ → List ℕ → List ℕ
xor_bytes (t ∷ ts) (u ∷ us) = bit_xor t u ∷ xor_bytes ts us
xor_bytes ts _ = ts

-- A copy of a context, fed with bytes and finished.
unfoldable pub prf : HmacSha256 → List ℕ → List ℕ
prf c src = (hmac_final_internal (hmac_update c src)).1

-- `for (j = 2; j <= c; j++)`, with `n` values of `j` left.
unfoldable pub iterate : ℕ → HmacSha256 → List ℕ → List ℕ → List ℕ
iterate zero ph u t = t
iterate (suc n) ph u t = let next = prf ph u in iterate n ph next (xor_bytes t next)

-- The value of `T` for a pass of the outer loop.
unfoldable pub derive_block : HmacSha256 → HmacSha256 → ℕ → ℕ → List ℕ
derive_block ph phs c i =
    let u = prf phs (bytes4 (be32enc ((i + 1) % 2 ^ 32))) in iterate (c - 1) ph u u

-- `for (i = 0; i * 32 < dkLen; i++)`.
unfoldable pub fill : ℕ → HmacSha256 → HmacSha256 → ℕ → ℕ → List ℕ → ℕ → Outcome (List ℕ)
fill zero ph phs c i buf dk_len = abort
fill (suc fuel) ph phs c i buf dk_len =
    let left = dk_len - i * 32 in
    let clen = if ltb 32 left then 32 else left in
    let next =
      fill fuel ph phs c (i + 1) (memcpy buf (i * 32) (derive_block ph phs c i) clen) dk_len in
    if ltb (i * 32) dk_len then next else done buf

-- `stack` is what the context on the stack holds at first.
unfoldable pub pbkdf2_sha256 : HmacSha256 → List ℕ → List ℕ → ℕ → List ℕ → ℕ → Outcome (List ℕ)
pbkdf2_sha256 stack passwd salt c buf dk_len =
    assert (leb dk_len (32 * (2 ^ 32 - 1)))
      (let ph = hmac_init stack passwd in fill (suc dk_len) ph (hmac_update ph salt) c 0 buf dk_len)
