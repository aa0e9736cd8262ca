-- ===== src/Sha256.antt =====
-- alg/sha256.c: the context that is fed in pieces. The wrappers that clear the stack afterwards
-- return what the internal functions return.
pub mod Transform
pub mod Stream
pub mod Keyed
pub mod Pbkdf2
use Prim.Native.Nat.{bit_and}
use libcperciva.Prelude.{
  ℕ, ◌+◌, ◌-◌, ◌*◌, ◌/◌, ◌%◌, ◌^◌, List, [], ◌∷◌, if◌then◌else◌, ◌==◌, ltb, length, replicate,
  memcpy,
}
use libcperciva.SysEndian.{be32enc, ◌>>>◌, ◌<<<◌}
use libcperciva.Digest.{absorb, enc_vect, be64_bytes, pad_bytes}
use libcperciva.Digest.Hash.{Hash}
use libcperciva.Digest.Hmac as Hmac
use libcperciva.Sha256.Transform.{transform, initial_state}

-- `SHA256_CTX`.
pub record Ctx : Type 0 where
  pub state : List ℕ
  pub count : ℕ
  pub buf : List ℕ

unfoldable pub init : Ctx → Ctx
init c = record c { count = 0; state = initial_state }

-- How many bytes are in the buffer.
unfoldable pub buffered : Ctx → ℕ
buffered c = bit_and (c.count >>> 3) 0x3f

unfoldable pub update : Ctx → List ℕ → Ctx
update c src =
    if length src == 0
    then c
    else (let mixed = absorb transform c.state c.buf (buffered c) src in
        record {
          state = mixed.0;
          count = (c.count + (length src <<< 3) % 2 ^ 64) % 2 ^ 64;
          buf = mixed.1;
        })

-- The state and the buffer with everything but the length in the last 8 bytes.
unfoldable pub pad_to_56 : List ℕ → List ℕ → ℕ → List ℕ × List ℕ
pad_to_56 state buf r =
    if ltb r 56
    then (state, memcpy buf r pad_bytes (56 - r))
    else (let filled = memcpy buf r pad_bytes (64 - r) in
        (transform state filled, memcpy filled 0 (replicate 56 0) 56))

unfoldable pub pad : Ctx → Ctx
pad c =
    let ready = pad_to_56 c.state c.buf (buffered c) in
    let last = memcpy ready.1 56 (be64_bytes c.count) 8 in
    record c { state = transform ready.0 last; buf = last }

-- `SHA256_Final_internal`: the context is not cleared.
unfoldable pub final_internal : Ctx → Ctx × List ℕ
final_internal c = let padded = pad c in (padded, enc_vect be32enc padded.state)

abbrev pub zeroed : Ctx
zeroed = record { state = replicate 8 0; count = 0; buf = replicate 64 0 }

unfoldable pub final : Ctx → Ctx × List ℕ
final c = (zeroed, (final_internal c).1)

-- The context on the stack starts as what is in memory.
unfoldable pub hash_buf : Ctx → List ℕ → List ℕ
hash_buf c src = (final_internal (update (init c) src)).1

abbrev pub sha256_internal : Hash
sha256_internal = record { Ctx = Ctx; init = init; update = update; final = final_internal }

-- `HMAC_SHA256_CTX` and the internal functions on it.
abbrev pub HmacSha256 : Type 0
HmacSha256 = Hmac.HmacCtx Ctx

unfoldable pub hmac_init : HmacSha256 → List ℕ → HmacSha256
hmac_init = Hmac.init sha256_internal

unfoldable pub hmac_update : HmacSha256 → List ℕ → HmacSha256
hmac_update = Hmac.update sha256_internal

unfoldable pub hmac_final_internal : HmacSha256 → HmacSha256 × List ℕ
hmac_final_internal = Hmac.final sha256_internal

unfoldable pub hmac_final : HmacSha256 → HmacSha256 × List ℕ
hmac_final c = (record { ictx = zeroed; octx = zeroed }, (hmac_final_internal c).1)

unfoldable pub hmac_buf : HmacSha256 → List ℕ → List ℕ → List ℕ
hmac_buf = Hmac.buf sha256_internal
