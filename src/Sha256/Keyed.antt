-- ===== src/Sha256/Keyed.antt =====
-- alg/sha256.c: digests and keyed digests of messages that are fed in by several calls.
use libcperciva.Prelude.{ℕ, ◌≡◌, arith, List}
use libcperciva.Digest.Hmac.{hmac}
use libcperciva.Digest.Pieces.{feed, join, hash_pieces, hmac_pieces}
use libcperciva.Sha256.{
  Ctx, init, update, final, HmacSha256, hmac_init, hmac_update, hmac_final_internal, hmac_final,
  sha256_internal,
}
use libcperciva.Sha256.Stream.{Ready, sha256, internal_laws}

-- Whatever a context with a buffer of 64 bytes held, after `SHA256_Init` and updates with any
-- pieces `SHA256_Final` gives the SHA-256 of the pieces one behind the other: the padded message
-- (0x80, zeros, and the length in bits modulo 2 ^ 64) compressed block by block.
pub final-sha256 :
    (c : Ctx) (pieces : List (List ℕ))
    → Ready c
    → (final (feed update (init c) pieces)).1 ≡ sha256 (join pieces)
unfolding final
final-sha256 c pieces ready =
    hash_pieces sha256_internal sha256 32 internal_laws (omega arith) c pieces ready

-- Whatever two contexts with buffers of 64 bytes held, after the initialization with any key and
-- updates with any pieces `HMAC_SHA256_Final` gives HMAC over SHA-256 of the key and of the pieces
-- one behind the other; a key of more than 64 bytes is replaced by its hash.
pub hmac_final-hmac :
    (c : HmacSha256) (key : List ℕ) (pieces : List (List ℕ))
    → Ready c.ictx
    → Ready c.octx
    → (hmac_final (feed hmac_update (hmac_init c key) pieces)).1 ≡ hmac sha256 key (join pieces)
unfolding hmac_final hmac_final_internal hmac_update hmac_init
hmac_final-hmac c key pieces ri ro =
    hmac_pieces sha256_internal sha256 32 internal_laws (omega arith) c key pieces ri ro
