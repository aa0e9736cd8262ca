-- ===== src/Tests/Digests.antt =====
-- alg/sha256.c, alg/sha1.c, alg/md5.c and crypto/crypto_entropy.c at concrete messages.
use libcperciva.Prelude.{
  zero, Option, some, none, Returns, false, true, suc, ℕ, ◌≡◌, refl, arith, List, [], ◌∷◌, done,
  replicate, memcpy,
}
use libcperciva.Digest.{dec_vect, enc_vect, complete_blocks, absorb, add_words, rotl}
use libcperciva.Digest.Hmac.{HmacCtx, hmac}
use libcperciva.Digest.Pair as Pair
use libcperciva.Digest.Pieces.{feed, join}
use libcperciva.Digest.Padding.{pad_length}
use libcperciva.SysEndian.{be32dec, be32enc, be64enc, le32dec, le32enc}
use libcperciva.Sha256 as Sha256
use libcperciva.Sha256.Transform as T256
use libcperciva.Sha256.Stream.{sha256}
use libcperciva.Sha256.Keyed.{final-sha256, hmac_final-hmac}
use libcperciva.Sha256.Pbkdf2 as Pbkdf2
use libcperciva.Sha256.Pbkdf2.{pbkdf2_sha256}
use libcperciva.Digest.Hmac as Hmac
use libcperciva.CryptoEntropy.{Drbg, Generator, generate, crypto_entropy_read}
use libcperciva.CryptoEntropy.Generate.{Generated, generate-Generated}
use libcperciva.CryptoEntropy.Reads.{Ends, crypto_entropy_read-Ends}
use libcperciva.Sha1 as Sha1
use libcperciva.Sha1.{sha1, final-sha1, hmac_final-sha1}
use libcperciva.Sha1.Transform as T1
use libcperciva.Md5 as Md5
use libcperciva.Md5.{md5, final-md5, hmac_final-md5}
use libcperciva.Md5.Transform as T5

abbrev memory : Sha256.Ctx
memory = record { state = replicate 8 7; count = 99; buf = replicate 64 5 }

abbrev memory32 : Pair.Ctx
memory32 = record { state = replicate 5 7; low = 9; high = 1; buf = replicate 64 5 }

-- "abc".
abbrev abc : List ℕ
abc = 0x61 ∷ 0x62 ∷ 0x63 ∷ []

-- "a", nothing and "bc".
abbrev pieces : List (List ℕ)
pieces = (0x61 ∷ []) ∷ [] ∷ (0x62 ∷ 0x63 ∷ []) ∷ []

abbrev keyed : HmacCtx Sha256.Ctx
keyed = record { ictx = memory; octx = memory }

abbrev keyed32 : HmacCtx Pair.Ctx
keyed32 = record { ictx = memory32; octx = memory32 }

sha256_abc :
    Sha256.hash_buf memory abc
    ≡ 0xba ∷ 0x78 ∷ 0x16 ∷ 0xbf ∷ 0x8f ∷ 0x01 ∷ 0xcf ∷ 0xea ∷ 0x41 ∷ 0x41 ∷ 0x40 ∷ 0xde ∷ 0x5d
      ∷ 0xae ∷ 0x22 ∷ 0x23 ∷ 0xb0 ∷ 0x03 ∷ 0x61 ∷ 0xa3 ∷ 0x96 ∷ 0x17 ∷ 0x7a ∷ 0x9c ∷ 0xb4 ∷ 0x10
      ∷ 0xff ∷ 0x61 ∷ 0xf2 ∷ 0x00 ∷ 0x15 ∷ 0xad ∷ []
unfolding Sha256.hash_buf Sha256.final_internal Sha256.update Sha256.init Sha256.pad
    Sha256.pad_to_56 Sha256.buffered absorb complete_blocks memcpy enc_vect dec_vect add_words
    be32enc be32dec be64enc T256.transform T256.mix T256.rounds T256.schedule T256.rndr T256.rnd
    T256.msch T256.sum0 T256.sum1 T256.sigma0 T256.sigma1 T256.ch T256.maj T256.shr T256.rotr
sha256_abc = refl

sha1_abc :
    Sha1.hash_buf memory32 abc
    ≡ 0xa9 ∷ 0x99 ∷ 0x3e ∷ 0x36 ∷ 0x47 ∷ 0x06 ∷ 0x81 ∷ 0x6a ∷ 0xba ∷ 0x3e ∷ 0x25 ∷ 0x71 ∷ 0x78
      ∷ 0x50 ∷ 0xc2 ∷ 0x6c ∷ 0x9c ∷ 0xd0 ∷ 0xd8 ∷ 0x9d ∷ []
unfolding Pair.final Pair.update Pair.init Pair.pad Pair.buffered Pair.add_low Pair.add_high
    pad_length absorb complete_blocks memcpy enc_vect dec_vect add_words rotl be32enc be32dec
    T1.transform T1.rounds T1.schedule T1.rndr T1.rnd T1.ch T1.maj T1.parity
sha1_abc = refl

md5_abc :
    Md5.hash_buf memory32 abc
    ≡ 0x90 ∷ 0x01 ∷ 0x50 ∷ 0x98 ∷ 0x3c ∷ 0xd2 ∷ 0x4f ∷ 0xb0 ∷ 0xd6 ∷ 0x96 ∷ 0x3f ∷ 0x7d ∷ 0x28
      ∷ 0xe1 ∷ 0x7f ∷ 0x72 ∷ []
unfolding Pair.final Pair.update Pair.init Pair.pad Pair.buffered Pair.add_low Pair.add_high
    pad_length absorb complete_blocks memcpy enc_vect dec_vect add_words rotl le32enc le32dec
    T5.transform T5.rounds T5.rndr T5.rnd T5.f T5.g T5.h T5.i
md5_abc = refl

-- Two iterations for the password "abc" and the salt "a".
pbkdf2_two :
    pbkdf2_sha256 keyed abc (0x61 ∷ []) 2 (replicate 4 0) 4 ≡ done (0x14 ∷ 0xc6 ∷ 0xd9 ∷ 0x01 ∷ [])
unfolding pbkdf2_sha256 Pbkdf2.fill Pbkdf2.derive_block Pbkdf2.iterate Pbkdf2.prf Pbkdf2.xor_bytes
    Sha256.hmac_init Sha256.hmac_update Sha256.hmac_final_internal Hmac.init Hmac.update Hmac.final
    Hmac.use_key Hmac.xor_key Sha256.hash_buf Sha256.final_internal Sha256.update Sha256.init
    Sha256.pad Sha256.pad_to_56 Sha256.buffered absorb complete_blocks memcpy enc_vect dec_vect
    add_words be32enc be32dec be64enc T256.transform T256.mix T256.rounds T256.schedule T256.rndr
    T256.rnd T256.msch T256.sum0 T256.sum1 T256.sigma0 T256.sigma1 T256.ch T256.maj T256.shr
    T256.rotr
pbkdf2_two = refl

final-sha256_example :
    (Sha256.final (feed Sha256.update (Sha256.init memory) pieces)).1 ≡ sha256 (join pieces)
final-sha256_example = final-sha256 memory pieces refl

hmac_final-hmac_example :
    (Sha256.hmac_final (feed Sha256.hmac_update (Sha256.hmac_init keyed abc) pieces)).1
    ≡ hmac sha256 abc (join pieces)
hmac_final-hmac_example = hmac_final-hmac keyed abc pieces refl refl

final-sha1_example :
    (Sha1.final (feed Sha1.update (Sha1.init memory32) pieces)).1 ≡ sha1 (join pieces)
final-sha1_example = final-sha1 memory32 pieces refl

final-md5_example : (Md5.final (feed Md5.update (Md5.init memory32) pieces)).1 ≡ md5 (join pieces)
final-md5_example = final-md5 memory32 pieces refl

abbrev seeded : Drbg
seeded = record { key = replicate 32 0; v = replicate 32 1; reseed_counter = 256 }

generate-Generated_example : Returns (Generated seeded 40) (generate keyed seeded 40)
generate-Generated_example =
    generate-Generated keyed seeded 40 (refl, refl) (omega arith) (omega arith)

abbrev untouched : Generator
untouched = record { drbg = seeded; instantiated = false; calls = 0 }

-- The second call of `entropy_read` fails.
abbrev answers : ℕ → Option (List ℕ)
answers zero = some (replicate 48 3)
answers (suc n) = none

abbrev no_rdrand : ℕ → Option (List ℕ)
no_rdrand n = none

crypto_entropy_read-Ends_example :
    Returns
      (Ends keyed answers no_rdrand 70000)
      (crypto_entropy_read keyed answers no_rdrand true untouched 70000)
crypto_entropy_read-Ends_example =
    crypto_entropy_read-Ends keyed answers no_rdrand untouched 70000 (refl, refl) (omega arith)
