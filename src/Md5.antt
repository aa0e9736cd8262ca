-- ===== src/Md5.antt =====
-- alg/md5.c: the context that is fed in pieces, and the keyed hash.
pub mod Transform
use libcperciva.Prelude.{ℕ, ◌≡◌, arith, refl, sym, ap, ◌∙◌, List, [], ◌∷◌, length}
use libcperciva.SysEndian.{le32enc}
use libcperciva.Digest.{enc_vect, le64_bytes}
use libcperciva.Digest.Words.{le64_words}
use libcperciva.Digest.Hash.{Hash, Lawful}
use libcperciva.Digest.Pair as Pair
use libcperciva.Digest.Pair.{Ctx}
use libcperciva.Digest.Pair.Laws.{hash, laws, Ready}
use libcperciva.Digest.Hmac as Hmac
use libcperciva.Digest.Hmac.{HmacCtx, hmac}
use libcperciva.Digest.Pieces.{feed, join, hash_pieces, hmac_pieces}
use libcperciva.Md5.Transform.{transform, length-transform}

abbrev pub initial_state : List ℕ
initial_state = 0x67452301 ∷ 0xEFCDAB89 ∷ 0x98BADCFE ∷ 0x10325476 ∷ []

-- The words of `count`, in the order of the array.
abbrev pub len_bytes : ℕ → ℕ → List ℕ
len_bytes high low = enc_vect le32enc (low ∷ high ∷ [])

abbrev pub init : Ctx → Ctx
init = Pair.init initial_state

abbrev pub update : Ctx → List ℕ → Ctx
update = Pair.update transform

abbrev pub pad : Ctx → Ctx
pad = Pair.pad transform len_bytes

abbrev pub final : Ctx → Ctx × List ℕ
final = Pair.final transform le32enc len_bytes 4

-- The context on the stack starts as what is in memory.
abbrev pub hash_buf : Ctx → List ℕ → List ℕ
hash_buf c src = (final (update (init c) src)).1

abbrev pub functions : Hash
functions = record { Ctx = Ctx; init = init; update = update; final = final }

abbrev pub hmac_init : HmacCtx Ctx → List ℕ → HmacCtx Ctx
hmac_init = Hmac.init functions

abbrev pub hmac_update : HmacCtx Ctx → List ℕ → HmacCtx Ctx
hmac_update = Hmac.update functions

abbrev pub hmac_final : HmacCtx Ctx → HmacCtx Ctx × List ℕ
hmac_final = Hmac.final functions

abbrev pub hmac_buf : HmacCtx Ctx → List ℕ → List ℕ → List ℕ
hmac_buf = Hmac.buf functions

-- MD5 of a message: the padded message compressed block by block.
abbrev pub md5 : List ℕ → List ℕ
md5 = hash transform initial_state le32enc len_bytes le64_bytes le64_words length-transform

abbrev lawful : Lawful functions md5 16
lawful = laws transform initial_state le32enc len_bytes le64_bytes le64_words length-transform

-- Whatever a context with a buffer of 64 bytes held, after `MD5_Init` and updates with any pieces
-- `MD5_Final` gives the MD5 of the pieces one behind the other, although the count of bits is kept
-- in two words and the padding is fed in by two updates.
pub final-md5 :
    (c : Ctx) (pieces : List (List ℕ))
    → length c.buf ≡ 64
    → (final (feed update (init c) pieces)).1 ≡ md5 (join pieces)
final-md5 c pieces ready = hash_pieces functions md5 16 lawful (omega arith) c pieces ready

-- Whatever two contexts with buffers of 64 bytes held, after `HMAC_MD5_Init` with any key and
-- updates with any pieces `HMAC_MD5_Final` gives HMAC over MD5 of the key and of the pieces one
-- behind the other.
pub hmac_final-md5 :
    (c : HmacCtx Ctx) (key : List ℕ) (pieces : List (List ℕ))
    → length c.ictx.buf ≡ 64
    → length c.octx.buf ≡ 64
    → (hmac_final (feed hmac_update (hmac_init c key) pieces)).1 ≡ hmac md5 key (join pieces)
hmac_final-md5 c key pieces ri ro =
    hmac_pieces functions md5 16 lawful (omega arith) c key pieces ri ro
