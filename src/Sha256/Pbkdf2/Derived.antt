-- ===== src/Sha256/Pbkdf2/Derived.antt =====
-- alg/sha256.c: the loops of PBKDF2 compute the key that the standard defines.
use Prim.Native.Nat.{bit_xor}
use libcperciva.Prelude.{
  ℕ, zero, suc, ◌+◌, ◌-◌, ◌*◌, ◌≡◌, arith, List, [], ◌∷◌, ◌++◌, ltb, if◌then◌else◌, length, take,
  min,
}
use libcperciva.SysEndian.{be32enc}
use libcperciva.Digest.{bytes4}
use libcperciva.Digest.Hmac as Hmac
use libcperciva.Digest.Hmac.{hmac, Keyed}
use libcperciva.Sha256.{HmacSha256, sha256_internal}
use libcperciva.Sha256.Stream.{sha256, internal_laws}

-- The exclusive or of two strings of one length, byte by byte.
abbrev pub exclusive_or : List ℕ → List ℕ → List ℕ
exclusive_or (x ∷ xs) (y ∷ ys) = bit_xor x y ∷ exclusive_or xs ys
exclusive_or xs ys = []

module _ (passwd salt : List ℕ) where
  -- `U_1` to `U_c` for block `i`, numbered from 0, and their exclusive or.
  abbrev pub chain : ℕ → ℕ → List ℕ
  chain i zero = hmac sha256 passwd (salt ++ bytes4 (be32enc (i + 1)))
  chain i (suc j) = hmac sha256 passwd (chain i j)

  abbrev pub folded : ℕ → ℕ → List ℕ
  folded i zero = chain i 0
  folded i (suc j) = exclusive_or (folded i j) (chain i (suc j))

  -- The blocks `T_1` to `T_n` one behind the other.
  abbrev pub derived : ℕ → ℕ → List ℕ
  derived c zero = []
  derived c (suc n) = derived c n ++ folded n (c - 1)

abbrev IsKeyed : HmacSha256 → List ℕ → List ℕ → Type 0
IsKeyed c key m = Keyed sha256_internal sha256 32 internal_laws (omega arith) c key m

module _ (passwd salt : List ℕ) (ph phs : HmacSha256) (keyed : IsKeyed ph passwd [])
    (salted : IsKeyed phs passwd salt) where
  -- The first `i` blocks are in the buffer of `dk_len` bytes, as far as they fit.
  abbrev Filled : ℕ → ℕ → List ℕ → ℕ → Type 0
  Filled c i buf dk_len =
      (length buf ≡ dk_len)
      × (take (min (32 * i) dk_len) buf ≡ take dk_len (derived passwd salt c i))

  module _ (c i dk_len : ℕ) (buf : List ℕ) (filled : Filled c i buf dk_len) where
    abbrev block : List ℕ
    block = folded passwd salt i (c - 1)

    abbrev left : ℕ
    left = dk_len - i * 32

    abbrev clen : ℕ
    clen = if ltb 32 left then 32 else left
