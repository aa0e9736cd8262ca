-- ===== src/Digest.antt =====
-- alg/sha256.c, alg/sha1.c, alg/md5.c: what the three files do alike. The buffer of 64 bytes, the
-- loop over complete blocks, and the encoding of vectors of words, which are copies of one another
-- up to the compression function and the byte order.
pub mod Blocks
pub mod Absorb
pub mod Padding
pub mod Words
pub mod Pair
pub mod Hash
pub mod Hmac
pub mod Pieces
use Prim.Native.Nat.{bit_or}
use libcperciva.Prelude.{
  ℕ, zero, suc, ◌+◌, ◌-◌, ◌*◌, ◌/◌, ◌%◌, ◌^◌, List, [], ◌∷◌, true, false, ltb, leb, length, take,
  drop, replicate, memcpy,
}
use libcperciva.SysEndian.{Bytes4, Bytes8, be64enc, le64enc}

-- `x + y` on `uint32_t`.
infixl 60 ◌+₃₂◌
abbrev pub ◌+₃₂◌ : ℕ → ℕ → ℕ
x +₃₂ y = (x + y) % 2 ^ 32

-- `((x) << (n)) | ((x) >> (32 - (n)))` on `uint32_t`.
unfoldable pub rotl : ℕ → ℕ → ℕ
rotl x n = bit_or (x * 2 ^ n % 2 ^ 32) (x / 2 ^ (32 - n))

-- The words of a vector, each in four bytes.
unfoldable pub enc_vect : (ℕ → Bytes4) → List ℕ → List ℕ
enc_vect enc [] = []
enc_vect enc (w ∷ ws) = let b = enc w in b.p0 ∷ b.p1 ∷ b.p2 ∷ b.p3 ∷ enc_vect enc ws

-- The words that complete groups of four bytes store.
unfoldable pub dec_vect : (Bytes4 → ℕ) → List ℕ → List ℕ
dec_vect dec (a ∷ b ∷ c ∷ d ∷ rest) =
    dec (record { p0 = a; p1 = b; p2 = c; p3 = d }) ∷ dec_vect dec rest
dec_vect dec _ = []

-- The four bytes in the order of their addresses.
abbrev pub bytes4 : Bytes4 → List ℕ
bytes4 b = b.p0 ∷ b.p1 ∷ b.p2 ∷ b.p3 ∷ []

-- The eight bytes in the order of their addresses.
abbrev pub bytes8 : Bytes8 → List ℕ
bytes8 b = b.p0 ∷ b.p1 ∷ b.p2 ∷ b.p3 ∷ b.p4 ∷ b.p5 ∷ b.p6 ∷ b.p7 ∷ []

abbrev pub be64_bytes : ℕ → List ℕ
be64_bytes x = bytes8 (be64enc x)

abbrev pub le64_bytes : ℕ → List ℕ
le64_bytes x = bytes8 (le64enc x)

-- `state[i] += S[i]` for every word of the state.
unfoldable pub add_words : List ℕ → List ℕ → List ℕ
add_words (x ∷ xs) (y ∷ ys) = (x +₃₂ y) ∷ add_words xs ys
add_words _ _ = []

-- The array `PAD`.
abbrev pub pad_bytes : List ℕ
pad_bytes = 0x80 ∷ replicate 63 0

module _ (transform : List ℕ → List ℕ → List ℕ) where
  -- `while (len >= 64)`: complete blocks are mixed in from where they are. The result has the
  -- state and the bytes that are left.
  unfoldable pub complete_blocks : ℕ → List ℕ → List ℕ → List ℕ × List ℕ
  complete_blocks zero state src = (state, src)
  complete_blocks (suc fuel) state src = elim (leb 64 (length src)) [
    | true ↦ complete_blocks fuel (transform state (take 64 src)) (drop 64 src)
    | false ↦ (state, src)
  ]

  -- The update functions from the first `memcpy` on, where `r` bytes are in the buffer.
  unfoldable pub absorb : List ℕ → List ℕ → ℕ → List ℕ → List ℕ × List ℕ
  absorb state buf r src = elim (ltb (length src) (64 - r)) [
    | true ↦ (state, memcpy buf r src (length src))
    | false ↦
        let filled = memcpy buf r src (64 - r) in
        let end = complete_blocks (length src) (transform state filled) (drop (64 - r) src) in
        (end.0, memcpy filled 0 end.1 (length end.1))
  ]
