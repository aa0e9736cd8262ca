-- ===== src/SysEndian/Value.antt =====
-- util/sysendian.h: the decoders read the value of the bytes, in the stated order.
use Prim.Native.Nat.{bit_or}
use libcperciva.Prelude.{ℕ, ◌+◌, ◌*◌, ◌%◌, ◌^◌, ◌<◌, ◌≡◌, arith}
use native.Mathlib.Nat.{mod-eq_of_lt}
use libcperciva.Prelude.Bits.{bit_or_low}
use libcperciva.SysEndian.{
  Bytes2, Bytes4, Bytes8, be16dec, be32dec, be64dec, le16dec, le32dec, le64dec,
}

-- `|` of a field and of a byte shifted above it.
joined :
    (k width low byte : ℕ)
    → low < 2 ^ k
    → byte * 2 ^ k < 2 ^ width
    → bit_or low (byte * 2 ^ k % 2 ^ width) ≡ low + byte * 2 ^ k
joined k width low byte h fits = rw (mod-eq_of_lt fits) (bit_or_low k low byte h)

abbrev pub AreBytes2 : Bytes2 → Type 0
AreBytes2 b = (b.p0 < 256) × (b.p1 < 256)

abbrev pub AreBytes4 : Bytes4 → Type 0
AreBytes4 b = (b.p0 < 256) × (b.p1 < 256) × (b.p2 < 256) × (b.p3 < 256)

-- The value of four bytes, least significant first.
abbrev pub value4 : ℕ → ℕ → ℕ → ℕ → ℕ
value4 a b c d = a + 2 ^ 8 * b + 2 ^ 16 * c + 2 ^ 24 * d

or4 :
    (a b c d : ℕ)
    → a < 256
    → b < 256
    → c < 256
    → d < 256
    → bit_or (bit_or (bit_or a (b * 2 ^ 8 % 2 ^ 32)) (c * 2 ^ 16 % 2 ^ 32)) (d * 2 ^ 24 % 2 ^ 32)
      ≡ value4 a b c d
or4 a b c d ha hb hc hd =
    rw
      (
        joined 8 32 a b ha (omega arith),
        joined 16 32 (a + b * 2 ^ 8) c (omega arith) (omega arith),
        joined 24 32 (a + b * 2 ^ 8 + c * 2 ^ 16) d (omega arith) (omega arith),
      )
      (omega arith)

abbrev pub AreBytes8 : Bytes8 → Type 0
AreBytes8 b =
    (b.p0 < 256)
    × (b.p1 < 256)
    × (b.p2 < 256)
    × (b.p3 < 256)
    × (b.p4 < 256)
    × (b.p5 < 256)
    × (b.p6 < 256)
    × (b.p7 < 256)

-- The value of eight bytes, least significant first.
abbrev pub value8 : ℕ → ℕ → ℕ → ℕ → ℕ → ℕ → ℕ → ℕ → ℕ
value8 a b c d e f g h = value4 a b c d + 2 ^ 32 * value4 e f g h

module _ (a b c d e f g h : ℕ) (ha : a < 256) (hb : b < 256) (hc : c < 256) (hd : d < 256)
    (he : e < 256) (hf : f < 256) (hg : g < 256) (hh : h < 256) where
  low4 :
      bit_or (bit_or (bit_or a (b * 2 ^ 8 % 2 ^ 64)) (c * 2 ^ 16 % 2 ^ 64)) (d * 2 ^ 24 % 2 ^ 64)
      ≡ value4 a b c d
  low4 =
      rw
        (
          joined 8 64 a b ha (omega arith),
          joined 16 64 (a + b * 2 ^ 8) c (omega arith) (omega arith),
          joined 24 64 (a + b * 2 ^ 8 + c * 2 ^ 16) d (omega arith) (omega arith),
        )
        (omega arith)

  or8 :
      bit_or
        (bit_or
          (bit_or
            (bit_or
              (bit_or
                (bit_or (bit_or a (b * 2 ^ 8 % 2 ^ 64)) (c * 2 ^ 16 % 2 ^ 64))
                (d * 2 ^ 24 % 2 ^ 64))
              (e * 2 ^ 32 % 2 ^ 64))
            (f * 2 ^ 40 % 2 ^ 64))
          (g * 2 ^ 48 % 2 ^ 64))
        (h * 2 ^ 56 % 2 ^ 64)
      ≡ value8 a b c d e f g h
  or8 =
      let low = value4 a b c d in
      rw
        (
          low4,
          joined 32 64 low e (omega arith) (omega arith),
          joined 40 64 (low + e * 2 ^ 32) f (omega arith) (omega arith),
          joined 48 64 (low + e * 2 ^ 32 + f * 2 ^ 40) g (omega arith) (omega arith),
          joined 56 64 (low + e * 2 ^ 32 + f * 2 ^ 40 + g * 2 ^ 48) h (omega arith) (omega arith),
        )
        (omega arith)

-- Two bytes are read by weight, in either order.
pub dec16_value :
    (b : Bytes2)
    → AreBytes2 b
    → (be16dec b ≡ b.p1 + 2 ^ 8 * b.p0) × (le16dec b ≡ b.p0 + 2 ^ 8 * b.p1)
unfolding be16dec le16dec
dec16_value b (h0, h1) = (
  rw (joined 8 32 b.p1 b.p0 h1 (omega arith)) (omega arith),
  rw (joined 8 32 b.p0 b.p1 h0 (omega arith)) (omega arith),
)

-- Four bytes are read by weight, in either order.
pub dec32_value :
    (b : Bytes4)
    → AreBytes4 b
    → (be32dec b ≡ value4 b.p3 b.p2 b.p1 b.p0) × (le32dec b ≡ value4 b.p0 b.p1 b.p2 b.p3)
unfolding be32dec le32dec
dec32_value b (h0, h1, h2, h3) =
    (or4 b.p3 b.p2 b.p1 b.p0 h3 h2 h1 h0, or4 b.p0 b.p1 b.p2 b.p3 h0 h1 h2 h3)

-- Eight bytes are decoded to the sum of the bytes by weight, the most significant byte first or
-- last.
pub dec64_value :
    (b : Bytes8)
    → AreBytes8 b
    → (be64dec b ≡ value8 b.p7 b.p6 b.p5 b.p4 b.p3 b.p2 b.p1 b.p0)
      × (le64dec b ≡ value8 b.p0 b.p1 b.p2 b.p3 b.p4 b.p5 b.p6 b.p7)
unfolding be64dec le64dec
dec64_value b (h0, h1, h2, h3, h4, h5, h6, h7) = (
  or8 b.p7 b.p6 b.p5 b.p4 b.p3 b.p2 b.p1 b.p0 h7 h6 h5 h4 h3 h2 h1 h0,
  or8 b.p0 b.p1 b.p2 b.p3 b.p4 b.p5 b.p6 b.p7 h0 h1 h2 h3 h4 h5 h6 h7,
)
