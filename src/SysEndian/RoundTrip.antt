-- ===== src/SysEndian/RoundTrip.antt =====
-- util/sysendian.h: decoding and encoding are inverse to one another.
use Prim.Native.Nat.{bit_and}
use libcperciva.Prelude.{ℕ, ◌/◌, ◌%◌, ◌^◌, ◌<◌, ◌≡◌, ap, sym, ◌∙◌, arith}
use libcperciva.Prelude.Bits.{bit_and_255}
use libcperciva.SysEndian.{
  Bytes4, be16dec, be16enc, be32dec, be32enc, be64dec, be64enc, le16dec, le16enc, le32dec, le32enc,
  le64dec, le64enc,
}
use libcperciva.SysEndian.Value.{
  AreBytes2, AreBytes4, AreBytes8, value4, value8, dec16_value, dec32_value, dec64_value,
}

pub enc16_dec :
    (x : ℕ)
    → x < 2 ^ 16
    → AreBytes2 (be16enc x)
      × AreBytes2 (le16enc x)
      × (be16dec (be16enc x) ≡ x)
      × (le16dec (le16enc x) ≡ x)
unfolding be16enc le16enc
enc16_dec x h =
    let low = bit_and_255 x in
    let high = bit_and_255 (x / 2 ^ 8) in
    let be : AreBytes2 (be16enc x) = (omega (arith, high), omega (arith, low)) in
    let le : AreBytes2 (le16enc x) = (omega (arith, low), omega (arith, high)) in
    (
      be,
      le,
      omega (arith, (dec16_value (be16enc x) be).0, low, high),
      omega (arith, (dec16_value (le16enc x) le).1, low, high),
    )

-- The four bytes stored for an integer of 32 bits are bytes, and decoding them in the order that
-- they were encoded in gives the integer back.
pub enc32_dec :
    (x : ℕ)
    → x < 2 ^ 32
    → AreBytes4 (be32enc x)
      × AreBytes4 (le32enc x)
      × (be32dec (be32enc x) ≡ x)
      × (le32dec (le32enc x) ≡ x)
unfolding be32enc le32enc
enc32_dec x h =
    let w0 = bit_and_255 x in
    let w1 = bit_and_255 (x / 2 ^ 8) in
    let w2 = bit_and_255 (x / 2 ^ 16) in
    let w3 = bit_and_255 (x / 2 ^ 24) in
    let be : AreBytes4 (be32enc x) =
      (omega (arith, w3), omega (arith, w2), omega (arith, w1), omega (arith, w0)) in
    let le : AreBytes4 (le32enc x) =
      (omega (arith, w0), omega (arith, w1), omega (arith, w2), omega (arith, w3)) in
    (
      be,
      le,
      omega (arith, (dec32_value (be32enc x) be).0, w0, w1, w2, w3),
      omega (arith, (dec32_value (le32enc x) le).1, w0, w1, w2, w3),
    )

-- An integer is the weighted sum of its bytes.
bytes_value :
    (x : ℕ)
    → x < 2 ^ 64
    → x
      ≡ value8
          (x % 256)
          (x / 2 ^ 8 % 256)
          (x / 2 ^ 16 % 256)
          (x / 2 ^ 24 % 256)
          (x / 2 ^ 32 % 256)
          (x / 2 ^ 40 % 256)
          (x / 2 ^ 48 % 256)
          (x / 2 ^ 56 % 256)
bytes_value x h = omega arith

be64enc_bytes :
    (x : ℕ)
    → be64enc x ≡ record {
      p0 = x / 2 ^ 56 % 256;
      p1 = x / 2 ^ 48 % 256;
      p2 = x / 2 ^ 40 % 256;
      p3 = x / 2 ^ 32 % 256;
      p4 = x / 2 ^ 24 % 256;
      p5 = x / 2 ^ 16 % 256;
      p6 = x / 2 ^ 8 % 256;
      p7 = x % 256;
    }
unfolding be64enc
be64enc_bytes x = λ i. record {
  p0 = bit_and_255 (x / 2 ^ 56) i;
  p1 = bit_and_255 (x / 2 ^ 48) i;
  p2 = bit_and_255 (x / 2 ^ 40) i;
  p3 = bit_and_255 (x / 2 ^ 32) i;
  p4 = bit_and_255 (x / 2 ^ 24) i;
  p5 = bit_and_255 (x / 2 ^ 16) i;
  p6 = bit_and_255 (x / 2 ^ 8) i;
  p7 = bit_and_255 x i;
}

le64enc_bytes :
    (x : ℕ)
    → le64enc x ≡ record {
      p0 = x % 256;
      p1 = x / 2 ^ 8 % 256;
      p2 = x / 2 ^ 16 % 256;
      p3 = x / 2 ^ 24 % 256;
      p4 = x / 2 ^ 32 % 256;
      p5 = x / 2 ^ 40 % 256;
      p6 = x / 2 ^ 48 % 256;
      p7 = x / 2 ^ 56 % 256;
    }
unfolding le64enc
le64enc_bytes x = λ i. record {
  p0 = bit_and_255 x i;
  p1 = bit_and_255 (x / 2 ^ 8) i;
  p2 = bit_and_255 (x / 2 ^ 16) i;
  p3 = bit_and_255 (x / 2 ^ 24) i;
  p4 = bit_and_255 (x / 2 ^ 32) i;
  p5 = bit_and_255 (x / 2 ^ 40) i;
  p6 = bit_and_255 (x / 2 ^ 48) i;
  p7 = bit_and_255 (x / 2 ^ 56) i;
}

-- The eight bytes stored for an integer of 64 bits are bytes, and decoding them in the order that
-- they were encoded in gives the integer back.
pub enc64_dec :
    (x : ℕ)
    → x < 2 ^ 64
    → AreBytes8 (be64enc x)
      × AreBytes8 (le64enc x)
      × (be64dec (be64enc x) ≡ x)
      × (le64dec (le64enc x) ≡ x)
enc64_dec x h =
    rw (be64enc_bytes x, le64enc_bytes x)
      (
        omega arith,
        omega arith,
        (dec64_value _ (omega arith)).0 ∙ sym (bytes_value x h),
        (dec64_value _ (omega arith)).1 ∙ sym (bytes_value x h),
      )

module _ (a b c d : ℕ) (ha : a < 256) (hb : b < 256) (hc : c < 256) (hd : d < 256) where
  first : bit_and (value4 a b c d) 255 ≡ a
  first = bit_and_255 (value4 a b c d) ∙ omega arith

  second : bit_and (value4 a b c d / 2 ^ 8) 255 ≡ b
  second = bit_and_255 (value4 a b c d / 2 ^ 8) ∙ omega arith

  third : bit_and (value4 a b c d / 2 ^ 16) 255 ≡ c
  third = bit_and_255 (value4 a b c d / 2 ^ 16) ∙ omega arith

  fourth : bit_and (value4 a b c d / 2 ^ 24) 255 ≡ d
  fourth = bit_and_255 (value4 a b c d / 2 ^ 24) ∙ omega arith

  be32enc_value : be32enc (value4 a b c d) ≡ record { p0 = d; p1 = c; p2 = b; p3 = a }
  unfolding be32enc
  be32enc_value = λ i. record { p0 = fourth i; p1 = third i; p2 = second i; p3 = first i }

  le32enc_value : le32enc (value4 a b c d) ≡ record { p0 = a; p1 = b; p2 = c; p3 = d }
  unfolding le32enc
  le32enc_value = λ i. record { p0 = first i; p1 = second i; p2 = third i; p3 = fourth i }

-- Decoding four bytes and encoding the result in the same order stores the same four bytes.
pub dec32_enc : (b : Bytes4) → AreBytes4 b → (be32enc (be32dec b) ≡ b) × (le32enc (le32dec b) ≡ b)
dec32_enc b h =
    let (big, little) = dec32_value b h in
    let (h0, h1, h2, h3) = h in
    (
      ap be32enc big ∙ be32enc_value b.p3 b.p2 b.p1 b.p0 h3 h2 h1 h0,
      ap le32enc little ∙ le32enc_value b.p0 b.p1 b.p2 b.p3 h0 h1 h2 h3,
    )
