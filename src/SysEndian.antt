-- ===== src/SysEndian.antt =====
-- util/sysendian.h: integers stored in bytes, most or least significant byte first.
-- A pointer to the bytes is the list of them; what an encoder stores is the list it returns.
pub mod Value
pub mod RoundTrip
use Prim.Native.Nat.{bit_and, bit_or}
use libcperciva.Prelude.{ℕ, ◌*◌, ◌/◌, ◌%◌, ◌^◌, List, [], ◌∷◌}

-- `x >> k` and `x << k`; the shifts to the left stay below the width that is written out.
infixl 60 ◌>>>◌ ◌<<<◌
abbrev pub ◌>>>◌ : ℕ → ℕ → ℕ
x >>> k = x / 2 ^ k

abbrev pub ◌<<<◌ : ℕ → ℕ → ℕ
x <<< k = x * 2 ^ k

-- The bytes of an array parameter: exactly as many as the function reads.
pub record Bytes2 : Type 0 where
  pub p0 : ℕ
  pub p1 : ℕ

pub record Bytes4 : Type 0 where
  pub p0 : ℕ
  pub p1 : ℕ
  pub p2 : ℕ
  pub p3 : ℕ

pub record Bytes8 : Type 0 where
  pub p0 : ℕ
  pub p1 : ℕ
  pub p2 : ℕ
  pub p3 : ℕ
  pub p4 : ℕ
  pub p5 : ℕ
  pub p6 : ℕ
  pub p7 : ℕ

unfoldable pub be16dec : Bytes2 → ℕ
be16dec b = bit_or b.p1 ((b.p0 <<< 8) % 2 ^ 32) % 2 ^ 16

unfoldable pub be16enc : ℕ → Bytes2
be16enc x = record { p1 = bit_and x 0xff; p0 = bit_and (x >>> 8) 0xff }

unfoldable pub be32dec : Bytes4 → ℕ
be32dec b =
    bit_or (bit_or (bit_or b.p3 ((b.p2 <<< 8) % 2 ^ 32)) ((b.p1 <<< 16) % 2 ^ 32))
      ((b.p0 <<< 24) % 2 ^ 32)

unfoldable pub be32enc : ℕ → Bytes4
be32enc x = record {
  p3 = bit_and x 0xff;
  p2 = bit_and (x >>> 8) 0xff;
  p1 = bit_and (x >>> 16) 0xff;
  p0 = bit_and (x >>> 24) 0xff;
}

unfoldable pub be64dec : Bytes8 → ℕ
be64dec b =
    bit_or
      (bit_or
        (bit_or
          (bit_or
            (bit_or (bit_or (bit_or b.p7 ((b.p6 <<< 8) % 2 ^ 64)) ((b.p5 <<< 16) % 2 ^ 64))
              ((b.p4 <<< 24) % 2 ^ 64))
            ((b.p3 <<< 32) % 2 ^ 64))
          ((b.p2 <<< 40) % 2 ^ 64))
        ((b.p1 <<< 48) % 2 ^ 64))
      ((b.p0 <<< 56) % 2 ^ 64)

unfoldable pub be64enc : ℕ → Bytes8
be64enc x = record {
  p7 = bit_and x 0xff;
  p6 = bit_and (x >>> 8) 0xff;
  p5 = bit_and (x >>> 16) 0xff;
  p4 = bit_and (x >>> 24) 0xff;
  p3 = bit_and (x >>> 32) 0xff;
  p2 = bit_and (x >>> 40) 0xff;
  p1 = bit_and (x >>> 48) 0xff;
  p0 = bit_and (x >>> 56) 0xff;
}

unfoldable pub le16dec : Bytes2 → ℕ
le16dec b = bit_or b.p0 ((b.p1 <<< 8) % 2 ^ 32) % 2 ^ 16

unfoldable pub le16enc : ℕ → Bytes2
le16enc x = record { p0 = bit_and x 0xff; p1 = bit_and (x >>> 8) 0xff }

unfoldable pub le32dec : Bytes4 → ℕ
le32dec b =
    bit_or (bit_or (bit_or b.p0 ((b.p1 <<< 8) % 2 ^ 32)) ((b.p2 <<< 16) % 2 ^ 32))
      ((b.p3 <<< 24) % 2 ^ 32)

unfoldable pub le32enc : ℕ → Bytes4
le32enc x = record {
  p0 = bit_and x 0xff;
  p1 = bit_and (x >>> 8) 0xff;
  p2 = bit_and (x >>> 16) 0xff;
  p3 = bit_and (x >>> 24) 0xff;
}

unfoldable pub le64dec : Bytes8 → ℕ
le64dec b =
    bit_or
      (bit_or
        (bit_or
          (bit_or
            (bit_or (bit_or (bit_or b.p0 ((b.p1 <<< 8) % 2 ^ 64)) ((b.p2 <<< 16) % 2 ^ 64))
              ((b.p3 <<< 24) % 2 ^ 64))
            ((b.p4 <<< 32) % 2 ^ 64))
          ((b.p5 <<< 40) % 2 ^ 64))
        ((b.p6 <<< 48) % 2 ^ 64))
      ((b.p7 <<< 56) % 2 ^ 64)

unfoldable pub le64enc : ℕ → Bytes8
le64enc x = record {
  p0 = bit_and x 0xff;
  p1 = bit_and (x >>> 8) 0xff;
  p2 = bit_and (x >>> 16) 0xff;
  p3 = bit_and (x >>> 24) 0xff;
  p4 = bit_and (x >>> 32) 0xff;
  p5 = bit_and (x >>> 40) 0xff;
  p6 = bit_and (x >>> 48) 0xff;
  p7 = bit_and (x >>> 56) 0xff;
}
