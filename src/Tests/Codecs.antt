-- ===== src/Tests/Codecs.antt =====
-- util/sysendian.h, util/hexify.c and util/b64encode.c at concrete bytes.
use libcperciva.Prelude.{
  ℕ, ◌*◌, ◌≡◌, ◌↔◌, refl, List, [], ◌∷◌, ◌++◌, arith, done, length, replicate,
}
use libcperciva.Prelude.Chars.{codes}
use libcperciva.SysEndian.{Bytes4, Bytes8, be32dec, be64dec, be64enc, le32dec, le64dec, le64enc}
use libcperciva.SysEndian.Value.{AreBytes8, value4, dec32_value}
use libcperciva.SysEndian.RoundTrip.{enc64_dec}
use libcperciva.Hexify.{hexify, unhexify}
use libcperciva.Hexify.RoundTrip.{AreBytes, AreHex, unhexify-hexify, unhexify_accepts}
use libcperciva.Base64.{encode_loop, b64decode, encode_block, read_block, write_block}
use libcperciva.Base64.RoundTrip.{b64decode_encode}

abbrev four : Bytes4
four = record { p0 = 0x12; p1 = 0x34; p2 = 0x56; p3 = 0x78 }

four_read : be32dec four ≡ 0x12345678
unfolding be32dec
four_read = refl

abbrev eight : Bytes8
eight = record { p0 = 1; p1 = 2; p2 = 3; p3 = 4; p4 = 5; p5 = 6; p6 = 7; p7 = 8 }

dec32_value_example :
    (be32dec four ≡ value4 0x78 0x56 0x34 0x12) × (le32dec four ≡ value4 0x12 0x34 0x56 0x78)
dec32_value_example = dec32_value four (omega arith)

enc64_dec_example :
    AreBytes8 (be64enc 0xfedcba9876543210)
    × AreBytes8 (le64enc 0xfedcba9876543210)
    × (be64dec (be64enc 0xfedcba9876543210) ≡ 0xfedcba9876543210)
    × (le64dec (le64enc 0xfedcba9876543210) ≡ 0xfedcba9876543210)
enc64_dec_example = enc64_dec 0xfedcba9876543210 (omega arith)

abbrev three : List ℕ
three = 0 ∷ 0xa7 ∷ 255 ∷ []

three_written : hexify three ≡ codes "00a7ff" ++ 0 ∷ []
unfolding hexify
three_written = refl

unhexify-hexify_example : unhexify (hexify three) 3 ≡ done three
unhexify-hexify_example = unhexify-hexify three (omega arith)

unhexify_accepts_example :
    AreHex (2 * 1) (codes "g0")
    ↔ ((out : List ℕ) × (unhexify (codes "g0") 1 ≡ done out) × (length out ≡ 1) × AreBytes out)
unhexify_accepts_example = unhexify_accepts (codes "g0") 1

abbrev word : List ℕ
word = codes "abcd"

word_encoded : encode_loop word ≡ codes "YWJjZA=="
unfolding encode_loop encode_block read_block write_block
word_encoded = refl

b64decode_encode_example : b64decode (encode_loop word) ≡ done (word ++ replicate 2 0, 4)
b64decode_encode_example = b64decode_encode word (omega arith)
