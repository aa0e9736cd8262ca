-- ===== src/Base64/RoundTrip.antt =====
-- util/b64encode.c: decoding undoes encoding, and the encoding has the promised length.
use libcperciva.Prelude.{
  ℕ, ◌+◌, ◌-◌, ◌*◌, ◌/◌, ◌%◌, ◌≤◌, ◌<◌, ◌≡◌, refl, true, false, some, List, [], ◌∷◌, ◌++◌, done,
  arith, length, replicate, length-append, length-replicate, ltb, ltb-false_of_le, ==_iff, ◌==◌,
}
use libcperciva.Prelude.Chars.{strchr}
use libcperciva.Hexify.RoundTrip.{AreBytes}
use libcperciva.Base64.{
  encode_block, encode_loop, b64encode, is_b64, count_dead, decode_loop, b64decode,
}
use libcperciva.Base64.Block.{
  letter, digit-letter, count_dead-letter, digit_pad, digit1, digit2, digit3, digit4,
  encode_block_three, encode_block_two, encode_block_one, decode_digits,
}

-- The number of '=' at the end.
abbrev pub padding : List ℕ → ℕ
padding [] = 0
padding (a ∷ []) = 2
padding (a ∷ b ∷ []) = 1
padding (a ∷ b ∷ c ∷ xs) = padding xs

-- What the whole of the proof says of the encoding of `xs`.
record IsEncoding (xs s : List ℕ) : Type 0 where
  blocks : length s ≡ (length xs + 2) / 3 * 4
  counted : count_dead s 0 ≡ some (padding xs)
  decoded : decode_loop s ≡ xs ++ replicate (padding xs) 0

pad_one : count_dead (b'=' ∷ []) 0 ≡ some 1
unfolding count_dead is_b64 strchr
pad_one = refl

pad_two : count_dead (b'=' ∷ b'=' ∷ []) 0 ≡ some 2
unfolding count_dead is_b64 strchr
pad_two = refl

one-IsEncoding : (a : ℕ) → a < 256 → IsEncoding (a ∷ []) (encode_block (a ∷ []))
unfolding decode_loop
one-IsEncoding a ha =
    let l1 = digit1 a in
    let l2 = digit2 a 0 in
    rw (encode_block_one a ha) (record {
      blocks = omega arith;
      counted = rw (count_dead-letter l1 (omega arith), count_dead-letter l2 (omega arith)) pad_two;
      decoded = rw (
          decode_digits (letter l1) (letter l2) b'=' b'=' a 0 0 ha (omega arith) (omega arith)
            (digit-letter l1 (omega arith)) (digit-letter l2 (omega arith)) digit_pad digit_pad);
    })

two-IsEncoding : (a b : ℕ) → a < 256 → b < 256 → IsEncoding (a ∷ b ∷ []) (encode_block (a ∷ b ∷ []))
unfolding decode_loop
two-IsEncoding a b ha hb =
    let l1 = digit1 a in
    let l2 = digit2 a b in
    let l3 = digit3 b 0 in
    rw (encode_block_two a b ha hb) (record {
      blocks = omega arith;
      counted =
          rw
            (
              count_dead-letter l1 (omega arith),
              count_dead-letter l2 (omega arith),
              count_dead-letter l3 (omega arith),
            )
            pad_one;
      decoded = rw (
          decode_digits (letter l1) (letter l2) (letter l3) b'=' a b 0 ha hb (omega arith)
            (digit-letter l1 (omega arith)) (digit-letter l2 (omega arith))
            (digit-letter l3 (omega arith)) digit_pad);
    })

three-IsEncoding :
    (a b c : ℕ) (xs s : List ℕ)
    → a < 256
    → b < 256
    → c < 256
    → IsEncoding xs s
    → IsEncoding (a ∷ b ∷ c ∷ xs) (encode_block (a ∷ b ∷ c ∷ xs) ++ s)
unfolding decode_loop
three-IsEncoding a b c xs s ha hb hc ih =
    let l1 = digit1 a in
    let l2 = digit2 a b in
    let l3 = digit3 b c in
    let l4 = digit4 c in
    rw (encode_block_three a b c xs ha hb hc) (record {
      blocks = omega (arith, ih.blocks);
      counted =
          rw
            (
              count_dead-letter l1 (omega arith),
              count_dead-letter l2 (omega arith),
              count_dead-letter l3 (omega arith),
              count_dead-letter l4 (omega arith),
            )
            ih.counted;
      decoded = rw (
        decode_digits (letter l1) (letter l2) (letter l3) (letter l4) a b c ha hb hc
            (digit-letter l1 (omega arith)) (digit-letter l2 (omega arith))
            (digit-letter l3 (omega arith)) (digit-letter l4 (omega arith)),
        ih.decoded,
      );
    })

encode_loop-IsEncoding : (xs : List ℕ) → AreBytes xs → IsEncoding xs (encode_loop xs)
unfolding encode_loop
encode_loop-IsEncoding [] h = record {
  blocks = omega arith;
  counted = unfold count_dead in refl;
  decoded = unfold decode_loop in refl;
}
encode_loop-IsEncoding (a ∷ []) (ha, h) = one-IsEncoding a ha
encode_loop-IsEncoding (a ∷ b ∷ []) (ha, (hb, h)) = two-IsEncoding a b ha hb
encode_loop-IsEncoding (a ∷ b ∷ c ∷ xs) (ha, (hb, (hc, h))) =
    three-IsEncoding a b c xs (encode_loop xs) ha hb hc (encode_loop-IsEncoding xs h)

padding_le : (xs : List ℕ) → padding xs ≤ 2
padding_le [] = omega arith
padding_le (a ∷ []) = omega arith
padding_le (a ∷ b ∷ []) = omega arith
padding_le (a ∷ b ∷ c ∷ xs) = padding_le xs

-- Base-64 text decodes to the bytes that it was made from: for any bytes the call succeeds, reports
-- their number, and has stored them at the front of the output, with a zero for each padding
-- character behind them.
pub b64decode_encode :
    (xs : List ℕ)
    → AreBytes xs
    → b64decode (encode_loop xs) ≡ done (xs ++ replicate (padding xs) 0, length xs)
unfolding b64decode
b64decode_encode xs h =
    let e = encode_loop-IsEncoding xs h in
    let whole : (length (encode_loop xs) % 4 == 0) ≡ true =
      let r : length (encode_loop xs) % 4 ≡ 0 = omega (arith, e.blocks) in (==_iff _ _).1 r in
    let few : ltb 2 (padding xs) ≡ false = ltb-false_of_le 2 (padding xs) (padding_le xs) in
    let count : length (xs ++ replicate (padding xs) 0) - padding xs ≡ length xs = omega (
      arith,
      length-append xs (replicate (padding xs) 0),
      length-replicate {A = ℕ} (padding xs) 0,
    ) in
    rw (whole, e.counted, few, e.decoded, count)

-- For any bytes, what `b64encode` stores is text and then a NUL, and the text takes four characters
-- for every three bytes begun.
pub length-b64encode :
    (xs : List ℕ)
    → AreBytes xs
    → (b64encode xs ≡ encode_loop xs ++ 0 ∷ [])
      × (length (encode_loop xs) ≡ (length xs + 2) / 3 * 4)
unfolding b64encode
length-b64encode xs h = (refl, (encode_loop-IsEncoding xs h).blocks)
