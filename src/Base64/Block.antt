-- ===== src/Base64/Block.antt =====
-- util/b64encode.c: one block of three bytes and four characters.
use Prim.Native.Nat.{bit_and}
use libcperciva.Prelude.{
  ℕ, ◌+◌, ◌*◌, ◌/◌, ◌%◌, ◌^◌, ◌≤◌, ◌<◌, ◌≡◌, refl, ap, ◌∙◌, Bool, true, false, not, ◌&&◌, List, [],
  ◌∷◌, arith, get_or, length, leb_of_le, ◌==◌,
}
use libcperciva.Prelude.Bits.{bit_and_63, bit_and_255}
use libcperciva.Prelude.Chars.{strchr, holds_below, holds_below_at}
use libcperciva.Base64.{
  b64chars, read_block, write_block, encode_block, is_b64, count_dead, digit, parse_block,
  output_block,
}

-- The character for a digit.
abbrev pub letter : ℕ → ℕ
letter d = get_or b64chars d 0

abbrev good_letter : ℕ → Bool
good_letter d = is_b64 (letter d) && (digit (letter d) == d && not (letter d == b'='))

letter_table : holds_below good_letter 64 ≡ true
unfolding holds_below is_b64 digit strchr
letter_table = refl

module _ (d : ℕ) (h : d < 64) where
  pub letter-is_b64 : is_b64 (letter d) ≡ true
  letter-is_b64 = ground (arith, holds_below_at good_letter 64 letter_table d)

  pub digit-letter : digit (letter d) ≡ d
  digit-letter = ground (arith, holds_below_at good_letter 64 letter_table d)

  letter_ne_pad : (letter d == b'=') ≡ false
  letter_ne_pad = ground (arith, holds_below_at good_letter 64 letter_table d)

  -- The check passes over a letter that no '=' stands before.
  pub count_dead-letter : (s : List ℕ) → count_dead (letter d ∷ s) 0 ≡ count_dead s 0
  unfolding count_dead
  count_dead-letter s = rw (letter-is_b64, letter_ne_pad)

pub digit_pad : digit b'=' ≡ 0
unfolding digit strchr
digit_pad = refl

-- The digits of three bytes.
abbrev pub digit1 : ℕ → ℕ
digit1 a = a / 4

abbrev pub digit2 : ℕ → ℕ → ℕ
digit2 a b = a % 4 * 16 + b / 16

abbrev pub digit3 : ℕ → ℕ → ℕ
digit3 b c = b % 16 * 4 + c / 64

abbrev pub digit4 : ℕ → ℕ
digit4 c = c % 64

module _ (a b c : ℕ) (ha : a < 256) (hb : b < 256) (hc : c < 256) where
  abbrev word : ℕ
  word = a * 65536 + b * 256 + c

  sixth1 : bit_and (word / 2 ^ 18) 63 ≡ digit1 a
  sixth1 = bit_and_63 (word / 2 ^ 18) ∙ omega arith

  sixth2 : bit_and (word * 2 ^ 6 % 2 ^ 32 / 2 ^ 18) 63 ≡ digit2 a b
  sixth2 = bit_and_63 (word * 2 ^ 6 % 2 ^ 32 / 2 ^ 18) ∙ omega arith

  sixth3 : bit_and (word * 2 ^ 6 % 2 ^ 32 * 2 ^ 6 % 2 ^ 32 / 2 ^ 18) 63 ≡ digit3 b c
  sixth3 = bit_and_63 (word * 2 ^ 6 % 2 ^ 32 * 2 ^ 6 % 2 ^ 32 / 2 ^ 18) ∙ omega arith

  sixth4 : bit_and (word * 2 ^ 6 % 2 ^ 32 * 2 ^ 6 % 2 ^ 32 * 2 ^ 6 % 2 ^ 32 / 2 ^ 18) 63 ≡ digit4 c
  sixth4 =
      bit_and_63 (word * 2 ^ 6 % 2 ^ 32 * 2 ^ 6 % 2 ^ 32 * 2 ^ 6 % 2 ^ 32 / 2 ^ 18) ∙ omega arith

  write_four :
      (n : ℕ)
      → 3 ≤ n
      → write_block 4 0 n word
        ≡ letter (digit1 a) ∷ letter (digit2 a b) ∷ letter (digit3 b c) ∷ letter (digit4 c) ∷ []
  unfolding write_block
  write_four n h = rw (
    leb_of_le 0 n (omega arith),
    leb_of_le 1 n (omega arith),
    leb_of_le 2 n (omega arith),
    leb_of_le 3 n (omega arith),
    sixth1,
    sixth2,
    sixth3,
    sixth4,
  )

  write_three :
      write_block 4 0 2 word
      ≡ letter (digit1 a) ∷ letter (digit2 a b) ∷ letter (digit3 b c) ∷ b'=' ∷ []
  unfolding write_block
  write_three = rw (sixth1, sixth2, sixth3)

  write_two : write_block 4 0 1 word ≡ letter (digit1 a) ∷ letter (digit2 a b) ∷ b'=' ∷ b'=' ∷ []
  unfolding write_block
  write_two = rw (sixth1, sixth2)

  read_three : (xs : List ℕ) → read_block 3 0 (a ∷ b ∷ c ∷ xs) ≡ word
  unfolding read_block
  read_three xs = omega arith

-- A block of three bytes becomes their four digits.
pub encode_block_three :
    (a b c : ℕ) (xs : List ℕ)
    → a < 256
    → b < 256
    → c < 256
    → encode_block (a ∷ b ∷ c ∷ xs)
      ≡ letter (digit1 a) ∷ letter (digit2 a b) ∷ letter (digit3 b c) ∷ letter (digit4 c) ∷ []
unfolding encode_block
encode_block_three a b c xs ha hb hc =
    ap (write_block 4 0 (length (a ∷ b ∷ c ∷ xs))) (read_three a b c ha hb hc xs)
    ∙ write_four a b c ha hb hc (length (a ∷ b ∷ c ∷ xs)) (omega arith)

pub encode_block_two :
    (a b : ℕ)
    → a < 256
    → b < 256
    → encode_block (a ∷ b ∷ [])
      ≡ letter (digit1 a) ∷ letter (digit2 a b) ∷ letter (digit3 b 0) ∷ b'=' ∷ []
unfolding encode_block read_block
encode_block_two a b ha hb =
    let e : read_block 3 0 (a ∷ b ∷ []) ≡ a * 65536 + b * 256 + 0 = omega arith in
    ap (write_block 4 0 2) e ∙ write_three a b 0 ha hb (omega arith)

pub encode_block_one :
    (a : ℕ)
    → a < 256
    → encode_block (a ∷ []) ≡ letter (digit1 a) ∷ letter (digit2 a 0) ∷ b'=' ∷ b'=' ∷ []
unfolding encode_block read_block
encode_block_one a ha =
    let e : read_block 3 0 (a ∷ []) ≡ a * 65536 + 0 * 256 + 0 = omega arith in
    ap (write_block 4 0 1) e ∙ write_two a 0 0 ha (omega arith) (omega arith)

-- The word of four digits.
pub parse_block_word :
    (p q r s : ℕ)
    → digit p < 64
    → digit q < 64
    → digit r < 64
    → digit s < 64
    → parse_block p q r s ≡ digit p * 262144 + digit q * 4096 + digit r * 64 + digit s
unfolding parse_block
parse_block_word p q r s hp hq hr hs = omega arith

-- The bytes of the word of three bytes.
pub output_block_bytes :
    (a b c : ℕ)
    → a < 256
    → b < 256
    → c < 256
    → output_block (a * 65536 + b * 256 + c) ≡ a ∷ b ∷ c ∷ []
unfolding output_block
output_block_bytes a b c ha hb hc =
    let w : ℕ = a * 65536 + b * 256 + c in
    let e1 : bit_and (w / 2 ^ 16) 255 ≡ a = bit_and_255 (w / 2 ^ 16) ∙ omega arith in
    let e2 : bit_and (w * 2 ^ 8 % 2 ^ 32 / 2 ^ 16) 255 ≡ b =
      bit_and_255 (w * 2 ^ 8 % 2 ^ 32 / 2 ^ 16) ∙ omega arith in
    let e3 : bit_and (w * 2 ^ 8 % 2 ^ 32 * 2 ^ 8 % 2 ^ 32 / 2 ^ 16) 255 ≡ c =
      bit_and_255 (w * 2 ^ 8 % 2 ^ 32 * 2 ^ 8 % 2 ^ 32 / 2 ^ 16) ∙ omega arith in
    λ i. e1 i ∷ e2 i ∷ e3 i ∷ []

-- Decoding the digits of three bytes gives the bytes.
pub decode_digits :
    (p q r s a b c : ℕ)
    → a < 256
    → b < 256
    → c < 256
    → digit p ≡ digit1 a
    → digit q ≡ digit2 a b
    → digit r ≡ digit3 b c
    → digit s ≡ digit4 c
    → output_block (parse_block p q r s) ≡ a ∷ b ∷ c ∷ []
decode_digits p q r s a b c ha hb hc dp dq dr ds =
    let e : parse_block p q r s ≡ a * 65536 + b * 256 + c =
      parse_block_word p q r s (omega arith) (omega arith) (omega arith) (omega arith)
      ∙ omega arith in
    ap output_block e ∙ output_block_bytes a b c ha hb hc
