-- ===== src/Digest/Words.antt =====
-- alg/sha256.c, alg/sha1.c, alg/md5.c: the lengths of the arrays of words.
use Prim.Native.Nat.{bit_and}
use libcperciva.Prelude.{
  ℕ, ◌*◌, ◌/◌, ◌%◌, ◌^◌, ◌≡◌, refl, sym, ◌∙◌, arith, List, [], ◌∷◌, length, min,
}
use libcperciva.Prelude.Bits.{bit_and_255}
use libcperciva.SysEndian.{Bytes4, be32enc, le32enc, be64enc, le64enc}
use libcperciva.Digest.{enc_vect, add_words, be64_bytes, le64_bytes}

pub length-enc_vect : (enc : ℕ → Bytes4) (ws : List ℕ) → length (enc_vect enc ws) ≡ 4 * length ws
unfolding enc_vect
length-enc_vect enc [] = refl
length-enc_vect enc (w ∷ ws) = omega (arith, length-enc_vect enc ws)

pub length-add_words : (xs ys : List ℕ) → length (add_words xs ys) ≡ min (length xs) (length ys)
unfolding add_words
length-add_words [] ys = omega arith
length-add_words (x ∷ xs) [] = omega arith
length-add_words (x ∷ xs) (y ∷ ys) = omega (arith, length-add_words xs ys)

same_byte : (a b : ℕ) → a % 256 ≡ b % 256 → bit_and a 255 ≡ bit_and b 255
same_byte a b h = bit_and_255 a ∙ h ∙ sym (bit_and_255 b)

-- The two halves of a number of 64 bits, stored in the order of the bytes in them.
pub be64_words : (x : ℕ) → enc_vect be32enc (x / 2 ^ 32 % 2 ^ 32 ∷ x % 2 ^ 32 ∷ []) ≡ be64_bytes x
unfolding enc_vect be32enc be64enc
be64_words x = λ i.
    same_byte (x / 2 ^ 32 % 2 ^ 32 / 2 ^ 24) (x / 2 ^ 56) (omega arith) i
    ∷ same_byte (x / 2 ^ 32 % 2 ^ 32 / 2 ^ 16) (x / 2 ^ 48) (omega arith) i
    ∷ same_byte (x / 2 ^ 32 % 2 ^ 32 / 2 ^ 8) (x / 2 ^ 40) (omega arith) i
    ∷ same_byte (x / 2 ^ 32 % 2 ^ 32) (x / 2 ^ 32) (omega arith) i
    ∷ same_byte (x % 2 ^ 32 / 2 ^ 24) (x / 2 ^ 24) (omega arith) i
    ∷ same_byte (x % 2 ^ 32 / 2 ^ 16) (x / 2 ^ 16) (omega arith) i
    ∷ same_byte (x % 2 ^ 32 / 2 ^ 8) (x / 2 ^ 8) (omega arith) i
    ∷ same_byte (x % 2 ^ 32) x (omega arith) i
    ∷ []

pub le64_words : (x : ℕ) → enc_vect le32enc (x % 2 ^ 32 ∷ x / 2 ^ 32 % 2 ^ 32 ∷ []) ≡ le64_bytes x
unfolding enc_vect le32enc le64enc
le64_words x = λ i.
    same_byte (x % 2 ^ 32) x (omega arith) i
    ∷ same_byte (x % 2 ^ 32 / 2 ^ 8) (x / 2 ^ 8) (omega arith) i
    ∷ same_byte (x % 2 ^ 32 / 2 ^ 16) (x / 2 ^ 16) (omega arith) i
    ∷ same_byte (x % 2 ^ 32 / 2 ^ 24) (x / 2 ^ 24) (omega arith) i
    ∷ same_byte (x / 2 ^ 32 % 2 ^ 32) (x / 2 ^ 32) (omega arith) i
    ∷ same_byte (x / 2 ^ 32 % 2 ^ 32 / 2 ^ 8) (x / 2 ^ 40) (omega arith) i
    ∷ same_byte (x / 2 ^ 32 % 2 ^ 32 / 2 ^ 16) (x / 2 ^ 48) (omega arith) i
    ∷ same_byte (x / 2 ^ 32 % 2 ^ 32 / 2 ^ 24) (x / 2 ^ 56) (omega arith) i
    ∷ []
