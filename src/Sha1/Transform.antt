-- ===== src/Sha1/Transform.antt =====
-- alg/sha1.c: the compression function.
use Prim.Native.Nat.{bit_and, bit_or, bit_xor}
use libcperciva.Prelude.{
  ℕ, zero, suc, ◌+◌, ◌-◌, ◌%◌, ◌≡◌, refl, ◌∙◌, arith, List, ◌++◌, length, replicate, get_or, set,
  length-set,
}
use libcperciva.SysEndian.{be32dec}
use libcperciva.Digest.{◌+₃₂◌, rotl, dec_vect, add_words}
use libcperciva.Digest.Words.{length-add_words}

unfoldable pub ch : ℕ → ℕ → ℕ → ℕ
ch x y z = bit_xor (bit_and x (bit_xor y z)) z

unfoldable pub maj : ℕ → ℕ → ℕ → ℕ
maj x y z = bit_or (bit_and x (bit_or y z)) (bit_and y z)

unfoldable pub parity : ℕ → ℕ → ℕ → ℕ
parity x y z = bit_xor (bit_xor x y) z

-- `RND0` to `RND3`, which differ in the function and the constant, on the words of `s` at the five
-- places that stand for `a` to `e`.
unfoldable pub rnd : (ℕ → ℕ → ℕ → ℕ) → ℕ → List ℕ → ℕ → ℕ → ℕ → ℕ → ℕ → ℕ → List ℕ
rnd func constant s a b c d e k =
    let at : ℕ → ℕ = λ j. get_or s j 0 in
    let sum = rotl (at a) 5 +₃₂ func (at b) (at c) (at d) +₃₂ at e +₃₂ k +₃₂ constant in
    set (set s e sum) b (rotl (at b) 30)

-- `RND0r` to `RND3r`.
unfoldable pub rndr : (ℕ → ℕ → ℕ → ℕ) → ℕ → List ℕ → List ℕ → ℕ → List ℕ
rndr func constant s w i =
    rnd func constant s ((80 - i) % 5) ((81 - i) % 5) ((82 - i) % 5) ((83 - i) % 5) ((84 - i) % 5)
      (get_or w i 0)

-- `n` rounds from round `i` on.
unfoldable pub rounds : (ℕ → ℕ → ℕ → ℕ) → ℕ → ℕ → ℕ → List ℕ → List ℕ → List ℕ
rounds func constant zero i s w = s
rounds func constant (suc n) i s w = rounds func constant n (i + 1) (rndr func constant s w i) w

-- `for (i = 16; i < 80; i++)` on the message schedule, with `n` values of `i` left.
unfoldable pub schedule : ℕ → ℕ → List ℕ → List ℕ
schedule zero i w = w
schedule (suc n) i w =
    let at : ℕ → ℕ = λ j. get_or w j 0 in
    let word = bit_xor (bit_xor (bit_xor (at (i - 3)) (at (i - 8))) (at (i - 14))) (at (i - 16)) in
    schedule n (i + 1) (set w i (rotl word 1))

-- Every word of `W` is written before it is read, so that it does not matter what it holds at
-- first.
unfoldable pub transform : List ℕ → List ℕ → List ℕ
transform state block =
    let w = schedule 64 16 (dec_vect be32dec block ++ replicate 64 0) in
    let s1 = rounds ch 0x5A827999 20 0 state w in
    let s2 = rounds parity 0x6ED9EBA1 20 20 s1 w in
    let s3 = rounds maj 0x8F1BBCDC 20 40 s2 w in
    let s4 = rounds parity 0xCA62C1D6 20 60 s3 w in add_words state s4

length-rounds :
    (func : ℕ → ℕ → ℕ → ℕ) (constant n i : ℕ) (s w : List ℕ)
    → length (rounds func constant n i s w) ≡ length s
unfolding rounds rndr rnd
length-rounds func constant zero i s w = refl
length-rounds func constant (suc n) i s w =
    length-rounds func constant n (i + 1) (rndr func constant s w i) w
    ∙ length-set _ _ _
    ∙ length-set s _ _

pub length-transform : (s block : List ℕ) → length (transform s block) ≡ length s
unfolding transform
length-transform s block =
    let w = schedule 64 16 (dec_vect be32dec block ++ replicate 64 0) in
    let s1 = rounds ch 0x5A827999 20 0 s w in
    let s2 = rounds parity 0x6ED9EBA1 20 20 s1 w in
    let s3 = rounds maj 0x8F1BBCDC 20 40 s2 w in
    omega (
      arith,
      length-add_words s (rounds parity 0xCA62C1D6 20 60 s3 w),
      length-rounds parity 0xCA62C1D6 20 60 s3 w,
      length-rounds maj 0x8F1BBCDC 20 40 s2 w,
      length-rounds parity 0x6ED9EBA1 20 20 s1 w,
      length-rounds ch 0x5A827999 20 0 s w,
    )
