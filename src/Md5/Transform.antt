-- ===== src/Md5/Transform.antt =====
-- alg/md5.c: the compression function.
use Prim.Native.Nat.{bit_and, bit_or, bit_xor}
use libcperciva.Prelude.{
  ℕ, zero, suc, ◌+◌, ◌-◌, ◌*◌, ◌%◌, ◌^◌, ◌≡◌, refl, ◌∙◌, arith, List, [], ◌∷◌, length, get_or, set,
  length-set,
}
use libcperciva.SysEndian.{le32dec}
use libcperciva.Digest.{◌+₃₂◌, rotl, dec_vect, add_words}
use libcperciva.Digest.Words.{length-add_words}

-- The constants and the distances of the rounds, in the order of the calls.
abbrev pub constants : List ℕ
constants =
    0xd76aa478 ∷ 0xe8c7b756 ∷ 0x242070db ∷ 0xc1bdceee ∷ 0xf57c0faf ∷ 0x4787c62a ∷ 0xa8304613
    ∷ 0xfd469501 ∷ 0x698098d8 ∷ 0x8b44f7af ∷ 0xffff5bb1 ∷ 0x895cd7be ∷ 0x6b901122 ∷ 0xfd987193
    ∷ 0xa679438e ∷ 0x49b40821 ∷ 0xf61e2562 ∷ 0xc040b340 ∷ 0x265e5a51 ∷ 0xe9b6c7aa ∷ 0xd62f105d
    ∷ 0x02441453 ∷ 0xd8a1e681 ∷ 0xe7d3fbc8 ∷ 0x21e1cde6 ∷ 0xc33707d6 ∷ 0xf4d50d87 ∷ 0x455a14ed
    ∷ 0xa9e3e905 ∷ 0xfcefa3f8 ∷ 0x676f02d9 ∷ 0x8d2a4c8a ∷ 0xfffa3942 ∷ 0x8771f681 ∷ 0x6d9d6122
    ∷ 0xfde5380c ∷ 0xa4beea44 ∷ 0x4bdecfa9 ∷ 0xf6bb4b60 ∷ 0xbebfbc70 ∷ 0x289b7ec6 ∷ 0xeaa127fa
    ∷ 0xd4ef3085 ∷ 0x04881d05 ∷ 0xd9d4d039 ∷ 0xe6db99e5 ∷ 0x1fa27cf8 ∷ 0xc4ac5665 ∷ 0xf4292244
    ∷ 0x432aff97 ∷ 0xab9423a7 ∷ 0xfc93a039 ∷ 0x655b59c3 ∷ 0x8f0ccc92 ∷ 0xffeff47d ∷ 0x85845dd1
    ∷ 0x6fa87e4f ∷ 0xfe2ce6e0 ∷ 0xa3014314 ∷ 0x4e0811a1 ∷ 0xf7537e82 ∷ 0xbd3af235 ∷ 0x2ad7d2bb
    ∷ 0xeb86d391 ∷ []

abbrev pub distances : List ℕ
distances =
    7 ∷ 12 ∷ 17 ∷ 22 ∷ 7 ∷ 12 ∷ 17 ∷ 22 ∷ 7 ∷ 12 ∷ 17 ∷ 22 ∷ 7 ∷ 12 ∷ 17 ∷ 22 ∷ 5 ∷ 9 ∷ 14 ∷ 20 ∷ 5
    ∷ 9 ∷ 14 ∷ 20 ∷ 5 ∷ 9 ∷ 14 ∷ 20 ∷ 5 ∷ 9 ∷ 14 ∷ 20 ∷ 4 ∷ 11 ∷ 16 ∷ 23 ∷ 4 ∷ 11 ∷ 16 ∷ 23 ∷ 4 ∷ 11
    ∷ 16 ∷ 23 ∷ 4 ∷ 11 ∷ 16 ∷ 23 ∷ 6 ∷ 10 ∷ 15 ∷ 21 ∷ 6 ∷ 10 ∷ 15 ∷ 21 ∷ 6 ∷ 10 ∷ 15 ∷ 21 ∷ 6 ∷ 10
    ∷ 15 ∷ 21 ∷ []

unfoldable pub f : ℕ → ℕ → ℕ → ℕ
f x y z = bit_xor (bit_and x (bit_xor y z)) z

unfoldable pub g : ℕ → ℕ → ℕ → ℕ
g x y z = bit_xor (bit_and z (bit_xor x y)) y

unfoldable pub h : ℕ → ℕ → ℕ → ℕ
h x y z = bit_xor (bit_xor x y) z

-- `~z` is the complement on 32 bits.
unfoldable pub i : ℕ → ℕ → ℕ → ℕ
i x y z = bit_xor (bit_or x (2 ^ 32 - 1 - z)) y

-- `FF`, `GG`, `HH` and `II`, which differ in the function, on the words of `s` at the four places
-- that stand for `a` to `d`.
unfoldable pub rnd : (ℕ → ℕ → ℕ → ℕ) → List ℕ → ℕ → ℕ → ℕ → ℕ → ℕ → ℕ → List ℕ
rnd func s a b c d x distance =
    let at : ℕ → ℕ = λ j. get_or s j 0 in
    set s a (at b +₃₂ rotl ((at a +₃₂ func (at b) (at c) (at d)) +₃₂ x) distance)

-- `FFr`, `GGr`, `HHr` and `IIr`: round `k` uses the word at `k * times + plus`.
unfoldable pub rndr : (ℕ → ℕ → ℕ → ℕ) → ℕ → ℕ → List ℕ → List ℕ → ℕ → List ℕ
rndr func times plus s w k =
    rnd func s ((64 - k) % 4) ((65 - k) % 4) ((66 - k) % 4) ((67 - k) % 4)
      (get_or w ((k * times + plus) % 16) 0 +₃₂ get_or constants k 0) (get_or distances k 0)

-- `n` rounds from round `k` on.
unfoldable pub rounds : (ℕ → ℕ → ℕ → ℕ) → ℕ → ℕ → ℕ → ℕ → List ℕ → List ℕ → List ℕ
rounds func times plus zero k s w = s
rounds func times plus (suc n) k s w =
    rounds func times plus n (k + 1) (rndr func times plus s w k) w

unfoldable pub transform : List ℕ → List ℕ → List ℕ
transform state block =
    let w = dec_vect le32dec block in
    let s1 = rounds f 1 0 16 0 state w in
    let s2 = rounds g 5 1 16 16 s1 w in
    let s3 = rounds h 3 5 16 32 s2 w in let s4 = rounds i 7 0 16 48 s3 w in add_words state s4

length-rounds :
    (func : ℕ → ℕ → ℕ → ℕ) (times plus n k : ℕ) (s w : List ℕ)
    → length (rounds func times plus n k s w) ≡ length s
unfolding rounds rndr rnd
length-rounds func times plus zero k s w = refl
length-rounds func times plus (suc n) k s w =
    length-rounds func times plus n (k + 1) (rndr func times plus s w k) w ∙ length-set s _ _

pub length-transform : (s block : List ℕ) → length (transform s block) ≡ length s
unfolding transform
length-transform s block =
    let w = dec_vect le32dec block in
    let s1 = rounds f 1 0 16 0 s w in
    let s2 = rounds g 5 1 16 16 s1 w in
    let s3 = rounds h 3 5 16 32 s2 w in
    omega (
      arith,
      length-add_words s (rounds i 7 0 16 48 s3 w),
      length-rounds i 7 0 16 48 s3 w,
      length-rounds h 3 5 16 32 s2 w,
      length-rounds g 5 1 16 16 s1 w,
      length-rounds f 1 0 16 0 s w,
    )
