-- ===== src/Sha256/Transform.antt =====
-- alg/sha256.c: the compression function, as it is compiled without hardware acceleration.
use Prim.Native.Nat.{bit_and, bit_or, bit_xor}
use libcperciva.Prelude.{
  ℕ, zero, suc, ◌+◌, ◌-◌, ◌%◌, ◌^◌, List, [], ◌∷◌, ◌++◌, ◌≡◌, refl, ◌∙◌, arith, if◌then◌else◌,
  if-elim, length, length-set, ◌==◌, replicate, get_or, set,
}
use libcperciva.SysEndian.{be32dec, ◌>>>◌, ◌<<<◌}
use libcperciva.Digest.Words.{length-add_words}
use libcperciva.Digest.{◌+₃₂◌, dec_vect, add_words}

abbrev pub krnd : List ℕ
krnd =
    0x428a2f98 ∷ 0x71374491 ∷ 0xb5c0fbcf ∷ 0xe9b5dba5 ∷ 0x3956c25b ∷ 0x59f111f1 ∷ 0x923f82a4
    ∷ 0xab1c5ed5 ∷ 0xd807aa98 ∷ 0x12835b01 ∷ 0x243185be ∷ 0x550c7dc3 ∷ 0x72be5d74 ∷ 0x80deb1fe
    ∷ 0x9bdc06a7 ∷ 0xc19bf174 ∷ 0xe49b69c1 ∷ 0xefbe4786 ∷ 0x0fc19dc6 ∷ 0x240ca1cc ∷ 0x2de92c6f
    ∷ 0x4a7484aa ∷ 0x5cb0a9dc ∷ 0x76f988da ∷ 0x983e5152 ∷ 0xa831c66d ∷ 0xb00327c8 ∷ 0xbf597fc7
    ∷ 0xc6e00bf3 ∷ 0xd5a79147 ∷ 0x06ca6351 ∷ 0x14292967 ∷ 0x27b70a85 ∷ 0x2e1b2138 ∷ 0x4d2c6dfc
    ∷ 0x53380d13 ∷ 0x650a7354 ∷ 0x766a0abb ∷ 0x81c2c92e ∷ 0x92722c85 ∷ 0xa2bfe8a1 ∷ 0xa81a664b
    ∷ 0xc24b8b70 ∷ 0xc76c51a3 ∷ 0xd192e819 ∷ 0xd6990624 ∷ 0xf40e3585 ∷ 0x106aa070 ∷ 0x19a4c116
    ∷ 0x1e376c08 ∷ 0x2748774c ∷ 0x34b0bcb5 ∷ 0x391c0cb3 ∷ 0x4ed8aa4a ∷ 0x5b9cca4f ∷ 0x682e6ff3
    ∷ 0x748f82ee ∷ 0x78a5636f ∷ 0x84c87814 ∷ 0x8cc70208 ∷ 0x90befffa ∷ 0xa4506ceb ∷ 0xbef9a3f7
    ∷ 0xc67178f2 ∷ []

abbrev pub initial_state : List ℕ
initial_state =
    0x6A09E667 ∷ 0xBB67AE85 ∷ 0x3C6EF372 ∷ 0xA54FF53A ∷ 0x510E527F ∷ 0x9B05688C ∷ 0x1F83D9AB
    ∷ 0x5BE0CD19 ∷ []

unfoldable pub ch : ℕ → ℕ → ℕ → ℕ
ch x y z = bit_xor (bit_and x (bit_xor y z)) z

unfoldable pub maj : ℕ → ℕ → ℕ → ℕ
maj x y z = bit_or (bit_and x (bit_or y z)) (bit_and y z)

unfoldable pub shr : ℕ → ℕ → ℕ
shr x n = x >>> n

unfoldable pub rotr : ℕ → ℕ → ℕ
rotr x n = bit_or (x >>> n) ((x <<< (32 - n)) % 2 ^ 32)

-- `S0`, `S1`, `s0` and `s1`.
unfoldable pub sum0 : ℕ → ℕ
sum0 x = bit_xor (bit_xor (rotr x 2) (rotr x 13)) (rotr x 22)

unfoldable pub sum1 : ℕ → ℕ
sum1 x = bit_xor (bit_xor (rotr x 6) (rotr x 11)) (rotr x 25)

unfoldable pub sigma0 : ℕ → ℕ
sigma0 x = bit_xor (bit_xor (rotr x 7) (rotr x 18)) (shr x 3)

unfoldable pub sigma1 : ℕ → ℕ
sigma1 x = bit_xor (bit_xor (rotr x 17) (rotr x 19)) (shr x 10)

-- `RND` on the words of `s` at the eight places that stand for `a` to `h`.
unfoldable pub rnd : List ℕ → ℕ → ℕ → ℕ → ℕ → ℕ → ℕ → ℕ → ℕ → ℕ → List ℕ
rnd s a b c d e f g h k =
    let at : ℕ → ℕ = λ i. get_or s i 0 in
    let h1 = at h +₃₂ (sum1 (at e) +₃₂ ch (at e) (at f) (at g) +₃₂ k) in
    let d1 = at d +₃₂ h1 in
    let h2 = h1 +₃₂ (sum0 (at a) +₃₂ maj (at a) (at b) (at c)) in set (set s d d1) h h2

-- `RNDr(S, W, i, ii)`.
unfoldable pub rndr : List ℕ → List ℕ → ℕ → ℕ → List ℕ
rndr s w i ii =
    rnd s ((64 - i) % 8) ((65 - i) % 8) ((66 - i) % 8) ((67 - i) % 8) ((68 - i) % 8) ((69 - i) % 8)
      ((70 - i) % 8) ((71 - i) % 8) (get_or w (i + ii) 0 +₃₂ get_or krnd (i + ii) 0)

-- `MSCH(W, ii, i)`.
unfoldable pub msch : List ℕ → ℕ → ℕ → List ℕ
msch w ii i =
    let at : ℕ → ℕ = λ j. get_or w j 0 in
    set w (i + ii + 16)
      (sigma1 (at (i + ii + 14)) +₃₂ at (i + ii + 9) +₃₂ sigma0 (at (i + ii + 1)) +₃₂ at (i + ii))

-- Sixteen rounds at `ii`, and then the next sixteen words of the schedule.
unfoldable pub rounds : ℕ → ℕ → ℕ → List ℕ → List ℕ → List ℕ
rounds zero i ii s w = s
rounds (suc n) i ii s w = rounds n (i + 1) ii (rndr s w i ii) w

unfoldable pub schedule : ℕ → ℕ → ℕ → List ℕ → List ℕ
schedule zero i ii w = w
schedule (suc n) i ii w = schedule n (i + 1) ii (msch w ii i)

-- The loop of step 3: `n` more passes, from `i` on.
unfoldable pub mix : ℕ → ℕ → List ℕ → List ℕ → List ℕ
mix zero i s w = s
mix (suc n) i s w =
    let s1 = rounds 16 0 i s w in
    let more = mix n (i + 16) s1 (schedule 16 0 i w) in if i == 48 then s1 else more

-- Every word of `W` and `S` is written before it is read, so that it does not matter what they
-- hold at first.
unfoldable pub transform : List ℕ → List ℕ → List ℕ
transform state block =
    let w = dec_vect be32dec block ++ replicate 48 0 in add_words state (mix 4 0 state w)

length-rounds : (n i ii : ℕ) (s w : List ℕ) → length (rounds n i ii s w) ≡ length s
unfolding rounds rndr rnd
length-rounds zero i ii s w = refl
length-rounds (suc n) i ii s w =
    length-rounds n (i + 1) ii (rndr s w i ii) w ∙ length-set _ _ _ ∙ length-set s _ _

length-mix : (n i : ℕ) (s w : List ℕ) → length (mix n i s w) ≡ length s
unfolding mix
length-mix zero i s w = refl
length-mix (suc n) i s w =
    let s1 = rounds 16 0 i s w in
    if-elim (λ (r : List ℕ). length r ≡ length s) (i == 48) s1
      (mix n (i + 16) s1 (schedule 16 0 i w)) (λ e. length-rounds 16 0 i s w)
      (λ e. length-mix n (i + 16) s1 (schedule 16 0 i w) ∙ length-rounds 16 0 i s w)

pub length-transform : (s block : List ℕ) → length (transform s block) ≡ length s
unfolding transform
length-transform s block =
    let w = dec_vect be32dec block ++ replicate 48 0 in
    length-add_words s (mix 4 0 s w) ∙ omega (arith, length-mix 4 0 s w)
