-- ===== src/AesCtr/Keystream.antt =====
-- crypto/crypto_aesctr_shared.c: the bytes that a cipher block is used for.
use Prim.Native.Nat.{bit_xor}
use libcperciva.Prelude.{
  ℕ, suc, ◌+◌, ◌/◌, ◌%◌, ◌≤◌, ◌≡◌, refl, sym, ap, ap₂, ◌∙◌, arith, List, [], ◌∷◌, ◌++◌, length,
  drop, get_or, drop-get_or,
}
use libcperciva.Prelude.Bits.{bit_xor_twice}
use libcperciva.AesCtr.{xor_block}
use libcperciva.AesCtr.Counter.{counter_block}

module _ {Key : Type 0} (encrypt_block : Key → List ℕ → List ℕ) (key : Key) (nonce : ℕ) where
  -- Byte `n` of the stream: byte `n % 16` of the encrypted counter `n / 16`.
  abbrev pub keystream : ℕ → ℕ
  keystream n = get_or (encrypt_block key (counter_block nonce (n / 16))) (n % 16) 0

  -- Counter mode: a message in exclusive or with the stream from byte `n` on.
  abbrev pub ctr : ℕ → List ℕ → List ℕ
  ctr n [] = []
  ctr n (b ∷ bs) = bit_xor b (keystream n) ∷ ctr (n + 1) bs

  pub ctr-append : (n : ℕ) (xs ys : List ℕ) → ctr n (xs ++ ys) ≡ ctr n xs ++ ctr (n + length xs) ys
  ctr-append n [] ys = let e : n ≡ n + 0 = omega arith in ap (λ k. ctr k ys) e
  ctr-append n (x ∷ xs) ys =
      let e : n + 1 + length xs ≡ n + suc (length xs) = omega arith in
      ap (◌∷◌ (bit_xor x (keystream n)))
        (ctr-append (n + 1) xs ys ∙ ap (λ k. ctr (n + 1) xs ++ ctr k ys) e)

  pub length-ctr : (n : ℕ) (xs : List ℕ) → length (ctr n xs) ≡ length xs
  length-ctr n [] = refl
  length-ctr n (x ∷ xs) = ap suc (length-ctr (n + 1) xs)

  -- Inside a block, the stream is what follows in the block.
  pub xor_block-ctr :
      (n : ℕ) (src : List ℕ)
      → n % 16 + length src ≤ 16
      → length (encrypt_block key (counter_block nonce (n / 16))) ≡ 16
      → xor_block src (drop (n % 16) (encrypt_block key (counter_block nonce (n / 16)))) ≡ ctr n src
  unfolding xor_block
  xor_block-ctr n [] h size = refl
  xor_block-ctr n (b ∷ []) h size =
      let block = encrypt_block key (counter_block nonce (n / 16)) in
      ap (xor_block (b ∷ [])) (drop-get_or (n % 16) block 0 (omega arith))
  xor_block-ctr n (b ∷ c ∷ src) h size =
      let block = encrypt_block key (counter_block nonce (n / 16)) in
      let same : (n + 1) / 16 ≡ n / 16 = omega arith in
      let next : (n + 1) % 16 ≡ n % 16 + 1 = omega arith in
      ap (xor_block (b ∷ c ∷ src)) (drop-get_or (n % 16) block 0 (omega arith))
      ∙ ap (◌∷◌ (bit_xor b (keystream n))) (
          ap₂ (λ m r. xor_block (c ∷ src) (drop r (encrypt_block key (counter_block nonce m))))
            (sym same) (sym next)
          ∙ xor_block-ctr (n + 1) (c ∷ src) (omega arith) (rw (same) size))

  pub ctr_twice : (n : ℕ) (xs : List ℕ) → ctr n (ctr n xs) ≡ xs
  ctr_twice n [] = refl
  ctr_twice n (x ∷ xs) = ap₂ (λ y ys. y ∷ ys) (bit_xor_twice x (keystream n)) (ctr_twice (n + 1) xs)
