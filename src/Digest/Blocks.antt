-- ===== src/Digest/Blocks.antt =====
-- The iterated compression function that the hashes are defined by, over a message in memory.
use libcperciva.Prelude.{
  ℕ, zero, suc, ◌+◌, ◌*◌, ◌≤◌, ◌≡◌, refl, ap, ap₂, ◌∙◌, arith, List, ◌++◌, length, take, drop,
  take-append_left, drop_append_left, drop-drop, length-drop,
}

module _ (transform : List ℕ → List ℕ → List ℕ) where
  -- The state after the first `n` blocks of a message.
  unfoldable pub compress : ℕ → List ℕ → List ℕ → List ℕ
  compress zero state m = state
  compress (suc n) state m = compress n (transform state (take 64 m)) (drop 64 m)

  pub compress_add :
      (a b : ℕ) (s m : List ℕ)
      → compress (a + b) s m ≡ compress b (compress a s m) (drop (64 * a) m)
  unfolding compress
  compress_add zero b s m = let e : 0 + b ≡ b = omega arith in ap (λ k. compress k s m) e
  compress_add (suc a) b s m =
      let e : suc a + b ≡ suc (a + b) = omega arith in
      let f : 64 + 64 * a ≡ 64 * suc a = omega arith in
      ap (λ k. compress k s m) e
      ∙ compress_add a b (transform s (take 64 m)) (drop 64 m)
      ∙ ap (compress b (compress a (transform s (take 64 m)) (drop 64 m)))
          (drop-drop (64 * a) 64 m ∙ ap (λ k. drop k m) f)

  -- Blocks inside the first part of a message do not see the rest.
  pub compress-append :
      (n : ℕ) (s m rest : List ℕ) → 64 * n ≤ length m → compress n s (m ++ rest) ≡ compress n s m
  unfolding compress
  compress-append zero s m rest h = refl
  compress-append (suc n) s m rest h =
      ap₂ (λ block tail. compress n (transform s block) tail)
        (take-append_left 64 m rest (omega arith)) (drop_append_left 64 m rest (omega arith))
      ∙ compress-append n (transform s (take 64 m)) (drop 64 m) rest
          (omega (arith, length-drop 64 m))

  pub length-compress :
      (size : ℕ)
      → ((s block : List ℕ) → length s ≡ size → length (transform s block) ≡ size)
      → (n : ℕ) (s m : List ℕ) → length s ≡ size
      → length (compress n s m) ≡ size
  unfolding compress
  length-compress size keeps zero s m h = h
  length-compress size keeps (suc n) s m h =
      length-compress size keeps n (transform s (take 64 m)) (drop 64 m) (keeps s (take 64 m) h)
