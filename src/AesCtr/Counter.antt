-- ===== src/AesCtr/Counter.antt =====
-- crypto/crypto_aesctr_shared.c: the block that is encrypted holds the nonce and the number of the
-- block.
use Prim.Native.Nat.{bit_and}
use libcperciva.Prelude.{
  ℕ, zero, suc, ◌+◌, ◌-◌, ◌/◌, ◌%◌, ◌^◌, ◌<◌, ◌≡◌, ◌⊎◌, inl, inr, refl, sym, ap, ap₂, ◌∙◌, arith,
  List, [], ◌∷◌, ◌++◌, false, ◌==◌, if-elim, length, take, set, get_or, memcpy, drop_all,
  length-append,
}
use libcperciva.Prelude.Bits.{bit_and_255}
use libcperciva.SysEndian.{be64enc}
use libcperciva.Digest.{be64_bytes}
use libcperciva.AesCtr.{AesCtr, next_pblk}

-- Block number `m` of the stream, before its encryption.
abbrev pub counter_block : ℕ → ℕ → List ℕ
counter_block nonce m = be64_bytes nonce ++ be64_bytes m

-- `pblk` before block `m` is generated: the number of the block before it, of which all but the
-- last byte may be unset where the last byte wraps.
abbrev pub Awaits : ℕ → ℕ → List ℕ → Type 0
Awaits nonce m pblk =
    (low : List ℕ) × (length low ≡ 7)
    × (pblk ≡ be64_bytes nonce ++ (low ++ ((m + 255) % 256 ∷ [])))
    × ((m % 256 ≡ 0) ⊎ (low ≡ take 7 (be64_bytes (m - 1))))

get_end : (xs : List ℕ) (n x : ℕ) → length xs ≡ n → get_or (xs ++ (x ∷ [])) n 0 ≡ x
get_end [] zero x h = refl
get_end [] (suc n) x h = absurd (omega arith)
get_end (y ∷ xs) zero x h = absurd (omega arith)
get_end (y ∷ xs) (suc n) x h = get_end xs n x (omega arith)

set_end : (xs : List ℕ) (n x v : ℕ) → length xs ≡ n → set (xs ++ (x ∷ [])) n v ≡ xs ++ (v ∷ [])
set_end [] zero x v h = refl
set_end [] (suc n) x v h = absurd (omega arith)
set_end (y ∷ xs) zero x v h = absurd (omega arith)
set_end (y ∷ xs) (suc n) x v h = ap (◌∷◌ y) (set_end xs n x v (omega arith))

-- The bytes but the last change only where the last one wraps.
same_high : (m : ℕ) → 0 < m % 256 → take 7 (be64_bytes (m - 1)) ≡ take 7 (be64_bytes m)
unfolding be64enc
same_high m h = λ i.
    byte ((m - 1) / 2 ^ 56) (m / 2 ^ 56) (omega arith) i
    ∷ byte ((m - 1) / 2 ^ 48) (m / 2 ^ 48) (omega arith) i
    ∷ byte ((m - 1) / 2 ^ 40) (m / 2 ^ 40) (omega arith) i
    ∷ byte ((m - 1) / 2 ^ 32) (m / 2 ^ 32) (omega arith) i
    ∷ byte ((m - 1) / 2 ^ 24) (m / 2 ^ 24) (omega arith) i
    ∷ byte ((m - 1) / 2 ^ 16) (m / 2 ^ 16) (omega arith) i
    ∷ byte ((m - 1) / 2 ^ 8) (m / 2 ^ 8) (omega arith) i
    ∷ []
  where
    byte : (a b : ℕ) → a ≡ b → bit_and a 255 ≡ bit_and b 255
    byte a b e = ap (λ k. bit_and k 255) e

be64_split : (m : ℕ) → take 7 (be64_bytes m) ++ (m % 256 ∷ []) ≡ be64_bytes m
unfolding be64enc
be64_split m = ap (λ (b : ℕ). take 7 (be64_bytes m) ++ (b ∷ [])) (sym (bit_and_255 m))

pub counter_Awaits : (nonce m : ℕ) → Awaits nonce (m + 1) (counter_block nonce m)
counter_Awaits nonce m =
    let before : m ≡ m + 1 - 1 = omega arith in
    let last : m % 256 ≡ (m + 1 + 255) % 256 = omega arith in
    (
      take 7 (be64_bytes m),
      refl,
      ap (be64_bytes nonce ++◌)
          (sym (be64_split m) ∙ ap (λ (b : ℕ). take 7 (be64_bytes m) ++ (b ∷ [])) last),
      inr (ap (λ k. take 7 (be64_bytes k)) before),
    )

positive : (n : ℕ) → (n == 0) ≡ false → 0 < n
positive n h = ground arith

high_lem :
    (m : ℕ) (low : List ℕ)
    → 0 < m % 256
    → (m % 256 ≡ 0) ⊎ (low ≡ take 7 (be64_bytes (m - 1)))
    → low ++ (m % 256 ∷ []) ≡ be64_bytes m
high_lem m low h (inl z) = absurd (omega arith)
high_lem m low h (inr same) = ap (λ l. l ++ (m % 256 ∷ [])) (same ∙ same_high m h) ∙ be64_split m

module _ {Key : Type 0} where
  pub next_pblk_lem :
      (s : AesCtr Key) (nonce : ℕ)
      → Awaits nonce (s.bytectr / 16) s.pblk
      → next_pblk s ≡ counter_block nonce (s.bytectr / 16)
  unfolding next_pblk memcpy
  next_pblk_lem s nonce (low, size, stored, high) =
      let m = s.bytectr / 16 in
      let prefix = be64_bytes nonce in
      let read : get_or s.pblk 15 0 ≡ (m + 255) % 256 =
        ap (λ l. get_or l 15 0) stored ∙ get_end low 7 ((m + 255) % 256) size in
      let last : (get_or s.pblk 15 0 + 1) % 2 ^ 8 ≡ m % 256 = omega (arith, read) in
      let step : set s.pblk 15 ((get_or s.pblk 15 0 + 1) % 2 ^ 8)
          ≡ prefix ++ (low ++ (m % 256 ∷ [])) =
        ap₂ (λ l v. set l 15 v) stored last
        ∙ ap (prefix ++◌) (set_end low 7 ((m + 255) % 256) (m % 256) size) in
      if-elim (λ l. l ≡ counter_block nonce m) ((get_or s.pblk 15 0 + 1) % 2 ^ 8 == 0) _
        (set s.pblk 15 ((get_or s.pblk 15 0 + 1) % 2 ^ 8))
        (λ e.
          ap (λ l. memcpy l 8 (be64_bytes m) 8) step
          ∙ ap (λ l. prefix ++ (be64_bytes m ++ l))
              (drop_all 8 (low ++ (m % 256 ∷ []))
                (omega (arith, length-append low (m % 256 ∷ [])))))
        (λ e.
          let large = positive ((get_or s.pblk 15 0 + 1) % 2 ^ 8) e in
          step ∙ ap (prefix ++◌) (high_lem m low (omega arith) high))
