-- ===== src/AesCtr/Use.antt =====
-- crypto/crypto_aesctr.c, crypto/crypto_aesctr_shared.c: the use of a cipher block.
use mathlib.Core.List.{append_assoc}
use libcperciva.Prelude.{
  ℕ, ◌+◌, ◌-◌, ◌/◌, ◌%◌, ◌^◌, ◌≤◌, ◌<◌, ◌≡◌, ◌⊎◌, inl, inr, sym, ap, ap₂, subst, ◌∙◌, arith, List,
  ◌++◌, true, false, ltb, leb, ◌==◌, ==_iff, some, Returns, not, length, take, drop, length-append,
  length-drop, length-take, take-append-drop, Bool-cases, ltb→lt, le_of_ltb-false,
}
use native.Mathlib.Nat.{mod-eq_of_lt}
use libcperciva.AesCtr.{
  AesCtr, Progress, xor_block, next_pblk, cipherblock_generate, cipherblock_use,
}
use libcperciva.AesCtr.Counter.{counter_block, Awaits, next_pblk_lem, counter_Awaits}
use libcperciva.AesCtr.Keystream.{ctr, ctr-append, xor_block-ctr}

place_cases : (n k : ℕ) → n % 16 + k ≤ 16 → ((n + k) % 16 ≡ 0) ⊎ ((n + k) / 16 ≡ n / 16)
place_cases n k h = elim (Bool-cases (ltb (n % 16 + k) 16)) [
  | inl e ↦ let below = ltb→lt (n % 16 + k) 16 e in inr (omega arith)
  | inr e ↦ let full = le_of_ltb-false (n % 16 + k) 16 e in inl (omega arith)
]

pub leb-false : (a b : ℕ) → leb a b ≡ false → b < a
leb-false a b h = ground arith

pub used_up :
    {Key : Type 0} (p : Progress Key) (s : AesCtr Key) (n k fuel : ℕ)
    → length p.inbuf - n < fuel
    → length (cipherblock_use (record p { stream = s }) n 0).inbuf < fuel
unfolding cipherblock_use
used_up p s n k fuel h = omega (arith, length-drop n p.inbuf)

pub not_zero : (n : ℕ) → not (n == 0) ≡ true → 0 < n
not_zero n h = ground arith

pub is_zero : (n : ℕ) → not (n == 0) ≡ false → n ≡ 0
is_zero n h = ground arith

module _ {Key : Type 0} (encrypt_block : Key → List ℕ → List ℕ)
    (length-encrypt_block : (k : Key) (b : List ℕ) → length (encrypt_block k b) ≡ 16) (key : Key)
    (nonce : ℕ) where
  abbrev pub block : ℕ → List ℕ
  block m = encrypt_block key (counter_block nonce m)

  -- The stream after `n` bytes since its initialization: what is left of the cipher block is in
  -- the buffer, and the counter is that of the last block.
  abbrev pub Running : AesCtr Key → ℕ → Type 0
  Running s n =
      (s.key ≡ some key)
      × (s.bytectr ≡ n)
      × ((n % 16 ≡ 0) ⊎ (s.buf ≡ block (n / 16)))
      × Awaits nonce ((n + 15) / 16) s.pblk

  -- The buffer has the cipher block for byte `n`.
  abbrev pub Holding : AesCtr Key → ℕ → Type 0
  Holding s n =
      (s.key ≡ some key)
      × (s.bytectr ≡ n)
      × (s.buf ≡ block (n / 16))
      × Awaits nonce (n / 16 + 1) s.pblk

  pub generate_lem :
      (s : AesCtr Key) (n : ℕ)
      → Running s n
      → n % 16 ≡ 0
      → Returns (λ t. Holding t n) (cipherblock_generate encrypt_block s)
  unfolding cipherblock_generate
  generate_lem s n (used, at, left, awaits) whole =
      let e : (s.bytectr % 16 == 0) ≡ true = (==_iff (s.bytectr % 16) 0).1 (omega (arith, at)) in
      let m : (n + 15) / 16 ≡ s.bytectr / 16 = omega (arith, at) in
      let same : s.bytectr / 16 ≡ n / 16 = ap (◌/ 16) at in
      let pblk : next_pblk s ≡ counter_block nonce (n / 16) =
        next_pblk_lem s nonce (subst (λ k. Awaits nonce k s.pblk) m awaits)
        ∙ ap (counter_block nonce) same in
      rw (e, used)
        (
          used,
          at,
          ap (encrypt_block key) pblk,
          subst (Awaits nonce (n / 16 + 1)) (sym pblk) (counter_Awaits nonce (n / 16)),
        )

  pub inside_block : (s : AesCtr Key) (n : ℕ) → 0 < n % 16 → Running s n → Holding s n
  inside_block s n h (used, at, inl z, awaits) = absurd (omega arith)
  inside_block s n h (used, at, inr left, awaits) =
      let e : (n + 15) / 16 ≡ n / 16 + 1 = omega arith in
      (used, at, left, subst (λ k. Awaits nonce k s.pblk) e awaits)

  -- `fed` is the part of the input `all` that was processed.
  abbrev pub At : Progress Key → ℕ → List ℕ → List ℕ → Type 0
  At p n0 all fed =
      (fed ++ p.inbuf ≡ all)
      × (p.outbuf ≡ ctr encrypt_block key nonce n0 fed)
      × Running p.stream (n0 + length fed)

  pub use_lem :
      (p : Progress Key) (n0 : ℕ) (all fed : List ℕ) (nbytes bytemod : ℕ)
      → fed ++ p.inbuf ≡ all
      → p.outbuf ≡ ctr encrypt_block key nonce n0 fed
      → Holding p.stream (n0 + length fed)
      → bytemod ≡ (n0 + length fed) % 16
      → 0 < bytemod + nbytes
      → bytemod + nbytes ≤ 16
      → nbytes ≤ length p.inbuf
      → n0 + length all < 2 ^ 64
      → At (cipherblock_use p nbytes bytemod) n0 all (fed ++ take nbytes p.inbuf)
  unfolding cipherblock_use
  use_lem p n0 all fed nbytes bytemod split out (used, at, holds, awaits) place some_bytes inside
        has fits =
      let n = n0 + length fed in
      let new = take nbytes p.inbuf in
      let size : length (fed ++ new) ≡ length fed + nbytes =
        omega (arith, length-append fed new, length-take nbytes p.inbuf) in
      let total = length-append fed p.inbuf in
      let wholly = ap length split in
      let later : n0 + length (fed ++ new) ≡ n + nbytes = omega (arith, size) in
      let same : n / 16 + 1 ≡ (n + nbytes + 15) / 16 = omega arith in
      let cipher : xor_block new (drop bytemod p.stream.buf) ≡ ctr encrypt_block key nonce n new =
        ap₂ (λ k b. xor_block new (drop k b)) place holds
        ∙ xor_block-ctr encrypt_block key nonce n new (omega (arith, length-take nbytes p.inbuf))
            (length-encrypt_block key (counter_block nonce (n / 16))) in
      (
        append_assoc fed new (drop nbytes p.inbuf)
            ∙ ap (fed ++◌) (take-append-drop nbytes p.inbuf)
            ∙ split,
        ap₂ (λ a b. a ++ b) out cipher ∙ sym (ctr-append encrypt_block key nonce n0 fed new),
        rw (later) (
          used,
          ap (λ k. (k + nbytes) % 2 ^ 64) at ∙ mod-eq_of_lt (omega arith),
          elim (place_cases n nbytes (omega arith)) [
            | inl e ↦ inl e
            | inr e ↦ inr (holds ∙ ap block (sym e))
          ],
          subst (λ k. Awaits nonce k p.stream.pblk) same awaits,
        ),
      )
