-- ===== src/Digest/Padding.antt =====
-- alg/sha256.c, alg/sha1.c, alg/md5.c: the padded message, and that feeding the padding in through
-- the buffer ends with the iterated compression function of the padded message.
use mathlib.Core.List.{append_assoc}
use libcperciva.Prelude.{
  ℕ, zero, suc, ◌-◌, ◌*◌, ◌/◌, ◌%◌, ◌^◌, ◌≤◌, ◌<◌, ◌≡◌, refl, sym, ap, ◌∙◌, arith, List, ◌∷◌, ◌++◌,
  ltb, if◌then◌else◌, length, take, replicate, length-append, length-replicate, inl, inr,
  Bool-cases, ltb→lt, le_of_ltb-false,
}
use libcperciva.Digest.{absorb, pad_bytes}
use libcperciva.Digest.Blocks.{compress}
use libcperciva.Digest.Absorb.{Holds, absorb-Holds}

-- How many zero bytes follow the byte 0x80: the least number with which eight more bytes
-- complete a block.
abbrev pub zeros_for : ℕ → ℕ
zeros_for n = (119 - n % 64) % 64

-- The message, the byte 0x80, zeros, and the eight bytes of the length in bits.
abbrev pub padded : (ℕ → List ℕ) → List ℕ → List ℕ
padded enc msg =
    msg ++ ((0x80 ∷ replicate (zeros_for (length msg)) 0) ++ enc (8 * length msg % 2 ^ 64))

-- `plen` where `r` bytes are in the buffer.
unfoldable pub pad_length : ℕ → ℕ
pad_length r = if ltb r 56 then 56 - r else 120 - r

pub take-replicate : (n m : ℕ) (a : ℕ) → n ≤ m → take n (replicate m a) ≡ replicate n a
take-replicate zero m a h = refl
take-replicate (suc n) zero a h = absurd (omega arith)
take-replicate (suc n) (suc m) a h = ap (◌∷◌ a) (take-replicate n m a (omega arith))

pub pad_length_lem : (r : ℕ) → r < 64 → pad_length r ≡ suc ((119 - r) % 64)
unfolding pad_length
pad_length_lem r h = elim (Bool-cases (ltb r 56)) [
  | inl e ↦ let small = ltb→lt r 56 e in rw (e) (omega arith)
  | inr e ↦ let large = le_of_ltb-false r 56 e in rw (e) (omega arith)
]

-- The bytes of `PAD` that are fed in.
pub padding_lem :
    (msg : List ℕ)
    → take (pad_length (length msg % 64)) pad_bytes ≡ 0x80 ∷ replicate (zeros_for (length msg)) 0
padding_lem msg =
    let n = length msg in
    ap (λ k. take k pad_bytes) (pad_length_lem (n % 64) (omega arith))
    ∙ ap (◌∷◌ 0x80) (take-replicate (zeros_for n) 63 0 (omega arith))

module _ (transform : List ℕ → List ℕ → List ℕ) (enc : ℕ → List ℕ) where
  -- The state that the hash of a message is written from.
  abbrev pub digest_state : List ℕ → List ℕ → List ℕ
  digest_state iv msg = compress transform (length (padded enc msg) / 64) iv (padded enc msg)

  -- The padding functions: the bytes of `PAD`, then the length.
  abbrev pub absorb_padding : List ℕ → List ℕ → ℕ → ℕ → List ℕ
  absorb_padding state buf r bits =
      let first = absorb transform state buf r (take (pad_length r) pad_bytes) in
      (absorb transform first.0 first.1 56 (enc bits)).0

  pub absorb_padding_lem :
      (iv state buf msg : List ℕ)
      → Holds transform iv state buf msg
      → absorb_padding state buf (length msg % 64) (8 * length msg % 2 ^ 64) ≡ digest_state iv msg
  absorb_padding_lem iv state buf msg held =
      let r = length msg % 64 in
      let pad = take (pad_length r) pad_bytes in
      let first = absorb transform state buf r pad in
      let bits = enc (8 * length msg % 2 ^ 64) in
      let held1 = absorb-Holds transform iv state buf msg pad held in
      let at : length (msg ++ pad) % 64 ≡ 56 = omega (
        arith,
        length-append msg pad,
        ap length (padding_lem msg),
        length-replicate {A = ℕ} (zeros_for (length msg)) 0,
      ) in
      let held2 = absorb-Holds transform iv first.0 first.1 (msg ++ pad) bits held1 in
      let same : (msg ++ pad) ++ bits ≡ padded enc msg =
        append_assoc msg pad bits ∙ ap (λ l. msg ++ (l ++ bits)) (padding_lem msg) in
      ap (λ k. (absorb transform first.0 first.1 k bits).0) (sym at)
      ∙ held2.0
      ∙ ap (λ l. compress transform (length l / 64) iv l) same
