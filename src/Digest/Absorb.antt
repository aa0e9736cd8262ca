-- ===== src/Digest/Absorb.antt =====
-- alg/sha256.c, alg/sha1.c, alg/md5.c: the buffer and the loop over complete blocks compute the
-- iterated compression function of everything that was fed in.
use mathlib.Core.List.{append-nil}
use libcperciva.Prelude.{
  ℕ, zero, suc, ◌+◌, ◌-◌, ◌*◌, ◌/◌, ◌%◌, ◌≤◌, ◌<◌, ◌≡◌, sym, ap, ap₂, ◌∙◌, arith, List, ◌++◌, true,
  false, inl, inr, ◌⊎◌, ltb, leb, length, take, drop, memcpy, Bool-cases, ltb→lt, lt→ltb,
  ltb-false_of_le, le_of_ltb-false, length-append, length-drop, length-memcpy, take-memcpy,
  take_all, take-append_add, drop_all, drop_append_left, drop-append_add, drop-drop,
}
use libcperciva.Digest.{complete_blocks, absorb}
use libcperciva.Digest.Blocks.{compress, compress_add, compress-append}

leb_cases : (n : ℕ) → ((leb 64 n ≡ true) × (64 ≤ n)) ⊎ ((leb 64 n ≡ false) × (n < 64))
leb_cases n = ground arith

module _ {ℓ} {A : Type ℓ} where
  -- Copying behind the first `r` elements and reading as far as that.
  take-memcpy_all :
      (buf : List A) (r : ℕ) (src : List A)
      → r ≤ length buf
      → take (r + length src) (memcpy buf r src (length src)) ≡ take r buf ++ src
  take-memcpy_all buf r src h =
      take-memcpy buf r src (length src) h (omega arith)
      ∙ ap (take r buf ++◌) (take_all (length src) src (omega arith))

  -- Copying up to the end of the buffer.
  memcpy_end :
      (buf : List A) (r n : ℕ) (src : List A)
      → length buf ≡ r + n
      → memcpy buf r src n ≡ take r buf ++ take n src
  unfolding memcpy
  memcpy_end buf r n src h =
      ap (λ l. take r buf ++ (take n src ++ l)) (drop_all (r + n) buf (omega arith))
      ∙ ap (take r buf ++◌) (append-nil (take n src))

module _ (transform : List ℕ → List ℕ → List ℕ) where
  pub complete_blocks_lem :
      (fuel : ℕ) (s src : List ℕ)
      → length src ≤ fuel
      → complete_blocks transform fuel s src
        ≡ (compress transform (length src / 64) s src, drop (64 * (length src / 64)) src)
  unfolding complete_blocks compress
  complete_blocks_lem zero s src h = let e : length src / 64 ≡ 0 = omega arith in rw (e)
  complete_blocks_lem (suc fuel) s src h =
      let n = length src / 64 in
      elim (leb_cases (length src)) [
        | inl (e, k) ↦
            let rest = drop 64 src in
            let more : n ≡ suc (length rest / 64) = omega (arith, length-drop 64 src) in
            let far : 64 + 64 * (length rest / 64) ≡ 64 * suc (length rest / 64) = omega arith in
            rw (e, more, complete_blocks)
              (complete_blocks_lem fuel (transform s (take 64 src)) rest
                  (omega (arith, length-drop 64 src))
                ∙ ap
                    (λ l.
                      (compress transform (length rest / 64) (transform s (take 64 src)) rest, l))
                    (drop-drop (64 * (length rest / 64)) 64 src ∙ ap (λ m. drop m src) far))
        | inr (e, k) ↦ let none_left : n ≡ 0 = omega arith in rw (e, none_left, complete_blocks)
      ]

  -- Bytes that do not complete the buffer.
  pub absorb_short :
      (state buf : List ℕ) (r : ℕ) (src : List ℕ)
      → length src < 64 - r
      → absorb transform state buf r src ≡ (state, memcpy buf r src (length src))
  unfolding absorb
  absorb_short state buf r src h = rw (lt→ltb (length src) (64 - r) h, absorb)

  -- Bytes that complete the buffer, and less than a block behind them.
  pub absorb_once :
      (state buf : List ℕ) (r : ℕ) (src : List ℕ)
      → 64 - r ≤ length src
      → length src < 128 - r
      → r < 64
      → absorb transform state buf r src ≡ (
        transform state (memcpy buf r src (64 - r)),
        memcpy (memcpy buf r src (64 - r)) 0 (drop (64 - r) src) (length (drop (64 - r) src)),
      )
  unfolding absorb compress
  absorb_once state buf r src h few small =
      let rest = drop (64 - r) src in
      let none_left : length rest / 64 ≡ 0 = omega (arith, length-drop (64 - r) src) in
      let loop =
        complete_blocks_lem (length src) (transform state (memcpy buf r src (64 - r))) rest
          (omega (arith, length-drop (64 - r) src)) in
      rw (ltb-false_of_le (length src) (64 - r) h, absorb, loop, none_left)

  -- The state and the buffer after `msg` was fed in: the complete blocks are mixed into the
  -- state, and the bytes behind them stand at the start of the buffer.
  abbrev pub Holds : List ℕ → List ℕ → List ℕ → List ℕ → Type 0
  Holds iv state buf msg =
      (state ≡ compress transform (length msg / 64) iv msg)
      × (length buf ≡ 64)
      × (take (length msg % 64) buf ≡ drop (64 * (length msg / 64)) msg)

  module _ (iv state buf msg src : List ℕ) (held : Holds iv state buf msg) where
    abbrev count : ℕ
    count = length msg / 64

    abbrev filling : ℕ
    filling = length msg % 64

    abbrev tail : List ℕ
    tail = drop (64 * count) msg

    abbrev rest : List ℕ
    rest = drop (64 - filling) src

    length-tail : length tail ≡ filling
    length-tail = omega (arith, length-drop (64 * count) msg)

    tail-append : drop (64 * count) (msg ++ src) ≡ tail ++ src
    tail-append = drop_append_left (64 * count) msg src (omega arith)

    stays :
        length src < 64 - filling
        → Holds iv state (memcpy buf filling src (length src)) (msg ++ src)
    stays few =
        let sum = length-append msg src in
        let same : length (msg ++ src) / 64 ≡ count = omega (arith, sum) in
        let more : length (msg ++ src) % 64 ≡ filling + length src = omega (arith, sum) in
        let (h, k, t) = held in
        rw (same, more)
          (
            h ∙ sym (compress-append transform count iv msg src (omega arith)),
            length-memcpy buf filling src (length src) (omega arith) (omega arith) ∙ k,
            take-memcpy_all buf filling src (omega arith) ∙ ap (λ l. l ++ src) t ∙ sym tail-append,
          )

    abbrev filled : List ℕ
    filled = memcpy buf filling src (64 - filling)

    filled_block : filled ≡ take 64 (tail ++ src)
    filled_block =
        let whole : filling + (64 - filling) ≡ 64 = omega arith in
        memcpy_end buf filling (64 - filling) src (omega (arith, held.1))
        ∙ ap (λ l. l ++ take (64 - filling) src) held.2
        ∙ sym (take-append_add filling (64 - filling) tail src length-tail)
        ∙ ap (λ k. take k (tail ++ src)) whole

    rest_lem : drop 64 (tail ++ src) ≡ rest
    rest_lem =
        let whole : 64 ≡ filling + (64 - filling) = omega arith in
        ap (λ k. drop k (tail ++ src)) whole
        ∙ drop-append_add filling (64 - filling) tail src length-tail

    abbrev more : ℕ
    more = length rest / 64

    left_lem : drop (64 * (count + suc more)) (msg ++ src) ≡ drop (64 * more) rest
    left_lem =
        let split : 64 * (count + suc more) ≡ 64 * count + (64 + 64 * more) = omega arith in
        ap (λ k. drop k (msg ++ src)) split
        ∙ sym (drop-drop (64 + 64 * more) (64 * count) (msg ++ src))
        ∙ ap (drop (64 + 64 * more)) tail-append
        ∙ sym (drop-drop (64 * more) 64 (tail ++ src))
        ∙ ap (drop (64 * more)) rest_lem

    mixed :
        compress transform more (transform state filled) rest
        ≡ compress transform (count + suc more) iv (msg ++ src)
    unfolding compress
    mixed =
        ap₂ (λ s l. compress transform more s l) (ap₂ transform held.0 filled_block) (sym rest_lem)
        ∙ ap₂ (compress transform (suc more))
            (sym (compress-append transform count iv msg src (omega arith))) (sym tail-append)
        ∙ sym (compress_add transform count (suc more) iv (msg ++ src))

    goes_on :
        64 - filling ≤ length src
        → Holds iv
            (compress transform more (transform state filled) rest)
            (memcpy filled 0 (drop (64 * more) rest) (length (drop (64 * more) rest)))
            (msg ++ src)
    goes_on enough =
        let left = drop (64 * more) rest in
        let sum = length-append msg src in
        let rests = length-drop (64 - filling) src in
        let lefts = length-drop (64 * more) rest in
        let blocks : length (msg ++ src) / 64 ≡ count + suc more = omega (arith, sum, rests) in
        let bytes : length (msg ++ src) % 64 ≡ 0 + length left = omega (arith, sum, rests, lefts) in
        let full : length filled ≡ 64 =
          length-memcpy buf filling src (64 - filling) (omega arith) (omega (arith, held.1))
          ∙ held.1 in
        rw (blocks, bytes)
          (
            mixed,
            length-memcpy filled 0 left (length left) (omega arith) (omega arith) ∙ full,
            take-memcpy_all filled 0 left (omega arith) ∙ sym left_lem,
          )

    -- Feeding bytes in is feeding in the message that they lengthen.
    pub absorb-Holds :
        Holds iv
          (absorb transform state buf filling src).0
          (absorb transform state buf filling src).1
          (msg ++ src)
    unfolding absorb
    absorb-Holds = elim (Bool-cases (ltb (length src) (64 - filling))) [
      | inl e ↦ rw (e, absorb) (stays (ltb→lt (length src) (64 - filling) e))
      | inr e ↦
          rw
            (
              e,
              absorb,
              complete_blocks_lem (length src) (transform state filled) rest
                  (omega (arith, length-drop (64 - filling) src)),
            )
            (goes_on (le_of_ltb-false (length src) (64 - filling) e))
    ]
