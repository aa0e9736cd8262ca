-- ===== src/CryptoEntropy/Generate.antt =====
-- crypto/crypto_entropy.c: the bytes that are generated.
use libcperciva.Prelude.{
  ℕ, zero, suc, ◌+◌, ◌-◌, ◌/◌, ◌%◌, ◌^◌, ◌≤◌, ◌<◌, ◌≡◌, refl, sym, subst, ap, ap₂, ◌∙◌, arith, List,
  [], ◌∷◌, ◌++◌, ltb, leb, if◌then◌else◌, if-elim, Returns, Returns-bind, Returns-if,
  Returns-assert, length, take, ltb→lt, le_of_ltb-false, le_of_leb, leb_of_le, take_all,
}
use libcperciva.Sha256.{HmacSha256, hmac_buf}
use libcperciva.Sha256.Stream.{length-sha256}
use libcperciva.CryptoEntropy.{Drbg, reseed_interval, generate_maxlen, fill, generate}
use libcperciva.CryptoEntropy.Update.{
  prf, IsReady, hmac_drbg_update, hmac_buf_lem, update_lem, update-counter,
}
use native.Mathlib.Nat.{mod-eq_of_lt}

-- The values of V that a request takes, one behind the other, and the last of them.
abbrev pub outputs : List ℕ → List ℕ → ℕ → List ℕ
outputs key v zero = []
outputs key v (suc n) = prf key v ++ outputs key (prf key v) n

abbrev pub last_v : List ℕ → List ℕ → ℕ → List ℕ
last_v key v zero = v
last_v key v (suc n) = last_v key (prf key v) n

abbrev pub blocks : ℕ → ℕ
blocks n = (n + 31) / 32

abbrev Filled : List ℕ → List ℕ → ℕ → List ℕ × List ℕ → Type 0
Filled key v left r = r ≡ (last_v key v (blocks left), take left (outputs key v (blocks left)))

take-append : (n : ℕ) (xs ys : List ℕ) → take n (xs ++ ys) ≡ take n xs ++ take (n - length xs) ys
take-append zero [] ys = refl
take-append (suc n) [] ys = let e : suc n ≡ suc n - 0 = omega arith in ap (λ m. take m ys) e
take-append zero (x ∷ xs) ys =
    let e : 0 ≡ 0 - suc (length xs) = omega arith in ap (λ m. take m ys) e
take-append (suc n) (x ∷ xs) ys =
    let e : n - length xs ≡ suc n - suc (length xs) = omega arith in
    ap (◌∷◌ x) (take-append n xs ys ∙ ap (λ m. take n xs ++ take m ys) e)

take_count :
    (left : ℕ) (xs : List ℕ)
    → length xs ≡ 32
    → take (if leb 32 left then 32 else left) xs ≡ take left xs
take_count left xs h =
    if-elim (λ n. take n xs ≡ take left xs) (leb 32 left) 32 left
      (λ e.
        let large = le_of_leb 32 left e in
        take_all 32 xs (omega arith) ∙ sym (take_all left xs (omega arith)))
      (λ e. refl)

fill_lem :
    (stack : HmacSha256) (fuel : ℕ) (key v : List ℕ) (bufpos buflen : ℕ)
    → IsReady stack
    → buflen - bufpos < fuel
    → Returns (Filled key v (buflen - bufpos)) (fill stack fuel key v bufpos buflen)
unfolding fill
fill_lem stack zero key v bufpos buflen ready h = absurd (omega arith)
fill_lem stack (suc fuel) key v bufpos buflen ready h =
    let left = buflen - bufpos in
    Returns-if _ (ltb bufpos buflen) _ _
      (λ e.
        let more = ltb→lt bufpos buflen e in
        let next = hmac_buf_lem stack key v ready in
        let later = outputs key (prf key v) (blocks (left - 32)) in
        let size : length (prf key v) ≡ 32 = length-sha256 _ in
        let one_more : blocks left ≡ suc (blocks (left - 32)) = omega arith in
        let rest : buflen - (bufpos + 32) ≡ left - 32 = omega arith in
        Returns-bind (Filled key (hmac_buf stack key v) (buflen - (bufpos + 32))) _
          (fill stack fuel key (hmac_buf stack key v) (bufpos + 32) buflen) _
          (fill_lem stack fuel key (hmac_buf stack key v) (bufpos + 32) buflen ready (omega arith))
          (λ r filled.
            let same : Filled key (prf key v) (left - 32) r =
              subst (λ w. Filled key w (left - 32) r) next
                (subst (λ n. Filled key (hmac_buf stack key v) n r) rest filled) in
            ap₂ (λ a b. (a, b)) (ap (λ p. p.0) same ∙ sym (ap (last_v key v) one_more))
              (ap₂ (λ a b. take (if leb 32 left then 32 else left) a ++ b) next (ap (λ p. p.1) same)
                ∙ ap (λ a. a ++ take (left - 32) later) (take_count left (prf key v) size)
                ∙ sym (
                    ap (λ n. take left (outputs key v n)) one_more
                    ∙ take-append left (prf key v) later
                    ∙ ap (λ m. take left (prf key v) ++ take (left - m) later) size))))
      (λ e.
        let none_left : left ≡ 0 = let all = le_of_ltb-false bufpos buflen e in omega arith in
        ap (λ n. (last_v key v (blocks n), take n (outputs key v (blocks n)))) (sym none_left))

-- What a request for `buflen` bytes gives, and the state after it.
abbrev pub Generated : Drbg → ℕ → Drbg × List ℕ → Type 0
Generated d buflen (end, bytes) =
    ((end.key, end.v) ≡ hmac_drbg_update (d.key, last_v d.key d.v (blocks buflen)) [])
    × (end.reseed_counter ≡ d.reseed_counter + 1)
    × (bytes ≡ take buflen (outputs d.key d.v (blocks buflen)))

-- Whatever contexts the stack holds, with buffers of 64 bytes, `generate` passes its assertions for
-- at most 65536 bytes and a counter of at most 256. It stores the first `buflen` bytes of the
-- values of V that come from iterating HMAC over SHA-256 under the key, then K and V are those of
-- the standard's update without input, and the counter is one higher.
pub generate-Generated :
    (stack : HmacSha256) (d : Drbg) (buflen : ℕ)
    → IsReady stack
    → buflen ≤ generate_maxlen
    → d.reseed_counter ≤ reseed_interval
    → Returns (Generated d buflen) (generate stack d buflen)
unfolding generate
generate-Generated stack d buflen ready small fresh =
    Returns-assert _ (leb buflen generate_maxlen) _ (leb_of_le buflen generate_maxlen small) (
      Returns-assert _ (leb d.reseed_counter reseed_interval) _
        (leb_of_le d.reseed_counter reseed_interval fresh)
        (Returns-bind _ _ (fill stack (suc buflen) d.key d.v 0 buflen) _
          (fill_lem stack (suc buflen) d.key d.v 0 buflen ready (omega arith))
          (λ r filled.
            let all : buflen - 0 ≡ buflen = omega arith in
            let same : Filled d.key d.v buflen r = subst (λ n. Filled d.key d.v n r) all filled in
            let next : Drbg = record d { v = r.0 } in
            (
              update_lem stack next [] ready ∙ ap (λ p. hmac_drbg_update (d.key, p.0) []) same,
              ap (λ c. (c + 1) % 2 ^ 32) (update-counter stack next [])
                  ∙ mod-eq_of_lt (omega arith),
              ap (λ p. p.1) same,
            ))))
