-- ===== src/CryptoEntropy/Reads.antt =====
-- crypto/crypto_entropy.c: requests of any length, whatever `entropy_read` answers.
use libcperciva.Prelude.{
  ℕ, zero, suc, ◌+◌, ◌-◌, ◌*◌, ◌≤◌, ◌<◌, ◌≡◌, ◌⊎◌, inl, inr, refl, sym, ap, ◌∙◌, arith, List, [],
  ◌++◌, Bool, true, false, true-false, ltb, if◌then◌else◌, if-elim, Option, none, some, done,
  Returns, Returns-bind, Returns-if, length, replicate, length-take, length-append, ltb→lt,
  le_of_ltb-false,
}
use libcperciva.Sha256.{HmacSha256}
use libcperciva.Sha256.Stream.{length-sha256}
use libcperciva.CryptoEntropy.{
  Drbg, Generator, reseed_interval, generate_maxlen, update, instantiate, reseed, generate, refresh,
  read_loop, crypto_entropy_read,
}
use libcperciva.CryptoEntropy.Update.{prf, IsReady, update-counter, update_from_rdrand-counter}
use libcperciva.CryptoEntropy.Generate.{outputs, blocks, Generated, generate-Generated}

length-outputs : (key v : List ℕ) (n : ℕ) → length (outputs key v n) ≡ n * 32
length-outputs key v zero = omega arith
length-outputs key v (suc n) =
    let first : length (prf key v) ≡ 32 = length-sha256 _ in
    omega (
      arith,
      first,
      length-append (prf key v) (outputs key (prf key v) n),
      length-outputs key (prf key v) n,
    )

length-Generated :
    (d : Drbg) (buflen : ℕ) (r : Drbg × List ℕ) → Generated d buflen r → length r.1 ≡ buflen
length-Generated d buflen r (state, counter, bytes) =
    let all = length-outputs d.key d.v (blocks buflen) in
    let cut = length-take buflen (outputs d.key d.v (blocks buflen)) in
    let enough : buflen ≤ blocks buflen * 32 = omega arith in ap length bytes ∙ omega arith

module _ (stack : HmacSha256) (entropy : ℕ → Option (List ℕ)) (rdrand : ℕ → Option (List ℕ)) where
  -- The counter is at most one above the limit, as it is when a reseed is due.
  abbrev pub Valid : Generator → Type 0
  Valid g = g.drbg.reseed_counter ≤ suc reseed_interval

  abbrev Refreshed : Generator × Bool → Type 0
  Refreshed (g, ok) =
      Valid g
      × (((ok ≡ true) × (g.drbg.reseed_counter ≤ reseed_interval))
          ⊎ ((ok ≡ false) × ((n : ℕ) × (entropy n ≡ none))))

  reseed_cases :
      (g : Generator) (answer : Option (List ℕ))
      → entropy g.calls ≡ answer
      → Valid g
      → Refreshed (elim (reseed stack g.drbg answer (rdrand g.calls)) [
        | none ↦ (record g { calls = suc g.calls }, false)
        | some d ↦ (record g { drbg = d; calls = suc g.calls }, true)
      ])
  unfolding reseed
  reseed_cases g none e valid = (valid, inr (refl, (g.calls, e)))
  reseed_cases g (some seed) e valid = (omega arith, inl (refl, omega arith))

  refresh_lem : (g : Generator) → Valid g → Refreshed (refresh stack entropy rdrand g)
  unfolding refresh
  refresh_lem g valid =
      if-elim Refreshed (ltb reseed_interval g.drbg.reseed_counter) _ _
        (λ e. reseed_cases g (entropy g.calls) refl valid)
        (λ e. (valid, inl (refl, le_of_ltb-false reseed_interval g.drbg.reseed_counter e)))

  -- Exactly `buflen` bytes and 0, or -1 for a call of `entropy_read` that has failed.
  abbrev pub Ends : ℕ → Generator × Bool × List ℕ → Type 0
  Ends buflen (end, status, bytes) =
      Valid end
      × (((status ≡ true) × (length bytes ≡ buflen))
          ⊎ ((status ≡ false) × ((n : ℕ) × (entropy n ≡ none))))

  then_more :
      (piece : List ℕ) (buflen rest : ℕ) (r : Generator × Bool × List ℕ)
      → length piece + rest ≡ buflen
      → Ends rest r
      → Ends buflen (r.0, r.1, piece ++ r.2)
  then_more piece buflen rest (end, status, bytes) h (valid, inl (ok, size)) =
      (valid, inl (ok, omega (arith, length-append piece bytes)))
  then_more piece buflen rest (end, status, bytes) h (valid, inr failed) = (valid, inr failed)

  read_loop_lem :
      (fuel : ℕ) (g : Generator) (buflen : ℕ)
      → IsReady stack
      → Valid g
      → buflen < fuel
      → Returns (Ends buflen) (read_loop stack entropy rdrand fuel g buflen)
  unfolding read_loop
  read_loop_lem zero g buflen ready valid h = absurd (omega arith)
  read_loop_lem (suc fuel) g buflen ready valid h =
      let r = refresh stack entropy rdrand g in
      let (still, outcome) = refresh_lem g valid in
      let count = if ltb generate_maxlen buflen then generate_maxlen else buflen in
      Returns-if _ (ltb 0 buflen) _ _
        (λ e.
          let some_left = ltb→lt 0 buflen e in
          let (small, inside, positive) =
            if-elim (λ n. (n ≤ generate_maxlen) × (n ≤ buflen) × (0 < n))
              (ltb generate_maxlen buflen) generate_maxlen buflen
              (λ f.
                let large = ltb→lt generate_maxlen buflen f in
                (omega arith, omega arith, omega arith))
              (λ f. (le_of_ltb-false generate_maxlen buflen f, omega arith, some_left)) in
          Returns-if _ r.1 _ _
            (λ ok. elim outcome [
              | inl (yes_ok, fresh) ↦
                  Returns-bind _ _ (generate stack r.0.drbg count) _
                    (generate-Generated stack r.0.drbg count ready small fresh)
                    (λ (d, piece) made.
                      let size = length-Generated r.0.drbg count (d, piece) made in
                      let next : Generator = record r.0 { drbg = d } in
                      let counted = made.1 in
                      Returns-bind _ _ (read_loop stack entropy rdrand fuel next (buflen - count)) _
                        (read_loop_lem fuel next (buflen - count) ready (omega arith) (omega arith))
                        (λ end ends.
                          then_more piece buflen (buflen - count) end (omega arith) ends))
              | inr (not_ok, failed) ↦ absurd (true-false (sym ok ∙ not_ok))
            ])
            (λ bad. elim outcome [
              | inl (yes_ok, fresh) ↦ absurd (true-false (sym yes_ok ∙ bad))
              | inr (not_ok, failed) ↦ (still, inr (refl, failed))
            ]))
        (λ e. let all = le_of_ltb-false 0 buflen e in (valid, inl (refl, omega arith)))

  instantiate_cases :
      (g : Generator) (buflen : ℕ) (answer : Option (List ℕ))
      → IsReady stack
      → Valid g
      → entropy g.calls ≡ answer
      → Returns (Ends buflen) (elim (instantiate stack answer (rdrand g.calls)) [
        | none ↦ done (record g { calls = suc g.calls }, false, [])
        | some d ↦
            read_loop stack entropy rdrand
              (suc buflen)
              (record { drbg = d; instantiated = true; calls = suc g.calls })
              buflen
      ])
  unfolding instantiate
  instantiate_cases g buflen none ready valid e = (valid, inr (refl, (g.calls, e)))
  instantiate_cases g buflen (some seed) ready valid e =
      let d : Drbg = record {
        key = replicate 32 0x00;
        v = replicate 32 0x01;
        reseed_counter = 1;
      } in
      let counter =
        update_from_rdrand-counter stack (update stack d seed) (rdrand g.calls)
        ∙ update-counter stack d seed in
      read_loop_lem (suc buflen) _ buflen ready (omega arith) (omega arith)

  -- From a counter of at most 257, with contexts on the stack whose buffers have 64 bytes and with
  -- `atexit` succeeding, `crypto_entropy_read` of any length ends without a failed assertion,
  -- whatever `entropy_read` and RDRAND answer. It leaves a counter of at most 257, and returns 0
  -- with exactly `buflen` bytes stored, or -1 only if `entropy_read` fails for some call.
  pub crypto_entropy_read-Ends :
      (g : Generator) (buflen : ℕ)
      → IsReady stack
      → Valid g
      → Returns (Ends buflen) (crypto_entropy_read stack entropy rdrand true g buflen)
  unfolding crypto_entropy_read
  crypto_entropy_read-Ends g buflen ready valid =
      Returns-if _ g.instantiated _ _
        (λ e. read_loop_lem (suc buflen) g buflen ready valid (omega arith))
        (λ e. instantiate_cases g buflen (entropy g.calls) ready valid refl)
