-- ===== src/CryptoEntropy.antt =====
-- crypto/crypto_entropy.c: the generator HMAC_DRBG. The answers of `entropy_read` and of the RDRAND
-- instruction are parameters, and so are the contexts of HMAC that the stack holds at first.
pub mod Update
pub mod Generate
pub mod Reads
use libcperciva.Prelude.{
  ℕ, zero, suc, ◌+◌, ◌-◌, ◌%◌, ◌^◌, List, [], ◌∷◌, ◌++◌, Bool, true, false, ltb, leb, ◌==◌,
  if◌then◌else◌, Option, none, some, Outcome, done, abort, ◌>>=◌, assert, length, take, replicate,
}
use libcperciva.Sha256.{HmacSha256, hmac_init, hmac_update, hmac_final, hmac_buf}

-- The static variable `drbg`.
pub record Drbg : Type 0 where
  pub key : List ℕ
  pub v : List ℕ
  pub reseed_counter : ℕ

abbrev pub reseed_interval : ℕ
reseed_interval = 256

abbrev pub generate_maxlen : ℕ
generate_maxlen = 65536

-- The static variables, and how often `entropy_read` was called.
pub record Generator : Type 0 where
  pub drbg : Drbg
  pub instantiated : Bool
  pub calls : ℕ

module _ (stack : HmacSha256) where
  -- One stage of `update`: K <- HMAC(K, V || byte || data), V <- HMAC(K, V).
  unfoldable pub stage : List ℕ × List ℕ → ℕ → List ℕ → List ℕ × List ℕ
  stage (k, v) byte input =
      let ctx = hmac_update (hmac_update (hmac_init stack k) (v ++ (byte ∷ []))) input in
      let next = (hmac_final ctx).1 in (next, hmac_buf stack next v)

  unfoldable pub update : Drbg → List ℕ → Drbg
  update d input =
      let once = stage (d.key, d.v) 0x00 input in
      let both = if length input == 0 then once else stage once 0x01 input in
      record d { key = both.0; v = both.1 }

  -- `update_from_rdrand`, where there is the instruction and it gives 32 bytes.
  unfoldable pub update_from_rdrand : Drbg → Option (List ℕ) → Drbg
  update_from_rdrand d none = d
  update_from_rdrand d (some buf) = update d buf

  -- None for -1.
  unfoldable pub instantiate : Option (List ℕ) → Option (List ℕ) → Option Drbg
  instantiate none extra = none
  instantiate (some seed_material) extra =
      let d : Drbg = record {
        key = replicate 32 0x00;
        v = replicate 32 0x01;
        reseed_counter = 1;
      } in
      some (update_from_rdrand (update d seed_material) extra)

  unfoldable pub reseed : Drbg → Option (List ℕ) → Option (List ℕ) → Option Drbg
  reseed d none extra = none
  reseed d (some seed_material) extra =
      some (record (update_from_rdrand (update d seed_material) extra) { reseed_counter = 1 })

  -- The loop of `generate`: the value of V afterwards, and the bytes stored from `bufpos` on.
  unfoldable pub fill : ℕ → List ℕ → List ℕ → ℕ → ℕ → Outcome (List ℕ × List ℕ)
  fill zero key v bufpos buflen = abort
  fill (suc fuel) key v bufpos buflen =
      let next = hmac_buf stack key v in
      let count = if leb 32 (buflen - bufpos) then 32 else buflen - bufpos in
      let rest = fill fuel key next (bufpos + 32) buflen in
      if ltb bufpos buflen then rest >>= (λ r. done (r.0, take count next ++ r.1)) else done (v, [])

  unfoldable pub generate : Drbg → ℕ → Outcome (Drbg × List ℕ)
  generate d buflen = assert (leb buflen generate_maxlen) (
      assert (leb d.reseed_counter reseed_interval) (
        fill (suc buflen) d.key d.v 0 buflen >>= λ r.
        let mixed = update (record d { v = r.0 }) [] in
        done (record mixed { reseed_counter = (mixed.reseed_counter + 1) % 2 ^ 32 }, r.1)))

  module _ (entropy : ℕ → Option (List ℕ)) (rdrand : ℕ → Option (List ℕ)) where
    -- The reseeding that a pass of the loop does if the counter says so, and whether it succeeds.
    unfoldable pub refresh : Generator → Generator × Bool
    refresh g =
        if ltb reseed_interval g.drbg.reseed_counter
        then (elim (reseed g.drbg (entropy g.calls) (rdrand g.calls)) [
          | none ↦ (record g { calls = suc g.calls }, false)
          | some d ↦ (record g { drbg = d; calls = suc g.calls }, true)
        ])
        else (g, true)

    -- The loop of `crypto_entropy_read`: whether it returns 0, and the bytes stored.
    unfoldable pub read_loop : ℕ → Generator → ℕ → Outcome (Generator × Bool × List ℕ)
    read_loop zero g buflen = abort
    read_loop (suc fuel) g buflen =
        let (ready, ok) = refresh g in
        let bytes_to_provide = if ltb generate_maxlen buflen then generate_maxlen else buflen in
        let step = generate ready.drbg bytes_to_provide >>= λ r.
        read_loop fuel (record ready { drbg = r.0 }) (buflen - bytes_to_provide)
        >>= λ (end, status, bytes). done (end, status, r.1 ++ bytes) in
        if ltb 0 buflen then (if ok then step else done (ready, false, [])) else done (g, true, [])

    -- `crypto_entropy_read`; `registered` says whether `atexit` succeeds.
    unfoldable pub crypto_entropy_read : Bool → Generator → ℕ → Outcome (Generator × Bool × List ℕ)
    crypto_entropy_read registered g buflen =
        if g.instantiated
        then read_loop (suc buflen) g buflen
        else (if registered
            then (elim (instantiate (entropy g.calls) (rdrand g.calls)) [
              | none ↦ done (record g { calls = suc g.calls }, false, [])
              | some d ↦
                  read_loop (suc buflen)
                    (record { drbg = d; instantiated = true; calls = suc g.calls }) buflen
            ])
            else done (g, false, []))
