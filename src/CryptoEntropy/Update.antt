-- ===== src/CryptoEntropy/Update.antt =====
-- crypto/crypto_entropy.c: the update of the state, over HMAC as a function.
use mathlib.Core.List.{append_assoc, append-nil}
use libcperciva.Prelude.{
  ℕ, ◌≡◌, refl, ap, ap₂, ◌∙◌, arith, List, [], ◌∷◌, ◌++◌, ◌==◌, if◌then◌else◌, Option, none, some,
  length,
}
use libcperciva.Digest.Hmac.{hmac, buf-hmac}
use libcperciva.Sha256.{HmacSha256, hmac_buf, sha256_internal}
use libcperciva.Sha256.Stream.{Ready, sha256, internal_laws}
use libcperciva.Sha256.Keyed.{hmac_final-hmac}
use libcperciva.CryptoEntropy.{Drbg, stage, update, update_from_rdrand}

abbrev pub prf : List ℕ → List ℕ → List ℕ
prf = hmac sha256

abbrev pub IsReady : HmacSha256 → Type 0
IsReady stack = Ready stack.ictx × Ready stack.octx

-- The update function of the standard on (K, V), in section 10.1.2.2.
abbrev mixed : List ℕ × List ℕ → ℕ → List ℕ → List ℕ × List ℕ
mixed (k, v) byte input = (prf k (v ++ (byte ∷ input)), prf (prf k (v ++ (byte ∷ input))) v)

abbrev pub hmac_drbg_update : List ℕ × List ℕ → List ℕ → List ℕ × List ℕ
hmac_drbg_update kv input =
    if length input == 0 then mixed kv 0x00 input else mixed (mixed kv 0x00 input) 0x01 input

pub hmac_buf_lem :
    (stack : HmacSha256) (key src : List ℕ) → IsReady stack → hmac_buf stack key src ≡ prf key src
unfolding hmac_buf
hmac_buf_lem stack key src (ri, ro) =
    buf-hmac sha256_internal sha256 32 internal_laws (omega arith) stack key src ri ro

stage_lem :
    (stack : HmacSha256) (kv : List ℕ × List ℕ) (byte : ℕ) (input : List ℕ)
    → IsReady stack
    → stage stack kv byte input ≡ mixed kv byte input
unfolding stage
stage_lem stack (k, v) byte input (ri, ro) =
    let message : (v ++ (byte ∷ [])) ++ (input ++ []) ≡ v ++ (byte ∷ input) =
      ap ((v ++ (byte ∷ [])) ++◌) (append-nil input) ∙ append_assoc v (byte ∷ []) input in
    let next =
      hmac_final-hmac stack k ((v ++ (byte ∷ [])) ∷ input ∷ []) ri ro ∙ ap (prf k) message in
    ap₂ (λ a b. (a, b)) next (hmac_buf_lem stack _ v (ri, ro) ∙ ap (λ a. prf a v) next)

pub update_lem :
    (stack : HmacSha256) (d : Drbg) (input : List ℕ)
    → IsReady stack
    → ((update stack d input).key, (update stack d input).v) ≡ hmac_drbg_update (d.key, d.v) input
unfolding update
update_lem stack d input ready =
    let once = stage_lem stack (d.key, d.v) 0x00 input ready in
    ap₂ (λ a b. if length input == 0 then a else b) once
      (stage_lem stack _ 0x01 input ready ∙ ap (λ a. mixed a 0x01 input) once)

pub update-counter :
    (stack : HmacSha256) (d : Drbg) (input : List ℕ)
    → (update stack d input).reseed_counter ≡ d.reseed_counter
unfolding update
update-counter stack d input = refl

pub update_from_rdrand-counter :
    (stack : HmacSha256) (d : Drbg) (extra : Option (List ℕ))
    → (update_from_rdrand stack d extra).reseed_counter ≡ d.reseed_counter
unfolding update_from_rdrand
update_from_rdrand-counter stack d none = refl
update_from_rdrand-counter stack d (some buf) = update-counter stack d buf
