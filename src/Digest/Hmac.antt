-- ===== src/Digest/Hmac.antt =====
-- alg/sha256.c, alg/sha1.c, alg/md5.c: the keyed hash, the same in the three files up to the hash.
use Prim.Native.Nat.{bit_xor}
use mathlib.Core.List.{append_assoc, append-nil}
use libcperciva.Prelude.{
  ℕ, zero, suc, ◌-◌, ◌≤◌, ◌≡◌, refl, sym, ap, subst, ◌∙◌, arith, List, [], ◌∷◌, ◌++◌, map, ltb,
  if◌then◌else◌, length, replicate, inl, inr, Bool-cases, le_of_ltb-false,
}
use libcperciva.Digest.Hash.{Hash, Lawful}

-- `for (i = 0; i < Klen; i++) pad[i] ^= K[i]`.
unfoldable pub xor_key : List ℕ → List ℕ → List ℕ
xor_key (p ∷ ps) (k ∷ ks) = bit_xor p k ∷ xor_key ps ks
xor_key ps [] = ps
xor_key [] ks = []

-- The key filled up with zeros to a block, in exclusive or with a byte repeated.
abbrev pub key_block : ℕ → List ℕ → List ℕ
key_block byte key = map (bit_xor byte) (key ++ replicate (64 - length key) 0)

-- HMAC as it is specified, over any hash with blocks of 64 bytes.
abbrev pub hmac : (List ℕ → List ℕ) → List ℕ → List ℕ → List ℕ
hmac hash key msg =
    let short = if ltb 64 (length key) then hash key else key in
    hash (key_block 0x5c short ++ hash (key_block 0x36 short ++ msg))

map-replicate : (f : ℕ → ℕ) (n a : ℕ) → map f (replicate n a) ≡ replicate n (f a)
map-replicate f zero a = refl
map-replicate f (suc n) a = ap (◌∷◌ (f a)) (map-replicate f n a)

xor_key_lem :
    (byte n : ℕ) (key : List ℕ)
    → bit_xor byte 0 ≡ byte
    → length key ≤ n
    → xor_key (replicate n byte) key ≡ map (bit_xor byte) (key ++ replicate (n - length key) 0)
unfolding xor_key
xor_key_lem byte zero [] z h = refl
xor_key_lem byte zero (k ∷ ks) z h = absurd (omega arith)
xor_key_lem byte (suc n) [] z h =
    let e : suc n - 0 ≡ suc n = omega arith in
    sym (
      ap (λ m. map (bit_xor byte) (replicate m 0)) e
      ∙ map-replicate (bit_xor byte) (suc n) 0
      ∙ ap (replicate (suc n)) z)
xor_key_lem byte (suc n) (k ∷ ks) z h =
    let e : n - length ks ≡ suc n - suc (length ks) = omega arith in
    ap (◌∷◌ (bit_xor byte k))
      (xor_key_lem byte n ks z (omega arith) ∙ ap (λ m. map (bit_xor byte) (ks ++ replicate m 0)) e)

pub record HmacCtx (Ctx : Type 0) : Type 0 where
  pub ictx : Ctx
  pub octx : Ctx

module _ (h : Hash) where
  -- The key that is used and what the hashing of a long key leaves of the inner context.
  unfoldable pub use_key : h.Ctx → List ℕ → h.Ctx × List ℕ
  use_key c key = if ltb 64 (length key) then h.final (h.update (h.init c) key) else (c, key)

  unfoldable pub init : HmacCtx h.Ctx → List ℕ → HmacCtx h.Ctx
  init c key =
      let used = use_key c.ictx key in
      record {
        ictx = h.update (h.init used.0) (xor_key (replicate 64 0x36) used.1);
        octx = h.update (h.init c.octx) (xor_key (replicate 64 0x5c) used.1);
      }

  unfoldable pub update : HmacCtx h.Ctx → List ℕ → HmacCtx h.Ctx
  update c src = record c { ictx = h.update c.ictx src }

  unfoldable pub final : HmacCtx h.Ctx → HmacCtx h.Ctx × List ℕ
  final c =
      let inner = h.final c.ictx in
      let outer = h.final (h.update c.octx inner.1) in
      (record { ictx = inner.0; octx = outer.0 }, outer.1)

  -- The context starts as what is in memory.
  unfoldable pub buf : HmacCtx h.Ctx → List ℕ → List ℕ → List ℕ
  buf c key src = (final (update (init c key) src)).1

module _ (h : Hash) (hash : List ℕ → List ℕ) (size : ℕ) (law : Lawful h hash size)
    (fits : size ≤ 64) where
  abbrev pub used : List ℕ → List ℕ
  used key = if ltb 64 (length key) then hash key else key

  abbrev pub Keyed : HmacCtx h.Ctx → List ℕ → List ℕ → Type 0
  Keyed c key msg =
      law.Takes c.ictx (key_block 0x36 (used key) ++ msg)
      × law.Takes c.octx (key_block 0x5c (used key))

  use_key_lem :
      (c : h.Ctx) (key : List ℕ)
      → law.Ready c
      → law.Ready (use_key h c key).0 × ((use_key h c key).1 ≡ used key) × (length (used key) ≤ 64)
  unfolding use_key
  use_key_lem c key ready = elim (Bool-cases (ltb 64 (length key))) [
    | inl e ↦
        let fed = law.update-Takes (h.init c) [] key (law.init-Takes c ready) in
        let short = law.length-hash key in
        rw (e) (law.final-Ready _ key fed, law.final_lem _ key fed, omega arith)
    | inr e ↦ let short = le_of_ltb-false 64 (length key) e in rw (e) (ready, refl, short)
  ]

  pub init-Keyed :
      (c : HmacCtx h.Ctx) (key : List ℕ)
      → law.Ready c.ictx
      → law.Ready c.octx
      → Keyed (init h c key) key []
  unfolding init
  init-Keyed c key ri ro =
      let (ready, same, short) = use_key_lem c.ictx key ri in
      let block : (byte : ℕ) → bit_xor byte 0 ≡ byte → _ =
        λ byte z. ap (xor_key (replicate 64 byte)) same ∙ xor_key_lem byte 64 (used key) z short in
      (
        subst (law.Takes _) (block 0x36 refl ∙ sym (append-nil (key_block 0x36 (used key))))
            (law.update-Takes _ [] _ (law.init-Takes _ ready)),
        subst (law.Takes _) (block 0x5c refl) (law.update-Takes _ [] _ (law.init-Takes c.octx ro)),
      )

  pub update-Keyed :
      (c : HmacCtx h.Ctx) (key msg src : List ℕ)
      → Keyed c key msg
      → Keyed (update h c src) key (msg ++ src)
  unfolding update
  update-Keyed c key msg src (inner, outer) = (
    subst (law.Takes (h.update c.ictx src)) (append_assoc (key_block 0x36 (used key)) msg src)
        (law.update-Takes c.ictx _ src inner),
    outer,
  )

  pub final-hmac :
      (c : HmacCtx h.Ctx) (key msg : List ℕ) → Keyed c key msg → (final h c).1 ≡ hmac hash key msg
  unfolding final
  final-hmac c key msg (inner, outer) =
      let ihash = law.final_lem c.ictx _ inner in
      law.final_lem _ _ (law.update-Takes c.octx (key_block 0x5c (used key)) _ outer)
      ∙ ap (λ d. hash (key_block 0x5c (used key) ++ d)) ihash

  pub buf-hmac :
      (c : HmacCtx h.Ctx) (key src : List ℕ)
      → law.Ready c.ictx
      → law.Ready c.octx
      → buf h c key src ≡ hmac hash key src
  unfolding buf
  buf-hmac c key src ri ro =
      final-hmac (update h (init h c key) src) key src
        (update-Keyed (init h c key) key [] src (init-Keyed c key ri ro))
