-- ===== src/Sha256/Stream.antt =====
-- alg/sha256.c: a context that was fed in pieces holds the whole message, and its digest is the
-- hash of it.
use mathlib.Core.List.{append-nil}
use libcperciva.Prelude.{
  ℕ, zero, suc, ◌+◌, ◌-◌, ◌*◌, ◌/◌, ◌%◌, ◌^◌, ◌≤◌, ◌<◌, ◌≡◌, refl, sym, ap, subst, ◌∙◌, arith, List,
  [], ◌∷◌, ◌++◌, ◌==◌, ltb, length, take, drop, replicate, memcpy, if-elim, length-append, ==_iff,
  ltb→lt, le_of_ltb-false, length-take, length-memcpy, take-take, drop-take,
}
use libcperciva.Prelude.Bits.{bit_and_63}
use libcperciva.SysEndian.{be32enc}
use libcperciva.Digest.{absorb, enc_vect, be64_bytes, pad_bytes}
use libcperciva.Digest.Absorb.{Holds, absorb_short, absorb_once, absorb-Holds}
use libcperciva.Digest.Blocks.{compress, length-compress}
use libcperciva.Digest.Padding.{
  padded, pad_length, pad_length_lem, take-replicate, digest_state, absorb_padding,
  absorb_padding_lem,
}
use libcperciva.Digest.Hash.{Lawful}
use libcperciva.Sha256.{
  Ctx, init, buffered, update, pad_to_56, pad, final_internal, sha256_internal,
}
use libcperciva.Digest.Words.{length-enc_vect}
use libcperciva.Sha256.Transform.{transform, length-transform, initial_state}

-- The bytes `m` were fed in since the context was initialized.
abbrev pub Takes : Ctx → List ℕ → Type 0
Takes c m = Holds transform initial_state c.state c.buf m × (c.count ≡ 8 * length m % 2 ^ 64)

abbrev pub Ready : Ctx → Type 0
Ready c = length c.buf ≡ 64

append_empty : (m src : List ℕ) → length src ≡ 0 → m ++ src ≡ m
append_empty m [] h = append-nil m
append_empty m (x ∷ xs) h = absurd (omega arith)

pub init-Takes : (c : Ctx) → Ready c → Takes (init c) []
unfolding init compress
init-Takes c h = ((refl, h, refl), refl)

buffered_lem : (c : Ctx) (m : List ℕ) → Takes c m → buffered c ≡ length m % 64
unfolding buffered
buffered_lem c m (held, count) = bit_and_63 (c.count / 2 ^ 3) ∙ omega (arith, count)

pub update-Takes : (c : Ctx) (m src : List ℕ) → Takes c m → Takes (update c src) (m ++ src)
unfolding update
update-Takes c m src (held, count) =
    let r = buffered_lem c m (held, count) in
    if-elim (λ d. Takes d (m ++ src)) (length src == 0) c _
      (λ e. subst (Takes c) (sym (append_empty m src ((==_iff (length src) 0).0 e))) (held, count))
      (λ e. (
        rw (r) (absorb-Holds transform initial_state c.state c.buf m src held),
        omega (arith, count, length-append m src),
      ))

-- The part of `PAD` behind its first byte is zeros.
drop-replicate : (n m : ℕ) (a : ℕ) → drop n (replicate (n + m) a) ≡ replicate m a
drop-replicate zero m a = let e : 0 + m ≡ m = omega arith in ap (λ k. replicate k a) e
drop-replicate (suc n) m a =
    let e : suc n + m ≡ suc (n + m) = omega arith in
    ap (λ k. drop (suc n) (replicate k a)) e ∙ drop-replicate n m a

zeros_lem : (r : ℕ) → r < 64 → 56 ≤ r → take 56 (drop (64 - r) pad_bytes) ≡ replicate 56 0
zeros_lem r h k =
    let e : 64 - r ≡ suc (63 - r) = omega arith in
    let f : 63 ≡ 63 - r + r = omega arith in
    ap (λ n. take 56 (drop n pad_bytes)) e
    ∙ ap (λ n. take 56 (drop (63 - r) (replicate n 0))) f
    ∙ ap (take 56) (drop-replicate (63 - r) r 0)
    ∙ take-replicate 56 r 0 k

memcpy-take :
    (buf : List ℕ) (r : ℕ) (src : List ℕ) (n m : ℕ)
    → m ≤ n
    → memcpy buf r (take n src) m ≡ memcpy buf r src m
unfolding memcpy
memcpy-take buf r src n m h = ap (λ l. take r buf ++ (l ++ drop (r + m) buf)) (take-take m n src h)

-- Up to the length, `pad` does what feeding the bytes of `PAD` in does.
pad_to_56_lem :
    (state buf : List ℕ) (r : ℕ)
    → r < 64
    → length buf ≡ 64
    → pad_to_56 state buf r ≡ absorb transform state buf r (take (pad_length r) pad_bytes)
unfolding pad_to_56
pad_to_56_lem state buf r h k =
    let plen = pad_length_lem r h in
    let pad = take (pad_length r) pad_bytes in
    let size : length pad ≡ pad_length r = omega (arith, length-take (pad_length r) pad_bytes) in
    if-elim (λ d. d ≡ absorb transform state buf r pad) (ltb r 56) _ _
      (λ e.
        let small = ltb→lt r 56 e in
        let few : pad_length r ≡ 56 - r = omega arith in
        sym (
          absorb_short transform state buf r pad (omega arith)
          ∙ ap (λ n. (state, memcpy buf r pad n)) (size ∙ few)
          ∙ ap (λ b. (state, b))
              (memcpy-take buf r pad_bytes (pad_length r) (56 - r) (omega arith))))
      (λ e.
        let large = le_of_ltb-false r 56 e in
        let many : pad_length r ≡ 64 - r + 56 = omega arith in
        let fill = memcpy-take buf r pad_bytes (pad_length r) (64 - r) (omega arith) in
        let zeros =
          ap (λ n. drop (64 - r) (take n pad_bytes)) many
          ∙ drop-take (64 - r) 56 pad_bytes
          ∙ zeros_lem r h large in
        sym (
          absorb_once transform state buf r pad (omega arith) (omega arith) h
          ∙ (λ i. (transform state (fill i), memcpy (fill i) 0 (zeros i) (length (zeros i))))))

pad_state :
    (c : Ctx) (r : ℕ)
    → buffered c ≡ r
    → r < 64
    → length c.buf ≡ 64
    → (pad c).state ≡ absorb_padding transform be64_bytes c.state c.buf r c.count
unfolding pad
pad_state c r e h k =
    let first = absorb transform c.state c.buf r (take (pad_length r) pad_bytes) in
    let same : pad_to_56 c.state c.buf (buffered c) ≡ first =
      ap (pad_to_56 c.state c.buf) e ∙ pad_to_56_lem c.state c.buf r h k in
    ap (λ f. transform f.0 (memcpy f.1 56 (be64_bytes c.count) 8)) same
    ∙ sym (
        ap (λ d. d.0)
          (absorb_once transform first.0 first.1 56 (be64_bytes c.count) (omega arith) (omega arith)
            (omega arith)))

-- The SHA-256 of a message: the padded message compressed block by block, and the words of the
-- state stored with the most significant byte first.
abbrev pub sha256 : List ℕ → List ℕ
sha256 m = enc_vect be32enc (digest_state transform be64_bytes initial_state m)

pub final_lem : (c : Ctx) (m : List ℕ) → Takes c m → (final_internal c).1 ≡ sha256 m
unfolding final_internal
final_lem c m (held, count) =
    let r = length m % 64 in
    ap (enc_vect be32enc) (
      pad_state c r (buffered_lem c m (held, count)) (omega arith) held.1
      ∙ ap (absorb_padding transform be64_bytes c.state c.buf r) count
      ∙ absorb_padding_lem transform be64_bytes initial_state c.state c.buf m held)

pub pad-Ready : (c : Ctx) (m : List ℕ) → Takes c m → Ready (pad c)
unfolding pad
pad-Ready c m (held, count) =
    let r = length m % 64 in
    let padding = take (pad_length r) pad_bytes in
    let ready = pad_to_56 c.state c.buf (buffered c) in
    let same : ready ≡ absorb transform c.state c.buf r padding =
      ap (pad_to_56 c.state c.buf) (buffered_lem c m (held, count))
      ∙ pad_to_56_lem c.state c.buf r (omega arith) held.1 in
    let whole : length ready.1 ≡ 64 =
      ap (λ d. length d.1) same
      ∙ (absorb-Holds transform initial_state c.state c.buf m padding held).1 in
    length-memcpy ready.1 56 (be64_bytes c.count) 8 (omega arith) (omega arith) ∙ whole

pub length-sha256 : (m : List ℕ) → length (sha256 m) ≡ 32
length-sha256 m =
    length-enc_vect be32enc _
    ∙ ap (4 *◌) (
        length-compress transform 8 (λ s block h. length-transform s block ∙ h)
          (length (padded be64_bytes m) / 64) initial_state (padded be64_bytes m) refl)

pub final-Ready : (c : Ctx) (m : List ℕ) → Takes c m → Ready (final_internal c).0
unfolding final_internal
final-Ready = pad-Ready

abbrev pub internal_laws : Lawful sha256_internal sha256 32
internal_laws = record {
  Ready = Ready;
  Takes = Takes;
  init-Takes = init-Takes;
  update-Takes = update-Takes;
  final_lem = final_lem;
  final-Ready = final-Ready;
  length-hash = length-sha256;
}
