-- ===== src/Digest/Pair/Laws.antt =====
-- alg/sha1.c, alg/md5.c: the context holds everything that was fed in, and its digest is the hash
-- of it.
use mathlib.Core.List.{append_assoc, append-nil}
use libcperciva.Prelude.{
  ℕ, ◌+◌, ◌*◌, ◌/◌, ◌%◌, ◌^◌, ◌≡◌, refl, sym, ap, ap₂, subst, ◌∙◌, arith, List, [], ◌∷◌, ◌++◌, ltb,
  ◌==◌, ==_iff, if-elim, length, take, ltb→lt, le_of_ltb-false, length-append,
}
use libcperciva.Prelude.Bits.{bit_and_63}
use libcperciva.SysEndian.{Bytes4}
use libcperciva.Digest.{enc_vect, pad_bytes}
use libcperciva.Digest.Hash.{Hash, Lawful}
use libcperciva.Digest.Absorb.{Holds, absorb-Holds}
use libcperciva.Digest.Blocks.{compress, length-compress}
use libcperciva.Digest.Padding.{padded, pad_length, padding_lem, digest_state}
use libcperciva.Digest.Words.{length-enc_vect}
use libcperciva.Digest.Pair.{Ctx, init, buffered, add_low, add_high, update, pad, final}

abbrev pub Ready : Ctx → Type 0
Ready c = length c.buf ≡ 64

add_low_lem :
    (low len before : ℕ) → low ≡ 8 * before % 2 ^ 32 → add_low low len ≡ 8 * (before + len) % 2 ^ 32
unfolding add_low
add_low_lem low len before h = omega arith

add_high_lem :
    (low high len before : ℕ)
    → low ≡ 8 * before % 2 ^ 32
    → high ≡ 8 * before / 2 ^ 32 % 2 ^ 32
    → add_high low high len ≡ 8 * (before + len) / 2 ^ 32 % 2 ^ 32
unfolding add_high
add_high_lem low high len before h k =
    let bits = (len % 2 ^ 32 * 2 ^ 3) % 2 ^ 32 in
    let sum = add_low_lem low len before h in
    if-elim
      (λ carried. (carried + len / 2 ^ 29 % 2 ^ 32) % 2 ^ 32 ≡ 8 * (before + len) / 2 ^ 32 % 2 ^ 32)
      (ltb (add_low low len) bits) _ high
      (λ e. let wrapped = ltb→lt (add_low low len) bits e in omega arith)
      (λ e. let fits = le_of_ltb-false (add_low low len) bits e in omega arith)

append_empty : (m src : List ℕ) → length src ≡ 0 → m ++ src ≡ m
append_empty m [] h = append-nil m
append_empty m (x ∷ xs) h = absurd (omega arith)

module _ (transform : List ℕ → List ℕ → List ℕ) (iv : List ℕ) (enc32 : ℕ → Bytes4)
    (len_bytes : ℕ → ℕ → List ℕ) (enc : ℕ → List ℕ)
    (len_lem : (x : ℕ) → len_bytes (x / 2 ^ 32 % 2 ^ 32) (x % 2 ^ 32) ≡ enc x)
    (length-transform : (s block : List ℕ) → length (transform s block) ≡ length s) where
  -- The bytes `m` were fed in since the context was initialized.
  abbrev pub Takes : Ctx → List ℕ → Type 0
  Takes c m =
      Holds transform iv c.state c.buf m
      × (c.low ≡ 8 * length m % 2 ^ 32)
      × (c.high ≡ 8 * length m / 2 ^ 32 % 2 ^ 32)

  pub init-Takes : (c : Ctx) → Ready c → Takes (init iv c) []
  unfolding init compress
  init-Takes c h = ((refl, h, refl), refl, refl)

  buffered_lem : (c : Ctx) (m : List ℕ) → Takes c m → buffered c ≡ length m % 64
  unfolding buffered
  buffered_lem c m (held, low, high) = bit_and_63 (c.low / 2 ^ 3) ∙ omega (arith, low)

  pub update-Takes :
      (c : Ctx) (m src : List ℕ) → Takes c m → Takes (update transform c src) (m ++ src)
  unfolding update
  update-Takes c m src (held, low, high) =
      let r = buffered_lem c m (held, low, high) in
      let sum = length-append m src in
      if-elim (λ d. Takes d (m ++ src)) (length src == 0) c _
        (λ e.
          subst (Takes c) (sym (append_empty m src ((==_iff (length src) 0).0 e)))
            (held, low, high))
        (λ e. (
          rw (r) (absorb-Holds transform iv c.state c.buf m src held),
          add_low_lem c.low (length src) (length m) low ∙ ap (λ n. 8 * n % 2 ^ 32) (sym sum),
          add_high_lem c.low c.high (length src) (length m) low high
              ∙ ap (λ n. 8 * n / 2 ^ 32 % 2 ^ 32) (sym sum),
        ))

  -- The hash of a message: the padded message compressed block by block, and the words of the
  -- state in their bytes.
  abbrev pub hash : List ℕ → List ℕ
  hash m = enc_vect enc32 (digest_state transform enc iv m)

  pad-Takes : (c : Ctx) (m : List ℕ) → Takes c m → Takes (pad transform len_bytes c) (padded enc m)
  unfolding pad
  pad-Takes c m (held, low, high) =
      let bits = 8 * length m % 2 ^ 64 in
      let taken = buffered_lem c m (held, low, high) in
      let plen = pad_length (buffered c) in
      let len = len_bytes c.high c.low in
      let first = update-Takes c m (take plen pad_bytes) (held, low, high) in
      let h : c.high ≡ bits / 2 ^ 32 % 2 ^ 32 = omega (arith, high) in
      let l : c.low ≡ bits % 2 ^ 32 = omega (arith, low) in
      let stored : len ≡ enc bits = ap₂ len_bytes h l ∙ len_lem bits in
      let zeros = ap (λ r. take (pad_length r) pad_bytes) taken ∙ padding_lem m in
      subst (Takes _)
        (append_assoc m (take plen pad_bytes) len ∙ ap₂ (λ z b. m ++ (z ++ b)) zeros stored)
        (update-Takes _ (m ++ take plen pad_bytes) len first)

  pub final_lem :
      (c : Ctx) (m : List ℕ)
      → Takes c m
      → (final transform enc32 len_bytes (length iv) c).1 ≡ hash m
  unfolding final
  final_lem c m takes = ap (enc_vect enc32) (pad-Takes c m takes).0.0

  pub final-Ready :
      (c : Ctx) (m : List ℕ) → Takes c m → Ready (final transform enc32 len_bytes (length iv) c).0
  unfolding final
  final-Ready c m takes = refl

  pub length-hash : (m : List ℕ) → length (hash m) ≡ 4 * length iv
  length-hash m =
      length-enc_vect enc32 _
      ∙ ap (4 *◌) (
          length-compress transform (length iv) (λ s block h. length-transform s block ∙ h)
            (length (padded enc m) / 64) iv (padded enc m) refl)

  abbrev pub functions : Hash
  functions = record {
    Ctx = Ctx;
    init = init iv;
    update = update transform;
    final = final transform enc32 len_bytes (length iv);
  }

  abbrev pub laws : Lawful functions hash (4 * length iv)
  laws = record {
    Ready = Ready;
    Takes = Takes;
    init-Takes = init-Takes;
    update-Takes = update-Takes;
    final_lem = final_lem;
    final-Ready = final-Ready;
    length-hash = length-hash;
  }
