-- ===== src/AesCtr.antt =====
-- crypto/crypto_aesctr.c, crypto/crypto_aesctr_shared.c: AES in counter mode. The expanded keys and
-- the encryption of a block (`crypto_aes_encrypt_block`, which OpenSSL or the processor does) are
-- parameters. The hardware variants of the loop are left aside.
pub mod Counter
pub mod Keystream
pub mod Use
pub mod Stream
pub mod Session
use Prim.Native.Nat.{bit_xor}
use libcperciva.Prelude.{
  ℕ, zero, suc, ◌+◌, ◌-◌, ◌*◌, ◌/◌, ◌%◌, ◌^◌, List, [], ◌∷◌, ◌++◌, Bool, true, false, not, ltb, leb,
  ◌==◌, if◌then◌else◌, Option, none, some, Outcome, done, fail, abort, ◌>>=◌, assert, length, take,
  drop, set, get_or, memcpy, size_max,
}
use libcperciva.Digest.{be64_bytes}

pub record AesCtr (Key : Type 0) : Type 0 where
  pub key : Option Key
  pub bytectr : ℕ
  pub buf : List ℕ
  pub pblk : List ℕ

-- A stream, the input from `inbuf` on, and the bytes written so far.
pub record Progress (Key : Type 0) : Type 0 where
  pub stream : AesCtr Key
  pub inbuf : List ℕ
  pub outbuf : List ℕ

-- The bytes in exclusive or with the bytes of the cipher block.
unfoldable pub xor_block : List ℕ → List ℕ → List ℕ
xor_block (b ∷ bs) (k ∷ ks) = bit_xor b k ∷ xor_block bs ks
xor_block _ _ = []

module _ {Key : Type 0} where
  -- The counter in `pblk`: its last byte goes up, and all of it is stored again where that wraps.
  unfoldable pub next_pblk : AesCtr Key → List ℕ
  next_pblk s =
      let last = (get_or s.pblk 15 0 + 1) % 2 ^ 8 in
      let stepped = set s.pblk 15 last in
      if last == 0 then memcpy stepped 8 (be64_bytes (s.bytectr / 16)) 8 else stepped

  unfoldable pub cipherblock_use : Progress Key → ℕ → ℕ → Progress Key
  cipherblock_use p nbytes bytemod = record {
    stream = record p.stream { bytectr = (p.stream.bytectr + nbytes) % 2 ^ 64 };
    inbuf = drop nbytes p.inbuf;
    outbuf = p.outbuf ++ xor_block (take nbytes p.inbuf) (drop bytemod p.stream.buf);
  }

  -- Whether the request is complete, and how far it got.
  unfoldable pub pre_wholeblock : Progress Key → Bool × Progress Key
  pre_wholeblock p =
      let bytemod = p.stream.bytectr % 16 in
      if not (bytemod == 0)
      then (if leb (length p.inbuf) (16 - bytemod)
          then (true, cipherblock_use p (length p.inbuf) bytemod)
          else (false, cipherblock_use p (16 - bytemod) bytemod))
      else (false, p)

  -- `key` is `none` for NULL.
  unfoldable pub init2 : AesCtr Key → Option Key → ℕ → Outcome (AesCtr Key)
  init2 s key nonce =
      let used : Option Key = elim key [ none ↦ s.key | some k ↦ some k ] in
      let s1 = record s {
        key = used;
        pblk = set (memcpy s.pblk 0 (be64_bytes nonce) 8) 15 0xff;
        bytectr = 0;
      } in
      elim used [ none ↦ abort | some k ↦ done s1 ]

  -- `memory` is what `malloc` returns, if it does.
  unfoldable pub init : Option (AesCtr Key) → Key → ℕ → Outcome (AesCtr Key)
  init none key nonce = fail
  init (some memory) key nonce = init2 memory (some key) nonce

module _ {Key : Type 0} (encrypt_block : Key → List ℕ → List ℕ) where
  unfoldable pub cipherblock_generate : AesCtr Key → Outcome (AesCtr Key)
  cipherblock_generate s = assert (s.bytectr % 16 == 0) (elim s.key [
    | none ↦ abort
    | some key ↦
        let pblk = next_pblk s in done (record s { pblk = pblk; buf = encrypt_block key pblk })
  ])

  -- `while (buflen >= 16)`.
  unfoldable pub whole_blocks : ℕ → Progress Key → Outcome (Progress Key)
  whole_blocks zero p = abort
  whole_blocks (suc fuel) p =
      let more = cipherblock_generate p.stream >>= λ s.
      whole_blocks fuel (cipherblock_use (record p { stream = s }) 16 0) in
      if leb 16 (length p.inbuf) then more else done p

  unfoldable pub post_wholeblock : Progress Key → Outcome (Progress Key)
  post_wholeblock p =
      if ltb 0 (length p.inbuf)
      then (cipherblock_generate p.stream >>= λ s.
          done (cipherblock_use (record p { stream = s }) (length p.inbuf) 0))
      else done p

  -- The stream afterwards and the bytes in `outbuf`.
  unfoldable pub stream_bytes : AesCtr Key → List ℕ → Outcome (AesCtr Key × List ℕ)
  stream_bytes s inbuf = assert (ltb (length inbuf) (size_max - s.bytectr)) (
      let pre = pre_wholeblock (record { stream = s; inbuf = inbuf; outbuf = [] }) in
      if pre.0
      then done (pre.1.stream, pre.1.outbuf)
      else (whole_blocks (suc (length inbuf)) pre.1 >>= λ p.
          post_wholeblock p >>= λ q. done (q.stream, q.outbuf)))

  -- The stream on the stack starts as what is in memory.
  unfoldable pub crypt_buf : AesCtr Key → Key → ℕ → List ℕ → Outcome (List ℕ)
  crypt_buf memory key nonce inbuf =
      init2 memory (some key) nonce >>= λ s. stream_bytes s inbuf >>= λ r. done r.1
