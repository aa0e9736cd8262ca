-- ===== src/Digest/Pair.antt =====
-- alg/sha1.c, alg/md5.c: the context whose count of bits is kept in two words, and that is padded by
-- calls of the update function.
pub mod Laws
use Prim.Native.Nat.{bit_and}
use libcperciva.Prelude.{
  ℕ, zero, suc, ◌+◌, ◌-◌, ◌*◌, ◌/◌, ◌%◌, ◌^◌, ◌≤◌, ◌<◌, ◌≡◌, refl, sym, ap, ap₂, subst, ◌∙◌, arith,
  List, [], ◌∷◌, ◌++◌, ltb, ◌==◌, ==_iff, if◌then◌else◌, if-elim, length, take, replicate, ltb→lt,
  le_of_ltb-false, length-append, length-replicate,
}
use libcperciva.SysEndian.{Bytes4, ◌>>>◌, ◌<<<◌}
use libcperciva.Digest.{absorb, enc_vect, pad_bytes}
use libcperciva.Digest.Padding.{pad_length}

-- `SHA1_CTX` with `count[1]` as `low` and `count[0]` as `high`; `MD5_CTX` with `count[0]` as `low`
-- and `count[1]` as `high`.
pub record Ctx : Type 0 where
  pub state : List ℕ
  pub low : ℕ
  pub high : ℕ
  pub buf : List ℕ

unfoldable pub init : List ℕ → Ctx → Ctx
init initial_state c = record c { low = 0; high = 0; state = initial_state }

-- How many bytes are in the buffer.
unfoldable pub buffered : Ctx → ℕ
buffered c = bit_and (c.low >>> 3) 0x3f

-- The counters with the bits of `len` more bytes.
unfoldable pub add_low : ℕ → ℕ → ℕ
add_low low len = (low + (len % 2 ^ 32 <<< 3) % 2 ^ 32) % 2 ^ 32

unfoldable pub add_high : ℕ → ℕ → ℕ → ℕ
add_high low high len =
    let carried =
      if ltb (add_low low len) ((len % 2 ^ 32 <<< 3) % 2 ^ 32) then (high + 1) % 2 ^ 32 else high in
    (carried + (len >>> 29) % 2 ^ 32) % 2 ^ 32

module _ (transform : List ℕ → List ℕ → List ℕ) where
  unfoldable pub update : Ctx → List ℕ → Ctx
  update c src =
      if length src == 0
      then c
      else (let mixed = absorb transform c.state c.buf (buffered c) src in
          record {
            state = mixed.0;
            low = add_low c.low (length src);
            high = add_high c.low c.high (length src);
            buf = mixed.1;
          })

  -- `len_bytes` stores the words of the count in the order of the array.
  unfoldable pub pad : (ℕ → ℕ → List ℕ) → Ctx → Ctx
  pad len_bytes c =
      let len = len_bytes c.high c.low in
      update (update c (take (pad_length (buffered c)) pad_bytes)) len

  -- The context is cleared; `size` is the number of words of the state.
  unfoldable pub final : (ℕ → Bytes4) → (ℕ → ℕ → List ℕ) → ℕ → Ctx → Ctx × List ℕ
  final enc len_bytes size c = (
    record { state = replicate size 0; low = 0; high = 0; buf = replicate 64 0 },
    enc_vect enc (pad len_bytes c).state,
  )
