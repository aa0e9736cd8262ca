-- ===== src/Tests/Ciphers.antt =====
-- crypto/crypto_aesctr.c with a toy cipher in the place of AES.
use libcperciva.Prelude.{
  ℕ, ◌≡◌, refl, arith, List, [], ◌∷◌, ◌++◌, none, some, ◌>>=◌, Returns, length, take, replicate,
  length-take, length-append, length-replicate, memcpy,
}
use libcperciva.SysEndian.{be64enc}
use libcperciva.Digest.Pieces.{join}
use libcperciva.AesCtr.{
  AesCtr, stream_bytes, init2, crypt_buf, xor_block, next_pblk, cipherblock_generate,
  cipherblock_use, pre_wholeblock, whole_blocks, post_wholeblock,
}
use libcperciva.AesCtr.Keystream.{ctr}
use libcperciva.AesCtr.Session.{stream_pieces, stream_pieces-ctr, crypt_buf_twice}

-- A block of the key's byte in exclusive or with the block.
abbrev toy : ℕ → List ℕ → List ℕ
toy key block = take 16 (block ++ replicate 16 key)

length-toy : (key : ℕ) (block : List ℕ) → length (toy key block) ≡ 16
length-toy key block = omega (
  arith,
  length-take 16 (block ++ replicate 16 key),
  length-append block (replicate 16 key),
  length-replicate {A = ℕ} 16 key,
)

abbrev memory : AesCtr ℕ
memory = record { key = none; bytectr = 4; buf = replicate 16 1; pblk = replicate 16 2 }

-- Pieces that end inside and at the end of blocks.
abbrev pieces : List (List ℕ)
pieces = replicate 5 0x41 ∷ [] ∷ replicate 11 0x42 ∷ replicate 40 0x43 ∷ (0x44 ∷ []) ∷ []

pieces_sent :
    (init2 memory (some 0x5a) 3 >>= λ s. stream_pieces toy s pieces)
    ≡ (init2 memory (some 0x5a) 3 >>= λ s. stream_pieces toy s (join pieces ∷ []))
unfolding stream_bytes init2 xor_block next_pblk cipherblock_generate cipherblock_use pre_wholeblock
    whole_blocks post_wholeblock memcpy be64enc
pieces_sent = refl

stream_pieces-ctr_example :
    Returns
      (λ out. out ≡ ctr toy 0x5a 3 0 (join pieces))
      (init2 memory (some 0x5a) 3 >>= λ s. stream_pieces toy s pieces)
stream_pieces-ctr_example = stream_pieces-ctr toy length-toy 0x5a 3 memory pieces refl (omega arith)

crypt_buf_twice_example :
    Returns
      (λ out. out ≡ replicate 20 0x41)
      (crypt_buf toy memory 0x5a 3 (replicate 20 0x41) >>= λ sent. crypt_buf toy memory 0x5a 3 sent)
crypt_buf_twice_example =
    crypt_buf_twice toy length-toy 0x5a 3 memory memory (replicate 20 0x41) refl refl (omega arith)
