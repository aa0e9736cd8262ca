-- ===== src/AesCtr/Session.antt =====
-- crypto/crypto_aesctr.c: streams from their initialization on.
use libcperciva.Prelude.{
  ℕ, zero, suc, ◌+◌, ◌<◌, ◌≡◌, inl, refl, sym, ap, ap₂, ◌∙◌, arith, List, [], ◌∷◌, ◌++◌, some,
  Outcome, done, ◌>>=◌, Returns, Returns-bind, Returns-map, length, take, drop, set, memcpy,
  length-append, length-drop, length-take, size_max,
}
use libcperciva.Digest.{be64_bytes}
use libcperciva.Digest.Pieces.{join}
use libcperciva.AesCtr.{AesCtr, stream_bytes, init2, crypt_buf}
use libcperciva.AesCtr.Keystream.{ctr, ctr-append, length-ctr, ctr_twice}
use libcperciva.AesCtr.Use.{Running}
use libcperciva.AesCtr.Stream.{stream_bytes-ctr}

-- The calls of `crypto_aesctr_stream` on the pieces of a message, with all that they output.
abbrev pub stream_pieces :
    {Key : Type 0} → (Key → List ℕ → List ℕ) → AesCtr Key → List (List ℕ) → Outcome (List ℕ)
stream_pieces encrypt_block s [] = done []
stream_pieces encrypt_block s (piece ∷ pieces) = stream_bytes encrypt_block s piece >>= λ r.
    stream_pieces encrypt_block r.0 pieces >>= λ out. done (r.1 ++ out)

set_last : (xs : List ℕ) (n v : ℕ) → length xs ≡ suc n → set xs n v ≡ take n xs ++ (v ∷ [])
set_last [] n v h = absurd (omega arith)
set_last (x ∷ []) zero v h = refl
set_last (x ∷ y ∷ xs) zero v h = absurd (omega arith)
set_last (x ∷ xs) (suc n) v h = ap (◌∷◌ x) (set_last xs n v (omega arith))

module _ {Key : Type 0} (encrypt_block : Key → List ℕ → List ℕ)
    (length-encrypt_block : (k : Key) (b : List ℕ) → length (encrypt_block k b) ≡ 16) (key : Key)
    (nonce : ℕ) where
  abbrev Runs : AesCtr Key → ℕ → Type 0
  Runs = Running encrypt_block length-encrypt_block key nonce

  init2-Runs :
      (s : AesCtr Key) → length s.pblk ≡ 16 → Returns (λ t. Runs t 0) (init2 s (some key) nonce)
  unfolding init2 memcpy
  init2-Runs s h =
      let after = drop 8 s.pblk in
      let size = length-drop 8 s.pblk in
      (
        refl,
        refl,
        inl refl,
        (
          take 7 after,
          omega (arith, length-take 7 after),
          ap (be64_bytes nonce ++◌) (set_last after 7 255 (omega arith)),
          inl refl,
        ),
      )

  pieces_lem :
      (pieces : List (List ℕ)) (s : AesCtr Key) (n : ℕ)
      → Runs s n
      → n + length (join pieces) < size_max
      → Returns
          (λ out. out ≡ ctr encrypt_block key nonce n (join pieces))
          (stream_pieces encrypt_block s pieces)
  pieces_lem [] s n running fits = refl
  pieces_lem (piece ∷ pieces) s n running fits =
      let sum = length-append piece (join pieces) in
      Returns-bind _ _ (stream_bytes encrypt_block s piece) _
        (stream_bytes-ctr encrypt_block length-encrypt_block key nonce s n piece running
          (omega arith))
        (λ r (out, after).
          Returns-bind _ _ (stream_pieces encrypt_block r.0 pieces) _
            (pieces_lem pieces r.0 (n + length piece) after (omega arith))
            (λ more e.
              ap₂ (λ a b. a ++ b) out e
              ∙ sym (ctr-append encrypt_block key nonce n piece (join pieces))))

  -- For a block cipher with blocks of 16 bytes, initializing a stream with a key and a nonce and
  -- encrypting any pieces of fewer than 2 ^ 64 - 1 bytes together succeeds, and the outputs one
  -- behind the other are the pieces in exclusive or with the encrypted blocks of the nonce and the
  -- counters 0, 1, 2 and so on.
  pub stream_pieces-ctr :
      (s : AesCtr Key) (pieces : List (List ℕ))
      → length s.pblk ≡ 16
      → length (join pieces) < size_max
      → Returns
          (λ out. out ≡ ctr encrypt_block key nonce 0 (join pieces))
          (init2 s (some key) nonce >>= λ t. stream_pieces encrypt_block t pieces)
  stream_pieces-ctr s pieces h fits =
      Returns-bind _ _ (init2 s (some key) nonce) _ (init2-Runs s h)
        (λ t running. pieces_lem pieces t 0 running (omega arith))

  crypt_buf_lem :
      (s : AesCtr Key) (src : List ℕ)
      → length s.pblk ≡ 16
      → length src < size_max
      → Returns
          (λ out. out ≡ ctr encrypt_block key nonce 0 src)
          (crypt_buf encrypt_block s key nonce src)
  unfolding crypt_buf
  crypt_buf_lem s src h fits =
      Returns-bind _ _ (init2 s (some key) nonce) _ (init2-Runs s h) (λ t running.
        Returns-bind _ _ (stream_bytes encrypt_block t src) _
          (stream_bytes-ctr encrypt_block length-encrypt_block key nonce t 0 src running
            (omega arith))
          (λ r (out, after). out))

  -- For a block cipher with blocks of 16 bytes, encrypting fewer than 2 ^ 64 - 1 bytes with
  -- `crypto_aesctr_buf` and encrypting the result with the same key and nonce succeeds and gives
  -- the bytes back, whatever was in the memory of both streams.
  pub crypt_buf_twice :
      (s t : AesCtr Key) (src : List ℕ)
      → length s.pblk ≡ 16
      → length t.pblk ≡ 16
      → length src < size_max
      → Returns
          (λ out. out ≡ src)
          (crypt_buf encrypt_block s key nonce src >>= λ sent.
            crypt_buf encrypt_block t key nonce sent)
  crypt_buf_twice s t src h k fits =
      Returns-bind _ _ (crypt_buf encrypt_block s key nonce src) _ (crypt_buf_lem s src h fits)
        (λ sent e.
          let same : length sent ≡ length src =
            ap length e ∙ length-ctr encrypt_block key nonce 0 src in
          Returns-map _ _
            (λ out f.
              f ∙ ap (ctr encrypt_block key nonce 0) e ∙ ctr_twice encrypt_block key nonce 0 src)
            (crypt_buf encrypt_block t key nonce sent) (crypt_buf_lem t sent k (omega arith)))
