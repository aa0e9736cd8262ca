-- ===== src/Digest/Pieces.antt =====
-- alg/sha256.c, alg/sha1.c, alg/md5.c: a message that is fed in by several calls.
use mathlib.Core.List.{append_assoc, append-nil}
use libcperciva.Prelude.{ℕ, ◌≤◌, ◌≡◌, sym, subst, List, [], ◌∷◌, ◌++◌}
use libcperciva.Digest.Hash.{Hash, Lawful}
use libcperciva.Digest.Hmac as Hmac
use libcperciva.Digest.Hmac.{HmacCtx, Keyed, update-Keyed, init-Keyed, final-hmac, hmac}

-- The calls of an update function, one for each piece.
abbrev pub feed : {C : Type 0} → (C → List ℕ → C) → C → List (List ℕ) → C
feed update c [] = c
feed update c (piece ∷ pieces) = feed update (update c piece) pieces

abbrev pub join : List (List ℕ) → List ℕ
join [] = []
join (piece ∷ pieces) = piece ++ join pieces

module _ (h : Hash) (hash : List ℕ → List ℕ) (size : ℕ) (law : Lawful h hash size)
    (fits : size ≤ 64) where
  feed-Takes :
      (c : h.Ctx) (m : List ℕ) (pieces : List (List ℕ))
      → law.Takes c m
      → law.Takes (feed h.update c pieces) (m ++ join pieces)
  feed-Takes c m [] takes = subst (law.Takes c) (sym (append-nil m)) takes
  feed-Takes c m (piece ∷ pieces) takes =
      subst (law.Takes _) (append_assoc m piece (join pieces))
        (feed-Takes (h.update c piece) (m ++ piece) pieces (law.update-Takes c m piece takes))

  pub hash_pieces :
      (c : h.Ctx) (pieces : List (List ℕ))
      → law.Ready c
      → (h.final (feed h.update (h.init c) pieces)).1 ≡ hash (join pieces)
  hash_pieces c pieces ready =
      law.final_lem _ (join pieces) (feed-Takes (h.init c) [] pieces (law.init-Takes c ready))

  feed-Keyed :
      (c : HmacCtx h.Ctx) (key m : List ℕ) (pieces : List (List ℕ))
      → Keyed h hash size law fits c key m
      → Keyed h hash size law fits (feed (Hmac.update h) c pieces) key (m ++ join pieces)
  feed-Keyed c key m [] keyed = subst (Keyed h hash size law fits c key) (sym (append-nil m)) keyed
  feed-Keyed c key m (piece ∷ pieces) keyed =
      subst (Keyed h hash size law fits _ key) (append_assoc m piece (join pieces)) (
        feed-Keyed (Hmac.update h c piece) key (m ++ piece) pieces
          (update-Keyed h hash size law fits c key m piece keyed))

  pub hmac_pieces :
      (c : HmacCtx h.Ctx) (key : List ℕ) (pieces : List (List ℕ))
      → law.Ready c.ictx
      → law.Ready c.octx
      → (Hmac.final h (feed (Hmac.update h) (Hmac.init h c key) pieces)).1
        ≡ hmac hash key (join pieces)
  hmac_pieces c key pieces ri ro =
      final-hmac h hash size law fits _ key (join pieces)
        (feed-Keyed (Hmac.init h c key) key [] pieces (init-Keyed h hash size law fits c key ri ro))
