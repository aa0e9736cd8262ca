-- ===== src/AesCtr/Stream.antt =====
-- crypto/crypto_aesctr.c, crypto/crypto_aesctr_shared.c: a stream in pieces is counter mode on the
-- whole.
use mathlib.Core.List.{append-nil}
use libcperciva.Prelude.{
  ℕ, zero, suc, ◌+◌, ◌-◌, ◌%◌, ◌^◌, ◌≤◌, ◌<◌, ◌≡◌, ◌⊎◌, inl, inr, refl, sym, ap, subst, ◌∙◌, arith,
  List, [], ◌++◌, true, false, ltb, leb, ◌==◌, if◌then◌else◌, if-elim, done, ◌>>=◌, Returns,
  Returns-bind, Returns-if, Returns-map, not, Bool, length, take, nil_of_length, length-append,
  length-take, take_all, ltb→lt, le_of_ltb-false, lt→ltb, size_max, le_of_leb,
}
use libcperciva.AesCtr.{
  AesCtr, Progress, cipherblock_generate, cipherblock_use, pre_wholeblock, whole_blocks,
  post_wholeblock, stream_bytes,
}
use libcperciva.AesCtr.Keystream.{ctr}
use libcperciva.AesCtr.Use as Use
use libcperciva.AesCtr.Use.{leb-false, used_up, not_zero, is_zero, Running}

module _ {Key : Type 0} (encrypt_block : Key → List ℕ → List ℕ)
    (length-encrypt_block : (k : Key) (b : List ℕ) → length (encrypt_block k b) ≡ 16) (key : Key)
    (nonce : ℕ) where
  abbrev Runs : AesCtr Key → ℕ → Type 0
  Runs = Running encrypt_block length-encrypt_block key nonce

  abbrev Holding : AesCtr Key → ℕ → Type 0
  Holding = Use.Holding encrypt_block length-encrypt_block key nonce

  abbrev At : Progress Key → ℕ → List ℕ → List ℕ → Type 0
  At = Use.At encrypt_block length-encrypt_block key nonce

  module _ (n0 : ℕ) (all : List ℕ) (fits : n0 + length all < 2 ^ 64) where
    abbrev Finished : Progress Key → Type 0
    Finished p = At p n0 all all

    -- Whole blocks were processed.
    abbrev Aligned : Progress Key → Type 0
    Aligned p = (fed : List ℕ) × At p n0 all fed × ((n0 + length fed) % 16 ≡ 0)

    generate_use :
        (p : Progress Key) (nbytes : ℕ)
        → Aligned p
        → 0 < nbytes
        → nbytes ≤ 16
        → nbytes ≤ length p.inbuf
        → Returns
            (λ s.
              (fed : List ℕ) × At
                (cipherblock_use (record p { stream = s }) nbytes 0)
                n0
                all
                (fed ++ take nbytes p.inbuf)
              × ((n0 + length fed) % 16 ≡ 0)
              × (fed ++ p.inbuf ≡ all))
            (cipherblock_generate encrypt_block p.stream)
    generate_use p nbytes (fed, (split, out, running), whole) some_bytes inside has =
        Returns-map (λ t. Holding t (n0 + length fed)) _
          (λ s holding. (
            fed,
            Use.use_lem encrypt_block length-encrypt_block key nonce (record p { stream = s }) n0
                all fed nbytes 0 split out holding (sym whole) (omega arith) (omega arith) has fits,
            whole,
            split,
          ))
          (cipherblock_generate encrypt_block p.stream)
          (Use.generate_lem encrypt_block length-encrypt_block key nonce p.stream (n0 + length fed)
            running whole)

    whole_blocks_lem :
        (fuel : ℕ) (p : Progress Key)
        → Aligned p
        → length p.inbuf < fuel
        → Returns (λ q. Aligned q × (length q.inbuf < 16)) (whole_blocks encrypt_block fuel p)
    unfolding whole_blocks
    whole_blocks_lem zero p aligned enough = absurd (omega arith)
    whole_blocks_lem (suc fuel) p aligned enough =
        Returns-if _ (leb 16 (length p.inbuf)) _ (done p)
          (λ e.
            let has = (le_of_leb 16 (length p.inbuf) e) in
            Returns-bind _ _ (cipherblock_generate encrypt_block p.stream) _
              (generate_use p 16 aligned (omega arith) (omega arith) has)
              (λ s (fed, at, whole, split).
                let new = take 16 p.inbuf in
                let size = length-append fed new in
                let taken = length-take 16 p.inbuf in
                whole_blocks_lem fuel (cipherblock_use (record p { stream = s }) 16 0)
                  (fed ++ new, at, omega arith)
                  (used_up p s 16 (length p.inbuf) fuel (omega arith))))
          (λ e. (aligned, leb-false 16 (length p.inbuf) e))

    abbrev Pre : Bool × Progress Key → Type 0
    Pre r = ((r.0 ≡ true) × Finished r.1) ⊎ ((r.0 ≡ false) × Aligned r.1)

    abbrev begun : AesCtr Key → Progress Key
    begun s = record { stream = s; inbuf = all; outbuf = [] }

    -- The first bytes, from the block that is in the buffer.
    first_use :
        (s : AesCtr Key) (nbytes : ℕ)
        → Runs s n0
        → 0 < n0 % 16
        → n0 % 16 + nbytes ≤ 16
        → nbytes ≤ length all
        → At (cipherblock_use (begun s) nbytes (s.bytectr % 16)) n0 all (take nbytes all)
    first_use s nbytes running inside fit has =
        let start : n0 ≡ n0 + 0 = omega arith in
        Use.use_lem encrypt_block length-encrypt_block key nonce (begun s) n0 all [] nbytes
          (s.bytectr % 16) refl refl
          (subst (Holding s) start
            (Use.inside_block encrypt_block length-encrypt_block key nonce s n0 inside running))
          (ap (◌% 16) (running.1 ∙ start)) (omega (arith, running.1)) (omega (arith, running.1)) has
          fits

    pre_wholeblock_lem : (s : AesCtr Key) → Runs s n0 → Pre (pre_wholeblock (begun s))
    unfolding pre_wholeblock
    pre_wholeblock_lem s running =
        let bytemod = s.bytectr % 16 in
        let start : n0 ≡ n0 + 0 = omega arith in
        if-elim Pre (not (bytemod == 0)) _ (false, begun s)
          (λ e.
            let inside = not_zero bytemod e in
            let size = length-take (16 - bytemod) all in
            if-elim Pre (leb (length all) (16 - bytemod)) _ _
              (λ f.
                let few = le_of_leb (length all) (16 - bytemod) f in
                inl (
                  refl,
                  subst (At _ n0 all) (take_all (length all) all (omega arith)) (
                      first_use s (length all) running (omega (arith, running.1))
                        (omega (arith, running.1)) (omega arith)),
                ))
              (λ f.
                let many = leb-false (length all) (16 - bytemod) f in
                inr (
                  refl,
                  (
                    take (16 - bytemod) all,
                    first_use s (16 - bytemod) running (omega (arith, running.1))
                        (omega (arith, running.1)) (omega arith),
                    omega (arith, running.1),
                  ),
                )))
          (λ e.
            let zero_left = is_zero bytemod e in
            inr (refl, ([], (refl, refl, subst (Runs s) start running), omega (arith, running.1))))

    all_fed : (p : Progress Key) → Aligned p → length p.inbuf ≡ 0 → Finished p
    all_fed p (fed, at, whole) h =
        subst (At p n0 all)
          (sym (append-nil fed) ∙ ap (fed ++◌) (sym (nil_of_length p.inbuf h)) ∙ at.0) at

    post_wholeblock_lem :
        (p : Progress Key)
        → Aligned p
        → length p.inbuf < 16
        → Returns Finished (post_wholeblock encrypt_block p)
    unfolding post_wholeblock
    post_wholeblock_lem p aligned few =
        Returns-if Finished (ltb 0 (length p.inbuf)) _ (done p)
          (λ e.
            Returns-bind _ Finished (cipherblock_generate encrypt_block p.stream) _
              (generate_use p (length p.inbuf) aligned (ltb→lt 0 (length p.inbuf) e) (omega arith)
                (omega arith))
              (λ s (fed, at, whole, split).
                subst (At _ n0 all)
                  (ap (fed ++◌) (take_all (length p.inbuf) p.inbuf (omega arith)) ∙ split) at))
          (λ e. all_fed p aligned (omega (arith, le_of_ltb-false 0 (length p.inbuf) e)))

    abbrev Encrypted : AesCtr Key × List ℕ → Type 0
    Encrypted r = (r.1 ≡ ctr encrypt_block key nonce n0 all) × Runs r.0 (n0 + length all)

    after-Pre :
        (r : Bool × Progress Key)
        → Pre r
        → Returns Encrypted (
            if r.0
            then done (r.1.stream, r.1.outbuf)
            else (whole_blocks encrypt_block (suc (length all)) r.1 >>= λ p.
                post_wholeblock encrypt_block p >>= λ q. done (q.stream, q.outbuf)))
    after-Pre (b, p) (inl (e, (split, out, running))) = rw (e) (out, running)
    after-Pre (b, p) (inr (e, aligned)) =
        let sum = length-append aligned.0 p.inbuf in
        let whole = ap length aligned.1.0 in
        rw (e) (
          Returns-bind _ Encrypted (whole_blocks encrypt_block (suc (length all)) p) _
            (whole_blocks_lem (suc (length all)) p aligned (omega arith))
            (λ q (more, few).
              Returns-bind Finished Encrypted (post_wholeblock encrypt_block q) _
                (post_wholeblock_lem q more few) (λ z (split, out, running). (out, running))))

  -- T.
  pub stream_bytes-ctr :
      (s : AesCtr Key) (n : ℕ) (src : List ℕ)
      → Runs s n
      → n + length src < size_max
      → Returns
          (λ r. (r.1 ≡ ctr encrypt_block key nonce n src) × Runs r.0 (n + length src))
          (stream_bytes encrypt_block s src)
  unfolding stream_bytes
  stream_bytes-ctr s n src running fits =
      rw (lt→ltb (length src) (size_max - s.bytectr) (omega (arith, running.1))) (
        after-Pre n src (omega arith)
          (pre_wholeblock (record { stream = s; inbuf = src; outbuf = [] }))
          (pre_wholeblock_lem n src (omega arith) s running))
