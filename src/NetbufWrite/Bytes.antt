-- ===== src/NetbufWrite/Bytes.antt =====
-- netbuf/netbuf_write.c: writing, the completion of a write, and a writer over its lifetime.
use mathlib.Core.List.{append_assoc}
use libcperciva.Prelude.{
  ssize_max, ℕ, ◌≤◌, ◌<◌, ◌≡◌, inl, inr, refl, subst, sym, ap, ◌∙◌, List, [], ◌++◌, map, Bool, true,
  false, true-false, not, ◌==◌, ==_iff, none, some, Outcome, done, abort, Returns, Returns-bind,
  Returns-if, Returns-assert, Returns-map, Cell, length, map-append,
}
use libcperciva.NetbufWrite.{WriteBuf, Writer, init2, poke, reserve, write, written, writbuf}
use libcperciva.NetbufWrite.Valid.{data_of, contents}
use libcperciva.NetbufWrite.Poke.{
  in_flight, Works, queued, HasQueued, poke_lem, Reserved, reserve_lem, consume_lem,
}

-- Writing from 1 to SSIZE_MAX bytes to a writer that works, with the memory granted, passes the
-- assertions, leaves a writer that works, and adds the bytes behind those that were accepted and
-- not written yet.
pub write_queues :
    (granted : Bool) (w : Writer) (bytes : List ℕ)
    → Works w
    → 0 < length bytes
    → length bytes ≤ ssize_max
    → Returns (HasQueued (queued w ++ map some bytes)) (write true granted w bytes)
unfolding write
write_queues granted w bytes works some_bytes small =
    Returns-if _ w.failed _ _ (λ e. absurd (true-false (sym e ∙ works.1)))
      (λ e.
        Returns-bind _ _ (reserve true w (length bytes)) _
          (reserve_lem w (length bytes) works small)
          (λ (r, ok) held.
            Returns-if _ ok _ _
              (λ o.
                consume_lem granted w r bytes works some_bytes
                  (subst (λ b. Reserved w (length bytes) (r, b)) o held))
              (λ o. absurd (true-false (sym held.0 ∙ o)))))

none-some : {A : Type 0} {a : A} → none ≡ some a → ⊥
none-some e = subst (λ o. elim o [ none ↦ Unit | some a ↦ ⊥ ]) e tt

busy_cookie : (w : Writer) (wb : WriteBuf) → Works w → w.curr ≡ some wb → w.write_cookie ≡ true
busy_cookie w wb (free, sound, full, inl (c, idle)) busy = absurd (none-some (sym idle ∙ busy))
busy_cookie w wb (free, sound, full, inr (c, there)) busy = c

abbrev Wrote : Writer → WriteBuf → Writer × Bool → Type 0
Wrote w wb end = Works end.0 × (data_of wb ++ queued end.0 ≡ queued w)

written_lem :
    (granted : Bool) (w : Writer) (wb : WriteBuf)
    → Works w
    → w.curr ≡ some wb
    → Returns (Wrote w wb) (written granted w wb (some wb.datalen))
unfolding written
written_lem granted w wb (free, sound, full, writes) busy =
    let idle : Writer = record w { write_cookie = false; curr = none } in
    Returns-assert _ (not w.failed) _ (ap not sound) (
      Returns-if _ (wb.datalen == wb.datalen) _ _
        (λ e.
          Returns-map _ _
            (λ end (v, s).
              (v, ap (data_of wb ++◌) s ∙ sym (ap (λ c. in_flight c ++ contents w.buffers) busy)))
            (poke granted idle) (poke_lem granted idle (free, sound, full, inl (refl, refl))))
        (λ e. absurd (true-false (sym ((==_iff wb.datalen wb.datalen).1 refl) ∙ e))))

-- The completion of a write of the whole buffer leaves a writer that works, and takes the buffer's
-- data off the front of what is queued.
pub writbuf_whole :
    (granted : Bool) (w : Writer) (wb : WriteBuf)
    → Works w
    → w.curr ≡ some wb
    → Returns (Wrote w wb) (writbuf granted w (some wb.datalen))
unfolding writbuf
writbuf_whole granted w wb works busy = Returns-assert _ (not w.reserved) _ (ap not works.0) (
    Returns-assert _ w.write_cookie _ (busy_cookie w wb works busy) (
      subst
        (λ c.
          Returns (Wrote w wb)
            (elim c [ none ↦ abort | some b ↦ written granted w b (some wb.datalen) ]))
        (sym busy) (written_lem granted w wb works busy)))

-- `Run taken sent w`: the writer is reached, the bytes `taken` were written to it, and `sent` is
-- what the completed writes have written. Memory is granted, no write is empty, and no completed
-- write has failed.
pub data Run : List ℕ → List Cell → Writer → Type 0 where
  start : (w : Writer) → init2 true ≡ done w → Run [] [] w
  wrote :
      (taken : List ℕ) (sent : List Cell) (w next : Writer) (granted ok : Bool) (bytes : List ℕ)
      → Run taken sent w
      → 0 < length bytes
      → length bytes ≤ ssize_max
      → write true granted w bytes ≡ done (next, ok)
      → Run (taken ++ bytes) sent next
  completed :
      (taken : List ℕ) (sent : List Cell) (w next : Writer) (granted ok : Bool) (wb : WriteBuf)
      → Run taken sent w
      → w.curr ≡ some wb
      → writbuf granted w (some wb.datalen) ≡ done (next, ok)
      → Run taken (sent ++ data_of wb) next

returned : {A : Type 0} (P : A → Type 0) (c : Outcome A) (a : A) → c ≡ done a → Returns P c → P a
returned P c a e h = subst (Returns P) e h

fresh : Returns (λ w. Works w × (queued w ≡ [])) (init2 true)
unfolding init2
fresh = ((refl, refl, tt, inl (refl, refl)), refl)

-- However a writer is reached by creating it, by writes of one or more bytes with the memory
-- granted, and by completions that wrote their whole buffer, in any order and whether or not the
-- network layer grants the writes, it works, and the bytes sent and then the queued ones are the
-- bytes that were written to it, in order.
pub Run_sends :
    (taken : List ℕ) (sent : List Cell) (w : Writer)
    → Run taken sent w
    → Works w × (sent ++ queued w ≡ map some taken)
Run_sends z y x (start w e) = returned _ _ w e fresh
Run_sends z y x (wrote taken sent w next granted ok bytes run some_bytes small e) =
    let (works, same) = Run_sends taken sent w run in
    let (v, longer) =
      returned _ _ (next, ok) e (write_queues granted w bytes works some_bytes small) in
    (
      v,
      ap (sent ++◌) longer
          ∙ sym (append_assoc sent (queued w) (map some bytes))
          ∙ ap (λ l. l ++ map some bytes) same
          ∙ sym (map-append some taken bytes),
    )
Run_sends z y x (completed taken sent w next granted ok wb run busy e) =
    let (works, same) = Run_sends taken sent w run in
    let (v, split) = returned _ _ (next, ok) e (writbuf_whole granted w wb works busy) in
    (v, append_assoc sent (data_of wb) (queued next) ∙ ap (sent ++◌) split ∙ same)
