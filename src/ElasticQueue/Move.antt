-- ===== src/ElasticQueue/Move.antt =====
-- datastruct/elasticqueue.c: the loop that moves the records to the front of the array.
use mathlib.Core.List.{append_assoc}
use native.Mathlib.Nat.{mod-eq_of_lt}
use libcperciva.Prelude.{
  ℕ, zero, suc, ◌+◌, ◌*◌, ◌^◌, ◌≤◌, ◌<◌, ◌≡◌, ap, sym, ◌∙◌, ◌++◌, List, arith, Cell, memcpy, take,
  drop, length, length-take, length-drop, take-take, take_all, take_add, drop-drop,
  take-append_left, drop-append_add,
}
use libcperciva.ElasticQueue.{move_records}

module _ (buf : List Cell) (offset reclen : ℕ) where
  -- The buffer with the first `i` records of the queue moved to the front.
  abbrev pub moved : ℕ → List Cell
  moved i = take (i * reclen) (drop (offset * reclen) buf) ++ drop (i * reclen) buf

  module _ (i : ℕ) (fits : (i + 1 + offset) * reclen ≤ length buf) where
    front : List Cell
    front = take (i * reclen) (drop (offset * reclen) buf)

    length-front : length front ≡ i * reclen
    unfolding front
    length-front = omega (
      arith,
      length-take (i * reclen) (drop (offset * reclen) buf),
      length-drop (offset * reclen) buf,
    )

    source : drop ((i + offset) * reclen) (moved i) ≡ drop (i * reclen) (drop (offset * reclen) buf)
    unfolding front
    source =
        let e : (i + offset) * reclen ≡ i * reclen + offset * reclen = omega arith in
        let f : i * reclen + offset * reclen ≡ offset * reclen + i * reclen = omega arith in
        ap (λ k. drop k (moved i)) e
        ∙ drop-append_add (i * reclen) (offset * reclen) front (drop (i * reclen) buf) length-front
        ∙ drop-drop (offset * reclen) (i * reclen) buf
        ∙ ap (λ k. drop k buf) f
        ∙ sym (drop-drop (i * reclen) (offset * reclen) buf)

    -- One round moves one more record.
    moved-suc :
        memcpy (moved i) (i * reclen) (take reclen (drop ((i + offset) * reclen) (moved i))) reclen
        ≡ moved (suc i)
    unfolding memcpy front
    moved-suc = rw (
      source,
      take-append_left (i * reclen) front rest (omega (arith, length-front)),
      take_all (i * reclen) front (omega (arith, length-front)),
      take-take reclen reclen (drop (i * reclen) Z) (omega arith),
      drop-append_add (i * reclen) reclen front rest length-front,
      drop-drop reclen (i * reclen) buf,
      next,
      take_add (i * reclen) reclen Z,
      append_assoc,
    )
      where
        Z : List Cell
        Z = drop (offset * reclen) buf

        rest : List Cell
        rest = drop (i * reclen) buf

        next : suc i * reclen ≡ i * reclen + reclen
        next = omega arith

  -- With room in `size_t` for every offset, the loop moves all the records.
  pub move_records-moved :
      (rounds i : ℕ)
      → (i + rounds + offset) * reclen ≤ length buf
      → length buf < 2 ^ 64
      → 0 < reclen
      → move_records rounds i offset reclen (moved i) ≡ moved (i + rounds)
  unfolding move_records
  move_records-moved zero i fits small pos = let e : i ≡ i + 0 = omega arith in ap moved e
  move_records-moved (suc rounds) i fits small pos =
      rw
        (
          mod-eq_of_lt new_small,
          mod-eq_of_lt index_small,
          mod-eq_of_lt old_small,
          moved-suc i (omega arith),
          move_records-moved rounds (suc i) (omega arith) small pos,
        )
        (let e : suc i + rounds ≡ i + suc rounds = omega arith in ap moved e)
    where
      old_small : (i + offset) * reclen < 2 ^ 64
      old_small = omega arith

      new_small : i * reclen < 2 ^ 64
      new_small = omega arith

      index_small : i + offset < 2 ^ 64
      index_small = grind arith
