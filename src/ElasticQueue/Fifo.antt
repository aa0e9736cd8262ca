-- ===== src/ElasticQueue/Fifo.antt =====
-- datastruct/elasticqueue.c: the queue as a sequence of records, first in, first out.
use native.Mathlib.Nat.{mod-eq_of_lt}
use libcperciva.Prelude.{
  ℕ, ◌+◌, ◌-◌, ◌*◌, ◌%◌, ◌^◌, ◌≤◌, ◌<◌, ◌≡◌, refl, ap, sym, ◌∙◌, ◌++◌, List, Bool, true, some,
  arith, Keeps, Returns, Returns-bind, Keeps-bind, Cell, take, drop, length, length-append,
  take-take, drop-drop, drop-take, drop_append_left, leb-false_of_lt,
}
use libcperciva.ElasticArray
use libcperciva.ElasticArray.{ElasticArray}
use libcperciva.ElasticArray.Valid
use libcperciva.ElasticArray.Contents.{
  contents, Holds, length-contents, append-Returns, append-Keeps,
}
use libcperciva.ElasticQueue.{ElasticQueue, add, get}

-- The array holds the deleted records and then those of the queue.
pub record IsLaidOut (eq : ElasticQueue) : Type 0 where
  pub array : Valid.IsValid eq.ea
  pub pos : 0 < eq.reclen
  pub sized : eq.ea.size ≡ (eq.offset + eq.len) * eq.reclen

-- Between the calls, no more records are deleted than there are left.
pub record IsValid (eq : ElasticQueue) : Type 0 where
  pub laid_out : IsLaidOut eq
  pub behind : eq.offset ≤ eq.len

-- The bytes of the records in the queue, the oldest record first.
abbrev pub queued : ElasticQueue → List Cell
queued eq = take (eq.len * eq.reclen) (drop (eq.offset * eq.reclen) eq.ea.buf)

queued-contents :
    (eq : ElasticQueue) → IsLaidOut eq → queued eq ≡ drop (eq.offset * eq.reclen) (contents eq.ea)
queued-contents eq v =
    let e : eq.offset * eq.reclen + eq.len * eq.reclen ≡ eq.ea.size = omega (arith, v.sized) in
    sym (drop-take (eq.offset * eq.reclen) (eq.len * eq.reclen) eq.ea.buf)
    ∙ ap (λ n. drop (eq.offset * eq.reclen) (take n eq.ea.buf)) e

-- The queue holds exactly these records.
pub record Queues (reclen len : ℕ) (cells : List Cell) (eq : ElasticQueue) : Type 0 where
  pub valid : IsValid eq
  pub holds : queued eq ≡ cells
  pub count : eq.len ≡ len
  pub width : eq.reclen ≡ reclen

module _ (eq : ElasticQueue) (v : IsValid eq) (rec : List Cell)
    (fits : length rec ≡ eq.reclen) where
  added :
      (ea : ElasticArray)
      → Holds (contents eq.ea ++ rec) ea
      → Queues eq.reclen
          (eq.len + 1)
          (queued eq ++ rec)
          (record eq { ea = ea; len = (eq.len + 1) % 2 ^ 64 })
  added ea h = rw (mod-eq_of_lt room) (record {
    valid = record { laid_out = laid_out; behind = omega (arith, v.behind) };
    holds =
        queued-contents grown laid_out
        ∙ ap (drop (eq.offset * eq.reclen)) h.holds
        ∙ drop_append_left (eq.offset * eq.reclen) (contents eq.ea) rec
            (omega (arith, old_length, o.sized))
        ∙ ap (λ cells. cells ++ rec) (sym (queued-contents eq o));
    count = refl;
    width = refl;
  })
    where
      o : IsLaidOut eq
      o = v.laid_out

      grown : ElasticQueue
      grown = record eq { ea = ea; len = eq.len + 1 }

      old_length : length (contents eq.ea) ≡ eq.ea.size
      old_length = length-contents eq.ea o.array

      new_size : ea.size ≡ (eq.offset + eq.len) * eq.reclen + eq.reclen
      new_size = omega (
        arith,
        length-contents ea h.valid,
        ap length h.holds,
        length-append (contents eq.ea) rec,
        old_length,
        fits,
        o.sized,
      )

      laid_out : IsLaidOut grown
      laid_out = record { array = h.valid; pos = o.pos; sized = omega (arith, new_size) }

      product : eq.len + 1 ≤ (eq.len + 1) * eq.reclen
      product = let p : 1 ≤ eq.reclen = o.pos in grind arith

      room : eq.len + 1 < 2 ^ 64
      room = omega (arith, product, new_size, h.valid.within, h.valid.addressable)

  -- Adding a record puts it behind the others.
  pub add-Keeps :
      (granted : Bool)
      → Keeps (Queues eq.reclen (eq.len + 1) (queued eq ++ rec)) (add granted eq rec)
  unfolding add
  add-Keeps granted =
      Keeps-bind (Holds (contents eq.ea ++ rec)) _
        (ElasticArray.append granted eq.ea rec 1 eq.reclen) _
        (append-Keeps eq.ea v.laid_out.array rec 1 eq.reclen v.laid_out.pos (omega arith) granted)
        added

  -- Adding a record of the queue's length to a valid queue, with the memory granted and the array's
  -- new size below 2 ^ 64, succeeds and leaves a valid queue of the old records followed by the new
  -- one.
  pub add-Returns :
      eq.ea.size + eq.reclen < 2 ^ 64
      → Returns (Queues eq.reclen (eq.len + 1) (queued eq ++ rec)) (add true eq rec)
  unfolding add
  add-Returns room =
      Returns-bind (Holds (contents eq.ea ++ rec)) _
        (ElasticArray.append true eq.ea rec 1 eq.reclen) _
        (append-Returns eq.ea v.laid_out.array rec 1 eq.reclen v.laid_out.pos (omega arith)
          (omega arith))
        added

-- The place that `elasticqueue_get` computes for a record of the queue.
pub get_place :
    (eq : ElasticQueue) (i : ℕ)
    → IsValid eq
    → i < eq.len
    → get eq i ≡ some ((i + eq.offset) * eq.reclen)
unfolding get
get_place eq i v h =
    let o = v.laid_out in
    let p : 1 ≤ eq.reclen = o.pos in
    let q : i + eq.offset ≤ (i + eq.offset) * eq.reclen = grind arith in
    let r : (i + eq.offset) * eq.reclen ≤ (eq.offset + eq.len) * eq.reclen = grind arith in
    let small : i + eq.offset < 2 ^ 64 =
      omega (arith, q, r, o.sized, o.array.within, o.array.addressable) in
    let wraps : (i + eq.offset) * eq.reclen < 2 ^ 64 =
      omega (arith, r, o.sized, o.array.within, o.array.addressable) in
    rw (leb-false_of_lt eq.len i h, mod-eq_of_lt small, mod-eq_of_lt wraps)

-- In a valid queue, `elasticqueue_get` finds a place in the array for every position below the
-- length, and the record at this place is the queue's record of that position.
pub get_loads :
    (eq : ElasticQueue) (i : ℕ)
    → IsValid eq
    → i < eq.len
    → (place : ℕ) × (get eq i ≡ some place)
      × (ElasticArray.load eq.ea place eq.reclen
          ≡ take eq.reclen (drop (i * eq.reclen) (queued eq)))
get_loads eq i v h = ((i + eq.offset) * eq.reclen, get_place eq i v h, loads h)
  where
    loads :
        i < eq.len
        → take eq.reclen (drop ((i + eq.offset) * eq.reclen) eq.ea.buf)
          ≡ take eq.reclen (drop (i * eq.reclen) (queued eq))
    loads h =
        let room : eq.reclen ≤ (eq.len - i) * eq.reclen = grind arith in
        let parts : eq.len ≡ i + (eq.len - i) = omega arith in
        let split : eq.len * eq.reclen ≡ i * eq.reclen + (eq.len - i) * eq.reclen =
          omega (arith, ap (λ (n : ℕ). n * eq.reclen) parts) in
        let place : eq.offset * eq.reclen + i * eq.reclen ≡ (i + eq.offset) * eq.reclen =
          omega arith in
        sym (
          rw (
            split,
            drop-take (i * eq.reclen) ((eq.len - i) * eq.reclen)
                (drop (eq.offset * eq.reclen) eq.ea.buf),
            take-take eq.reclen ((eq.len - i) * eq.reclen)
                (drop (i * eq.reclen) (drop (eq.offset * eq.reclen) eq.ea.buf)) room,
            drop-drop (i * eq.reclen) (eq.offset * eq.reclen) eq.ea.buf,
            place,
          ))
