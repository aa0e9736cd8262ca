-- ===== src/ElasticQueue/Delete.antt =====
-- datastruct/elasticqueue.c: deleting the front record, and the memory that the queue keeps.
use native.Mathlib.Nat.{mod-eq_of_lt}
use libcperciva.Prelude.{
  ℕ, ◌+◌, ◌-◌, ◌*◌, ◌/◌, ◌^◌, ◌≤◌, ◌<◌, ◌≡◌, refl, ap, sym, ◌∙◌, ◌++◌, List, Bool, true, false,
  arith, done, Returns, Returns-if, Returns-bind, Returns-both, Returns-map, subst, Cell, take,
  drop, length, length-take, length-drop, length-append, take-take, take_all, drop-drop, drop-take,
  take-append_left, ltb, ◌==◌, le_of_ltb-false,
}
use libcperciva.ElasticArray
use libcperciva.ElasticArray.{ElasticArray}
use libcperciva.ElasticArray.Valid
use libcperciva.ElasticArray.Contents.{contents, shrink-Returns, shrink_tight}
use libcperciva.ElasticQueue.{ElasticQueue, move_records, settle, delete}
use libcperciva.ElasticQueue.Move.{moved, move_records-moved}
use libcperciva.ElasticQueue.Fifo.{IsLaidOut, IsValid, queued, Queues}

module _ (eq : ElasticQueue) (v : IsLaidOut eq) where
  whole : (eq.offset + eq.len) * eq.reclen ≤ length eq.ea.buf
  whole = omega (arith, v.sized, v.array.within, v.array.whole)

  abbrev start : List Cell
  start = drop (eq.offset * eq.reclen) eq.ea.buf

  abbrev moved_buf : List Cell
  moved_buf = move_records eq.len 0 eq.offset eq.reclen eq.ea.buf

  moved_buf-eq : moved_buf ≡ queued eq ++ drop (eq.len * eq.reclen) eq.ea.buf
  moved_buf-eq =
      let e : 0 * eq.reclen ≡ 0 = omega arith in
      let start_moved : moved eq.ea.buf eq.offset eq.reclen 0 ≡ eq.ea.buf = rw e in
      let end_moved : 0 + eq.len ≡ eq.len = omega arith in
      ap (move_records eq.len 0 eq.offset eq.reclen) (sym start_moved)
      ∙ move_records-moved eq.ea.buf eq.offset eq.reclen eq.len 0 (omega (arith, whole))
          (omega (arith, v.array.whole, v.array.addressable)) v.pos
      ∙ ap (moved eq.ea.buf eq.offset eq.reclen) end_moved

  length-queued : length (queued eq) ≡ eq.len * eq.reclen
  length-queued = omega (
    arith,
    length-take (eq.len * eq.reclen) start,
    length-drop (eq.offset * eq.reclen) eq.ea.buf,
    whole,
  )

  length-moved_buf : length moved_buf ≡ length eq.ea.buf
  length-moved_buf = rw moved_buf-eq (
      omega (
        arith,
        length-append (queued eq) (drop (eq.len * eq.reclen) eq.ea.buf),
        length-queued,
        length-drop (eq.len * eq.reclen) eq.ea.buf,
        whole,
      ))

  abbrev moved_array : ElasticArray
  moved_array = record eq.ea { buf = moved_buf }

  moved_array-IsValid : Valid.IsValid moved_array
  moved_array-IsValid = record {
    within = v.array.within;
    whole = length-moved_buf ∙ v.array.whole;
    addressable = v.array.addressable;
  }

  settled :
      (ea : ElasticArray)
      → Valid.IsValid ea
        × (contents ea ≡ take (eq.ea.size - eq.offset * eq.reclen) (contents moved_array))
        × (ea.size ≡ eq.ea.size - eq.offset * eq.reclen)
      → Queues eq.reclen eq.len (queued eq) (record eq { ea = ea; offset = 0 })
  settled ea (valid, same, size) =
      let n : eq.ea.size - eq.offset * eq.reclen ≡ eq.len * eq.reclen = omega (arith, v.sized) in
      let z : 0 * eq.reclen ≡ 0 = omega arith in
      record {
        valid = record {
          laid_out = record { array = valid; pos = v.pos; sized = omega (arith, size, n) };
          behind = omega arith;
        };
        holds = rw z (
            ap (λ k. take k ea.buf) (sym (size ∙ n))
            ∙ same
            ∙ ap (λ k. take k (contents moved_array)) n
            ∙ take-take (eq.len * eq.reclen) eq.ea.size moved_buf (omega (arith, v.sized))
            ∙ ap (take (eq.len * eq.reclen)) moved_buf-eq
            ∙ take-append_left (eq.len * eq.reclen) (queued eq) _ (omega (arith, length-queued))
            ∙ take_all (eq.len * eq.reclen) (queued eq) (omega (arith, length-queued)));
        count = refl;
        width = refl;
      }

  -- Moving the queue to the front of its array changes no record.
  settle-Returns :
      (granted : Bool) → Returns (Queues eq.reclen eq.len (queued eq)) (settle granted eq)
  unfolding settle
  settle-Returns granted =
      Returns-if (Queues eq.reclen eq.len (queued eq)) (ltb eq.len eq.offset) _ _
        (λ _.
          Returns-bind _ _ (ElasticArray.shrink granted moved_array eq.offset eq.reclen) _
            (shrink-Returns moved_array moved_array-IsValid eq.offset eq.reclen v.pos granted)
            settled)
        (λ e. record {
          valid = record { laid_out = v; behind = le_of_ltb-false eq.len eq.offset e };
          holds = refl;
          count = refl;
          width = refl;
        })

module _ (eq : ElasticQueue) (v : IsValid eq) (some_left : 0 < eq.len) where
  abbrev shorter : ElasticQueue
  shorter = record eq { offset = eq.offset + 1; len = eq.len - 1 }

  shorter-IsLaidOut : IsLaidOut shorter
  shorter-IsLaidOut =
      let e : eq.offset + 1 + (eq.len - 1) ≡ eq.offset + eq.len = omega arith in
      record {
        array = v.laid_out.array;
        pos = v.laid_out.pos;
        sized = v.laid_out.sized ∙ ap (λ n. n * eq.reclen) (sym e);
      }

  queued-shorter : queued shorter ≡ drop eq.reclen (queued eq)
  queued-shorter =
      let parts : eq.len ≡ 1 + (eq.len - 1) = omega arith in
      let split : eq.reclen + (eq.len - 1) * eq.reclen ≡ eq.len * eq.reclen =
        omega (arith, ap (λ (n : ℕ). n * eq.reclen) parts) in
      let place : eq.offset * eq.reclen + eq.reclen ≡ (eq.offset + 1) * eq.reclen = omega arith in
      ap (λ k. take ((eq.len - 1) * eq.reclen) (drop k eq.ea.buf)) (sym place)
      ∙ ap (take ((eq.len - 1) * eq.reclen))
          (sym (drop-drop eq.reclen (eq.offset * eq.reclen) eq.ea.buf))
      ∙ sym
          (drop-take eq.reclen ((eq.len - 1) * eq.reclen) (drop (eq.offset * eq.reclen) eq.ea.buf))
      ∙ ap (λ k. drop eq.reclen (take k (drop (eq.offset * eq.reclen) eq.ea.buf))) split

  delete-settle : (granted : Bool) → delete granted eq ≡ settle granted shorter
  unfolding delete
  delete-settle granted =
      let p : 1 ≤ eq.reclen = v.laid_out.pos in
      let q : eq.offset + eq.len ≤ (eq.offset + eq.len) * eq.reclen = grind arith in
      let small : eq.offset + 1 < 2 ^ 64 =
        omega (arith, v.laid_out.array.within, v.laid_out.array.addressable, v.laid_out.sized) in
      let e : (eq.len == 0) ≡ false = ground arith in rw (e, mod-eq_of_lt small)

  -- Deleting from a valid queue that is not empty succeeds, whatever the allocator says, and leaves
  -- a valid queue of the same records but for the oldest one.
  pub delete_front :
      (granted : Bool)
      → Returns (Queues eq.reclen (eq.len - 1) (drop eq.reclen (queued eq))) (delete granted eq)
  delete_front granted =
      rw (delete-settle granted, ← queued-shorter)
        (settle-Returns shorter shorter-IsLaidOut granted)

-- Deleting from an empty queue changes nothing.
pub delete_empty : (granted : Bool) (eq : ElasticQueue) → eq.len ≡ 0 → delete granted eq ≡ done eq
unfolding delete
delete_empty granted eq h = ground arith

-- The allocation is within a factor of four of the array, up to three bytes.
abbrev pub IsTight : ElasticQueue → Type 0
IsTight eq = eq.ea.alloc / 4 ≤ eq.ea.size

settle-IsTight : (eq : ElasticQueue) → IsLaidOut eq → IsTight eq → Returns IsTight (settle true eq)
unfolding settle
settle-IsTight eq v t =
    Returns-if IsTight (ltb eq.len eq.offset) _ _
      (λ _.
        Returns-bind _ _ (ElasticArray.shrink true (moved_array eq v) eq.offset eq.reclen) _
          (shrink_tight (moved_array eq v) (moved_array-IsValid eq v) eq.offset eq.reclen v.pos)
          (λ ea h. h))
      (λ _. t)

-- A queue that has never failed to shrink takes less than eight times the space of its records,
-- and four bytes.
pub tight_bound :
    (eq : ElasticQueue) → IsValid eq → IsTight eq → eq.ea.alloc < 8 * (eq.len * eq.reclen) + 4
tight_bound eq v t =
    let p : eq.offset * eq.reclen ≤ eq.len * eq.reclen = let q = v.behind in grind arith in
    omega (arith, p, t, v.laid_out.sized)

-- If a quarter of the allocation, rounded down, of a valid queue that is not empty is not above its
-- array's size, and the allocator grants a smaller buffer, then `elasticqueue_delete` succeeds,
-- takes off one record, and leaves this as it was, an offset of at most the number of records, and
-- an allocation of less than eight times the space of the records and four bytes.
pub delete-IsTight :
    (eq : ElasticQueue)
    → IsValid eq
    → IsTight eq
    → 0 < eq.len
    → Returns
        (λ eq'.
          IsTight eq'
          × (eq'.len ≡ eq.len - 1)
          × (eq'.offset ≤ eq'.len)
          × (eq'.ea.alloc < 8 * (eq'.len * eq.reclen) + 4))
        (delete true eq)
delete-IsTight eq v t h =
    let tight : Returns IsTight (delete true eq) =
      rw (delete-settle eq v h true)
        (settle-IsTight (shorter eq v h) (shorter-IsLaidOut eq v h) t) in
    Returns-map _ _
      (λ eq' (t, q).
        let bound = tight_bound eq' q.valid t in
        (
          t,
          q.count,
          q.valid.behind,
          subst (λ n. eq'.ea.alloc < 8 * (eq'.len * n) + 4) q.width bound,
        ))
      (delete true eq) (Returns-both IsTight _ (delete true eq) tight (delete_front eq v h true))
