-- ===== src/ElasticQueue.antt =====
-- datastruct/elasticqueue.c: a queue of records of one length, over an elastic array.
pub mod Move
pub mod Fifo
pub mod Delete
use libcperciva.Prelude.{
  ℕ, zero, suc, ◌+◌, ◌-◌, Bool, true, Option, none, some, List, Outcome, done, fail, assert, ◌>>=◌,
  Cell, size_t, memcpy, take, drop, ltb, leb, ◌==◌, if◌then◌else◌,
}
use libcperciva.ElasticArray
use libcperciva.ElasticArray.{ElasticArray}

pub record ElasticQueue : Type 0 where
  pub ea : ElasticArray
  pub offset : ℕ
  pub len : ℕ
  pub reclen : ℕ

-- `elasticqueue_init`; the flags are about the queue's and the array's structure. An array of no
-- records asks for no buffer.
unfoldable pub init : Bool → Bool → ℕ → Outcome ElasticQueue
init granted granted_array reclen = assert (ltb 0 reclen) (
    if granted
    then (do
      ea ← ElasticArray.init granted_array true 0 reclen
      done (record { ea = ea; offset = 0; len = 0; reclen = reclen }))
    else fail)

unfoldable pub add : Bool → ElasticQueue → List Cell → Outcome ElasticQueue
add granted eq rec = do
  ea ← ElasticArray.append granted eq.ea rec 1 eq.reclen
  done (record eq { ea = ea; len = size_t (eq.len + 1) })

-- The loop of `elasticqueue_delete` from record `i` on, with `rounds` records left to move.
unfoldable pub move_records : ℕ → ℕ → ℕ → ℕ → List Cell → List Cell
move_records zero i offset reclen buf = buf
move_records (suc rounds) i offset reclen buf =
    let newpos = ElasticArray.get i reclen in
    let oldpos = ElasticArray.get (size_t (i + offset)) reclen in
    move_records rounds (suc i) offset reclen
      (memcpy buf newpos (take reclen (drop oldpos buf)) reclen)

-- What `elasticqueue_delete` does once the front record is out of the logical queue.
unfoldable pub settle : Bool → ElasticQueue → Outcome ElasticQueue
settle granted eq =
    if ltb eq.len eq.offset
    then (do
      let moved = move_records eq.len 0 eq.offset eq.reclen eq.ea.buf
      ea ← ElasticArray.shrink granted (record eq.ea { buf = moved }) eq.offset eq.reclen
      done (record eq { ea = ea; offset = 0 }))
    else done eq

unfoldable pub delete : Bool → ElasticQueue → Outcome ElasticQueue
delete granted eq =
    if eq.len == 0
    then done eq
    else settle granted (record eq { offset = size_t (eq.offset + 1); len = eq.len - 1 })

unfoldable pub getlen : ElasticQueue → ℕ
getlen eq = eq.len

-- `elasticqueue_get`: `none` for NULL, else the offset of the record in the array's buffer.
unfoldable pub get : ElasticQueue → ℕ → Option ℕ
get eq pos =
    if leb eq.len pos then none else some (ElasticArray.get (size_t (pos + eq.offset)) eq.reclen)
