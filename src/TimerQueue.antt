-- ===== src/TimerQueue.antt =====
-- datastruct/timerqueue.c: a priority queue of pointers by their times, over the pointer heap.
-- A record of the queue is its address. The fields of the records in memory are one map each, and
-- `setreccookie` writes to the map of the field `rc` only. Times are not negative.
pub mod Order
pub mod Calls
pub mod Changes
use Prim.Native.Nat.{Ordering, lt, eq, gt}
use libcperciva.Prelude.{
  ℕ, Bool, true, false, Option, none, some, List, Outcome, done, fail, ◌>>=◌, ltb, ◌==◌,
  if◌then◌else◌,
}
use libcperciva.PtrHeap
use libcperciva.PtrHeap.{Callbacks, PtrHeap, is_gt}

pub record Timeval : Type 0 where
  pub tv_sec : ℕ
  pub tv_usec : ℕ

-- The fields of `struct timerrec`, by the address of the record.
pub record Records : Type 0 where
  pub tv : ℕ → Timeval
  pub rc : ℕ → ℕ
  pub ptr : ℕ → ℕ

pub record TimerQueue : Type 0 where
  pub heap : PtrHeap
  pub records : Records

-- One entry of a map is written.
abbrev pub put {ℓ} : {A : Type ℓ} → (ℕ → A) → ℕ → A → ℕ → A
put f r a q = if q == r then a else f q

-- The sign of `tvcmp(x, y)`.
unfoldable pub tvcmp : Timeval → Timeval → Ordering
tvcmp x y =
    if ltb y.tv_sec x.tv_sec
    then gt
    else if ltb x.tv_sec y.tv_sec
    then lt
    else if ltb y.tv_usec x.tv_usec
    then gt
    else if ltb x.tv_usec y.tv_usec
    then lt
    else eq

abbrev pub setreccookie : (ℕ → ℕ) → ℕ → ℕ → ℕ → ℕ
setreccookie rcs r rc = put rcs r rc

-- `compar` and `setreccookie`, for records with these times.
abbrev pub callbacks : (ℕ → Timeval) → Callbacks (ℕ → ℕ)
callbacks tv = record { compar = λ x y. tvcmp (tv x) (tv y); setreccookie = some setreccookie }

-- A call of the heap, with what it writes to the records.
abbrev pub on_heap : Records → Outcome (PtrHeap × (ℕ → ℕ)) → Outcome TimerQueue
on_heap records call =
    call >>= λ (heap, rc). done (record { heap = heap; records = record records { rc = rc } })

-- `timerqueue_init`; the flags are about the queue's, the heap's and the array's structure.
unfoldable pub init : Records → Bool → Bool → Bool → Outcome TimerQueue
init records granted granted_heap granted_array =
    if granted
    then on_heap records (PtrHeap.init (callbacks records.tv) records.rc granted_heap granted_array)
    else fail

-- `timerqueue_add`, where `r` is the record that is allocated; `r` is what is returned.
unfoldable pub add : Bool → Bool → TimerQueue → Timeval → ℕ → ℕ → Outcome TimerQueue
add granted granted_heap q tv ptr r =
    if granted
    then (let records : Records = record q.records {
      tv = put q.records.tv r tv;
      ptr = put q.records.ptr r ptr;
    } in
        on_heap records (PtrHeap.add (callbacks records.tv) records.rc granted_heap q.heap r))
    else fail

unfoldable pub delete : TimerQueue → ℕ → Outcome TimerQueue
delete q r =
    on_heap q.records (PtrHeap.delete (callbacks q.records.tv) q.records.rc q.heap (q.records.rc r))

unfoldable pub increase : TimerQueue → ℕ → Timeval → Outcome TimerQueue
increase q r tv =
    let records : Records = record q.records { tv = put q.records.tv r tv } in
    on_heap records (PtrHeap.increase (callbacks records.tv) records.rc q.heap (records.rc r))

-- `none` for NULL.
unfoldable pub getmin : TimerQueue → Outcome (Option Timeval)
getmin q = PtrHeap.getmin q.heap >>= λ min. elim min [
  | none ↦ done none
  | some r ↦ done (some (q.records.tv r))
]

unfoldable pub getptr : TimerQueue → Timeval → Outcome (TimerQueue × Option ℕ)
getptr q tv = PtrHeap.getmin q.heap >>= λ min. elim min [
  | none ↦ done (q, none)
  | some r ↦ if is_gt (tvcmp (q.records.tv r) tv) then done (q, none) else (do
    q' ← on_heap q.records (PtrHeap.deletemin (callbacks q.records.tv) q.records.rc q.heap)
    done (q', some (q'.records.ptr r)))
]
