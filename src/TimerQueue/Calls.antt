-- ===== src/TimerQueue/Calls.antt =====
-- datastruct/timerqueue.c: the calls keep the queue valid, and give the pointers by their times.
use mathlib.Core.List.{Perm}
use Prim.Native.Nat.{compare}
use libcperciva.Prelude.{
  ℕ, ◌≤◌, ◌<◌, ◌≡◌, refl, ap, true, false, ◌∷◌, Option, none, some, arith, done, Returns,
  Returns-bind, Returns-both,
}
use libcperciva.PtrHeap
use libcperciva.PtrHeap.{PtrHeap, is_gt, deletemin}
use libcperciva.PtrHeap.Order.{Ranks, key}
use libcperciva.PtrHeap.Slots.{at}
use libcperciva.PtrHeap.Delete.{Deleted, delete-Returns}
use libcperciva.PtrHeap.Adjust.{getmin_least}
use libcperciva.PtrHeap.Cookies.{IsKnown, delete-IsKnown}
use libcperciva.TimerQueue.{Timeval, TimerQueue, callbacks, on_heap, delete, getptr}
use libcperciva.TimerQueue.Order.{
  micros, IsTime, rank, tvcmp-compare, callbacks-Ranks, cookie, callbacks-Remembers, IsValid,
}

module _ (q : TimerQueue) (v : IsValid q) where
  ranks : Ranks (callbacks q.records.tv) (rank q.records.tv)
  ranks = callbacks-Ranks q.records.tv v.times

  -- One record is gone, the others keep their times and pointers, and the queue is valid.
  pub record Removed (r : ℕ) (q' : TimerQueue) : Type 0 where
    pub valid : IsValid q'
    pub same : Perm (r ∷ q'.heap.elems) q.heap.elems
    pub times : q'.records.tv ≡ q.records.tv
    pub pointers : q'.records.ptr ≡ q.records.ptr

  removed :
      (c : ℕ)
      → c < q.heap.nelems
      → Returns
          (Removed (at q.heap.elems c))
          (on_heap q.records (PtrHeap.delete (callbacks q.records.tv) q.records.rc q.heap c))
  removed c inside =
      let rk = rank q.records.tv in
      let cb = callbacks q.records.tv in
      let call = PtrHeap.delete cb q.records.rc q.heap c in
      Returns-bind _ (Removed (at q.heap.elems c)) call _
        (Returns-both (Deleted rk cb ranks q.heap c) (IsKnown cookie) call
          (delete-Returns rk cb ranks q.heap q.records.rc c v.ordered inside)
          (delete-IsKnown rk cb ranks cookie (callbacks-Remembers q.records.tv) q.heap v.ordered
            q.records.rc v.known c inside))
        (λ r (d, k). record {
          valid = record { times = v.times; ordered = d.valid; known = k };
          same = d.same;
          times = refl;
          pointers = refl;
        })

  -- In a valid queue, deleting a record of the queue by its cookie succeeds and leaves a valid
  -- queue of all other records; no record's time or pointer changes.
  pub delete-Removed :
      (c : ℕ)
      → c < q.heap.nelems
      → Returns (Removed (at q.heap.elems c)) (delete q (at q.heap.elems c))
  unfolding delete
  delete-Removed c inside = rw (v.known.tracked c inside, delete) (removed c inside)

  module _ (some_left : 0 < q.heap.nelems) (tv : Timeval) (normal : IsTime tv) where
    abbrev first : ℕ
    first = at q.heap.elems 0

    -- In a valid queue that is not empty, as long as the time of the first record is later than
    -- `tv` (both in normal form), `timerqueue_getptr` gives NULL and leaves the queue as it was.
    pub getptr_early : micros tv < rank q.records.tv first → getptr q tv ≡ done (q, none)
    unfolding getptr
    getptr_early late =
        let (top, _) = getmin_least (rank q.records.tv) q.heap v.ordered some_left in
        let order = tvcmp-compare (q.records.tv first) tv (v.times first) normal in
        let above : is_gt (compare (rank q.records.tv first) (micros tv)) ≡ true = ground arith in
        rw (top, order, above, getptr)

    -- The pointer that is given is that of a record of the earliest time, which is removed.
    pub record Popped (res : TimerQueue × Option ℕ) : Type 0 where
      pub removal : Removed first res.0
      pub out : res.1 ≡ some (q.records.ptr first)
      pub least :
          (c : ℕ)
          → c < q.heap.nelems
          → rank q.records.tv first ≤ key (rank q.records.tv) q.heap.elems c

    -- In a valid queue that is not empty, if the time of the first record is not later than `tv`
    -- (both in normal form), `timerqueue_getptr` succeeds: it gives the pointer of the first
    -- record, whose time is the earliest in the queue, and leaves a valid queue without this record
    -- and with all others.
    pub getptr-Popped : rank q.records.tv first ≤ micros tv → Returns Popped (getptr q tv)
    unfolding getptr deletemin
    getptr-Popped due =
        let (top, least) = getmin_least (rank q.records.tv) q.heap v.ordered some_left in
        let order = tvcmp-compare (q.records.tv first) tv (v.times first) normal in
        let above : is_gt (compare (rank q.records.tv first) (micros tv)) ≡ false = ground arith in
        rw (top, order, above, getptr)
          (Returns-bind (Removed first) Popped _ _ (removed 0 some_left) (λ q' d. record {
            removal = d;
            out = ap (λ f. some (f first)) d.pointers;
            least = least;
          }))
