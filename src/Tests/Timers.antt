-- ===== src/Tests/Timers.antt =====
-- datastruct/timerqueue.c at a concrete queue.
use libcperciva.Prelude.{ℕ, ◌+◌, ◌<◌, ◌≡◌, ◌≢◌, refl, [], ◌∷◌, some, arith, done, Returns, ◌>>=◌}
use libcperciva.PtrHeap
use libcperciva.PtrHeap.{PtrHeap}
use libcperciva.PtrHeap.Slots.{at}
use libcperciva.TimerQueue.{Timeval, TimerQueue, put, tvcmp, increase, getptr}
use libcperciva.TimerQueue.Order.{IsValid}
use libcperciva.TimerQueue.Calls.{Popped, getptr-Popped}
use libcperciva.TimerQueue.Changes.{Timed, increase-Timed}

-- Record `r` has the time of `r` seconds, and the pointer `100 + r`.
abbrev own_second : ℕ → Timeval
own_second r = record { tv_sec = r; tv_usec = 5 }

abbrev three : TimerQueue
three = record {
  heap = record { elems = 2 ∷ 7 ∷ 4 ∷ []; nelems = 3 };
  records = record {
    tv = own_second;
    rc = put (put (put (λ r. 0) 2 0) 7 1) 4 2;
    ptr = λ r. 100 + r;
  };
}

three-IsValid : IsValid three
three-IsValid = record {
  times = λ r. omega arith;
  ordered = grind arith;
  known = record { distinct = grind arith; tracked = grind arith };
}

abbrev noon : Timeval
noon = record { tv_sec = 5; tv_usec = 0 }

abbrev dawn : Timeval
dawn = record { tv_sec = 2; tv_usec = 4 }

popped : (getptr three noon >>= λ res. done res.1) ≡ done (some 102)
unfolding getptr tvcmp PtrHeap.getmin PtrHeap.deletemin PtrHeap.delete PtrHeap.replace
    PtrHeap.heapify PtrHeap.down_loop PtrHeap.lesser PtrHeap.is_above PtrHeap.swap PtrHeap.load
    PtrHeap.store PtrHeap.notify
popped = refl

getptr-Popped_example :
    Returns (Popped three three-IsValid (omega arith) noon (omega arith)) (getptr three noon)
getptr-Popped_example =
    getptr-Popped three three-IsValid (omega arith) noon (omega arith) (omega arith)

increase-Timed_example :
    Returns
      (Timed three three-IsValid noon (omega arith) 2 (2 ∷ 7 ∷ 4 ∷ []))
      (increase three 2 noon)
increase-Timed_example =
    increase-Timed three three-IsValid noon (omega arith) 0 (omega arith) (omega arith)

nine_is_new : (c : ℕ) → c < 3 → at three.heap.elems c ≢ 9
nine_is_new = grind arith
