-- ===== src/TimerQueue/Order.antt =====
-- datastruct/timerqueue.c: `tvcmp` orders the times, and what a valid queue is.
use Prim.Native.Nat.{compare}
use libcperciva.Prelude.{ℕ, ◌+◌, ◌*◌, ◌<◌, ◌≡◌, refl, arith}
use libcperciva.PtrHeap.Order.{Ranks}
use libcperciva.PtrHeap.Moves.{Remembers}
use libcperciva.PtrHeap.Methods
use libcperciva.PtrHeap.Cookies.{IsKnown}
use libcperciva.TimerQueue.{Timeval, TimerQueue, tvcmp, callbacks, setreccookie}

-- Microseconds since the epoch.
abbrev pub micros : Timeval → ℕ
micros tv = tv.tv_sec * 1000000 + tv.tv_usec

-- A `struct timeval` in its normal form.
abbrev pub IsTime : Timeval → Type 0
IsTime tv = tv.tv_usec < 1000000

abbrev pub rank : (ℕ → Timeval) → ℕ → ℕ
rank tv r = micros (tv r)

pub tvcmp-compare :
    (x y : Timeval) → IsTime x → IsTime y → tvcmp x y ≡ compare (micros x) (micros y)
unfolding tvcmp
tvcmp-compare x y hx hy = ground arith

pub callbacks-Ranks :
    (tv : ℕ → Timeval) → ((r : ℕ) → IsTime (tv r)) → Ranks (callbacks tv) (rank tv)
callbacks-Ranks tv h x y = tvcmp-compare (tv x) (tv y) (h x) (h y)

abbrev pub cookie : (ℕ → ℕ) → ℕ → ℕ
cookie rcs r = rcs r

pub callbacks-Remembers : (tv : ℕ → Timeval) → Remembers (callbacks tv) cookie
callbacks-Remembers tv = record {
  call = setreccookie;
  installed = refl;
  last_call = λ s p i q. refl;
}

-- The heap is in order by the times, its records differ, and each has its position in `rc`.
pub record IsValid (q : TimerQueue) : Type 0 where
  pub times : (r : ℕ) → IsTime (q.records.tv r)
  pub ordered : Methods.IsValid (rank q.records.tv) q.heap
  pub known : IsKnown cookie (q.heap, q.records.rc)
