-- ===== src/Tests/Heaps.antt =====
-- datastruct/ptrheap.c at concrete heaps. The client keeps the last cookie of each pointer.
use Prim.Native.Nat.{compare}
use libcperciva.Prelude.{
  ℕ, ◌<◌, ◌≡◌, ◌≢◌, refl, [], ◌∷◌, some, true, arith, done, Returns, ◌==◌, if◌then◌else◌, ◌>>=◌,
}
use libcperciva.PtrHeap.{
  Callbacks, PtrHeap, create, delete, order_all, heapify, heapifyup, up_loop, down_loop, lesser,
  is_below, is_above, swap, load, store, notify, replace,
}
use libcperciva.PtrHeap.Slots.{at}
use libcperciva.PtrHeap.Order.{Ranks}
use libcperciva.PtrHeap.Moves.{Remembers, IsDistinct}
use libcperciva.PtrHeap.Methods.{IsValid}
use libcperciva.PtrHeap.Delete.{Deleted, delete-Returns}
use libcperciva.PtrHeap.Adjust.{AgreeBut}
use libcperciva.PtrHeap.Cookies.{IsKnown, delete-IsKnown}

abbrev Places : Type 0
Places = ℕ → ℕ

abbrev remember : Places → ℕ → ℕ → Places
remember s p i q = if q == p then i else s q

-- Each pointer ranks by its address.
abbrev plain : ℕ → ℕ
plain p = p

abbrev callbacks : Callbacks Places
callbacks = record { compar = compare; setreccookie = some remember }

abbrev cookie : Places → ℕ → ℕ
cookie s q = s q

ranks : Ranks callbacks plain
ranks x y = refl

client : Remembers callbacks cookie
client = record { call = remember; installed = refl; last_call = λ s p i q. refl }

abbrev nowhere : Places
nowhere p = 0

abbrev sample : PtrHeap
sample = record { elems = 1 ∷ 4 ∷ 3 ∷ 9 ∷ []; nelems = 4 }

abbrev places : Places
places = remember (remember (remember (remember nowhere 1 0) 4 1) 3 2) 9 3

sample-IsValid : IsValid plain sample
sample-IsValid = grind arith

sample-IsKnown : IsKnown cookie (sample, places)
sample-IsKnown = record { distinct = grind arith; tracked = grind arith }

created : (create callbacks nowhere true true (9 ∷ 4 ∷ 3 ∷ 1 ∷ []) >>= λ r. done r.0) ≡ done sample
unfolding create order_all heapify down_loop lesser is_above swap load store
created = refl

deleted :
    (delete callbacks places sample 1 >>= λ r. done (r.1 9 ∷ r.0.elems)) ≡ done (1 ∷ 1 ∷ 9 ∷ 3 ∷ [])
unfolding delete replace heapify down_loop heapifyup up_loop lesser is_above is_below swap load
    store notify
deleted = refl

two-IsDistinct : IsDistinct 2 (9 ∷ 4 ∷ [])
two-IsDistinct = grind arith

two_is_new : (c : ℕ) → c < 4 → at sample.elems c ≢ 2
two_is_new = grind arith

delete-Returns_example :
    Returns (Deleted plain callbacks ranks sample 1) (delete callbacks places sample 1)
delete-Returns_example =
    delete-Returns plain callbacks ranks sample places 1 sample-IsValid (omega arith)

delete-IsKnown_example : Returns (IsKnown cookie) (delete callbacks places sample 1)
delete-IsKnown_example =
    delete-IsKnown plain callbacks ranks cookie client sample sample-IsValid places sample-IsKnown 1
      (omega arith)

-- Ranks by which the pointers of `sample` were in order before the first one moved up, or the
-- last one moved down, to its plain rank.
abbrev first_lower : ℕ → ℕ
first_lower p = if p == 1 then 0 else p

abbrev last_higher : ℕ → ℕ
last_higher p = if p == 9 then 12 else p

first_lower-IsValid : IsValid first_lower sample
first_lower-IsValid = grind arith

last_higher-IsValid : IsValid last_higher sample
last_higher-IsValid = grind arith

first_agrees : AgreeBut first_lower plain sample 0
first_agrees = grind arith

last_agrees : AgreeBut last_higher plain sample 3
last_agrees = grind arith
