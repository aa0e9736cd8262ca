-- ===== src/TimerQueue/Changes.antt =====
-- datastruct/timerqueue.c: adding a timer, and moving one to a later time.
use mathlib.Core.List.{Perm}
use libcperciva.Prelude.{
  ℕ, ◌+◌, ◌-◌, ◌/◌, ◌^◌, ◌≤◌, ◌<◌, ◌≡◌, ◌≢◌, refl, true, false, List, [], ◌∷◌, ◌++◌, arith, ◌==◌,
  Returns, Returns-bind, Returns-both, length-append, Bool-cases, inl, inr,
}
use libcperciva.PtrHeap
use libcperciva.PtrHeap.{PtrHeap, notify}
use libcperciva.PtrHeap.Slots.{at}
use libcperciva.PtrHeap.Moves.{Swaps-perm}
use libcperciva.PtrHeap.Methods
use libcperciva.PtrHeap.Methods.{Settled, add_settles}
use libcperciva.PtrHeap.Adjust.{AgreeBut, increase_restores}
use libcperciva.PtrHeap.Cookies.{IsKnown, Settled-IsKnown, add-IsKnown}
use libcperciva.TimerQueue.{Timeval, TimerQueue, put, callbacks, add, increase}
use libcperciva.TimerQueue.Order.{
  micros, IsTime, rank, callbacks-Ranks, cookie, callbacks-Remembers, IsValid,
}

module _ (q : TimerQueue) (v : IsValid q) (tv : Timeval) (normal : IsTime tv) where
  abbrev later : ℕ → ℕ → Timeval
  later r = put q.records.tv r tv

  later-IsTime : (r p : ℕ) → IsTime (later r p)
  later-IsTime r p = elim (Bool-cases (p == r)) [ inl e ↦ rw e normal | inr e ↦ rw e (v.times p) ]

  later_other : (r p : ℕ) → p ≢ r → rank (later r) p ≡ rank q.records.tv p
  later_other r p ne = let e : (p == r) ≡ false = ground arith in rw e

  later_same : (r : ℕ) → rank (later r) r ≡ micros tv
  later_same r = let e : (r == r) ≡ true = ground arith in rw e

  -- A valid queue of these records, with the time of one of them set.
  pub record Timed (r : ℕ) (elems : List ℕ) (q' : TimerQueue) : Type 0 where
    pub valid : IsValid q'
    pub same : Perm q'.heap.elems elems
    pub times : q'.records.tv ≡ later r

  module _ (c : ℕ) (inside : c < q.heap.nelems) where
    abbrev moved : ℕ
    moved = at q.heap.elems c

    others : AgreeBut (rank q.records.tv) (rank (later moved)) q.heap c
    others d p ne =
        later_other moved (at q.heap.elems d) (λ e. ne (v.known.distinct d c p inside e))

    -- In a valid queue, moving a record to a time in normal form that is not earlier than its own,
    -- by its cookie, succeeds. It leaves a valid queue of the same records, with this time for the
    -- record and the old times for all others.
    pub increase-Timed :
        rank q.records.tv moved ≤ micros tv
        → Returns (Timed moved q.heap.elems) (increase q moved tv)
    unfolding increase
    increase-Timed higher =
        let after = rank (later moved) in
        let cb = callbacks (later moved) in
        let ranks = callbacks-Ranks (later moved) (later-IsTime moved) in
        let n = q.heap.nelems in
        let up : rank q.records.tv moved ≤ after moved = omega (arith, higher, later_same moved) in
        rw (v.known.tracked c inside, increase)
          (Returns-bind (Settled after cb ranks n q.heap.elems q.records.rc)
            (Timed moved q.heap.elems) (PtrHeap.increase cb q.records.rc q.heap c) _
            (increase_restores (rank q.records.tv) after cb ranks q.heap q.records.rc c v.ordered
              inside others up)
            (λ r w. record {
              valid = record {
                times = later-IsTime moved;
                ordered = w.valid;
                known =
                    Settled-IsKnown after cb ranks cookie (callbacks-Remembers (later moved)) n
                      q.heap.elems q.records.rc r v.ordered.sized v.known.distinct v.known.tracked
                      w;
              };
              same = Swaps-perm w.moves (omega (arith, v.ordered.sized));
              times = refl;
            }))

  module _ (r ptr : ℕ) (new : (c : ℕ) → c < q.heap.nelems → at q.heap.elems c ≢ r)
      (room : q.heap.nelems + 1 < 2 ^ 61) where
    still_ordered : Methods.IsValid (rank (later r)) q.heap
    still_ordered = record {
      sized = v.ordered.sized;
      small = v.ordered.small;
      ordered = λ c p l o. omega (
        arith,
        later_other r (at q.heap.elems ((c - 1) / 2)) (new ((c - 1) / 2) (omega arith)),
        later_other r (at q.heap.elems c) (new c l),
        v.ordered.ordered c p l o,
      );
    }

    -- Adding to a valid queue a record that is not in it, with a time in normal form, the memory
    -- granted and fewer than 2 ^ 61 - 1 records, succeeds. It leaves a valid queue of the old
    -- records and the new one, with this time for the new one and the old times for all others.
    pub add-Timed : Returns (Timed r (q.heap.elems ++ r ∷ [])) (add true true q tv ptr r)
    unfolding add
    add-Timed =
        let after = rank (later r) in
        let cb = callbacks (later r) in
        let ranks = callbacks-Ranks (later r) (later-IsTime r) in
        let call = PtrHeap.add cb q.records.rc true q.heap r in
        Returns-bind _ (Timed r (q.heap.elems ++ r ∷ [])) call _
          (Returns-both _ (IsKnown cookie) call
            (add_settles after cb ranks q.heap still_ordered q.records.rc r room)
            (add-IsKnown after cb ranks cookie (callbacks-Remembers (later r)) q.heap still_ordered
              q.records.rc v.known r room new))
          (λ res (w, k). record {
            valid = record { times = later-IsTime r; ordered = w.valid; known = k };
            same =
                Swaps-perm w.moves
                  (omega (arith, v.ordered.sized, length-append q.heap.elems (r ∷ [])));
            times = refl;
          })
