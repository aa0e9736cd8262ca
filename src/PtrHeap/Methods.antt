-- ===== src/PtrHeap/Methods.antt =====
-- datastruct/ptrheap.c: the calls that change a heap keep it in order.
use libcperciva.Prelude.{
  ℕ, suc, ◌+◌, ◌-◌, ◌^◌, ◌≤◌, ◌<◌, ◌≡◌, refl, ◌∙◌, List, [], ◌∷◌, ◌++◌, true, arith, length, set,
  ltb, ◌==◌, if◌then◌else◌, Returns, Returns-if, Returns-map, Returns-bind, length-set,
  length-append,
}
use libcperciva.PtrHeap.{Callbacks, PtrHeap, parent, notify, heapify, heapifyup, add, replace}
use libcperciva.PtrHeap.Slots.{
  at, load-at, store-set, at-set, at-append, exchanged, length-exchanged, swap-exchanged,
}
use libcperciva.PtrHeap.Order.{
  Ranks, key, IsOrderedFrom, IsOrderedAbove, IsOrderedBelow, is_below-ltb,
}
use libcperciva.PtrHeap.Sift.{
  Swaps, exchange, Sifted, heapify_restores, heapifyup_restores, exchange-Below,
}
use libcperciva.PtrHeap.Moves.{Swaps-length}

-- The recorded size is that of the array, and the elements are in heap order.
pub record IsValid (rank : ℕ → ℕ) (h : PtrHeap) : Type 0 where
  pub sized : length h.elems ≡ h.nelems
  pub small : h.nelems < 2 ^ 61
  pub ordered : IsOrderedFrom rank 0 h.elems h.nelems

module _ (rank : ℕ → ℕ) {S : Type 0} (cb : Callbacks S) (ranks : Ranks cb rank) where
  -- The heap is in order, and its array comes from `xs` by exchanges among the first `n` places.
  pub record Settled (n : ℕ) (xs : List ℕ) (s : S) (r : PtrHeap × S) : Type 0 where
    pub valid : IsValid rank r.0
    pub count : r.0.nelems ≡ n
    pub moves : Swaps cb n r.0.elems r.1 xs s

  pub settled :
      (n : ℕ) (xs : List ℕ) (s : S)
      → length xs ≡ n
      → n < 2 ^ 61
      → (r : List ℕ × S) → Sifted rank cb ranks 0 n xs s r
      → Settled n xs s (record { elems = r.0; nelems = n }, r.1)
  settled n xs s size small (ys, t) (ordered, moves) = record {
    valid = record { sized = Swaps-length moves ∙ size; small = small; ordered = ordered };
    count = refl;
    moves = moves;
  }

  module _ (h : PtrHeap) (v : IsValid rank h) (s : S) where
    grown_ordered : (ptr : ℕ) → IsOrderedBelow rank (h.elems ++ ptr ∷ []) h.nelems (h.nelems + 1)
    grown_ordered ptr = record {
      inside = omega arith;
      edges = λ c p q ne. ground (
        arith,
        v.ordered c,
        v.sized,
        at-append h.elems (ptr ∷ []) c,
        at-append h.elems (ptr ∷ []) (parent c),
      );
      across = λ c p q e pos. absurd (omega arith);
    }

    -- Adding a pointer to a valid heap of fewer than 2 ^ 61 - 1 pointers, with the memory granted,
    -- succeeds and leaves a valid heap. It comes by exchanges, each reported at both ends, from the
    -- old array with the pointer at its end, whose position is reported first.
    pub add_settles :
        (ptr : ℕ)
        → h.nelems + 1 < 2 ^ 61
        → Returns
            (Settled (h.nelems + 1) (h.elems ++ ptr ∷ []) (notify cb s ptr h.nelems))
            (add cb s true h ptr)
    unfolding add
    add_settles ptr small =
        let e : h.nelems + 1 - 1 ≡ h.nelems = omega arith in
        let size : length (h.elems ++ ptr ∷ []) ≡ h.nelems + 1 =
          omega (arith, length-append h.elems (ptr ∷ []), v.sized) in
        rw e (
          Returns-bind _ _ (heapifyup cb (notify cb s ptr h.nelems) (h.elems ++ ptr ∷ []) h.nelems)
            _
            (heapifyup_restores rank cb ranks (h.elems ++ ptr ∷ []) (notify cb s ptr h.nelems)
              h.nelems (h.nelems + 1) (omega (arith, size)) (grown_ordered ptr))
            (settled (h.nelems + 1) _ _ size small))

    module _ (last rc : ℕ) (whole : h.nelems ≡ suc last) (inner : rc < last) where
      abbrev pub replaced : List ℕ
      replaced = set h.elems rc (at h.elems last)

      pub length-replaced : length replaced ≡ suc last
      length-replaced = omega (arith, length-set h.elems rc (at h.elems last), v.sized, whole)

      pub at-replaced :
          (c : ℕ) → at replaced c ≡ (if c == rc then at h.elems last else at h.elems c)
      at-replaced c = at-set h.elems rc (at h.elems last) c (omega (arith, v.sized, whole))

      replaced-Below :
          0 < rc
          → key rank replaced rc < key rank replaced (parent rc)
          → IsOrderedBelow rank replaced rc last
      replaced-Below pos below = record {
        inside = inner;
        edges = λ c p q ne. ground (
          arith,
          at-replaced c,
          at-replaced (parent c),
          at-replaced rc,
          at-replaced (parent rc),
          v.ordered c,
          v.ordered rc,
          whole,
        );
        across = λ c p q e u.
            ground
              (arith, at-replaced c, at-replaced (parent rc), v.ordered c, v.ordered rc, whole);
      }

      replaced-Above :
          (0 < rc → key rank replaced (parent rc) ≤ key rank replaced rc)
          → IsOrderedAbove rank 0 replaced rc last
      replaced-Above above = record {
        inside = inner;
        edges = λ c p q r ne. ground (
          arith,
          at-replaced c,
          at-replaced (parent c),
          at-replaced rc,
          at-replaced (parent rc),
          v.ordered c,
          whole,
          above,
        );
        across = λ c p q e u r.
            ground
              (arith, at-replaced c, at-replaced (parent rc), v.ordered c, v.ordered rc, whole);
      }

      -- The last pointer, put in the place of the deleted one, finds its own place.
      pub replace_restores :
          Returns
            (Sifted rank cb ranks 0 last replaced (notify cb s (at h.elems last) rc))
            (replace cb s h.elems rc last)
      unfolding replace
      replace_restores =
          rw
            (
              load-at h.elems last (omega (arith, v.sized, whole)),
              store-set h.elems rc (at h.elems last) (omega (arith, v.sized, whole)),
            )
            (Returns-if Result (ltb 0 rc) _ _
              (λ inside.
                let pos : 0 < rc = ground arith in
                let here : rc < length replaced = omega (arith, length-replaced) in
                let above : parent rc < length replaced = omega (arith, length-replaced) in
                rw
                  (
                    is_below-ltb rank cb ranks replaced rc (parent rc) here above,
                    swap-exchanged replaced rc (parent rc) here above cb told,
                  )
                  (Returns-if Result (ltb (key rank replaced rc) (key rank replaced (parent rc))) _
                    _ (λ below. rising pos (ground arith))
                    (λ settled. sinking (λ _. ground arith))))
              (λ root. sinking (λ pos. absurd (ground arith))))
        where
          told : S
          told = notify cb s (at h.elems last) rc

          Result : List ℕ × S → Type 0
          Result = Sifted rank cb ranks 0 last replaced told

          fits : last ≤ length replaced
          fits = omega (arith, length-replaced)

          sinking :
              (0 < rc → key rank replaced (parent rc) ≤ key rank replaced rc)
              → Returns Result (heapify cb told replaced rc last)
          sinking above =
              heapify_restores rank cb ranks 0 replaced told rc last fits (replaced-Above above)

          risen : List ℕ
          risen = exchanged replaced rc (parent rc)

          told_both : S
          told_both =
              notify cb (notify cb told (at replaced (parent rc)) rc) (at replaced rc) (parent rc)

          rising :
              0 < rc
              → key rank replaced rc < key rank replaced (parent rc)
              → Returns Result (heapifyup cb told_both risen (parent rc))
          rising pos below =
              Returns-map (Sifted rank cb ranks 0 last risen told_both) Result
                (λ r (ordered, moves).
                  (ordered, exchange rc (parent rc) inner (omega (arith, inner)) moves))
                _
                (heapifyup_restores rank cb ranks risen told_both (parent rc) last
                  (omega (arith, length-exchanged replaced rc (parent rc), fits))
                  (exchange-Below rank cb ranks replaced rc last fits (replaced-Below pos below) pos
                    below))
