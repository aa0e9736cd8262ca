-- ===== src/PtrHeap/Sift.antt =====
-- datastruct/ptrheap.c: `heapify` and `heapifyup` put one misplaced element where it belongs.
use libcperciva.Prelude.{
  ℕ, zero, suc, ◌+◌, ◌*◌, ◌≤◌, ◌<◌, ◌≡◌, ◌≢◌, List, arith, length, ltb, ◌==◌, Returns, Returns-if,
  Returns-map,
}
use libcperciva.PtrHeap.{Callbacks, parent, notify, up_loop, heapifyup, down_loop, heapify}
use libcperciva.PtrHeap.Slots.{at, exchanged, length-exchanged, at-exchanged, swap-exchanged}
use libcperciva.PtrHeap.Order.{
  Ranks, key, IsOrderedFrom, IsOrderedAbove, IsOrderedBelow, IsLeast, is_below-ltb, pick, pick-lt,
  lesser-pick, pick-IsLeast,
}

-- `(ys, t)` is reached from the array and client state of the indices by exchanges among the
-- first `n` positions, each reported at both of its ends.
pub data Swaps {S : Type 0} (cb : Callbacks S) (n : ℕ) (ys : List ℕ) (t : S)
    : List ℕ → S → Type 0 where
  stay : Swaps cb n ys t ys t
  exchange :
      {xs : List ℕ} {s : S} (i j : ℕ)
      → i < n
      → j < n
      → Swaps cb n ys t (exchanged xs i j) (notify cb (notify cb s (at xs j) i) (at xs i) j)
      → Swaps cb n ys t xs s

module _ (rank : ℕ → ℕ) {S : Type 0} (cb : Callbacks S) (ranks : Ranks cb rank) where
  -- The first `n` elements are in order from `lo` on, and come from `xs` by exchanges.
  abbrev pub Sifted : ℕ → ℕ → List ℕ → S → List ℕ × S → Type 0
  Sifted lo n xs s r = IsOrderedFrom rank lo r.0 n × Swaps cb n r.0 r.1 xs s

  exchange-Above :
      (lo : ℕ) (xs : List ℕ) (i n m : ℕ)
      → n ≤ length xs
      → IsOrderedAbove rank lo xs i n
      → IsLeast rank xs i n m
      → m ≢ i
      → IsOrderedAbove rank lo (exchanged xs m i) m n
  exchange-Above lo xs i n m fits v s ne =
      let place = at-exchanged xs m i (omega (arith, s.inside)) (omega (arith, v.inside)) in
      record {
        inside = s.inside;
        edges = λ c p q r t. ground (
          arith,
          place c,
          place (parent c),
          v.edges c,
          v.across m,
          s.least c,
          s.place,
          s.moved ne,
        );
        across = λ c p q r t u. ground (arith, place c, place (parent m), v.edges c, s.place);
      }

  down_loop_restores :
      (fuel lo : ℕ) (xs : List ℕ) (s : S) (i n : ℕ)
      → n < fuel + i
      → n ≤ length xs
      → IsOrderedAbove rank lo xs i n
      → Returns (Sifted lo n xs s) (down_loop fuel cb s xs i n)
  unfolding down_loop
  down_loop_restores zero lo xs s i n f fits v = absurd (omega (arith, v.inside))
  down_loop_restores (suc fuel) lo xs s i n f fits v =
      let left = pick rank cb ranks xs n i (2 * i + 1) in
      let m = pick rank cb ranks xs n left (2 * i + 2) in
      let left_in = pick-lt rank cb ranks xs n i (2 * i + 1) v.inside in
      let least = pick-IsLeast rank cb ranks xs i n v.inside in
      rw
        (
          lesser-pick rank cb ranks xs n i (2 * i + 1) v.inside fits,
          lesser-pick rank cb ranks xs n left (2 * i + 2) left_in fits,
        )
        (Returns-if (Sifted lo n xs s) (m == i) _ _
          (λ here.
            let e : m ≡ i = ground arith in
            (λ c p q r. ground (arith, v.edges c, least.least c), stay))
          (λ lower.
            let ne : m ≢ i = ground arith in
            rw (swap-exchanged xs m i (omega (arith, least.inside)) (omega (arith, v.inside)) cb s)
              (Returns-map (Sifted lo n (exchanged xs m i) _) (Sifted lo n xs s)
                (λ r (ordered, moves). (ordered, exchange m i least.inside v.inside moves)) _
                (down_loop_restores fuel lo (exchanged xs m i) _ m n (ground (arith, least.place))
                  (omega (arith, length-exchanged xs m i))
                  (exchange-Above lo xs i n m fits v least ne)))))

  -- Sifting down an element that may be too large for its place brings the order about, by
  -- exchanges only, and ends.
  pub heapify_restores :
      (lo : ℕ) (xs : List ℕ) (s : S) (i n : ℕ)
      → n ≤ length xs
      → IsOrderedAbove rank lo xs i n
      → Returns (Sifted lo n xs s) (heapify cb s xs i n)
  unfolding heapify
  heapify_restores lo xs s i n = down_loop_restores (suc n) lo xs s i n (omega arith)

  pub exchange-Below :
      (xs : List ℕ) (i n : ℕ)
      → n ≤ length xs
      → IsOrderedBelow rank xs i n
      → 0 < i
      → key rank xs i < key rank xs (parent i)
      → IsOrderedBelow rank (exchanged xs i (parent i)) (parent i) n
  exchange-Below xs i n fits v pos below =
      let place =
        at-exchanged xs i (parent i) (omega (arith, v.inside)) (omega (arith, v.inside)) in
      record {
        inside = omega (arith, v.inside);
        edges = λ c p q r.
            ground (arith, place c, place (parent c), v.edges c, v.edges (parent c), v.across c);
        across = λ c p q r t.
            ground (arith, place c, place (parent (parent i)), v.edges c, v.edges (parent i));
      }

  up_loop_restores :
      (fuel : ℕ) (xs : List ℕ) (s : S) (i n : ℕ)
      → i < fuel
      → n ≤ length xs
      → IsOrderedBelow rank xs i n
      → Returns (Sifted 0 n xs s) (up_loop fuel cb s xs i)
  unfolding up_loop
  up_loop_restores zero xs s i n f fits v = absurd (omega arith)
  up_loop_restores (suc fuel) xs s i n f fits v =
      let hi : i < length xs = omega (arith, v.inside) in
      let hp : parent i < length xs = omega (arith, v.inside) in
      rw
        (
          is_below-ltb rank cb ranks xs i (parent i) hi hp,
          swap-exchanged xs i (parent i) hi hp cb s,
        )
        (Returns-if (Sifted 0 n xs s) (i == 0) _ _
          (λ root. (λ c p q r. v.edges c p q (ground arith), stay))
          (λ inner.
            Returns-if (Sifted 0 n xs s) (ltb (key rank xs i) (key rank xs (parent i))) _ _
              (λ below.
                let pos : 0 < i = ground arith in
                Returns-map (Sifted 0 n (exchanged xs i (parent i)) _) (Sifted 0 n xs s)
                  (λ r (ordered, moves).
                    (ordered, exchange i (parent i) v.inside (omega (arith, v.inside)) moves))
                  _
                  (up_loop_restores fuel (exchanged xs i (parent i)) _ (parent i) n (omega arith)
                    (omega (arith, length-exchanged xs i (parent i)))
                    (exchange-Below xs i n fits v pos (ground arith))))
              (λ settled. (λ c p q r. ground (arith, v.edges c), stay))))

  -- Sifting up an element that may be too small for its place brings the order about.
  pub heapifyup_restores :
      (xs : List ℕ) (s : S) (i n : ℕ)
      → n ≤ length xs
      → IsOrderedBelow rank xs i n
      → Returns (Sifted 0 n xs s) (heapifyup cb s xs i)
  unfolding heapifyup
  heapifyup_restores xs s i n = up_loop_restores (suc i) xs s i n (omega arith)
