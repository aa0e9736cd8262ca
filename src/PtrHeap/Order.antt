-- ===== src/PtrHeap/Order.antt =====
-- datastruct/ptrheap.c: the heap order, for comparisons that rank the pointers.
use Prim.Native.Nat.{compare}
use libcperciva.Prelude.{
  ℕ, ◌+◌, ◌*◌, ◌≤◌, ◌<◌, ◌≡◌, ◌≢◌, ◌⊎◌, List, done, arith, length, ltb, if◌then◌else◌,
}
use libcperciva.PtrHeap.{Callbacks, parent, is_below, is_above, lesser}
use libcperciva.PtrHeap.Slots.{at, load-at}

-- `compar` orders the pointers by a rank. (There are finitely many addresses, so every total
-- order with ties is given by one.)
abbrev pub Ranks : {S : Type 0} → Callbacks S → (ℕ → ℕ) → Type 0
Ranks cb rank = (x y : ℕ) → cb.compar x y ≡ compare (rank x) (rank y)

module _ (rank : ℕ → ℕ) where
  abbrev pub key : List ℕ → ℕ → ℕ
  key xs i = rank (at xs i)

  -- Among the first `n` elements, no element whose parent is at `lo` or later is less than it.
  abbrev pub IsOrderedFrom : ℕ → List ℕ → ℕ → Type 0
  IsOrderedFrom lo xs n = (c : ℕ) → 0 < c → c < n → lo ≤ parent c → key xs (parent c) ≤ key xs c

  -- The order holds but for the edges below `i`, and holds across `i`.
  pub record IsOrderedAbove (lo : ℕ) (xs : List ℕ) (i n : ℕ) : Type 0 where
    pub inside : i < n
    pub edges :
        (c : ℕ) → 0 < c → c < n → lo ≤ parent c → parent c ≢ i → key xs (parent c) ≤ key xs c
    pub across :
        (c : ℕ)
        → 0 < c
        → c < n
        → parent c ≡ i
        → 0 < i
        → lo ≤ parent i
        → key xs (parent i) ≤ key xs c

  -- The order holds but for the edge above `i`, and holds across `i`.
  pub record IsOrderedBelow (xs : List ℕ) (i n : ℕ) : Type 0 where
    pub inside : i < n
    pub edges : (c : ℕ) → 0 < c → c < n → c ≢ i → key xs (parent c) ≤ key xs c
    pub across : (c : ℕ) → 0 < c → c < n → parent c ≡ i → 0 < i → key xs (parent i) ≤ key xs c

  -- `m` is the position, among `i` and its children, that `heapify` picks.
  pub record IsLeast (xs : List ℕ) (i n m : ℕ) : Type 0 where
    pub inside : m < n
    pub place : (m ≡ i) ⊎ ((m ≡ 2 * i + 1) ⊎ (m ≡ 2 * i + 2))
    pub below : key xs m ≤ key xs i
    pub moved : m ≢ i → key xs m < key xs i
    pub least : (c : ℕ) → 0 < c → c < n → parent c ≡ i → key xs m ≤ key xs c

  module _ {S : Type 0} (cb : Callbacks S) (ranks : Ranks cb rank) (xs : List ℕ) where
    pub is_below-ltb :
        (i j : ℕ)
        → i < length xs
        → j < length xs
        → is_below cb xs i j ≡ done (ltb (key xs i) (key xs j))
    unfolding is_below
    is_below-ltb i j hi hj =
        rw (load-at xs i hi, load-at xs j hj, ranks (at xs i) (at xs j)) (ground arith)

    is_above-ltb :
        (i j : ℕ)
        → i < length xs
        → j < length xs
        → is_above cb xs i j ≡ done (ltb (key xs j) (key xs i))
    unfolding is_above
    is_above-ltb i j hi hj =
        rw (load-at xs i hi, load-at xs j hj, ranks (at xs i) (at xs j)) (ground arith)

    -- The choice that `lesser` makes.
    abbrev pub pick : ℕ → ℕ → ℕ → ℕ
    pick n m c = if ltb c n then (if ltb (key xs c) (key xs m) then c else m) else m

    pub lesser-pick : (n m c : ℕ) → m < n → n ≤ length xs → lesser cb xs n m c ≡ done (pick n m c)
    unfolding lesser
    lesser-pick n m c hm hn = ground (arith, is_above-ltb m c)

    record IsPick (n m c p : ℕ) : Type 0 where
      place : (p ≡ m) ⊎ (p ≡ c)
      inside : p < n
      kept : key xs p ≤ key xs m
      won : c < n → key xs p ≤ key xs c
      lower : p ≢ m → key xs p < key xs m

    pick-IsPick : (n m c : ℕ) → m < n → IsPick n m c (pick n m c)
    pick-IsPick n m c h = record {
      place = ground arith;
      inside = ground arith;
      kept = ground arith;
      won = ground arith;
      lower = ground arith;
    }

    pub pick-lt : (n m c : ℕ) → m < n → pick n m c < n
    pick-lt n m c h = ground arith

    picks-IsLeast :
        (i n p q : ℕ) → IsPick n i (2 * i + 1) p → IsPick n p (2 * i + 2) q → IsLeast xs i n q
    picks-IsLeast i n p q first second = record {
      inside = second.inside;
      place = ground (arith, first.place, second.place);
      below = omega (arith, first.kept, second.kept);
      moved = λ ne. ground (arith, first.lower, second.lower, first.kept, second.kept);
      least = λ c pos inside child. ground (arith, first.won, second.won, second.kept);
    }

    pub pick-IsLeast :
        (i n : ℕ) → i < n → IsLeast xs i n (pick n (pick n i (2 * i + 1)) (2 * i + 2))
    pick-IsLeast i n h =
        let first = pick-IsPick n i (2 * i + 1) h in
        picks-IsLeast i n _ _ first (pick-IsPick n _ (2 * i + 2) first.inside)
