-- ===== src/PtrHeap/Create.antt =====
-- datastruct/ptrheap.c: `ptrheap_create` makes a heap of any pointers.
use mathlib.Core.List.{Perm}
use mathlib.Core.List.Perm
use libcperciva.Prelude.{
  ℕ, zero, suc, ◌+◌, ◌^◌, ◌≤◌, ◌<◌, ◌≡◌, ◌≢◌, refl, ◌∙◌, List, [], ◌∷◌, none, true, arith, length,
  Returns, Returns-bind, Returns-map,
}
use libcperciva.PtrHeap.{Callbacks, PtrHeap, notify, heapify, order_all, notify_all, create}
use libcperciva.PtrHeap.Slots.{at, length-perm}
use libcperciva.PtrHeap.Order.{Ranks, IsOrderedFrom, IsOrderedAbove}
use libcperciva.PtrHeap.Sift.{heapify_restores}
use libcperciva.PtrHeap.Moves.{Remembers, cookie-notify, IsDistinct, Swaps-perm, Swaps-IsDistinct}
use libcperciva.PtrHeap.Methods.{IsValid}
use libcperciva.PtrHeap.Cookies.{IsKnown}

module _ (rank : ℕ → ℕ) {S : Type 0} (cb : Callbacks S) (ranks : Ranks cb rank) where
  abbrev silent : Callbacks S
  silent = record cb { setreccookie = none }

  -- The elements are those of `xs`, in heap order from `lo` on, and differ if those do.
  abbrev Arranged : ℕ → List ℕ → List ℕ → Type 0
  Arranged n xs ys = IsOrderedFrom rank 0 ys n × Perm ys xs × (IsDistinct n xs → IsDistinct n ys)

  round :
      (i n : ℕ) (xs : List ℕ)
      → suc i ≤ n
      → IsOrderedFrom rank (suc i) xs n
      → IsOrderedAbove rank i xs i n
  round i n xs h ordered = record {
    inside = h;
    edges = λ c p q r ne. ordered c p q (omega arith);
    across = λ c p q e pos r. absurd (omega arith);
  }

  order_all_arranges :
      (s : S) (i n : ℕ) (xs : List ℕ)
      → i ≤ n
      → length xs ≡ n
      → IsOrderedFrom rank i xs n
      → Returns (Arranged n xs) (order_all cb s xs i n)
  unfolding order_all
  order_all_arranges s zero n xs h size ordered = (ordered, Perm.refl xs, λ d. d)
  order_all_arranges s (suc i) n xs h size ordered =
      Returns-bind _ _ (heapify silent s xs i n) _
        (heapify_restores rank silent ranks i xs s i n (omega (arith, size))
          (round i n xs h ordered))
        (λ (ys, t) (ordered', moves).
          let perm = Swaps-perm moves (omega (arith, size)) in
          Returns-map (Arranged n ys) (Arranged n xs)
            (λ zs (done_ordered, same, apart). (
              done_ordered,
              Perm.trans same perm,
              λ d. apart (Swaps-IsDistinct moves (omega (arith, size)) d),
            ))
            _ (order_all_arranges s i n ys (omega arith) (length-perm perm ∙ size) ordered'))

  -- What a new heap of the pointers `ptrs` is.
  pub record Created (ptrs : List ℕ) (s : S) (r : PtrHeap × S) : Type 0 where
    pub valid : IsValid rank r.0
    pub same : Perm r.0.elems ptrs
    pub told : r.1 ≡ notify_all cb s r.0.elems 0

  -- A new heap of the pointers `ptrs` that differ if those do.
  abbrev Apart : List ℕ → S → PtrHeap × S → Type 0
  Apart ptrs s r =
      Created ptrs s r × (IsDistinct (length ptrs) ptrs → IsDistinct r.0.nelems r.0.elems)

  pub create-Apart :
      (s : S) (ptrs : List ℕ)
      → length ptrs < 2 ^ 61
      → Returns (Apart ptrs s) (create cb s true true ptrs)
  unfolding create
  create-Apart s ptrs small =
      Returns-bind (Arranged (length ptrs) ptrs) _ (order_all cb s ptrs (length ptrs) (length ptrs))
        _
        (order_all_arranges s (length ptrs) (length ptrs) ptrs (omega arith) refl
          (λ c p q r. absurd (omega arith)))
        (λ ys (ordered, same, apart). (
          record {
            valid = record { sized = length-perm same; small = small; ordered = ordered };
            same = same;
            told = refl;
          },
          apart,
        ))

module _ {S : Type 0} (cb : Callbacks S) (cookie : S → ℕ → ℕ) (client : Remembers cb cookie) where
  notify_all_others :
      (xs : List ℕ) (s : S) (i p : ℕ)
      → ((c : ℕ) → c < length xs → at xs c ≢ p)
      → cookie (notify_all cb s xs i) p ≡ cookie s p
  unfolding notify_all
  notify_all_others [] s i p h = refl
  notify_all_others (x ∷ xs) s i p h =
      notify_all_others xs (notify cb s x i) (suc i) p (λ c q. h (suc c) (omega arith))
      ∙ ground (arith, cookie-notify cb cookie client s x i p, h 0)

  notify_all_counts :
      (xs : List ℕ) (s : S) (i : ℕ)
      → IsDistinct (length xs) xs
      → (c : ℕ) → c < length xs
      → cookie (notify_all cb s xs i) (at xs c) ≡ i + c
  unfolding notify_all
  notify_all_counts [] s i d c h = absurd (omega arith)
  notify_all_counts (x ∷ xs) s i d zero h =
      notify_all_others xs (notify cb s x i) (suc i) x (λ c q e.
        let r : suc c ≡ 0 = d (suc c) 0 (omega arith) (omega arith) e in absurd (omega arith))
      ∙ ground (arith, cookie-notify cb cookie client s x i x)
  notify_all_counts (x ∷ xs) s i d (suc c) h =
      notify_all_counts xs (notify cb s x i) (suc i)
        (λ a b p q e.
          let r : suc a ≡ suc b = d (suc a) (suc b) (omega arith) (omega arith) e in omega arith)
        c (omega arith)
      ∙ omega arith

  -- With the memory granted, a client that keeps the last cookie that it is given for a pointer has
  -- the position of each pointer after `ptrheap_create` made a heap of fewer than 2 ^ 61 different
  -- pointers, and the pointers of the heap differ.
  pub create-IsKnown :
      (rank : ℕ → ℕ) (ranks : Ranks cb rank) (s : S) (ptrs : List ℕ)
      → length ptrs < 2 ^ 61
      → IsDistinct (length ptrs) ptrs
      → Returns (IsKnown cookie) (create cb s true true ptrs)
  create-IsKnown rank ranks s ptrs small d =
      Returns-map (Apart rank cb ranks ptrs s) (IsKnown cookie)
        (λ (h, t) (w, apart). record {
          distinct = apart d;
          tracked = λ c p. rw w.told (
              notify_all_counts h.elems s 0 (rw w.valid.sized (apart d)) c (rw w.valid.sized p)
              ∙ omega arith);
        })
        _ (create-Apart rank cb ranks s ptrs small)
