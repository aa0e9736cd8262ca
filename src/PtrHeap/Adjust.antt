-- ===== src/PtrHeap/Adjust.antt =====
-- datastruct/ptrheap.c: the least pointer, and pointers whose rank has changed.
use libcperciva.Prelude.{
  ℕ, zero, suc, ◌≤◌, ◌<◌, ◌≡◌, ◌≢◌, refl, some, done, arith, Returns, Returns-bind,
}
use libcperciva.PtrHeap.{
  Callbacks, PtrHeap, parent, heapify, heapifyup, decrease, increase, increasemin, getmin,
}
use libcperciva.PtrHeap.Slots.{at, load-at}
use libcperciva.PtrHeap.Order.{Ranks, key, IsOrderedAbove, IsOrderedBelow}
use libcperciva.PtrHeap.Sift.{heapify_restores, heapifyup_restores}
use libcperciva.PtrHeap.Methods.{IsValid, Settled, settled}

module _ (rank : ℕ → ℕ) where
  root_below :
      (k : ℕ) (h : PtrHeap) (i : ℕ)
      → IsValid rank h
      → i < k
      → i < h.nelems
      → key rank h.elems 0 ≤ key rank h.elems i
  root_below zero h i v f p = absurd (omega arith)
  root_below (suc k) h i v f p = ground (arith, v.ordered i, root_below k h (parent i))

  -- The first pointer of a heap has the least rank.
  pub root_least :
      (h : PtrHeap) (i : ℕ)
      → IsValid rank h
      → i < h.nelems
      → key rank h.elems 0 ≤ key rank h.elems i
  root_least h i v p = root_below (suc i) h i v (omega arith) p

  -- A valid heap that is not empty gives its first pointer, whose rank is the least in the heap.
  pub getmin_least :
      (h : PtrHeap)
      → IsValid rank h
      → 0 < h.nelems
      → (getmin h ≡ done (some (at h.elems 0)))
        × ((i : ℕ) → i < h.nelems → rank (at h.elems 0) ≤ key rank h.elems i)
  unfolding getmin
  getmin_least h v pos = (ground (arith, load-at h.elems 0, v.sized), λ i p. root_least h i v p)

-- Outside position `rc`, the pointers have the ranks that they had.
abbrev pub AgreeBut : (ℕ → ℕ) → (ℕ → ℕ) → PtrHeap → ℕ → Type 0
AgreeBut before after h rc =
    (c : ℕ) → c < h.nelems → c ≢ rc → key after h.elems c ≡ key before h.elems c

module _ (before after : ℕ → ℕ) {S : Type 0} (cb : Callbacks S) (ranks : Ranks cb after)
    (h : PtrHeap) (s : S) (rc : ℕ) (v : IsValid before h) (inside : rc < h.nelems)
    (others : AgreeBut before after h rc) where
  -- If a heap was valid for the old ranks, and the pointer at position `rc` of it has a rank that
  -- is not lower while all others have their old ones, `ptrheap_increase` succeeds and leaves a
  -- heap valid for the new ranks. It comes by exchanges, each reported at both ends, from the old
  -- one.
  pub increase_restores :
      key before h.elems rc ≤ key after h.elems rc
      → Returns (Settled after cb ranks h.nelems h.elems s) (increase cb s h rc)
  unfolding increase
  increase_restores higher =
      Returns-bind _ _ (heapify cb s h.elems rc h.nelems) _
        (heapify_restores after cb ranks 0 h.elems s rc h.nelems (omega (arith, v.sized)) start)
        (settled after cb ranks h.nelems h.elems s v.sized v.small)
    where
      start : IsOrderedAbove after 0 h.elems rc h.nelems
      start = record {
        inside = inside;
        edges = λ c p q r ne. ground (arith, v.ordered c, others c, others (parent c));
        across =
            λ c p q e u r. ground (arith, v.ordered c, v.ordered rc, others c, others (parent rc));
      }

  -- If a heap was valid for the old ranks, and the pointer at position `rc` of it has a rank that
  -- is not higher while all others have their old ones, `ptrheap_decrease` succeeds and leaves a
  -- heap valid for the new ranks. It comes by exchanges, each reported at both ends, from the old
  -- one.
  pub decrease_restores :
      key after h.elems rc ≤ key before h.elems rc
      → Returns (Settled after cb ranks h.nelems h.elems s) (decrease cb s h rc)
  unfolding decrease
  decrease_restores lower =
      Returns-bind _ _ (heapifyup cb s h.elems rc) _
        (heapifyup_restores after cb ranks h.elems s rc h.nelems (omega (arith, v.sized)) start)
        (settled after cb ranks h.nelems h.elems s v.sized v.small)
    where
      start : IsOrderedBelow after h.elems rc h.nelems
      start = record {
        inside = inside;
        edges = λ c p q ne. ground (arith, v.ordered c, others c, others (parent c));
        across =
            λ c p q e u. ground (arith, v.ordered c, v.ordered rc, others c, others (parent rc));
      }

-- What `ptrheap_increasemin` does is `ptrheap_increase` at the first position.
pub increasemin-increase :
    {S : Type 0} (cb : Callbacks S) (s : S) (h : PtrHeap) → increasemin cb s h ≡ increase cb s h 0
unfolding increasemin increase
increasemin-increase cb s h = refl
