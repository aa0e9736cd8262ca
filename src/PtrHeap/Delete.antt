-- ===== src/PtrHeap/Delete.antt =====
-- datastruct/ptrheap.c: `ptrheap_delete` removes one pointer, and `ptrheap_deletemin` a least one.
use mathlib.Core.List.{Perm}
use mathlib.Core.List.Perm
use native.Mathlib.Decide.{ℕ_discrete}
use libcperciva.Prelude.{
  ℕ, suc, ◌+◌, ◌-◌, ◌%◌, ◌^◌, ◌<◌, ◌≡◌, ◌∙◌, List, ◌∷◌, true, false, done, arith, length, take,
  ◌==◌, Returns, Returns-inv, length-take, size_max,
}
use libcperciva.PtrHeap.{Callbacks, PtrHeap, parent, notify, replace, delete}
use libcperciva.PtrHeap.Slots.{at, at-take, take-at, snoc-perm, set-perm, at-set}
use libcperciva.PtrHeap.Order.{Ranks, IsOrderedFrom}
use libcperciva.PtrHeap.Sift.{Swaps, Sifted}
use libcperciva.PtrHeap.Moves.{Swaps-length, Swaps-perm, Swaps-beyond}
use libcperciva.PtrHeap.Methods.{IsValid, replaced, length-replaced, replace_restores}

module _ (rank : ℕ → ℕ) {S : Type 0} (cb : Callbacks S) (ranks : Ranks cb rank) where
  -- One pointer is gone, and the heap is in order.
  pub record Deleted (h : PtrHeap) (rc : ℕ) (r : PtrHeap × S) : Type 0 where
    pub valid : IsValid rank r.0
    pub count : r.0.nelems ≡ h.nelems - 1
    pub same : Perm (at h.elems rc ∷ r.0.elems) h.elems

  module _ (h : PtrHeap) (v : IsValid rank h) (s : S) (last : ℕ) (whole : h.nelems ≡ suc last) where
    wrapped : (h.nelems + size_max) % 2 ^ 64 ≡ last
    wrapped = rw whole (let b : suc last < 2 ^ 61 = omega (arith, v.small) in omega arith)

    pub delete_last :
        delete cb s h last ≡ done (record { elems = take last h.elems; nelems = last }, s)
    unfolding delete
    delete_last =
        let e : (last == last) ≡ true = ground arith in
        let n : length h.elems - 1 ≡ last = omega (arith, v.sized) in rw (wrapped, e, n)

    stripped_ordered :
        (ys : List ℕ) → IsOrderedFrom rank 0 ys last → IsOrderedFrom rank 0 (take last ys) last
    stripped_ordered ys ordered c p q r =
        ground (arith, at-take last ys c, at-take last ys (parent c), ordered c)

    stripped :
        (ys : List ℕ)
        → length ys ≡ suc last
        → IsOrderedFrom rank 0 ys last
        → IsValid rank (record { elems = take last ys; nelems = last })
    stripped ys size ordered = record {
      sized = omega (arith, length-take last ys, size);
      small = omega (arith, v.small);
      ordered = stripped_ordered ys ordered;
    }

    last_gone : Perm (at h.elems last ∷ take last h.elems) h.elems
    last_gone =
        rw (take-at last h.elems (v.sized ∙ whole)) at
          (Perm.symm (snoc-perm (take last h.elems) (at h.elems last)))

    module _ (rc : ℕ) (inner : rc < last) where
      abbrev filled : List ℕ
      filled = replaced rank cb ranks h v s last rc whole inner

      -- The run of `ptrheap_delete` on an element that is not the last one.
      pub delete_inner :
          (r : List ℕ × S) × Sifted rank cb ranks 0 last filled (notify cb s (at h.elems last) rc) r
          × (delete cb s h rc ≡ done (record { elems = take last r.0; nelems = last }, r.1))
      unfolding delete
      delete_inner =
          let restored = replace_restores rank cb ranks h v s last rc whole inner in
          let (r, runs, sifted) = Returns-inv _ (replace cb s h.elems rc last) restored in
          let e : (rc == last) ≡ false = ground arith in
          let n : length r.0 - 1 ≡ last = omega (
            arith,
            Swaps-length sifted.1,
            length-replaced rank cb ranks h v s last rc whole inner,
          ) in
          (r, sifted, rw (wrapped, e, runs, n))

      inner_gone :
          (ys : List ℕ) (t : S)
          → Swaps cb last ys t filled (notify cb s (at h.elems last) rc)
          → Perm (at h.elems rc ∷ take last ys) h.elems
      inner_gone ys t moves =
          let fits = length-replaced rank cb ranks h v s last rc whole inner in
          let end : at ys last ≡ at h.elems last = ground (
            arith,
            Swaps-beyond moves (omega (arith, fits)) last,
            at-set h.elems rc (at h.elems last) last,
            v.sized,
            whole,
          ) in
          let parts = take-at last ys (Swaps-length moves ∙ fits) in
          let split : Perm (at h.elems last ∷ take last ys) ys =
            rw (← end) (rw parts at (Perm.symm (snoc-perm (take last ys) (at ys last)))) in
          let back =
            Perm.cons (at h.elems rc) (Perm.trans split (Swaps-perm moves (omega (arith, fits)))) in
          let traded = set-perm h.elems rc (at h.elems last) (omega (arith, v.sized, whole)) in
          Perm.cons_inv (
            Perm.trans (Perm.swap (at h.elems rc) (at h.elems last) (take last ys))
              (Perm.trans back traded))

      delete_inner-Returns : Returns (Deleted h rc) (delete cb s h rc)
      delete_inner-Returns =
          let ((ys, t), sifted, runs) = delete_inner in
          let fits = length-replaced rank cb ranks h v s last rc whole inner in
          rw runs (record {
            valid = stripped ys (Swaps-length sifted.1 ∙ fits) sifted.0;
            count = omega (arith, whole);
            same = inner_gone ys t sifted.1;
          })

    delete_last-Returns : Returns (Deleted h last) (delete cb s h last)
    delete_last-Returns = rw delete_last (record {
      valid =
          stripped h.elems (v.sized ∙ whole) (λ c p q r. v.ordered c p (omega (arith, whole)) r);
      count = omega (arith, whole);
      same = last_gone;
    })

  -- In a valid heap, ordered by a rank that `compar` agrees with, deleting by a position in the
  -- heap succeeds: it leaves a valid heap of one pointer less, and with the pointer from that
  -- position its pointers are a permutation of the old ones.
  pub delete-Returns :
      (h : PtrHeap) (s : S) (rc : ℕ)
      → IsValid rank h
      → rc < h.nelems
      → Returns (Deleted h rc) (delete cb s h rc)
  delete-Returns h s rc v inside =
      let whole : h.nelems ≡ suc (h.nelems - 1) = omega arith in
      elim (ℕ_discrete rc (h.nelems - 1)) [
        | yes e ↦ rw e (delete_last-Returns h v s (h.nelems - 1) whole)
        | no ne ↦ delete_inner-Returns h v s (h.nelems - 1) whole rc (omega arith)
      ]
