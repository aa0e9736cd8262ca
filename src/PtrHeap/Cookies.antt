-- ===== src/PtrHeap/Cookies.antt =====
-- datastruct/ptrheap.c: `setreccookie` has told the client the place of every pointer.
use libcperciva.Prelude.{
  ℕ, suc, ◌+◌, ◌-◌, ◌^◌, ◌<◌, ◌≡◌, ◌≢◌, ap, sym, ◌∙◌, List, [], ◌∷◌, ◌++◌, true, arith, length,
  take, Returns, Returns-map, length-append,
}
use native.Mathlib.Decide.{ℕ_discrete}
use libcperciva.PtrHeap.{Callbacks, PtrHeap, notify, add, delete}
use libcperciva.PtrHeap.Slots.{at, at-append, at-append_end, at-take}
use libcperciva.PtrHeap.Order.{Ranks}
use libcperciva.PtrHeap.Moves.{
  Remembers, cookie-notify, IsDistinct, IsTracked, Swaps-IsDistinct, Swaps-IsTracked,
}
use libcperciva.PtrHeap.Methods.{
  IsValid, Settled, add_settles, replaced, length-replaced, at-replaced,
}
use libcperciva.PtrHeap.Delete.{delete_last, delete_inner}

-- The pointers in the heap differ, and the client has the place of each.
pub record IsKnown {S : Type 0} (cookie : S → ℕ → ℕ) (r : PtrHeap × S) : Type 0 where
  pub distinct : IsDistinct r.0.nelems r.0.elems
  pub tracked : IsTracked cookie r.0.nelems r.0.elems r.1

module _ (rank : ℕ → ℕ) {S : Type 0} (cb : Callbacks S) (ranks : Ranks cb rank) (cookie : S → ℕ → ℕ)
    (client : Remembers cb cookie) where
  -- A call that settles a heap by exchanges from a known state leaves it known.
  pub Settled-IsKnown :
      (n : ℕ) (xs : List ℕ) (s : S) (r : PtrHeap × S)
      → length xs ≡ n
      → IsDistinct n xs
      → IsTracked cookie n xs s
      → Settled rank cb ranks n xs s r
      → IsKnown cookie r
  Settled-IsKnown n xs s r size d k w = rw w.count (record {
    distinct = Swaps-IsDistinct w.moves (omega (arith, size)) d;
    tracked = Swaps-IsTracked cb cookie client n w.moves (omega (arith, size)) d k;
  })

  module _ (h : PtrHeap) (v : IsValid rank h) (s : S) (known : IsKnown cookie (h, s)) where
    -- If the pointers of a valid heap of fewer than 2 ^ 61 - 1 pointers differ, and the client has
    -- the position of each and keeps the last cookie that it is given for a pointer, then the same
    -- holds after a pointer that is new to the heap was added with the memory granted.
    pub add-IsKnown :
        (ptr : ℕ)
        → h.nelems + 1 < 2 ^ 61
        → ((c : ℕ) → c < h.nelems → at h.elems c ≢ ptr)
        → Returns (IsKnown cookie) (add cb s true h ptr)
    add-IsKnown ptr small new =
        Returns-map _ (IsKnown cookie)
          (λ r.
            Settled-IsKnown (h.nelems + 1) grown (notify cb s ptr h.nelems) r size distinct tracked)
          _ (add_settles rank cb ranks h v s ptr small)
      where
        grown : List ℕ
        grown = h.elems ++ ptr ∷ []

        size : length grown ≡ h.nelems + 1
        size = omega (arith, length-append h.elems (ptr ∷ []), v.sized)

        old : (c : ℕ) → c < h.nelems → at grown c ≡ at h.elems c
        old c p = at-append h.elems (ptr ∷ []) c (omega (arith, v.sized))

        end : at grown h.nelems ≡ ptr
        end = ap (at grown) (sym v.sized) ∙ at-append_end h.elems ptr

        distinct : IsDistinct (h.nelems + 1) grown
        distinct c d hc hd e = ground (
          arith,
          old c,
          old d,
          end,
          new c,
          new d,
          known.distinct c d,
          ap (at grown) {x = c} {y = h.nelems},
          ap (at grown) {x = d} {y = h.nelems},
        )

        tracked : IsTracked cookie (h.nelems + 1) grown (notify cb s ptr h.nelems)
        tracked c hc = ground (
          arith,
          old c,
          end,
          new c,
          known.tracked c,
          cookie-notify cb cookie client s ptr h.nelems (at grown c),
        )

    module _ (last : ℕ) (whole : h.nelems ≡ suc last) where
      stripped-IsKnown :
          (ys : List ℕ) (t : S)
          → IsDistinct last ys
          → IsTracked cookie last ys t
          → IsKnown cookie (record { elems = take last ys; nelems = last }, t)
      stripped-IsKnown ys t d k = record {
        distinct = λ a b p q e. ground (arith, at-take last ys a, at-take last ys b, d a b);
        tracked = λ c p. ground (arith, at-take last ys c, k c);
      }

      delete_last-IsKnown : Returns (IsKnown cookie) (delete cb s h last)
      delete_last-IsKnown = rw (delete_last rank cb ranks h v s last whole) (
          stripped-IsKnown h.elems s
            (λ c d p q. known.distinct c d (omega (arith, whole)) (omega (arith, whole)))
            (λ c p. known.tracked c (omega (arith, whole))))

      module _ (rc : ℕ) (inner : rc < last) where
        abbrev filled : List ℕ
        filled = replaced rank cb ranks h v s last rc whole inner

        filled-IsDistinct : IsDistinct last filled
        filled-IsDistinct c d hc hd e =
            let place = at-replaced rank cb ranks h v s last rc whole inner in
            ground (
              arith,
              place c,
              place d,
              known.distinct c d,
              known.distinct c last,
              known.distinct last d,
              whole,
            )

        filled-IsTracked : IsTracked cookie last filled (notify cb s (at h.elems last) rc)
        filled-IsTracked c hc = ground (
          arith,
          at-replaced rank cb ranks h v s last rc whole inner c,
          cookie-notify cb cookie client s (at h.elems last) rc (at filled c),
          known.distinct c last,
          known.tracked c,
          whole,
        )

        delete_inner-IsKnown : Returns (IsKnown cookie) (delete cb s h rc)
        delete_inner-IsKnown =
            let ((ys, t), sifted, runs) = delete_inner rank cb ranks h v s last whole rc inner in
            let fits = length-replaced rank cb ranks h v s last rc whole inner in
            rw runs (
              stripped-IsKnown ys t
                (Swaps-IsDistinct sifted.1 (omega (arith, fits)) filled-IsDistinct)
                (Swaps-IsTracked cb cookie client last sifted.1 (omega (arith, fits))
                  filled-IsDistinct filled-IsTracked))

    -- If the pointers of a valid heap differ, and the client has the position of each and keeps the
    -- last cookie that it is given for a pointer, then after deleting by a position in the heap the
    -- pointers still differ and the client has the position of each.
    pub delete-IsKnown : (rc : ℕ) → rc < h.nelems → Returns (IsKnown cookie) (delete cb s h rc)
    delete-IsKnown rc inside =
        let whole : h.nelems ≡ suc (h.nelems - 1) = omega arith in
        elim (ℕ_discrete rc (h.nelems - 1)) [
          | yes e ↦ rw e (delete_last-IsKnown (h.nelems - 1) whole)
          | no ne ↦ delete_inner-IsKnown (h.nelems - 1) whole rc (omega arith)
        ]
