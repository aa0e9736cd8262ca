-- ===== src/PtrHeap.antt =====
-- datastruct/ptrheap.c: a binary heap of pointers that tells its client where each pointer is.
-- A pointer is its address. The list of pointers stands for the elastic array PTRLIST, whose
-- records take eight bytes, so that indices stay below 2 ^ 61 and `2 * i + 2` does not wrap.
-- The client's memory is threaded through; `setreccookie` is the only call that changes it.
pub mod Slots
pub mod Order
pub mod Sift
pub mod Moves
pub mod Methods
pub mod Delete
pub mod Adjust
pub mod Cookies
pub mod Create
use Prim.Native.Nat.{Ordering, lt, eq, gt}
use libcperciva.Prelude.{
  ℕ, zero, suc, ◌+◌, ◌-◌, ◌*◌, ◌/◌, Bool, true, false, Option, none, some, List, [], ◌∷◌, ◌++◌,
  Outcome, done, fail, abort, ◌>>=◌, size_t, size_max, length, get_elem?, set, take, ltb, ◌==◌,
  if◌then◌else◌,
}

pub record Callbacks (S : Type 0) : Type 0 where
  -- the sign of `compar(cookie, x, y)`
  pub compar : ℕ → ℕ → Ordering
  -- none for NULL
  pub setreccookie : Option (S → ℕ → ℕ → S)

abbrev pub is_gt : Ordering → Bool
is_gt gt = true
is_gt eq = false
is_gt lt = false

abbrev pub is_lt : Ordering → Bool
is_lt lt = true
is_lt eq = false
is_lt gt = false

abbrev pub or_abort {ℓ} : {A : Type ℓ} → Option A → Outcome A
or_abort none = abort
or_abort (some a) = done a

-- `*ptrlist_get(elems, i)`, read and written.
unfoldable pub load : List ℕ → ℕ → Outcome ℕ
load elems i = or_abort (get_elem? elems i)

unfoldable pub store : List ℕ → ℕ → ℕ → Outcome (List ℕ)
store elems i ptr = if ltb i (length elems) then done (set elems i ptr) else abort

abbrev pub parent : ℕ → ℕ
parent i = (i - 1) / 2

module _ {S : Type 0} where
  -- `if (setreccookie != NULL) setreccookie(cookie, ptr, rc);`
  unfoldable pub notify : Callbacks S → S → ℕ → ℕ → S
  notify cb s ptr rc = elim cb.setreccookie [ none ↦ s | some call ↦ call s ptr rc ]

  unfoldable pub swap : Callbacks S → S → List ℕ → ℕ → ℕ → Outcome (List ℕ × S)
  swap cb s elems i j = do
    tmp ← load elems i
    other ← load elems j
    half ← store elems i other
    whole ← store half j tmp
    at_i ← load whole i
    at_j ← load whole j
    done (whole, notify cb (notify cb s at_i i) at_j j)

  -- Is element `x` less, or more, than element `y`?
  unfoldable pub is_below : Callbacks S → List ℕ → ℕ → ℕ → Outcome Bool
  is_below cb elems x y = do a ← load elems x; b ← load elems y; done (is_lt (cb.compar a b))

  unfoldable pub is_above : Callbacks S → List ℕ → ℕ → ℕ → Outcome Bool
  is_above cb elems x y = do a ← load elems x; b ← load elems y; done (is_gt (cb.compar a b))

  -- The loop of `heapifyup`, on fuel.
  unfoldable pub up_loop : ℕ → Callbacks S → S → List ℕ → ℕ → Outcome (List ℕ × S)
  up_loop zero cb s elems i = abort
  up_loop (suc fuel) cb s elems i =
      let rise =
        swap cb s elems i (parent i) >>= λ (elems', s'). up_loop fuel cb s' elems' (parent i) in
      let step =
        is_below cb elems i (parent i) >>= λ below. if below then rise else done (elems, s) in
      if i == 0 then done (elems, s) else step

  -- Each round at least halves `i`.
  unfoldable pub heapifyup : Callbacks S → S → List ℕ → ℕ → Outcome (List ℕ × S)
  heapifyup cb s elems i = up_loop (suc i) cb s elems i

  -- `min` or `child`, whichever holds the lesser element, if there is such a child.
  unfoldable pub lesser : Callbacks S → List ℕ → ℕ → ℕ → ℕ → Outcome ℕ
  lesser cb elems n least child =
      if ltb child n
      then (is_above cb elems least child >>= λ above. done (if above then child else least))
      else done least

  -- The loop of `heapify`, on fuel.
  unfoldable pub down_loop : ℕ → Callbacks S → S → List ℕ → ℕ → ℕ → Outcome (List ℕ × S)
  down_loop zero cb s elems i n = abort
  down_loop (suc fuel) cb s elems i n = do
    left ← lesser cb elems n i (2 * i + 1)
    least ← lesser cb elems n left (2 * i + 2)
    let sink = swap cb s elems least i >>= λ (elems', s'). down_loop fuel cb s' elems' least n
    if least == i then done (elems, s) else sink

  -- Each round moves down from `i`, and stays below `n`.
  unfoldable pub heapify : Callbacks S → S → List ℕ → ℕ → ℕ → Outcome (List ℕ × S)
  heapify cb s elems i n = down_loop (suc n) cb s elems i n

pub record PtrHeap : Type 0 where
  pub elems : List ℕ
  pub nelems : ℕ

module _ {S : Type 0} where
  -- `for (i = N - 1; i < N; i--) heapify(…, NULL, …)`: from position `i - 1` down to 0.
  unfoldable pub order_all : Callbacks S → S → List ℕ → ℕ → ℕ → Outcome (List ℕ)
  order_all cb s elems zero n = done elems
  order_all cb s elems (suc i) n = do
    (elems', s') ← heapify (record cb { setreccookie = none }) s elems i n
    order_all cb s elems' i n

  -- The record cookies of the elements from position `i` on.
  unfoldable pub notify_all : Callbacks S → S → List ℕ → ℕ → S
  notify_all cb s [] i = s
  notify_all cb s (ptr ∷ elems) i = notify_all cb (notify cb s ptr i) elems (suc i)

  -- `ptrheap_create`, with the `N` pointers of `ptrs`; the flags are about the structure and the
  -- array.
  unfoldable pub create : Callbacks S → S → Bool → Bool → List ℕ → Outcome (PtrHeap × S)
  create cb s granted_struct granted ptrs =
      if granted_struct
      then (if granted
          then (do
            elems ← order_all cb s ptrs (length ptrs) (length ptrs)
            done (record { elems = elems; nelems = length ptrs }, notify_all cb s elems 0))
          else fail)
      else fail

  unfoldable pub init : Callbacks S → S → Bool → Bool → Outcome (PtrHeap × S)
  init cb s granted_struct granted = create cb s granted_struct granted []

  unfoldable pub add : Callbacks S → S → Bool → PtrHeap → ℕ → Outcome (PtrHeap × S)
  add cb s granted h ptr =
      if granted
      then (do
        let elems = h.elems ++ ptr ∷ []
        let nelems = h.nelems + 1
        let s' = notify cb s ptr (nelems - 1)
        (elems', s'') ← heapifyup cb s' elems (nelems - 1)
        done (record { elems = elems'; nelems = nelems }, s''))
      else fail

  -- What `ptrheap_delete` does with an element that is not the last one.
  unfoldable pub replace : Callbacks S → S → List ℕ → ℕ → ℕ → Outcome (List ℕ × S)
  replace cb s elems rc last = do
    ptr ← load elems last
    elems' ← store elems rc ptr
    let s' = notify cb s ptr rc
    let rise : Outcome (List ℕ × S) = do
      (elems'', s'') ← swap cb s' elems' rc (parent rc)
      heapifyup cb s'' elems'' (parent rc)
    let sink = heapify cb s' elems' rc last
    let either = is_below cb elems' rc (parent rc) >>= λ below. if below then rise else sink
    if ltb 0 rc then either else sink

  unfoldable pub delete : Callbacks S → S → PtrHeap → ℕ → Outcome (PtrHeap × S)
  delete cb s h rc = do
    let last = size_t (h.nelems + size_max)
    (elems, s') ← if rc == last then done (h.elems, s) else replace cb s h.elems rc last
    done (record { elems = take (length elems - 1) elems; nelems = last }, s')

  unfoldable pub deletemin : Callbacks S → S → PtrHeap → Outcome (PtrHeap × S)
  deletemin cb s h = delete cb s h 0

  unfoldable pub decrease : Callbacks S → S → PtrHeap → ℕ → Outcome (PtrHeap × S)
  decrease cb s h rc = do
    (elems, s') ← heapifyup cb s h.elems rc
    done (record h { elems = elems }, s')

  unfoldable pub increase : Callbacks S → S → PtrHeap → ℕ → Outcome (PtrHeap × S)
  increase cb s h rc = do
    (elems, s') ← heapify cb s h.elems rc h.nelems
    done (record h { elems = elems }, s')

  unfoldable pub increasemin : Callbacks S → S → PtrHeap → Outcome (PtrHeap × S)
  increasemin cb s h = do
    (elems, s') ← heapify cb s h.elems 0 h.nelems
    done (record h { elems = elems }, s')

-- `none` for NULL.
unfoldable pub getmin : PtrHeap → Outcome (Option ℕ)
getmin h = if h.nelems == 0 then done none else (load h.elems 0 >>= λ ptr. done (some ptr))
