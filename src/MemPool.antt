-- ===== src/MemPool.antt =====
-- datastruct/mpool.h: the cache of freed objects. An address is a number; what `malloc` and
-- `atexit` answer are arguments, and a call says which object it gives to `free`.
pub mod Moves
pub mod Owners
use libcperciva.Prelude.{
  ℕ, suc, ◌+◌, ◌-◌, ◌*◌, ◌/◌, ◌%◌, ◌^◌, List, [], ◌∷◌, ◌++◌, Bool, true, false, not, ltb, leb, ◌==◌,
  if◌then◌else◌, Option, none, some, Outcome, done, fail, abort, assert, set, get_or, replicate,
}

-- `struct mpool`; the array `allocs` is a list of `allocsize` addresses, of which the first
-- `stacklen` are in use. `state` says whether the function for the exit was registered.
pub record MPool : Type 0 where
  pub stacklen : ℕ
  pub allocsize : ℕ
  pub allocs : List ℕ
  pub nallocs : ℕ
  pub nempties : ℕ
  pub state : Bool

-- The pool that the macro `MPOOL` defines.
unfoldable pub initial : ℕ → MPool
initial size = record {
  stacklen = 0;
  allocsize = size;
  allocs = replicate size 0;
  nallocs = 0;
  nempties = 0;
  state = false;
}

-- The object returned, none for NULL.
unfoldable pub mpool_malloc : Bool → Option ℕ → MPool → MPool × Option ℕ
mpool_malloc registered answer m =
    let counted : MPool = record m { nallocs = (m.nallocs + 1) % 2 ^ 64 } in
    let empty : MPool = record counted { nempties = (m.nempties + 1) % 2 ^ 64 } in
    if ltb 0 m.stacklen
    then (record counted { stacklen = m.stacklen - 1 }, some (get_or m.allocs (m.stacklen - 1) 0))
    else (if m.state
        then (empty, answer)
        else (if registered then (record empty { state = true }, answer) else (empty, none)))

-- `M->allocs[M->stacklen++] = p`.
unfoldable pub push : MPool → ℕ → MPool
push m p = record m { allocs = set m.allocs m.stacklen p; stacklen = m.stacklen + 1 }

-- A stack of twice the size with the same pointers, where the size does not overflow and there is
-- memory.
unfoldable pub double_stack : Bool → MPool → Option MPool
double_stack memory m =
    if leb m.allocsize ((2 ^ 64 - 1) / (2 * 8))
    then (if memory
        then some
            (record m { allocs = m.allocs ++ replicate m.allocsize 0; allocsize = m.allocsize * 2 })
        else none)
    else none

-- The pool afterwards, and the object that is given to `free`.
unfoldable pub mpool_free : Bool → MPool → Option ℕ → Outcome (MPool × Option ℕ)
mpool_free memory m none = done (m, none)
mpool_free memory m (some p) =
    let grown : Outcome (MPool × Option ℕ) =
      if ltb (m.nallocs / 2 ^ 8) m.nempties
      then assert (ltb 0 m.allocsize) (elim (double_stack memory m) [
        | none ↦ done (record m { nempties = 0; nallocs = 0 }, some p)
        | some larger ↦ done (record (push larger p) { nempties = 0; nallocs = 0 }, none)
      ])
      else done (record m { nempties = 0; nallocs = 0 }, some p) in
    if ltb m.stacklen m.allocsize then done (push m p, none) else grown
