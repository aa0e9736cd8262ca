-- ===== src/Tests/Pools.antt =====
-- datastruct/mpool.h on a short run.
use libcperciva.Prelude.{refl, arith, [], ◌∷◌, true, some}
use libcperciva.MemPool.{MPool, initial, mpool_malloc, mpool_free, push}
use libcperciva.MemPool.Owners.{Run, start, reused, allocated, kept, Shared, Run-Shared}

abbrev in_use : MPool
in_use = record {
  stacklen = 0;
  allocsize = 1;
  allocs = 0 ∷ [];
  nallocs = 1;
  nempties = 1;
  state = true;
}

abbrev holding : MPool
holding = record in_use { stacklen = 1; allocs = 100 ∷ [] }

abbrev again : MPool
again = record holding { stacklen = 0; nallocs = 2 }

-- An object is allocated, given back and used again.
short_life : Run (100 ∷ []) (100 ∷ []) again
unfolding initial mpool_malloc mpool_free push
short_life =
    reused (100 ∷ []) [] holding again true (some 7) 100
      (kept (100 ∷ []) (100 ∷ []) in_use holding true 100
        (allocated [] [] (initial 1) in_use true 100 (start 1 (omega arith)) refl refl refl)
        (omega arith) refl)
      (omega arith) refl

Run-Shared_example : Shared (100 ∷ []) (100 ∷ []) again
Run-Shared_example = Run-Shared (100 ∷ []) (100 ∷ []) again short_life
