-- ===== src/SeqPtrMap.antt =====
-- datastruct/seqptrmap.c: a map from consecutive integers to pointers, over an elastic queue.
-- A pointer in memory is its eight cells; NULL is eight zero bytes.
pub mod Windows
pub mod Records
pub mod Lookup
pub mod Insert
pub mod Delete
use libcperciva.Prelude.{
  ℕ, zero, suc, ◌+◌, ◌-◌, Bool, true, false, not, ◌&&◌, ◌||◌, Option, none, some, List, [], ◌∷◌,
  Outcome, done, fail, abort, ◌>>=◌, assert, Cell, size_t, memcpy, replicate, ltb, leb, ◌==◌,
  if◌then◌else◌,
}
use libcperciva.ElasticArray
use libcperciva.ElasticQueue
use libcperciva.ElasticQueue.{ElasticQueue}

-- `int64_t`.
pub data ℤ : Type 0 where
  pos : ℕ → ℤ
  negsuc : ℕ → ℤ

abbrev pub null : List Cell
null = replicate 8 (some 0)

unfoldable pub is_null : List Cell → Bool
is_null [] = true
is_null (none ∷ ptr) = false
is_null (some b ∷ ptr) = (b == 0) && is_null ptr

abbrev pub int64_max : ℕ
int64_max = 9223372036854775807

-- The offset starts at 0 and never falls.
pub record SeqPtrMap : Type 0 where
  pub ptrs : ElasticQueue
  pub offset : ℕ
  pub len : ℕ

-- `seqptrmap_init`; the flags are about the structures of the map, the queue and the array.
unfoldable pub init : Bool → Bool → Bool → Outcome SeqPtrMap
init granted granted_queue granted_array =
    if granted
    then (do
      ptrs ← ElasticQueue.init granted_queue granted_array 8
      done (record { ptrs = ptrs; offset = 0; len = 0 }))
    else fail

unfoldable pub add : Bool → SeqPtrMap → List Cell → Outcome (SeqPtrMap × ℤ)
add granted m ptr = do
  ptrs ← ElasticQueue.add granted m.ptrs ptr
  let len = size_t (m.len + 1)
  assert (leb len int64_max) (
      assert (leb m.offset (int64_max - len))
        (done (record { ptrs = ptrs; offset = m.offset; len = len }, ℤ.pos (m.offset + len - 1))))

-- The position in the queue for an integer, if it is within the bounds.
unfoldable pub position : SeqPtrMap → ℤ → Option ℕ
position m (ℤ.negsuc i) = none
position m (ℤ.pos i) =
    if ltb i m.offset then none else if leb m.len (i - m.offset) then none else some (i - m.offset)

-- What `*(void **)elasticqueue_get(ptrs, index)` reads.
unfoldable pub load : ElasticQueue → ℕ → Outcome (List Cell)
load ptrs index = elim (ElasticQueue.get ptrs index) [
  | none ↦ abort
  | some place ↦ done (ElasticArray.load ptrs.ea place 8)
]

unfoldable pub get : SeqPtrMap → ℤ → Outcome (List Cell)
get m i = elim (position m i) [ none ↦ done null | some index ↦ load m.ptrs index ]

unfoldable pub getmin : SeqPtrMap → ℤ
getmin m = if ElasticQueue.getlen m.ptrs == 0 then ℤ.negsuc 0 else ℤ.pos m.offset

-- `*(void **)elasticqueue_get(ptrs, index) = ptr`.
unfoldable pub store : ElasticQueue → ℕ → List Cell → Outcome ElasticQueue
store ptrs index ptr = elim (ElasticQueue.get ptrs index) [
  | none ↦ abort
  | some place ↦ done (record ptrs { ea = record ptrs.ea { buf = memcpy ptrs.ea.buf place ptr 8 } })
]

-- The loop of `seqptrmap_delete`, on fuel; `granted` answers for each round's allocation.
unfoldable pub purge : ℕ → (ℕ → Bool) → SeqPtrMap → Outcome SeqPtrMap
purge zero granted m = abort
purge (suc fuel) granted m =
    let round : Outcome SeqPtrMap = do
      ptrs ← ElasticQueue.delete (granted fuel) m.ptrs
      purge fuel granted (record { ptrs = ptrs; offset = m.offset + 1; len = m.len - 1 })
    in if ltb 0 (ElasticQueue.getlen m.ptrs)
      then (load m.ptrs 0 >>= λ front. if is_null front then round else done m)
      else done m

unfoldable pub delete : (ℕ → Bool) → SeqPtrMap → ℤ → Outcome SeqPtrMap
delete granted m i = elim (position m i) [
  | none ↦ done m
  | some index ↦ do
    ptrs ← store m.ptrs index null
    purge (suc m.len) granted (record m { ptrs = ptrs })
]
