-- ===== src/Tests/Maps.antt =====
-- datastruct/seqptrmap.c at a concrete map.
use libcperciva.Prelude.{
  ◌≡◌, refl, List, [], ◌∷◌, ◌++◌, some, true, false, arith, done, memcpy, realloc, Cell, Returns,
  replicate, ◌>>=◌,
}
use libcperciva.ElasticArray
use libcperciva.ElasticQueue
use libcperciva.ElasticQueue.{ElasticQueue}
use libcperciva.SeqPtrMap.{ℤ, is_null, SeqPtrMap, add, delete, position, load, store, purge}
use libcperciva.SeqPtrMap.Lookup.{Maps}
use libcperciva.SeqPtrMap.Delete.{Without, delete-Without}
use libcperciva.SeqPtrMap.Insert.{With, add-With}

abbrev first : List Cell
first = replicate 8 (some 1)

abbrev second : List Cell
second = replicate 8 (some 2)

-- Two pointers, under the integers 5 and 6.
abbrev two : SeqPtrMap
two = record {
  ptrs = record {
    ea = record { size = 16; alloc = 16; buf = first ++ second };
    offset = 0;
    len = 2;
    reclen = 8;
  };
  offset = 5;
  len = 2;
}

two-Maps : Maps (first ∷ second ∷ []) two
two-Maps = record {
  records = record {
    valid = omega arith;
    width = refl;
    holds = refl;
    count = refl;
    each = (refl, (refl, tt));
  };
  sized = refl;
}

deleted : (delete (λ k. true) two (ℤ.pos 5) >>= λ m. done (m.offset)) ≡ done 6
unfolding delete purge load store is_null position ElasticQueue.delete ElasticQueue.get
    ElasticQueue.settle ElasticQueue.getlen ElasticQueue.move_records ElasticArray.shrink
    ElasticArray.kept ElasticArray.resize ElasticArray.wanted memcpy realloc
deleted = refl

delete-Without_example : Returns (Without 5 two) (delete (λ k. false) two (ℤ.pos 5))
delete-Without_example = delete-Without (λ k. false) (first ∷ second ∷ []) two 5 two-Maps

add-With_example : Returns (With first two) (add true two first)
add-With_example =
    add-With (first ∷ second ∷ []) two first two-Maps refl (omega arith) (omega arith)
