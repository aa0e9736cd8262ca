-- ===== src/Tests/Arrays.antt =====
-- datastruct/elasticarray.c at concrete arrays.
use libcperciva.Prelude.{
  ◌-◌, ◌*◌, ◌^◌, ◌≡◌, refl, List, [], ◌∷◌, ◌++◌, some, none, true, false, arith, done, fail, abort,
  ◌>>=◌, realloc, memcpy, Cell, Returns, take,
}
use libcperciva.ElasticArray.{
  ElasticArray, init, append, wanted, kept, copy_in, shrink, resize, resize_records, fresh,
}
use libcperciva.ElasticArray.Valid.{IsValid, Resized}
use libcperciva.ElasticArray.Contents.{
  contents, Holds, append-Returns, append_overflow, shrink-Returns,
}
use libcperciva.ElasticArray.Lifetime.{init-Returns, resize_records-Returns}

abbrev bytes : List Cell
bytes = some 1 ∷ some 2 ∷ some 3 ∷ []

abbrev three : ElasticArray
three = record { size = 3; alloc = 4; buf = some 1 ∷ some 2 ∷ some 3 ∷ none ∷ [] }

three-IsValid : IsValid three
three-IsValid = omega arith

-- Appending three bytes to an empty array, and then one more, doubles the allocation.
grows :
    (append true fresh bytes 3 1 >>= λ ea. append true ea (some 4 ∷ []) 1 1)
    ≡ done
        (record { size = 4; alloc = 6; buf = some 1 ∷ some 2 ∷ some 3 ∷ some 4 ∷ none ∷ none ∷ [] })
unfolding append resize wanted copy_in realloc memcpy
grows = refl

refuses : (append true three bytes (2 ^ 64 - 1) 2 ≡ fail) × (append false fresh bytes 3 1 ≡ fail)
unfolding append resize wanted realloc
refuses = (refl, refl)

aborts : init true true 3 0 ≡ abort
unfolding init
aborts = refl

-- An array of seven bytes that shrinks to one keeps its buffer of seven.
keeps_seven :
    (init true true 7 1 >>= λ ea. shrink true ea 6 1 >>= λ ea'. done (record ea' { buf = [] }))
    ≡ done (record { size = 1; alloc = 7; buf = [] })
unfolding init resize_records shrink kept resize wanted realloc
keeps_seven = refl

append-Returns_example : Returns (Holds (contents three ++ bytes)) (append true three bytes 1 3)
append-Returns_example =
    append-Returns three three-IsValid bytes 1 3 (omega arith) refl (omega arith)

shrink-Returns_example :
    Returns
      (λ ea'.
        IsValid ea' × (contents ea' ≡ take (3 - 2 * 1) (contents three)) × (ea'.size ≡ 3 - 2 * 1))
      (shrink false three 2 1)
shrink-Returns_example = shrink-Returns three three-IsValid 2 1 (omega arith) false

init-Returns_example : Returns (Resized fresh (5 * 8)) (init true true 5 8)
init-Returns_example = init-Returns 5 8 (omega arith) (omega arith)

resize_records-Returns_example : Returns (Resized three (1 * 2)) (resize_records true three 1 2)
resize_records-Returns_example =
    resize_records-Returns three three-IsValid 1 2 (omega arith) (omega arith)

append_overflow_example : append true three [] (2 ^ 63) 2 ≡ fail
append_overflow_example =
    append_overflow three three-IsValid [] (2 ^ 63) 2 (omega arith) true (omega arith)
