-- ===== src/Tests/Queues.antt =====
-- datastruct/elasticqueue.c at concrete queues.
use libcperciva.Prelude.{
  ◌≤◌, ◌+◌, ◌-◌, ◌*◌, ◌<◌, ◌≡◌, refl, [], ◌∷◌, ◌++◌, some, true, false, arith, done, memcpy, Keeps,
  Returns, drop, ◌>>=◌,
}
use libcperciva.ElasticArray
use libcperciva.ElasticQueue.{ElasticQueue, add, delete, move_records, settle}
use libcperciva.ElasticQueue.Fifo.{IsValid, queued, Queues, add-Keeps, add-Returns}
use libcperciva.ElasticQueue.Delete.{IsTight, delete_front, delete-IsTight, tight_bound}

-- Two records of two bytes, behind one that was deleted.
abbrev pair : ElasticQueue
pair = record {
  ea = record {
    size = 6;
    alloc = 6;
    buf = some 1 ∷ some 2 ∷ some 3 ∷ some 4 ∷ some 5 ∷ some 6 ∷ [];
  };
  offset = 1;
  len = 2;
  reclen = 2;
}

pair-IsValid : IsValid pair
pair-IsValid = omega arith

moves_to_front : (delete true pair >>= λ eq. done (queued eq)) ≡ done (some 5 ∷ some 6 ∷ [])
unfolding delete settle move_records ElasticArray.shrink ElasticArray.resize ElasticArray.kept
    ElasticArray.wanted memcpy
moves_to_front = refl

add-Returns_example :
    Returns
      (Queues 2 (2 + 1) (queued pair ++ some 7 ∷ some 8 ∷ []))
      (add true pair (some 7 ∷ some 8 ∷ []))
add-Returns_example = add-Returns pair pair-IsValid (some 7 ∷ some 8 ∷ []) refl (omega arith)

add-Keeps_example :
    Keeps
      (Queues 2 (2 + 1) (queued pair ++ some 7 ∷ some 8 ∷ []))
      (add false pair (some 7 ∷ some 8 ∷ []))
add-Keeps_example = add-Keeps pair pair-IsValid (some 7 ∷ some 8 ∷ []) refl false

delete_front_example : Returns (Queues 2 (2 - 1) (drop 2 (queued pair))) (delete false pair)
delete_front_example = delete_front pair pair-IsValid (omega arith) false

delete-IsTight_example :
    Returns
      (λ eq'.
        IsTight eq'
        × (eq'.len ≡ 1)
        × (eq'.offset ≤ eq'.len)
        × (eq'.ea.alloc < 8 * (eq'.len * 2) + 4))
      (delete true pair)
delete-IsTight_example = delete-IsTight pair pair-IsValid (omega arith) (omega arith)

tight_bound_example : 6 < 8 * (2 * 2) + 4
tight_bound_example = tight_bound pair pair-IsValid (omega arith)
