-- ===== src/SeqPtrMap/Insert.antt =====
-- datastruct/seqptrmap.c: adding a pointer gives it the next integer.
use native.Mathlib.Nat.{mod-eq_of_lt}
use libcperciva.Prelude.{
  ℕ, zero, suc, ◌+◌, ◌-◌, ◌^◌, ◌<◌, ◌≡◌, refl, ap, sym, ◌∙◌, true, false, List, [], ◌∷◌, ◌++◌, done,
  arith, Cell, Bool-cases, inl, inr, Returns, Returns-bind, get_or, length, length-append, ltb,
  ◌==◌, if◌then◌else◌, leb_of_le,
}
use libcperciva.ElasticQueue
use libcperciva.ElasticQueue.{ElasticQueue}
use libcperciva.SeqPtrMap.{ℤ, null, int64_max, SeqPtrMap, add, get}
use libcperciva.SeqPtrMap.Records.{Records, add-Returns-Records}
use libcperciva.SeqPtrMap.Lookup.{Maps, found, get-found}

get_or-append :
    (recs : List (List Cell)) (r : List Cell) (j : ℕ) (d : List Cell)
    → get_or (recs ++ r ∷ []) j d ≡ (if j == length recs then r else get_or recs j d)
get_or-append [] r zero d = refl
get_or-append [] r (suc j) d = let apart : (suc j == 0) ≡ false = ground arith in rw apart
get_or-append (x ∷ recs) r zero d =
    let apart : (0 == suc (length recs)) ≡ false = ground arith in rw apart
get_or-append (x ∷ recs) r (suc j) d =
    get_or-append recs r j d ∙ ap (λ b. if b then r else get_or recs j d) (ground arith)

found-append :
    (offset : ℕ) (recs : List (List Cell)) (r : List Cell) (j : ℕ)
    → found offset (recs ++ r ∷ []) j
      ≡ (if j == offset + length recs then r else found offset recs j)
found-append offset recs r j = elim (Bool-cases (ltb j offset)) [
  | inl below ↦ let other : (j == offset + length recs) ≡ false = ground arith in rw (below, other)
  | inr above ↦
      let same : (j - offset == length recs) ≡ (j == offset + length recs) = ground arith in
      rw above (
        get_or-append recs r (j - offset) null
        ∙ ap (λ b. if b then r else get_or recs (j - offset) null) same)
]

-- The map has one more pointer, under the integer that is handed out, and the others as before.
pub record With (ptr : List Cell) (m : SeqPtrMap) (r : SeqPtrMap × ℤ) : Type 0 where
  pub maps : (recs : List (List Cell)) × Maps recs r.0
  pub number : r.1 ≡ ℤ.pos (m.offset + m.len)
  pub lookup :
      (j : ℕ) → get r.0 (ℤ.pos j) ≡ (if j == m.offset + m.len then done ptr else get m (ℤ.pos j))

-- Adding a pointer of eight bytes to a map that stands for some pointers, with the memory granted,
-- room for it in the address space, and the next integer below INT64_MAX, succeeds. The pointer
-- gets the integer behind the last one and is found there, and every other integer that is not
-- negative has the pointer that it had.
pub add-With :
    (recs : List (List Cell)) (m : SeqPtrMap) (ptr : List Cell)
    → Maps recs m
    → length ptr ≡ 8
    → m.ptrs.ea.size + 8 < 2 ^ 64
    → m.offset + m.len < int64_max
    → Returns (With ptr m) (add true m ptr)
unfolding add
add-With recs m ptr v eight room numbers =
    let fits : m.len + 1 < 2 ^ 64 = omega arith in
    Returns-bind (Records (recs ++ ptr ∷ [])) (With ptr m) (ElasticQueue.add true m.ptrs ptr) _
      (add-Returns-Records recs m.ptrs v.records ptr eight room)
      (λ ptrs k.
        let m' : SeqPtrMap = record { ptrs = ptrs; offset = m.offset; len = m.len + 1 } in
        let w : Maps (recs ++ ptr ∷ []) m' = record {
          records = k;
          sized = omega (arith, v.sized, length-append recs (ptr ∷ []));
        } in
        rw
          (
            mod-eq_of_lt fits,
            leb_of_le (m.len + 1) int64_max (omega arith),
            leb_of_le m.offset (int64_max - (m.len + 1)) (omega arith),
          )
          (record {
            maps = (recs ++ ptr ∷ [], w);
            number = ap ℤ.pos (omega arith);
            lookup = λ j.
                get-found (recs ++ ptr ∷ []) m' j w
                ∙ ap done (found-append m.offset recs ptr j)
                ∙ ap (λ n. done (if j == m.offset + n then ptr else found m.offset recs j))
                    (sym v.sized)
                ∙ elim (Bool-cases (j == m.offset + m.len)) [
                  | inl e ↦ rw e
                  | inr e ↦ rw e (sym (get-found recs m j v))
                ];
          }))
