-- ===== src/SeqPtrMap/Delete.antt =====
-- datastruct/seqptrmap.c: deleting an integer leaves the other pointers at theirs.
use libcperciva.Prelude.{
  ℕ, zero, suc, ◌+◌, ◌-◌, ◌≤◌, ◌<◌, ◌≡◌, refl, ap, ap₂, sym, ◌∙◌, Bool, true, false, List, [], ◌∷◌,
  none, some, done, arith, Cell, Bool-cases, Option-cases, inl, inr, Returns, Returns-bind,
  Returns-map, get_or, set, replicate, length, length-set, ltb, ◌==◌, if◌then◌else◌,
  ltb-false_of_le, lt→ltb, ltb→lt,
}
use libcperciva.ElasticQueue
use libcperciva.ElasticQueue.{ElasticQueue}
use libcperciva.SeqPtrMap.{ℤ, null, is_null, SeqPtrMap, position, get, store, purge, delete}
use libcperciva.SeqPtrMap.Windows.{AreEight}
use libcperciva.SeqPtrMap.Records.{
  Records, load-Records, delete-Returns-Records, store-Returns-Records,
}
use libcperciva.SeqPtrMap.Lookup.{Maps, found, get-found}

-- The same, from a given offset on.
abbrev MapsFrom : ℕ → List (List Cell) → SeqPtrMap → Type 0
MapsFrom offset recs m = Maps recs m × (m.offset ≡ offset)

-- The pointers from the first that is not NULL on.
abbrev pub live : List (List Cell) → List (List Cell)
live [] = []
live (r ∷ recs) = if is_null r then live recs else r ∷ recs

-- Eight cells that the test takes for NULL are NULL.
is_null_eq : (n : ℕ) (r : List Cell) → length r ≡ n → is_null r ≡ true → r ≡ replicate n (some 0)
unfolding is_null
is_null_eq zero [] h e = refl
is_null_eq zero (c ∷ r) h e = absurd (omega arith)
is_null_eq (suc n) [] h e = absurd (omega arith)
is_null_eq (suc n) (none ∷ r) h e = cc
is_null_eq (suc n) (some b ∷ r) h e =
    let zero_first : b ≡ 0 = ground arith in
    ap₂ (λ c k. some c ∷ k) zero_first (is_null_eq n r (omega arith) (ground arith))

length-live : (recs : List (List Cell)) → length (live recs) ≤ length recs
length-live [] = omega arith
length-live (r ∷ recs) = elim (Bool-cases (is_null r)) [
  | inl e ↦ rw e (omega (arith, length-live recs))
  | inr e ↦ rw e (omega arith)
]

-- A NULL at the front can be left out.
found-null :
    (offset : ℕ) (recs : List (List Cell)) (i : ℕ)
    → found (offset + 1) recs i ≡ found offset (null ∷ recs) i
found-null offset recs i = elim (Bool-cases (ltb i offset)) [
  | inl below ↦
      let below_next : ltb i (offset + 1) ≡ true =
        lt→ltb i (offset + 1) (omega (arith, ltb→lt i offset below)) in
      rw (below, below_next)
  | inr above ↦ elim (Bool-cases (i == offset)) [
    | inl here ↦
        let same : i ≡ offset = ground arith in
        let below_next : ltb i (offset + 1) ≡ true = lt→ltb i (offset + 1) (omega (arith, same)) in
        let start : i - offset ≡ 0 = omega (arith, same) in rw (above, below_next, start)
    | inr later ↦
        let beyond : offset < i = ground arith in
        let above_next : ltb i (offset + 1) ≡ false =
          ltb-false_of_le i (offset + 1) (omega arith) in
        let next : i - offset ≡ suc (i - (offset + 1)) = omega arith in rw (above, above_next, next)
  ]
]

-- Leaving out all of them changes no lookup.
found-live :
    (offset : ℕ) (recs : List (List Cell)) (i : ℕ)
    → AreEight recs
    → found (offset + (length recs - length (live recs))) (live recs) i ≡ found offset recs i
found-live offset [] i h = ap (λ k. found k [] i) (omega arith)
found-live offset (r ∷ recs) i (hr, h) = elim (Bool-cases (is_null r)) [
  | inl e ↦
      let step : offset + (suc (length recs) - length (live recs))
          ≡ offset + 1 + (length recs - length (live recs)) =
        omega (arith, length-live recs) in
      rw e (
        ap (λ k. found k (live recs) i) step
        ∙ found-live (offset + 1) recs i h
        ∙ found-null offset recs i
        ∙ ap (λ k. found offset (k ∷ recs) i) (sym (is_null_eq 8 r hr e)))
  | inr e ↦ rw e (ap (λ k. found k (r ∷ recs) i) (omega arith))
]

-- Removing NULLs from the front ends, and leaves the other pointers at their integers.
purge-Returns :
    (fuel : ℕ) (granted : ℕ → Bool) (recs : List (List Cell)) (m : SeqPtrMap)
    → length recs < fuel
    → Maps recs m
    → Returns
        (MapsFrom (m.offset + (length recs - length (live recs))) (live recs))
        (purge fuel granted m)
unfolding purge ElasticQueue.getlen
purge-Returns zero granted recs m h v = absurd (omega arith)
purge-Returns (suc fuel) granted [] m h v =
    let empty : ltb 0 m.ptrs.len ≡ false =
      ltb-false_of_le 0 m.ptrs.len (omega (arith, v.records.count)) in
    rw empty (v, omega arith)
purge-Returns (suc fuel) granted (r ∷ recs) m h v =
    let more : ltb 0 m.ptrs.len ≡ true = lt→ltb 0 m.ptrs.len (omega (arith, v.records.count)) in
    rw (more, load-Records (r ∷ recs) m.ptrs v.records 0 r refl (omega arith))
      (elim (Bool-cases (is_null r)) [
        | inl e ↦
            let step : m.offset + 1 + (length recs - length (live recs))
                ≡ m.offset + (suc (length recs) - length (live recs)) =
              omega (arith, length-live recs) in
            rw e (
              Returns-bind (Records recs) _ (ElasticQueue.delete (granted fuel) m.ptrs) _
                (delete-Returns-Records r recs m.ptrs v.records (granted fuel))
                (λ ptrs k.
                  let m' : SeqPtrMap = record {
                    ptrs = ptrs;
                    offset = m.offset + 1;
                    len = m.len - 1;
                  } in
                  Returns-map
                    (MapsFrom (m.offset + 1 + (length recs - length (live recs))) (live recs)) _
                    (λ a (w, o). (w, o ∙ step)) _
                    (purge-Returns fuel granted recs m' (omega arith)
                      (record { records = k; sized = omega (arith, v.sized) }))))
        | inr e ↦ rw e (v, omega arith)
      ])

get_or-set :
    (recs : List (List Cell)) (k j : ℕ) (r d : List Cell)
    → k < length recs
    → get_or (set recs k r) j d ≡ (if j == k then r else get_or recs j d)
get_or-set [] k j r d h = absurd (omega arith)
get_or-set (x ∷ recs) zero zero r d h = refl
get_or-set (x ∷ recs) zero (suc j) r d h =
    let apart : (suc j == 0) ≡ false = ground arith in rw apart
get_or-set (x ∷ recs) (suc k) zero r d h =
    let apart : (0 == suc k) ≡ false = ground arith in rw apart
get_or-set (x ∷ recs) (suc k) (suc j) r d h =
    get_or-set recs k j r d (omega arith)
    ∙ ap (λ b. if b then r else get_or recs j d) (ground arith)

-- A lookup in a list with one more NULL.
found-set :
    (offset : ℕ) (recs : List (List Cell)) (k j : ℕ)
    → offset ≤ k
    → k - offset < length recs
    → found offset (set recs (k - offset) null) j ≡ (if j == k then null else found offset recs j)
found-set offset recs k j h less = elim (Bool-cases (ltb j offset)) [
  | inl below ↦ let other : (j == k) ≡ false = ground arith in rw (below, other)
  | inr above ↦
      let same : (j - offset == (k - offset)) ≡ (j == k) = ground arith in
      rw above (
        get_or-set recs (k - offset) (j - offset) null null less
        ∙ ap (λ b. if b then null else get_or recs (j - offset) null) same)
]

position-bounds :
    (m : SeqPtrMap) (i index : ℕ)
    → position m (ℤ.pos i) ≡ some index
    → (m.offset ≤ i) × (i - m.offset < m.len) × (i - m.offset ≡ index)
unfolding position
position-bounds m i index e = ground arith

get-position : (m : SeqPtrMap) (i : ℕ) → position m (ℤ.pos i) ≡ none → get m (ℤ.pos i) ≡ done null
unfolding get
get-position m i e = rw (e, get)

-- What a map is after `i` was deleted: a map with no pointer for `i`, and the others' as before.
abbrev pub Without : ℕ → SeqPtrMap → SeqPtrMap → Type 0
Without i m m' =
    ((recs : List (List Cell)) × Maps recs m')
    × ((j : ℕ) → get m' (ℤ.pos j) ≡ (if j == i then done null else get m (ℤ.pos j)))

module _ (recs : List (List Cell)) (m : SeqPtrMap) (v : Maps recs m) (i : ℕ) (low : m.offset ≤ i)
    (less : i - m.offset < length recs) where
  abbrev cleared : List (List Cell)
  cleared = set recs (i - m.offset) null

  purged-Without :
      (m' : SeqPtrMap)
      → AreEight cleared
      → MapsFrom (m.offset + (length cleared - length (live cleared))) (live cleared) m'
      → Without i m m'
  purged-Without m' each (w, o) = (
    (live cleared, w),
    λ j.
        get-found (live cleared) m' j w
        ∙ ap done (
            ap (λ k. found k (live cleared) j) o
            ∙ found-live m.offset cleared j each
            ∙ found-set m.offset recs i j low less)
        ∙ elim (Bool-cases (j == i)) [ inl e ↦ rw e | inr e ↦ rw e (sym (get-found recs m j v)) ],
  )

-- In a map that stands for some pointers, deleting an integer that is not negative succeeds,
-- whatever the allocator says. It leaves a map that stands for some pointers, in which this integer
-- has no pointer and every other integer that is not negative has the pointer that it had.
pub delete-Without :
    (granted : ℕ → Bool) (recs : List (List Cell)) (m : SeqPtrMap) (i : ℕ)
    → Maps recs m
    → Returns (Without i m) (delete granted m (ℤ.pos i))
unfolding delete
delete-Without granted recs m i v = elim (Option-cases (position m (ℤ.pos i))) [
  | inl outside ↦
      rw (outside, delete)
        (
          (recs, v),
          λ j. elim (Bool-cases (j == i)) [
            | inl e ↦
                let same : j ≡ i = ground arith in
                rw e (ap (λ k. get m (ℤ.pos k)) same ∙ get-position m i outside)
            | inr e ↦ rw e
          ],
        )
  | inr (index, inside) ↦
      let (low, bound, same) = position-bounds m i index inside in
      let less : i - m.offset < length recs = omega (arith, v.sized) in
      let after = set recs (i - m.offset) null in
      rw (inside, ← same, delete)
        (Returns-bind (Records after) (Without i m) (store m.ptrs (i - m.offset) null) _
          (store-Returns-Records recs m.ptrs v.records (i - m.offset) less null refl)
          (λ ptrs k.
            Returns-map (MapsFrom (m.offset + (length after - length (live after))) (live after))
              (Without i m) (λ m' w. purged-Without recs m v i low less m' k.each w) _
              (purge-Returns (suc m.len) granted after (record m { ptrs = ptrs })
                (omega (arith, v.sized, length-set recs (i - m.offset) null))
                (record {
                  records = k;
                  sized = v.sized ∙ sym (length-set recs (i - m.offset) null);
                }))))
]
