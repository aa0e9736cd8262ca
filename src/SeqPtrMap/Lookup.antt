-- ===== src/SeqPtrMap/Lookup.antt =====
-- datastruct/seqptrmap.c: the map from integers to pointers that each call leaves behind.
use libcperciva.Prelude.{
  ℕ, zero, suc, ◌-◌, ◌≤◌, ◌<◌, ◌≡◌, refl, ap, sym, true, false, List, [], ◌∷◌, some, done, arith,
  Cell, Bool-cases, inl, inr, get_elem?, get_or, length, ltb, leb, if◌then◌else◌,
}
use libcperciva.SeqPtrMap.{ℤ, null, SeqPtrMap, position, get}
use libcperciva.SeqPtrMap.Records.{Records, load-Records}

-- The map has these pointers at its offset and the integers that follow.
pub record Maps (recs : List (List Cell)) (m : SeqPtrMap) : Type 0 where
  pub records : Records recs m.ptrs
  pub sized : m.len ≡ length recs

-- What the map has for an integer, NULL if there is nothing.
abbrev pub found : ℕ → List (List Cell) → ℕ → List Cell
found offset recs i = if ltb i offset then null else get_or recs (i - offset) null

le_of_leb : (a b : ℕ) → leb a b ≡ true → a ≤ b
le_of_leb a b h = ground arith

lt_of_leb-false : (a b : ℕ) → leb a b ≡ false → b < a
lt_of_leb-false a b h = ground arith

get_elem?-get_or :
    (recs : List (List Cell)) (i : ℕ) (d : List Cell)
    → i < length recs
    → get_elem? recs i ≡ some (get_or recs i d)
get_elem?-get_or [] i d h = absurd (omega arith)
get_elem?-get_or (r ∷ recs) zero d h = refl
get_elem?-get_or (r ∷ recs) (suc i) d h = get_elem?-get_or recs i d (omega arith)

get_or_beyond :
    (recs : List (List Cell)) (i : ℕ) (d : List Cell) → length recs ≤ i → get_or recs i d ≡ d
get_or_beyond [] i d h = refl
get_or_beyond (r ∷ recs) zero d h = absurd (omega arith)
get_or_beyond (r ∷ recs) (suc i) d h = get_or_beyond recs i d (omega arith)

pub get-found :
    (recs : List (List Cell)) (m : SeqPtrMap) (i : ℕ)
    → Maps recs m
    → get m (ℤ.pos i) ≡ done (found m.offset recs i)
unfolding get position
get-found recs m i v = elim (Bool-cases (ltb i m.offset)) [
  | inl below ↦ rw (below, get)
  | inr above ↦ elim (Bool-cases (leb m.len (i - m.offset))) [
    | inl beyond ↦
        let far : length recs ≤ i - m.offset =
          omega (arith, v.sized, le_of_leb m.len (i - m.offset) beyond) in
        rw (above, beyond, get) (ap done (sym (get_or_beyond recs (i - m.offset) null far)))
    | inr within ↦
        let less : i - m.offset < length recs =
          omega (arith, v.sized, lt_of_leb-false m.len (i - m.offset) within) in
        rw (above, within, get)
          (load-Records recs m.ptrs v.records (i - m.offset) (get_or recs (i - m.offset) null)
            (get_elem?-get_or recs (i - m.offset) null less) less)
  ]
]
