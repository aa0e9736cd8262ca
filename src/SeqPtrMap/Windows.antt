-- ===== src/SeqPtrMap/Windows.antt =====
-- Records of eight cells, one behind the other, as datastruct/seqptrmap.c keeps its pointers.
use mathlib.Core.List.{append_assoc}
use libcperciva.Prelude.{
  ℕ, zero, suc, ◌+◌, ◌*◌, ◌≤◌, ◌<◌, ◌≡◌, refl, ap, ap₂, sym, ◌∙◌, List, [], ◌∷◌, ◌++◌, some, arith,
  Cell, memcpy, get_elem?, set, take, drop, length, length-take, length-append, take-append_left,
  take-append_add, take_all, take-take, take_add, drop-drop, drop-append_add, drop-take,
}

module _ {ℓ} {A : Type ℓ} (xs ys : List A) (n : ℕ) where
  -- A copy seen from a position before it.
  pub drop-memcpy :
      (a p : ℕ) → a ≤ length xs → drop a (memcpy xs (a + p) ys n) ≡ memcpy (drop a xs) p ys n
  unfolding memcpy
  drop-memcpy a p h =
      let rest = take n ys ++ drop (a + p + n) xs in
      let front : length (take a xs) ≡ a = omega (arith, length-take a xs) in
      let more : a + (p + n) ≡ a + p + n = omega arith in
      let none_over : a ≡ a + 0 = omega arith in
      ap (λ k. drop a (k ++ rest)) (take_add a p xs)
      ∙ ap (drop a) (append_assoc (take a xs) (take p (drop a xs)) rest)
      ∙ ap (λ k. drop k (take a xs ++ (take p (drop a xs) ++ rest))) none_over
      ∙ drop-append_add a 0 (take a xs) (take p (drop a xs) ++ rest) front
      ∙ ap (λ k. take p (drop a xs) ++ (take n ys ++ k))
          (ap (λ k. drop k xs) (sym more) ∙ sym (drop-drop (p + n) a xs))

  -- A copy that ends before a position, cut off there.
  pub take-memcpy :
      (p c : ℕ)
      → p ≤ length xs
      → n ≤ length ys
      → take (p + (n + c)) (memcpy xs p ys n) ≡ memcpy (take (p + (n + c)) xs) p ys n
  unfolding memcpy
  take-memcpy p c h k =
      let front : length (take p xs) ≡ p = omega (arith, length-take p xs) in
      let middle : length (take n ys) ≡ n = omega (arith, length-take n ys) in
      let sum : p + n + c ≡ p + (n + c) = omega arith in
      take-append_add p (n + c) (take p xs) (take n ys ++ drop (p + n) xs) front
      ∙ ap (◌++◌ (take p xs)) (take-append_add n c (take n ys) (drop (p + n) xs) middle)
      ∙ ap₂ (λ a b. a ++ (take n ys ++ b)) (sym (take-take p (p + (n + c)) xs (omega arith)))
          (sym (drop-take (p + n) c xs) ∙ ap (λ m. drop (p + n) (take m xs)) sum)

-- A copy behind a first part.
memcpy-append :
    (xs rest ys : List Cell) (w p n : ℕ)
    → length xs ≡ w
    → memcpy (xs ++ rest) (w + p) ys n ≡ xs ++ memcpy rest p ys n
unfolding memcpy
memcpy-append xs rest ys w p n h =
    let sum : w + p + n ≡ w + (p + n) = omega arith in
    ap₂ (λ a b. a ++ (take n ys ++ b)) (take-append_add w p xs rest h)
      (ap (λ k. drop k (xs ++ rest)) sum ∙ drop-append_add w (p + n) xs rest h)
    ∙ append_assoc xs (take p rest) (take n ys ++ drop (p + n) rest)

-- The cells of some records.
abbrev pub join : List (List Cell) → List Cell
join [] = []
join (r ∷ recs) = r ++ join recs

abbrev pub AreEight : List (List Cell) → Type 0
AreEight [] = Unit
AreEight (r ∷ recs) = (length r ≡ 8) × AreEight recs

pub join-append : (xs ys : List (List Cell)) → join (xs ++ ys) ≡ join xs ++ join ys
join-append [] ys = refl
join-append (x ∷ xs) ys = ap (◌++◌ x) (join-append xs ys) ∙ sym (append_assoc x (join xs) (join ys))

pub AreEight-append :
    (xs : List (List Cell)) (r : List Cell) → AreEight xs → length r ≡ 8 → AreEight (xs ++ r ∷ [])
AreEight-append [] r h k = (k, tt)
AreEight-append (x ∷ xs) r (hx, h) k = (hx, AreEight-append xs r h k)

pub AreEight-set :
    (recs : List (List Cell)) (i : ℕ) (r : List Cell)
    → AreEight recs
    → length r ≡ 8
    → AreEight (set recs i r)
AreEight-set [] i r h k = tt
AreEight-set (x ∷ recs) zero r (hx, h) k = (k, h)
AreEight-set (x ∷ recs) (suc i) r (hx, h) k = (hx, AreEight-set recs i r h k)

-- A record is found among the cells.
pub join-get_elem? :
    (recs : List (List Cell)) (i : ℕ) (r : List Cell)
    → AreEight recs
    → get_elem? recs i ≡ some r
    → take 8 (drop (i * 8) (join recs)) ≡ r
join-get_elem? [] i r h e = cc
join-get_elem? (x ∷ recs) zero r (hx, h) e =
    let z : 0 * 8 ≡ 0 = omega arith in
    let same : x ≡ r = ground arith in
    ap (λ k. take 8 (drop k (x ++ join recs))) z
    ∙ take-append_left 8 x (join recs) (omega arith)
    ∙ take_all 8 x (omega arith)
    ∙ same
join-get_elem? (x ∷ recs) (suc i) r (hx, h) e =
    let next : suc i * 8 ≡ 8 + i * 8 = omega arith in
    ap (λ k. take 8 (drop k (x ++ join recs))) next
    ∙ ap (take 8) (drop-append_add 8 (i * 8) x (join recs) hx)
    ∙ join-get_elem? recs i r h e

memcpy-first :
    (x rest r : List Cell)
    → length x ≡ 8
    → length r ≡ 8
    → memcpy (x ++ rest) (0 * 8) r 8 ≡ r ++ rest
unfolding memcpy
memcpy-first x rest r hx hr =
    let z : 0 * 8 ≡ 0 = omega arith in
    let eight : 0 * 8 + 8 ≡ 8 + 0 = omega arith in
    ap₂ (λ a b. take a (x ++ rest) ++ (take 8 r ++ drop b (x ++ rest))) z eight
    ∙ ap₂ ◌++◌ (take_all 8 r (omega arith)) (drop-append_add 8 0 x rest hx)

-- A record is stored among the cells.
pub join-set :
    (recs : List (List Cell)) (i : ℕ) (r : List Cell)
    → AreEight recs
    → length r ≡ 8
    → i < length recs
    → memcpy (join recs) (i * 8) r 8 ≡ join (set recs i r)
join-set [] i r h k less = absurd (omega arith)
join-set (x ∷ recs) zero r (hx, h) k less = memcpy-first x (join recs) r hx k
join-set (x ∷ recs) (suc i) r (hx, h) k less =
    let next : suc i * 8 ≡ 8 + i * 8 = omega arith in
    ap (λ p. memcpy (x ++ join recs) p r 8) next
    ∙ memcpy-append x (join recs) r 8 (i * 8) 8 hx
    ∙ ap (◌++◌ x) (join-set recs i r h k (omega arith))

pub length-join : (recs : List (List Cell)) → AreEight recs → length (join recs) ≡ length recs * 8
length-join [] h = omega arith
length-join (r ∷ recs) (hr, h) = omega (arith, length-append r (join recs), length-join recs h)
