-- ===== src/PtrHeap/Slots.antt =====
-- datastruct/ptrheap.c: the heap's array read and written within its bounds.
use mathlib.Core.List.{Perm, Permᴰ, perm_middle, append-nil}
use mathlib.Core.List.Perm
use mathlib.Core.Logic.{∥∥₁_elim}
use native.Mathlib.Nat.{ℕ_set}
use libcperciva.Prelude.{
  ℕ, zero, suc, ◌<◌, ◌≡◌, refl, ap, ◌∙◌, List, [], ◌∷◌, ◌++◌, some, done, arith, length, get_elem?,
  get_or, set, take, length-set, ◌==◌, if◌then◌else◌, lt→ltb,
}
use libcperciva.PtrHeap.{Callbacks, load, store, notify, swap}

-- The element at a position, as a total function; positions past the end hold NULL.
abbrev pub at : List ℕ → ℕ → ℕ
at elems i = get_or elems i 0

get_elem?-at : (xs : List ℕ) (i : ℕ) → i < length xs → get_elem? xs i ≡ some (at xs i)
get_elem?-at [] i h = absurd (omega arith)
get_elem?-at (x ∷ xs) zero h = refl
get_elem?-at (x ∷ xs) (suc i) h = get_elem?-at xs i (omega arith)

pub load-at : (xs : List ℕ) (i : ℕ) → i < length xs → load xs i ≡ done (at xs i)
unfolding load
load-at xs i h = rw (get_elem?-at xs i h)

pub store-set : (xs : List ℕ) (i v : ℕ) → i < length xs → store xs i v ≡ done (set xs i v)
unfolding store
store-set xs i v h = rw (lt→ltb i (length xs) h)

pub at-set :
    (xs : List ℕ) (i v j : ℕ) → i < length xs → at (set xs i v) j ≡ (if j == i then v else at xs j)
at-set [] i v j h = absurd (omega arith)
at-set (x ∷ xs) zero v zero h = refl
at-set (x ∷ xs) zero v (suc j) h = ground arith
at-set (x ∷ xs) (suc i) v zero h = ground arith
at-set (x ∷ xs) (suc i) v (suc j) h = ground (arith, at-set xs i v j)

pub at-append : (xs ys : List ℕ) (i : ℕ) → i < length xs → at (xs ++ ys) i ≡ at xs i
at-append [] ys i h = absurd (omega arith)
at-append (x ∷ xs) ys zero h = refl
at-append (x ∷ xs) ys (suc i) h = at-append xs ys i (omega arith)

pub at-append_end : (xs : List ℕ) (x : ℕ) → at (xs ++ x ∷ []) (length xs) ≡ x
at-append_end [] x = refl
at-append_end (y ∷ xs) x = at-append_end xs x

pub at-take : (n : ℕ) (xs : List ℕ) (i : ℕ) → i < n → at (take n xs) i ≡ at xs i
at-take zero xs i h = absurd (omega arith)
at-take (suc n) [] i h = refl
at-take (suc n) (x ∷ xs) zero h = refl
at-take (suc n) (x ∷ xs) (suc i) h = at-take n xs i (omega arith)

pub take-at : (n : ℕ) (xs : List ℕ) → length xs ≡ suc n → take n xs ++ at xs n ∷ [] ≡ xs
take-at zero [] h = absurd (omega arith)
take-at zero (x ∷ []) h = refl
take-at zero (x ∷ y ∷ xs) h = absurd (omega arith)
take-at (suc n) [] h = absurd (omega arith)
take-at (suc n) (x ∷ xs) h = ap (◌∷◌ x) (take-at n xs (omega arith))

-- Two positions exchanged.
abbrev pub exchanged : List ℕ → ℕ → ℕ → List ℕ
exchanged xs i j = set (set xs i (at xs j)) j (at xs i)

pub length-exchanged : (xs : List ℕ) (i j : ℕ) → length (exchanged xs i j) ≡ length xs
length-exchanged xs i j = length-set (set xs i (at xs j)) j (at xs i) ∙ length-set xs i (at xs j)

-- A write trades the element that was there for the new one.
pub set-perm : (xs : List ℕ) (i v : ℕ) → i < length xs → Perm (at xs i ∷ set xs i v) (v ∷ xs)
set-perm [] i v h = absurd (omega arith)
set-perm (x ∷ xs) zero v h = Perm.swap v x xs
set-perm (x ∷ xs) (suc i) v h =
    let under = Perm.cons x (set-perm xs i v (omega arith)) in
    Perm.trans (Perm.swap x (at xs i) (set xs i v)) (Perm.trans under (Perm.swap v x xs))

perm-length : {xs ys : List ℕ} → Permᴰ xs ys → length xs ≡ length ys
perm-length Permᴰ.nil = refl
perm-length (Permᴰ.cons x p) = ap suc (perm-length p)
perm-length (Permᴰ.swap x y) = refl
perm-length (Permᴰ.trans p q) = perm-length p ∙ perm-length q

pub length-perm : {xs ys : List ℕ} → Perm xs ys → length xs ≡ length ys
length-perm p = ∥∥₁_elim p (ℕ_set _ _) perm-length

pub snoc-perm : (xs : List ℕ) (x : ℕ) → Perm (xs ++ x ∷ []) (x ∷ xs)
snoc-perm xs x = rw (append-nil xs) at (perm_middle {a = x} xs [])

module _ (xs : List ℕ) (i j : ℕ) (hi : i < length xs) (hj : j < length xs) where
  half_fits : j < length (set xs i (at xs j))
  half_fits = omega (arith, length-set xs i (at xs j))

  pub at-exchanged :
      (c : ℕ)
      → at (exchanged xs i j) c ≡ (if c == j then at xs i else if c == i then at xs j else at xs c)
  at-exchanged c =
      rw (at-set (set xs i (at xs j)) j (at xs i) c half_fits, at-set xs i (at xs j) c hi)

  pub exchanged-perm : Perm (exchanged xs i j) xs
  exchanged-perm =
      let half = set xs i (at xs j) in
      let stays : at half j ≡ at xs j = ground (arith, at-set xs i (at xs j) j) in
      let second = rw stays at (set-perm half j (at xs i) half_fits) in
      Perm.cons_inv (Perm.trans second (set-perm xs i (at xs j) hi))

  -- `swap` exchanges the elements and reports both positions.
  pub swap-exchanged :
      {S : Type 0} (cb : Callbacks S) (s : S)
      → swap cb s xs i j ≡ done (exchanged xs i j, notify cb (notify cb s (at xs j) i) (at xs i) j)
  unfolding swap
  swap-exchanged cb s = rw (
    load-at xs i hi,
    load-at xs j hj,
    store-set xs i (at xs j) hi,
    store-set half j (at xs i) half_fits,
    load-at (exchanged xs i j) i (omega (arith, length-exchanged xs i j)),
    load-at (exchanged xs i j) j (omega (arith, length-exchanged xs i j)),
    first,
    second,
  )
    where
      half : List ℕ
      half = set xs i (at xs j)

      first : at (exchanged xs i j) i ≡ at xs j
      first = ground (arith, at-exchanged i)

      second : at (exchanged xs i j) j ≡ at xs i
      second = ground (arith, at-exchanged j)
