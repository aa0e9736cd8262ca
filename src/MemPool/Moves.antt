-- ===== src/MemPool/Moves.antt =====
-- datastruct/mpool.h: what each call does with the cached objects.
use libcperciva.Prelude.{
  ℕ, zero, suc, ◌+◌, ◌-◌, ◌*◌, ◌/◌, ◌^◌, ◌≤◌, ◌<◌, ◌≡◌, ◌⊎◌, inl, inr, refl, ap, ◌∙◌, arith, List,
  [], ◌∷◌, ◌++◌, Bool, ltb, leb, if-elim, Option, none, some, done, set, get_or, replicate, length,
  take, Returns, Returns-if, Returns-assert, take-append_left, take_next, length-append,
  length-replicate, ltb→lt, lt→ltb, le_of_ltb-false,
}
use libcperciva.MemPool.{MPool, mpool_malloc, push, double_stack, mpool_free}

-- The objects on the stack, the oldest first.
abbrev pub cached : MPool → List ℕ
cached m = take m.stacklen m.allocs

abbrev pub IsSound : MPool → Type 0
IsSound m = (length m.allocs ≡ m.allocsize) × (m.stacklen ≤ m.allocsize) × (0 < m.allocsize)

-- Either the object is the last one from the stack, or the stack is empty and it is an answer of
-- `malloc`, if there is an object.
abbrev pub Gives : MPool → Option ℕ → MPool × Option ℕ → Type 0
Gives m answer (end, object) =
    IsSound end
    × (((p : ℕ) × (object ≡ some p) × (cached m ≡ cached end ++ (p ∷ [])))
        ⊎ ((cached m ≡ []) × (cached end ≡ []) × ((object ≡ answer) ⊎ (object ≡ none))))

pub malloc_lem :
    (registered : Bool) (answer : Option ℕ) (m : MPool)
    → IsSound m
    → Gives m answer (mpool_malloc registered answer m)
unfolding mpool_malloc
malloc_lem registered answer m (size, inside, positive) =
    if-elim (Gives m answer) (ltb 0 m.stacklen) _ _
      (λ e.
        let some_cached = ltb→lt 0 m.stacklen e in
        let last = m.stacklen - 1 in
        let one_more : m.stacklen ≡ last + 1 = omega arith in
        (
          (size, omega arith, positive),
          inl (
            get_or m.allocs last 0,
            refl,
            ap (λ n. take n m.allocs) one_more ∙ take_next last m.allocs 0 (omega arith),
          ),
        ))
      (λ e.
        let none_cached : m.stacklen ≡ 0 =
          let all = le_of_ltb-false 0 m.stacklen e in omega arith in
        let nothing : cached m ≡ [] = ap (λ n. take n m.allocs) none_cached in
        if-elim (Gives m answer) m.state _ _
          (λ s. ((size, inside, positive), inr (nothing, nothing, inl refl)))
          (λ s.
            if-elim (Gives m answer) registered _ _
              (λ r. ((size, inside, positive), inr (nothing, nothing, inl refl)))
              (λ r. ((size, inside, positive), inr (nothing, nothing, inr refl)))))

take-set_next :
    (n : ℕ) (xs : List ℕ) (p : ℕ)
    → n < length xs
    → take (suc n) (set xs n p) ≡ take n xs ++ (p ∷ [])
take-set_next n [] p h = absurd (omega arith)
take-set_next zero (x ∷ xs) p h = refl
take-set_next (suc n) (x ∷ xs) p h = ap (◌∷◌ x) (take-set_next n xs p (omega arith))

length-set : (i : ℕ) (xs : List ℕ) (p : ℕ) → length (set xs i p) ≡ length xs
length-set i [] p = refl
length-set zero (x ∷ xs) p = refl
length-set (suc i) (x ∷ xs) p = ap suc (length-set i xs p)

-- The object is on the stack, or it was freed.
abbrev pub Frees : MPool → ℕ → MPool × Option ℕ → Type 0
Frees m p (end, freed) =
    IsSound end
    × (((freed ≡ none) × (cached end ≡ cached m ++ (p ∷ [])))
        ⊎ ((freed ≡ some p) × (cached end ≡ cached m)))

push_lem :
    (m : MPool) (p : ℕ)
    → IsSound m
    → m.stacklen < m.allocsize
    → IsSound (push m p) × (cached (push m p) ≡ cached m ++ (p ∷ []))
unfolding push
push_lem m p (size, inside, positive) room =
    let next : m.stacklen + 1 ≡ suc m.stacklen = omega arith in
    (
      (length-set m.stacklen m.allocs p ∙ size, omega arith, positive),
      ap (λ n. take n (set m.allocs m.stacklen p)) next
          ∙ take-set_next m.stacklen m.allocs p (omega arith),
    )

-- The end of `mpool_free` after the stack was to be doubled.
abbrev after : MPool → ℕ → Option MPool → MPool × Option ℕ
after m p none = (record m { nempties = 0; nallocs = 0 }, some p)
after m p (some larger) = (record (push larger p) { nempties = 0; nallocs = 0 }, none)

double_lem :
    (memory : Bool) (m : MPool) (p : ℕ) → IsSound m → Frees m p (after m p (double_stack memory m))
unfolding double_stack push
double_lem memory m p (size, inside, positive) =
    let larger : MPool = record m {
      allocs = m.allocs ++ replicate m.allocsize 0;
      allocsize = m.allocsize * 2;
    } in
    let last : Frees m p (after m p none) = ((size, inside, positive), inr (refl, refl)) in
    if-elim (λ (o : Option MPool). Frees m p (after m p o))
      (leb m.allocsize ((2 ^ 64 - 1) / (2 * 8))) _ _
      (λ e.
        if-elim (λ (o : Option MPool). Frees m p (after m p o)) memory _ _
          (λ e.
            let longer = length-append m.allocs (replicate m.allocsize 0) in
            let new = length-replicate {A = ℕ} m.allocsize 0 in
            let (sound, more) =
              push_lem larger p (omega (arith, longer, new), omega arith, omega arith)
                (omega arith) in
            (
              sound,
              inl (
                refl,
                more
                    ∙ ap (λ l. l ++ (p ∷ []))
                        (take-append_left m.stacklen m.allocs (replicate m.allocsize 0)
                          (omega arith)),
              ),
            ))
          (λ e. last))
      (λ e. last)

grown :
    (m : MPool) (p : ℕ) (o : Option MPool)
    → Frees m p (after m p o)
    → Returns (Frees m p) (elim o [
      | none ↦ done (record m { nempties = 0; nallocs = 0 }, some p)
      | some larger ↦ done (record (push larger p) { nempties = 0; nallocs = 0 }, none)
    ])
grown m p none h = h
grown m p (some larger) h = h

pub free_lem :
    (memory : Bool) (m : MPool) (p : ℕ)
    → IsSound m
    → Returns (Frees m p) (mpool_free memory m (some p))
unfolding mpool_free
free_lem memory m p (size, inside, positive) =
    Returns-if _ (ltb m.stacklen m.allocsize) _ _
      (λ e.
        let (sound, more) =
          push_lem m p (size, inside, positive) (ltb→lt m.stacklen m.allocsize e) in
        (sound, inl (refl, more)))
      (λ e.
        Returns-if _ (ltb (m.nallocs / 2 ^ 8) m.nempties) _ _
          (λ f.
            Returns-assert _ (ltb 0 m.allocsize) _ (lt→ltb 0 m.allocsize positive)
              (grown m p (double_stack memory m) (double_lem memory m p (size, inside, positive))))
          (λ f. ((size, inside, positive), inr (refl, refl))))
