-- ===== src/MemPool/Owners.antt =====
-- datastruct/mpool.h: who has which object, over the lifetime of a pool.
use libcperciva.Prelude.{
  ℕ, ◌+◌, ◌≤◌, ◌<◌, ◌≡◌, inl, inr, sym, subst, ap, ◌∙◌, arith, List, [], ◌∷◌, ◌++◌, Bool, false,
  ◌==◌, ==_iff, if◌then◌else◌, if-elim, Option, none, some, done, Returns, length, length-take,
  length-replicate, length-append,
}
use libcperciva.MemPool.{MPool, initial, mpool_malloc, mpool_free}
use libcperciva.MemPool.Moves.{cached, IsSound, Gives, malloc_lem, Frees, free_lem}

-- How often an object is in a list.
abbrev pub hit : ℕ → ℕ → ℕ
hit x a = if x == a then 1 else 0

abbrev pub occurs : ℕ → List ℕ → ℕ
occurs a [] = 0
occurs a (x ∷ xs) = hit x a + occurs a xs

-- A list without the first occurrence of an object.
abbrev pub remove : ℕ → List ℕ → List ℕ
remove p [] = []
remove p (x ∷ xs) = if x == p then xs else x ∷ remove p xs

occurs-append : (a : ℕ) (xs ys : List ℕ) → occurs a (xs ++ ys) ≡ occurs a xs + occurs a ys
occurs-append a [] ys = omega arith
occurs-append a (x ∷ xs) ys = omega (arith, occurs-append a xs ys)

hit_other : (x p : ℕ) → (x == p) ≡ false → hit x p ≡ 0
hit_other x p e = ap (λ b. if b then 1 else 0) e

occurs-remove :
    (a p : ℕ) (xs : List ℕ) → 0 < occurs p xs → hit p a + occurs a (remove p xs) ≡ occurs a xs
occurs-remove a p [] h = absurd (omega arith)
occurs-remove a p (x ∷ xs) h =
    if-elim (λ l. hit p a + occurs a l ≡ occurs a (x ∷ xs)) (x == p) xs (x ∷ remove p xs)
      (λ e. ap (λ y. hit y a + occurs a xs) (sym ((==_iff x p).0 e)))
      (λ e. omega (arith, hit_other x p e, occurs-remove a p xs (omega (arith, hit_other x p e))))

-- `Run live used m`: the pool is reached; `live` are the objects that `malloc` has returned and
-- that were not freed, and `used` those that the client has. `malloc` never returns a live object,
-- and the client only frees what it has.
pub data Run : List ℕ → List ℕ → MPool → Type 0 where
  start : (size : ℕ) → 0 < size → Run [] [] (initial size)
  reused :
      (live used : List ℕ) (m next : MPool) (registered : Bool) (answer : Option ℕ) (p : ℕ)
      → Run live used m
      → 0 < m.stacklen
      → mpool_malloc registered answer m ≡ (next, some p)
      → Run live (p ∷ used) next
  allocated :
      (live used : List ℕ) (m next : MPool) (registered : Bool) (p : ℕ)
      → Run live used m
      → m.stacklen ≡ 0
      → occurs p live ≡ 0
      → mpool_malloc registered (some p) m ≡ (next, some p)
      → Run (p ∷ live) (p ∷ used) next
  refused :
      (live used : List ℕ) (m next : MPool) (registered : Bool) (answer : Option ℕ)
      → Run live used m
      → mpool_malloc registered answer m ≡ (next, none)
      → Run live used next
  kept :
      (live used : List ℕ) (m next : MPool) (memory : Bool) (p : ℕ)
      → Run live used m
      → 0 < occurs p used
      → mpool_free memory m (some p) ≡ done (next, none)
      → Run live (remove p used) next
  freed :
      (live used : List ℕ) (m next : MPool) (memory : Bool) (p q : ℕ)
      → Run live used m
      → 0 < occurs p used
      → mpool_free memory m (some p) ≡ done (next, some q)
      → Run (remove q live) (remove p used) next

-- Every live object is either used or cached, and once only.
abbrev pub Shared : List ℕ → List ℕ → MPool → Type 0
Shared live used m =
    IsSound m
    × ((a : ℕ) → (occurs a used + occurs a (cached m) ≡ occurs a live) × (occurs a live ≤ 1))

none-some : {p : ℕ} → none ≡ some p → ⊥
none-some e = subst (λ o. elim o [ none ↦ Unit | some a ↦ ⊥ ]) e tt

some_inj : (p q : ℕ) → some p ≡ some q → p ≡ q
some_inj p q e = ap (λ o. elim o [ none ↦ p | some x ↦ x ]) e

length-cached : (m : MPool) → IsSound m → length (cached m) ≡ m.stacklen
length-cached m (size, inside, positive) = length-take m.stacklen m.allocs ∙ omega arith

occurs_last : (a p : ℕ) (xs : List ℕ) → occurs a (xs ++ (p ∷ [])) ≡ occurs a xs + hit p a
occurs_last a p xs = occurs-append a xs (p ∷ []) ∙ omega arith

empty_cached :
    (m : MPool) → IsSound m → m.stacklen ≡ 0 → (xs : List ℕ) (p : ℕ) → cached m ≡ xs ++ (p ∷ []) → ⊥
empty_cached m sound e xs p split =
    let size = length-cached m sound in
    let some_in = ap length split in let more = length-append xs (p ∷ []) in absurd (omega arith)

after_free :
    (live used : List ℕ) (m next : MPool) (p : ℕ) (released : Option ℕ)
    → Shared live used m
    → 0 < occurs p used
    → Frees m p (next, released)
    → Shared (elim released [ none ↦ live | some q ↦ remove q live ]) (remove p used) next
after_free live used m next p none (sound, shared) has (s, inl (e, more)) = (
  s,
  λ a.
      let (sum, once) = shared a in
      let cut = occurs-remove a p used has in
      let held = ap (occurs a) more ∙ occurs_last a p (cached m) in (omega arith, once),
)
after_free live used m next p none (sound, shared) has (s, inr (e, same)) = absurd (none-some e)
after_free live used m next p (some q) (sound, shared) has (s, inl (e, more)) =
    absurd (none-some (sym e))
after_free live used m next p (some q) (sound, shared) has (s, inr (e, same)) = (
  s,
  λ a.
      let (sum, once) = shared a in
      let (sum_p, once_p) = shared p in
      let cut = occurs-remove a p used has in
      let alive = occurs-remove a p live (omega arith) in
      let held = ap (occurs a) same in
      let which = ap (λ x. occurs a (remove x live)) (some_inj q p e) in (omega arith, omega arith),
)

fresh_once :
    (live : List ℕ) (p a : ℕ) → occurs p live ≡ 0 → occurs a live ≤ 1 → occurs a (p ∷ live) ≤ 1
fresh_once live p a fresh once =
    if-elim (λ n. n + occurs a live ≤ 1) (p == a) 1 0
      (λ e. let same = ap (λ x. occurs x live) ((==_iff p a).0 e) in omega arith) (λ e. omega arith)

-- However a pool is reached by calls of `mpool_malloc` and `mpool_free`, where `malloc` never
-- returns an object that is live and the client gives back only what it has, the stack is within
-- its bounds, no object is handed out twice, and every live object is either used by the client or
-- cached, and so never lost or freed while in use.
pub Run-Shared : (live used : List ℕ) (m : MPool) → Run live used m → Shared live used m
unfolding initial
Run-Shared x y z (start size positive) =
    ((length-replicate {A = ℕ} size 0, omega arith, positive), λ a. (omega arith, omega arith))
Run-Shared x y z (reused live used m next registered answer p run some_cached e) =
    let (sound, shared) = Run-Shared live used m run in
    let (s, cases) = subst (Gives m answer) e (malloc_lem registered answer m sound) in
    elim cases [
      | inl (q, same, split) ↦ (
        s,
        λ a.
            let (sum, once) = shared a in
            let held = ap (occurs a) split ∙ occurs_last a q (cached next) in
            let which = ap (λ x. hit x a) (some_inj p q same) in (omega arith, once),
      )
      | inr (nothing, still, rest) ↦
          let size = length-cached m sound in
          let zero_long = ap length nothing in absurd (omega arith)
    ]
Run-Shared x y z (allocated live used m next registered p run empty fresh e) =
    let (sound, shared) = Run-Shared live used m run in
    let (s, cases) = subst (Gives m (some p)) e (malloc_lem registered (some p) m sound) in
    elim cases [
      | inl (q, same, split) ↦ absurd (empty_cached m sound empty (cached next) q split)
      | inr (nothing, still, rest) ↦ (
        s,
        λ a.
            let (sum, once) = shared a in
            let before = ap (occurs a) nothing in
            let now = ap (occurs a) still in (omega arith, fresh_once live p a fresh once),
      )
    ]
Run-Shared x y z (refused live used m next registered answer run e) =
    let (sound, shared) = Run-Shared live used m run in
    let (s, cases) = subst (Gives m answer) e (malloc_lem registered answer m sound) in
    elim cases [
      | inl (q, same, split) ↦ absurd (none-some same)
      | inr (nothing, still, rest) ↦ (
        s,
        λ a.
            let (sum, once) = shared a in
            let before = ap (occurs a) nothing in
            let now = ap (occurs a) still in (omega arith, once),
      )
    ]
Run-Shared x y z (kept live used m next memory p run has e) =
    let (sound, shared) = Run-Shared live used m run in
    after_free live used m next p none (sound, shared) has
      (subst (Returns (Frees m p)) e (free_lem memory m p sound))
Run-Shared x y z (freed live used m next memory p q run has e) =
    let (sound, shared) = Run-Shared live used m run in
    after_free live used m next p (some q) (sound, shared) has
      (subst (Returns (Frees m p)) e (free_lem memory m p sound))
