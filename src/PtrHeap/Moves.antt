-- ===== src/PtrHeap/Moves.antt =====
-- datastruct/ptrheap.c: what exchanges leave alone, and that they keep the record cookies right.
use mathlib.Core.List.{Perm}
use mathlib.Core.List.Perm
use libcperciva.Prelude.{
  ℕ, ◌≤◌, ◌<◌, ◌≡◌, refl, ◌∙◌, List, some, arith, length, ◌==◌, if◌then◌else◌,
}
use libcperciva.PtrHeap.{Callbacks, notify}
use libcperciva.PtrHeap.Slots.{at, exchanged, length-exchanged, at-exchanged, exchanged-perm}
use libcperciva.PtrHeap.Sift.{Swaps, stay, exchange}

module _ {S : Type 0} {cb : Callbacks S} {n : ℕ} {ys : List ℕ} {t : S} where
  pub Swaps-length : {xs : List ℕ} {s : S} → Swaps cb n ys t xs s → length ys ≡ length xs
  Swaps-length stay = refl
  Swaps-length (exchange {xs = xs} i j hi hj w) = Swaps-length w ∙ length-exchanged xs i j

  pub Swaps-perm : {xs : List ℕ} {s : S} → Swaps cb n ys t xs s → n ≤ length xs → Perm ys xs
  Swaps-perm stay h = Perm.refl ys
  Swaps-perm (exchange {xs = xs} i j hi hj w) h =
      Perm.trans (Swaps-perm w (omega (arith, length-exchanged xs i j)))
        (exchanged-perm xs i j (omega arith) (omega arith))

  -- Positions from `n` on are not touched.
  pub Swaps-beyond :
      {xs : List ℕ} {s : S}
      → Swaps cb n ys t xs s
      → n ≤ length xs
      → (c : ℕ) → n ≤ c
      → at ys c ≡ at xs c
  Swaps-beyond stay h c p = refl
  Swaps-beyond (exchange {xs = xs} i j hi hj w) h c p =
      Swaps-beyond w (omega (arith, length-exchanged xs i j)) c p
      ∙ ground (arith, at-exchanged xs i j (omega arith) (omega arith) c)

-- What the client does with the calls of `setreccookie`: it can tell the last cookie that it was
-- given for a pointer. This is the client's part, not the heap's.
pub record Remembers {S : Type 0} (cb : Callbacks S) (cookie : S → ℕ → ℕ) : Type 0 where
  pub call : S → ℕ → ℕ → S
  pub installed : cb.setreccookie ≡ some call
  pub last_call : (s : S) (p i q : ℕ) → cookie (call s p i) q ≡ (if q == p then i else cookie s q)

module _ {S : Type 0} (cb : Callbacks S) (cookie : S → ℕ → ℕ) (client : Remembers cb cookie) where
  pub cookie-notify :
      (s : S) (p i q : ℕ) → cookie (notify cb s p i) q ≡ (if q == p then i else cookie s q)
  unfolding notify
  cookie-notify s p i q = rw client.installed (client.last_call s p i q)

-- The first `n` pointers are different from one another.
abbrev pub IsDistinct : ℕ → List ℕ → Type 0
IsDistinct n xs = (c d : ℕ) → c < n → d < n → at xs c ≡ at xs d → c ≡ d

-- The client has for each of the first `n` pointers its position.
abbrev pub IsTracked : {S : Type 0} → (S → ℕ → ℕ) → ℕ → List ℕ → S → Type 0
IsTracked cookie n xs s = (c : ℕ) → c < n → cookie s (at xs c) ≡ c

exchanged-IsDistinct :
    (n : ℕ) (xs : List ℕ) (i j : ℕ)
    → i < n
    → j < n
    → n ≤ length xs
    → IsDistinct n xs
    → IsDistinct n (exchanged xs i j)
exchanged-IsDistinct n xs i j hi hj fits distinct c d hc hd e =
    let place = at-exchanged xs i j (omega arith) (omega arith) in
    ground (
      arith,
      place c,
      place d,
      distinct c d,
      distinct c i,
      distinct c j,
      distinct i d,
      distinct j d,
      distinct i j,
    )

pub Swaps-IsDistinct :
    {S : Type 0} {cb : Callbacks S} {n : ℕ} {ys : List ℕ} {t : S} {xs : List ℕ} {s : S}
    → Swaps cb n ys t xs s
    → n ≤ length xs
    → IsDistinct n xs
    → IsDistinct n ys
Swaps-IsDistinct stay h d = d
Swaps-IsDistinct {n = n} (exchange {xs = xs} i j hi hj w) h d =
    Swaps-IsDistinct w (omega (arith, length-exchanged xs i j))
      (exchanged-IsDistinct n xs i j hi hj h d)

module _ {S : Type 0} (cb : Callbacks S) (cookie : S → ℕ → ℕ) (client : Remembers cb cookie)
    (n : ℕ) where
  exchanged-IsTracked :
      (xs : List ℕ) (i j : ℕ) (s : S)
      → i < n
      → j < n
      → n ≤ length xs
      → IsDistinct n xs
      → IsTracked cookie n xs s
      → IsTracked cookie n (exchanged xs i j) (notify cb (notify cb s (at xs j) i) (at xs i) j)
  exchanged-IsTracked xs i j s hi hj fits distinct tracked c hc =
      let place = at-exchanged xs i j (omega arith) (omega arith) in
      ground (
        arith,
        place c,
        cookie-notify cb cookie client (notify cb s (at xs j) i) (at xs i) j
            (at (exchanged xs i j) c),
        cookie-notify cb cookie client s (at xs j) i (at (exchanged xs i j) c),
        distinct c i,
        distinct c j,
        distinct i j,
        tracked c,
      )

  -- Exchanges keep every record cookie up to date.
  pub Swaps-IsTracked :
      {ys : List ℕ} {t : S} {xs : List ℕ} {s : S}
      → Swaps cb n ys t xs s
      → n ≤ length xs
      → IsDistinct n xs
      → IsTracked cookie n xs s
      → IsTracked cookie n ys t
  Swaps-IsTracked stay h d k = k
  Swaps-IsTracked (exchange {xs = xs} {s = s} i j hi hj w) h d k =
      Swaps-IsTracked w (omega (arith, length-exchanged xs i j))
        (exchanged-IsDistinct n xs i j hi hj h d) (exchanged-IsTracked xs i j s hi hj h d k)
