-- ===== src/ElasticArray/Valid.antt =====
-- datastruct/elasticarray.c: the invariant, and what `resize` does to an array.
use libcperciva.Prelude.{
  [], done, ℕ, ◌/◌, ◌^◌, ◌≤◌, ◌<◌, ◌≡◌, refl, ap, sym, ◌∙◌, ◌++◌, Bool, true, false, none, inl, inr,
  arith, Keeps, Returns, Returns-Keeps, realloc, take, length, replicate, length-realloc, take-take,
  take-append_left, Bool-cases, ◌==◌,
}
use libcperciva.ElasticArray.{ElasticArray, wanted, set_alloc, resize}

-- The buffer has the recorded length, and holds the array.
pub record IsValid (ea : ElasticArray) : Type 0 where
  pub within : ea.size ≤ ea.alloc
  pub whole : length ea.buf ≡ ea.alloc
  pub addressable : ea.alloc < 2 ^ 64

-- What a resize of `ea` to `nsize` bytes promises of its result.
pub record Resized (ea : ElasticArray) (nsize : ℕ) (ea' : ElasticArray) : Type 0 where
  pub valid : IsValid ea'
  pub sized : ea'.size ≡ nsize
  pub tight : ea'.alloc / 4 ≤ nsize
  pub same : (k : ℕ) → k ≤ ea.size → k ≤ nsize → take k ea'.buf ≡ take k ea.buf

pub wanted_bounds :
    (alloc nsize : ℕ)
    → alloc < 2 ^ 64
    → nsize < 2 ^ 64
    → (nsize ≤ wanted alloc nsize)
      × (wanted alloc nsize < 2 ^ 64)
      × (wanted alloc nsize / 4 ≤ nsize)
unfolding wanted
wanted_bounds alloc nsize ha hn = ground arith

module _ (ea : ElasticArray) (nsize : ℕ) (v : IsValid ea) where
  -- A reallocated buffer keeps what fits.
  realloc-Resized :
      (n : ℕ)
      → nsize ≤ n
      → n < 2 ^ 64
      → n / 4 ≤ nsize
      → Resized ea nsize
          (record { size = nsize; alloc = n; buf = take n (ea.buf ++ replicate n none) })
  realloc-Resized n h k t = record {
    valid = record { within = h; whole = length-realloc ea.buf n; addressable = k };
    sized = refl;
    tight = t;
    same = λ j p q.
        take-take j n (ea.buf ++ replicate n none) (omega arith)
        ∙ take-append_left j ea.buf (replicate n none) (omega (arith, v.within, v.whole));
  }

  -- Nothing is left of an array that is resized to nothing.
  empty-Resized : nsize ≡ 0 → Resized ea nsize (record { size = nsize; alloc = 0; buf = [] })
  empty-Resized e = record {
    valid = omega arith;
    sized = refl;
    tight = omega arith;
    same = λ k p q.
        let z : k ≡ 0 = omega arith in ap (λ j. take j []) z ∙ sym (ap (λ j. take j ea.buf) z);
  }

  -- A resize that needs no other buffer only records the size.
  reuse-Resized :
      nsize ≤ ea.alloc → ea.alloc / 4 ≤ nsize → Resized ea nsize (record ea { size = nsize })
  reuse-Resized h t = record {
    valid = record { within = h; whole = v.whole; addressable = v.addressable };
    sized = refl;
    tight = t;
    same = λ k p q. refl;
  }

  module _ (n : ℕ) (h : nsize ≤ n) (k : n < 2 ^ 64) (t : n / 4 ≤ nsize) where
    set_alloc-Returns : Returns (Resized ea nsize) (set_alloc true ea nsize n)
    unfolding set_alloc realloc
    set_alloc-Returns = elim (Bool-cases (n == 0)) [
      | inl z ↦
          let e : (nsize == 0) ≡ true = ground arith in rw (z, e) (empty-Resized (ground arith))
      | inr nz ↦ elim (Bool-cases (n == ea.alloc)) [
        | inl a ↦ rw (nz, a) (reuse-Resized (ground arith) (ground arith))
        | inr na ↦ rw (nz, na) (realloc-Resized n h k t)
      ]
    ]

    set_alloc-Keeps : Keeps (Resized ea nsize) (set_alloc false ea nsize n)
    unfolding set_alloc realloc
    set_alloc-Keeps = elim (Bool-cases (n == 0)) [
      | inl z ↦
          let e : (nsize == 0) ≡ true = ground arith in rw (z, e) (empty-Resized (ground arith))
      | inr nz ↦ elim (Bool-cases (n == ea.alloc)) [
        | inl a ↦ rw (nz, a) (reuse-Resized (ground arith) (ground arith))
        | inr na ↦ rw (nz, na) tt
      ]
    ]

  module _ (bound : nsize < 2 ^ 64) where
    -- With the memory granted, resizing a valid array to fewer than 2 ^ 64 bytes succeeds. It
    -- leaves a valid array of the new size, with a quarter of its allocation, rounded down, not
    -- above the size, and with the old bytes as far as they fit.
    pub resize-Returns : Returns (Resized ea nsize) (resize true ea nsize)
    unfolding resize
    resize-Returns =
        let (h, k, t) = wanted_bounds ea.alloc nsize v.addressable bound in
        set_alloc-Returns (wanted ea.alloc nsize) h k t

    -- Whatever the allocator says, no assertion of `resize` fails.
    pub resize-Keeps : (granted : Bool) → Keeps (Resized ea nsize) (resize granted ea nsize)
    unfolding resize
    resize-Keeps true = Returns-Keeps (Resized ea nsize) _ resize-Returns
    resize-Keeps false =
        let (h, k, t) = wanted_bounds ea.alloc nsize v.addressable bound in
        set_alloc-Keeps (wanted ea.alloc nsize) h k t

-- A resize that the new size's own buffer can serve needs no memory.
pub resize_in_place :
    (granted : Bool) (ea : ElasticArray) (nsize : ℕ)
    → 0 < nsize
    → nsize ≤ ea.alloc
    → ea.alloc / 4 ≤ nsize
    → resize granted ea nsize ≡ done (record ea { size = nsize })
unfolding resize wanted
resize_in_place granted ea nsize h k t = ground arith
