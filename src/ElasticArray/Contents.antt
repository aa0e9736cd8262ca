-- ===== src/ElasticArray/Contents.antt =====
-- datastruct/elasticarray.c: what each call does to the bytes that the array holds.
use mathlib.Core.List.{append-nil}
use native.Mathlib.Decide.{dec_lt}
use native.Mathlib.Nat.{mod-eq_of_lt, le-div_iff_mul-le, div-lt_iff_lt-mul}
use libcperciva.Prelude.{
  ℕ, ◌+◌, ◌-◌, ◌*◌, ◌/◌, ◌^◌, ◌≤◌, ◌<◌, ◌≡◌, refl, ap, sym, ◌∙◌, [], ◌++◌, List, Bool, true, false,
  ◌↔◌, inl, inr, arith, ◌>>=◌, ◌∷◌, ltb→lt, lt→ltb, ltb-false_of_le, fail, Keeps, Returns,
  Returns-Keeps, Returns-recover, Returns-recover_done, Returns-map, Keeps-map, Returns-if,
  Returns-bind, Keeps-bind, Cell, size_max, memcpy, length-memcpy, take, drop, length, length-take,
  take-take, take_all, take-append_left, take-append_add, Bool-cases, ltb, size_t, if-elim,
  le_of_ltb-false,
}
use libcperciva.ElasticArray.{ElasticArray, resize, copy_in, append, kept, shrink}
use libcperciva.ElasticArray.Valid.{IsValid, Resized, resize-Returns, resize-Keeps}

nil_of_length {ℓ} : {A : Type ℓ} (xs : List A) → length xs ≡ 0 → xs ≡ []
nil_of_length [] h = refl
nil_of_length (x ∷ xs) h = absurd (omega arith)

-- The bytes that the array holds.
abbrev pub contents : ElasticArray → List Cell
contents ea = take ea.size ea.buf

pub length-contents : (ea : ElasticArray) → IsValid ea → length (contents ea) ≡ ea.size
length-contents ea v = omega (arith, length-take ea.size ea.buf, v.within, v.whole)

-- C's test for the overflow of `nrec * reclen`.
pub product_fits :
    (nrec reclen : ℕ)
    → 0 < reclen
    → (ltb (size_max / reclen) nrec ≡ false) ↔ (nrec * reclen < 2 ^ 64)
product_fits nrec reclen h = (
  λ e. omega (arith, (le-div_iff_mul-le {x = nrec} {y = size_max} h).0 (ground arith)),
  λ p. let q = (le-div_iff_mul-le {x = nrec} {y = size_max} h).1 (omega arith) in ground arith,
)

-- The array holds the first `n` bytes of `ea`, and nothing else.
pub record Holds (cells : List Cell) (ea' : ElasticArray) : Type 0 where
  pub valid : IsValid ea'
  pub holds : contents ea' ≡ cells
  pub tight : ea'.alloc / 4 ≤ ea'.size

module _ (ea : ElasticArray) (v : IsValid ea) (src : List Cell) (nrec reclen : ℕ) where
  memcpy-contents :
      (ea' : ElasticArray)
      → Resized ea (ea.size + nrec * reclen) ea'
      → length src ≡ nrec * reclen
      → Holds (contents ea ++ src) (record ea' { buf = memcpy ea'.buf ea.size src (nrec * reclen) })
  unfolding memcpy
  memcpy-contents ea' r len = record {
    valid = record {
      within = r.valid.within;
      whole = length-memcpy ea'.buf ea.size src n (omega (arith, len)) room ∙ r.valid.whole;
      addressable = r.valid.addressable;
    };
    holds = rw (
      r.sized,
      take-append_add ea.size n (take ea.size ea'.buf) (take n src ++ drop (ea.size + n) ea'.buf)
          front,
      take-append_left n (take n src) (drop (ea.size + n) ea'.buf)
          (omega (arith, length-take n src)),
      take-take n n src (omega arith),
      take_all n src (omega (arith, len)),
      r.same ea.size (omega arith) (omega arith),
    );
    tight = omega (arith, r.tight, r.sized);
  }
    where
      n : ℕ
      n = nrec * reclen

      room : ea.size + n ≤ length ea'.buf
      room = omega (arith, r.valid.within, r.valid.whole, r.sized)

      front : length (take ea.size ea'.buf) ≡ ea.size
      front = omega (arith, length-take ea.size ea'.buf, room)

-- Records of a positive length that would take a valid array to 2 ^ 64 bytes or more are refused,
-- whatever the allocator says, also where the product of number and length wraps.
pub append_overflow :
    (ea : ElasticArray)
    → IsValid ea
    → (src : List Cell) (nrec reclen : ℕ) → 0 < reclen
    → (granted : Bool) → 2 ^ 64 ≤ ea.size + nrec * reclen
    → append granted ea src nrec reclen ≡ fail
unfolding append
append_overflow ea v src nrec reclen pos granted over =
    elim (Bool-cases (ltb (size_max / reclen) nrec)) [
      | inl big ↦ rw big
      | inr small ↦
          let p = (product_fits nrec reclen pos).0 small in
          let whole : size_t (nrec * reclen) ≡ nrec * reclen = mod-eq_of_lt p in
          let e : ltb (size_max - ea.size) (nrec * reclen) ≡ true =
            lt→ltb _ _ (omega (arith, v.within, v.addressable)) in
          rw (small, whole, e)
    ]

module _ (ea : ElasticArray) (v : IsValid ea) (src : List Cell) (nrec reclen : ℕ) (pos : 0 < reclen)
    (len : length src ≡ nrec * reclen) where
  copy_in-Returns :
      (ea' : ElasticArray)
      → ea.size + nrec * reclen < 2 ^ 64
      → Resized ea (ea.size + nrec * reclen) ea'
      → Returns
          (Holds (contents ea ++ src))
          (copy_in ea' ea.size src nrec (nrec * reclen) (ea.size + nrec * reclen))
  unfolding copy_in
  copy_in-Returns ea' room r =
      Returns-if (Holds (contents ea ++ src)) (ltb 0 nrec) _ _
        (λ more.
          let p : 0 < nrec = ltb→lt 0 nrec more in
          let q : 0 < nrec * reclen = grind arith in
          let e : ltb 0 (ea.size + nrec * reclen) ≡ true = lt→ltb 0 _ (omega arith) in
          rw e (memcpy-contents ea v src nrec reclen ea' r len))
        (λ none_left.
          let z : nrec ≡ 0 = ground arith in
          let e : nrec * reclen ≡ 0 = rw z (omega arith) in
          record {
            valid = r.valid;
            holds =
                rw
                  (
                    r.sized,
                    nil_of_length src (len ∙ e),
                    append-nil (take ea.size ea.buf),
                    ← r.same ea.size (omega arith) (omega arith),
                  )
                  (ap (λ k. take k ea'.buf) (omega (arith, e)));
            tight = omega (arith, r.tight, r.sized);
          })

  module _ (room : ea.size + nrec * reclen < 2 ^ 64) where
    -- Without overflow `elasticarray_append` is a resize and a copy.
    append_unfolded :
        (granted : Bool)
        → append granted ea src nrec reclen ≡ (
            resize granted ea (ea.size + nrec * reclen) >>= λ ea'.
            copy_in ea' ea.size src nrec (nrec * reclen) (ea.size + nrec * reclen))
    unfolding append
    append_unfolded granted = rw (fits, whole, room_left, mod-eq_of_lt room)
      where
        whole : size_t (nrec * reclen) ≡ nrec * reclen
        whole = mod-eq_of_lt (omega arith)

        fits : ltb (size_max / reclen) nrec ≡ false
        fits = (product_fits nrec reclen pos).1 (omega arith)

        room_left : ltb (size_max - ea.size) (nrec * reclen) ≡ false
        room_left = ltb-false_of_le _ _ (omega arith)

    -- Appending `nrec` records of a positive length to a valid array, with the memory granted and
    -- the sum of the sizes below 2 ^ 64, succeeds. It leaves a valid array within its memory bound,
    -- of the old bytes followed by the new ones.
    pub append-Returns : Returns (Holds (contents ea ++ src)) (append true ea src nrec reclen)
    append-Returns = rw (append_unfolded true) (
        Returns-bind _ _ (resize true ea (ea.size + nrec * reclen)) _
          (resize-Returns ea (ea.size + nrec * reclen) v room)
          (λ ea' r. copy_in-Returns ea' room r))

    append-Keeps_room :
        (granted : Bool) → Keeps (Holds (contents ea ++ src)) (append granted ea src nrec reclen)
    append-Keeps_room granted = rw (append_unfolded granted) (
        Keeps-bind _ _ (resize granted ea (ea.size + nrec * reclen)) _
          (resize-Keeps ea (ea.size + nrec * reclen) v room granted)
          (λ ea' r. Returns-Keeps (Holds (contents ea ++ src)) _ (copy_in-Returns ea' room r)))

  -- Whatever the allocator says, appending `nrec` records of a positive length to a valid array
  -- fails no assertion and stays inside the buffer; if it succeeds, it leaves a valid array within
  -- its memory bound, of the old bytes followed by the new ones.
  pub append-Keeps :
      (granted : Bool) → Keeps (Holds (contents ea ++ src)) (append granted ea src nrec reclen)
  append-Keeps granted = elim (dec_lt (ea.size + nrec * reclen) (2 ^ 64)) [
    | yes room ↦ append-Keeps_room room granted
    | no over ↦ rw (append_overflow ea v src nrec reclen pos granted (omega arith)) tt
  ]

module _ (ea : ElasticArray) (v : IsValid ea) (nrec reclen : ℕ) (pos : 0 < reclen) where
  kept-eq : kept ea.size nrec reclen ≡ ea.size - nrec * reclen
  unfolding kept
  kept-eq = elim (Bool-cases (ltb (size_max / reclen) nrec)) [
    | inl big ↦
        let p : size_max < nrec * reclen =
          (div-lt_iff_lt-mul {x = size_max} {y = nrec} pos).0 (ltb→lt _ _ big) in
        rw big (omega (arith, v.within, v.addressable))
    | inr small ↦
        let p = (product_fits nrec reclen pos).0 small in
        let whole : size_t (nrec * reclen) ≡ nrec * reclen = mod-eq_of_lt p in
        rw (small, whole)
          (if-elim (λ n. n ≡ ea.size - nrec * reclen) (ltb ea.size (nrec * reclen)) 0 _
            (λ e. let few = ltb→lt ea.size (nrec * reclen) e in omega arith)
            (λ e.
              let enough = le_of_ltb-false ea.size (nrec * reclen) e in
              omega (arith, v.within, v.addressable)))
  ]

  -- `elasticarray_shrink` with a positive record length succeeds on a valid array, also where the
  -- allocator cannot move the buffer. It leaves a valid array of the bytes but for those of the
  -- last `nrec` records, or of no bytes if there are fewer.
  pub shrink-Returns :
      (granted : Bool)
      → Returns
          (λ ea'.
            IsValid ea'
            × (contents ea' ≡ take (ea.size - nrec * reclen) (contents ea))
            × (ea'.size ≡ ea.size - nrec * reclen))
          (shrink granted ea nrec reclen)
  unfolding shrink
  shrink-Returns granted =
      rw (kept-eq, shrink)
        (Returns-recover Left (resize granted ea n) _
          (Keeps-map (Resized ea n) Left resized (resize granted ea n)
            (resize-Keeps ea n v (omega (arith, v.within, v.addressable)) granted))
          (
            record {
              within = omega (arith, v.within);
              whole = v.whole;
              addressable = v.addressable;
            },
            sym (take-take n ea.size ea.buf (omega arith)),
            refl,
          ))
    where
      n : ℕ
      n = ea.size - nrec * reclen

      Left : ElasticArray → Type 0
      Left ea' = IsValid ea' × (contents ea' ≡ take n (contents ea)) × (ea'.size ≡ n)

      resized : (ea' : ElasticArray) → Resized ea n ea' → Left ea'
      resized ea' r = (
        r.valid,
        ap (λ k. take k ea'.buf) r.sized
            ∙ r.same n (omega arith) (omega arith)
            ∙ sym (take-take n ea.size ea.buf (omega arith)),
        r.sized,
      )

  -- If the allocator grants a smaller buffer, `elasticarray_shrink` with a positive record length
  -- succeeds on a valid array, and a quarter of the resulting allocation, rounded down, is not
  -- above the resulting size.
  pub shrink_tight : Returns (λ ea'. ea'.alloc / 4 ≤ ea'.size) (shrink true ea nrec reclen)
  unfolding shrink
  shrink_tight =
      rw (kept-eq, shrink)
        (Returns-recover_done Tight (resize true ea n) _ (
          Returns-map (Resized ea n) Tight (λ ea' r. omega (arith, r.tight, r.sized))
            (resize true ea n) (resize-Returns ea n v (omega (arith, v.within, v.addressable)))))
    where
      n : ℕ
      n = ea.size - nrec * reclen

      Tight : ElasticArray → Type 0
      Tight ea' = ea'.alloc / 4 ≤ ea'.size
