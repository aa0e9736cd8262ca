-- ===== src/ElasticArray/Lifetime.antt =====
-- datastruct/elasticarray.c: creation, resizing by records, truncation and export.
use mathlib.Core.List.{append-nil}
use native.Mathlib.Decide.{dec_lt}
use native.Mathlib.Nat.{mod-eq_of_lt}
use libcperciva.Prelude.{
  ℕ, ◌+◌, ◌*◌, ◌/◌, ◌^◌, ◌≤◌, ◌<◌, ◌≡◌, refl, ap, sym, ◌∙◌, [], ◌++◌, List, Bool, true, false, none,
  inl, inr, arith, lt→ltb, fail, Keeps, Returns, Returns-Keeps, Returns-if, Returns-bind,
  Keeps-bind, Keeps-if, Cell, size_max, realloc, memcpy, length-realloc, take, drop, replicate,
  drop_all, length-replicate, take-take, take_all, take-append_left, Bool-cases, ◌==◌, ltb,
}
use libcperciva.ElasticArray.{
  ElasticArray, resize, resize_records, fresh, init, getsize, truncate, export, exportdup,
}
use libcperciva.ElasticArray.Valid.{IsValid, Resized, resize-Returns, resize-Keeps}
use libcperciva.ElasticArray.Contents.{contents, product_fits}

module _ (ea : ElasticArray) (v : IsValid ea) (nrec reclen : ℕ) (pos : 0 < reclen) where
  resize_records_room :
      (granted : Bool)
      → nrec * reclen < 2 ^ 64
      → resize_records granted ea nrec reclen ≡ resize granted ea (nrec * reclen)
  unfolding resize_records
  resize_records_room granted room = rw ((product_fits nrec reclen pos).1 room, mod-eq_of_lt room)

  -- A size in bytes that does not fit `size_t` is refused.
  pub resize_records_overflow :
      (granted : Bool) → 2 ^ 64 ≤ nrec * reclen → resize_records granted ea nrec reclen ≡ fail
  unfolding resize_records
  resize_records_overflow granted over = elim (Bool-cases (ltb (size_max / reclen) nrec)) [
    | inl big ↦ rw big
    | inr small ↦ absurd (omega (arith, (product_fits nrec reclen pos).0 small))
  ]

  -- With memory at hand, and no overflow, resizing to a number of records succeeds.
  pub resize_records-Returns :
      nrec * reclen < 2 ^ 64
      → Returns (Resized ea (nrec * reclen)) (resize_records true ea nrec reclen)
  resize_records-Returns room =
      rw (resize_records_room true room) (resize-Returns ea (nrec * reclen) v room)

  pub resize_records-Keeps :
      (granted : Bool) → Keeps (Resized ea (nrec * reclen)) (resize_records granted ea nrec reclen)
  resize_records-Keeps granted = elim (dec_lt (nrec * reclen) (2 ^ 64)) [
    | yes room ↦
        rw (resize_records_room granted room) (resize-Keeps ea (nrec * reclen) v room granted)
    | no over ↦ rw (resize_records_overflow granted (omega arith)) tt
  ]

fresh-IsValid : IsValid fresh
fresh-IsValid = omega arith

-- A new array holds the requested bytes, and creation fails only for want of memory or by
-- overflow; a record length of zero is what the assertion is for.
pub init-Keeps :
    (granted_struct granted : Bool) (nrec reclen : ℕ)
    → 0 < reclen
    → Keeps (Resized fresh (nrec * reclen)) (init granted_struct granted nrec reclen)
unfolding init
init-Keeps false granted nrec reclen pos = rw (lt→ltb 0 reclen pos) tt
init-Keeps true granted nrec reclen pos =
    rw (lt→ltb 0 reclen pos) (resize_records-Keeps fresh fresh-IsValid nrec reclen pos granted)

pub init-Returns :
    (nrec reclen : ℕ)
    → 0 < reclen
    → nrec * reclen < 2 ^ 64
    → Returns (Resized fresh (nrec * reclen)) (init true true nrec reclen)
unfolding init
init-Returns nrec reclen pos room =
    rw (lt→ltb 0 reclen pos) (resize_records-Returns fresh fresh-IsValid nrec reclen pos room)

-- The array holds the same bytes, with no spare space.
pub record Trimmed (ea ea' : ElasticArray) : Type 0 where
  pub valid : IsValid ea'
  pub same : contents ea' ≡ contents ea
  pub exact : ea'.alloc ≡ ea'.size
  pub sized : ea'.size ≡ ea.size

module _ (ea : ElasticArray) (v : IsValid ea) where
  Trimmed-moved :
      Trimmed ea
        (record ea { alloc = ea.size; buf = take ea.size (ea.buf ++ replicate ea.size none) })
  Trimmed-moved = record {
    valid = record {
      within = omega arith;
      whole = length-realloc ea.buf ea.size;
      addressable = omega (arith, v.within, v.addressable);
    };
    same =
        take-take ea.size ea.size (ea.buf ++ replicate ea.size none) (omega arith)
        ∙ take-append_left ea.size ea.buf _ (omega (arith, v.within, v.whole));
    exact = refl;
    sized = refl;
  }

  Trimmed-empty : ea.size ≡ 0 → Trimmed ea (record ea { alloc = 0; buf = [] })
  Trimmed-empty z = record {
    valid = record { within = omega (arith, z); whole = refl; addressable = omega arith };
    same = rw z;
    exact = sym z;
    sized = refl;
  }

  Trimmed-already : ea.alloc ≤ ea.size → Trimmed ea ea
  Trimmed-already h = record {
    valid = v;
    same = refl;
    exact = omega (arith, v.within);
    sized = refl;
  }

  -- With the memory granted, `elasticarray_truncate` succeeds on a valid array, and leaves a valid
  -- array of the same bytes and size whose allocation is its size.
  pub truncate-Returns : Returns (Trimmed ea) (truncate true ea)
  unfolding truncate realloc
  truncate-Returns =
      Returns-if (Trimmed ea) (ea.size == 0) _ _ (λ z. Trimmed-empty (ground arith))
        (λ _.
          Returns-if (Trimmed ea) (ltb ea.size ea.alloc) _ _ (λ _. Trimmed-moved)
            (λ full. Trimmed-already (ground arith)))

  pub truncate-Keeps : (granted : Bool) → Keeps (Trimmed ea) (truncate granted ea)
  unfolding truncate realloc
  truncate-Keeps true = Returns-Keeps (Trimmed ea) _ truncate-Returns
  truncate-Keeps false =
      Keeps-if (Trimmed ea) (ea.size == 0) _ _ (λ z. Trimmed-empty (ground arith))
        (λ _.
          Keeps-if (Trimmed ea) (ltb ea.size ea.alloc) _ _ (λ _. tt)
            (λ full. Trimmed-already (ground arith)))

  -- What both exports hand out: the bytes of the array, and the number of whole records.
  abbrev pub Exported : ℕ → List Cell × ℕ → Type 0
  Exported reclen r = (r.0 ≡ contents ea) × (r.1 ≡ ea.size / reclen)

  Exported-Trimmed :
      (reclen : ℕ) (ea' : ElasticArray)
      → Trimmed ea ea'
      → Exported reclen (ea'.buf, getsize ea' reclen)
  unfolding getsize
  Exported-Trimmed reclen ea' t = (
    sym (take_all ea'.size ea'.buf (omega (arith, t.valid.whole, t.exact))) ∙ t.same,
    ap (λ k. k / reclen) t.sized,
  )

  -- With the memory granted, `elasticarray_export` succeeds on a valid array, and hands out a
  -- buffer of exactly the array's bytes and the number of whole records.
  pub export-Returns : (reclen : ℕ) → Returns (Exported reclen) (export true ea reclen)
  unfolding export
  export-Returns reclen =
      Returns-bind (Trimmed ea) (Exported reclen) (truncate true ea) _ truncate-Returns
        (Exported-Trimmed reclen)

  pub export-Keeps :
      (granted : Bool) (reclen : ℕ) → Keeps (Exported reclen) (export granted ea reclen)
  unfolding export
  export-Keeps granted reclen =
      Keeps-bind (Trimmed ea) (Exported reclen) (truncate granted ea) _ (truncate-Keeps granted)
        (Exported-Trimmed reclen)

  -- With the memory granted, `elasticarray_exportdup` succeeds on a valid array, and hands out a
  -- buffer of exactly the array's bytes and the number of whole records.
  pub exportdup-Returns : (reclen : ℕ) → Returns (Exported reclen) (exportdup true ea reclen)
  unfolding exportdup memcpy getsize
  exportdup-Returns reclen =
      Returns-if (Exported reclen) (ea.size == 0) _ _
        (λ z. let e : ea.size ≡ 0 = ground arith in (rw e, refl)) (λ _. (copied, refl))
    where
      copied :
          take ea.size ea.buf ++ drop (0 + ea.size) (replicate {A = Cell} ea.size none)
          ≡ contents ea
      copied =
          rw
            (drop_all (0 + ea.size) (replicate {A = Cell} ea.size none)
              (omega (arith, length-replicate {A = Cell} ea.size none)))
            (append-nil _)
