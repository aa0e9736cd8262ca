-- ===== src/ElasticArray.antt =====
-- datastruct/elasticarray.c: the functions on byte arrays that grow and shrink.
-- The allocator's answer is an argument: `granted` says whether the call's allocation succeeds.
pub mod Valid
pub mod Contents
pub mod Lifetime
use libcperciva.Prelude.{
  ℕ, ◌+◌, ◌-◌, ◌*◌, ◌/◌, ◌^◌, Bool, ◌||◌, Option, none, some, List, [], Outcome, done, fail, assert,
  recover, ◌>>=◌, Cell, size_max, size_t, realloc, memcpy, take, drop, replicate, ltb, ◌==◌,
  if◌then◌else◌, not,
}

pub record ElasticArray : Type 0 where
  pub size : ℕ
  pub alloc : ℕ
  pub buf : List Cell

-- The allocation that `resize` wants.
unfoldable pub wanted : ℕ → ℕ → ℕ
wanted alloc nsize =
    if ltb alloc nsize
    then (let nalloc = size_t (alloc * 2) in if ltb nalloc nsize then nsize else nalloc)
    else if ltb nsize (alloc / 4)
    then size_t (nsize * 2)
    else alloc

-- `resize`, with the allocation that it wants.
set_alloc : Bool → ElasticArray → ℕ → ℕ → Outcome ElasticArray
set_alloc granted ea nsize nalloc =
    if nalloc == 0
    then assert (nsize == 0) (done (record { size = nsize; alloc = 0; buf = [] }))
    else if not (nalloc == ea.alloc)
    then elim (realloc granted ea.buf nalloc) [
      | none ↦ fail
      | some nbuf ↦ done (record { size = nsize; alloc = nalloc; buf = nbuf })
    ]
    else done (record ea { size = nsize })

unfoldable pub resize : Bool → ElasticArray → ℕ → Outcome ElasticArray
unfolding set_alloc
resize granted ea nsize = set_alloc granted ea nsize (wanted ea.alloc nsize)

-- `elasticarray_resize`.
unfoldable pub resize_records : Bool → ElasticArray → ℕ → ℕ → Outcome ElasticArray
resize_records granted ea nrec reclen =
    if ltb (size_max / reclen) nrec then fail else resize granted ea (size_t (nrec * reclen))

abbrev pub fresh : ElasticArray
fresh = record { size = 0; alloc = 0; buf = [] }

-- `elasticarray_init`; the first flag is about the structure, the second about its buffer.
unfoldable pub init : Bool → Bool → ℕ → ℕ → Outcome ElasticArray
init granted_struct granted nrec reclen =
    assert (ltb 0 reclen)
      (if granted_struct then resize_records granted fresh nrec reclen else fail)

unfoldable pub getsize : ElasticArray → ℕ → ℕ
getsize ea reclen = ea.size / reclen

-- The copy at the end of `elasticarray_append`, to the bytes from `bufpos` of the resized array.
unfoldable pub copy_in : ElasticArray → ℕ → List Cell → ℕ → ℕ → ℕ → Outcome ElasticArray
copy_in ea bufpos src nrec nbytes nsize =
    if ltb 0 nrec
    then assert (ltb 0 nsize) (done (record ea { buf = memcpy ea.buf bufpos src nbytes }))
    else done ea

-- `elasticarray_append`; `src` is what `buf` points to.
unfoldable pub append : Bool → ElasticArray → List Cell → ℕ → ℕ → Outcome ElasticArray
append granted ea src nrec reclen =
    let nbytes = size_t (nrec * reclen) in
    if ltb (size_max / reclen) nrec || ltb (size_max - ea.size) nbytes
    then fail
    else (let nsize = size_t (ea.size + nbytes) in
        resize granted ea nsize >>= λ ea'. copy_in ea' ea.size src nrec nbytes nsize)

-- The number of bytes that `elasticarray_shrink` keeps; C's product and difference wrap.
unfoldable pub kept : ℕ → ℕ → ℕ → ℕ
kept size nrec reclen =
    let nbytes = size_t (nrec * reclen) in
    if ltb (size_max / reclen) nrec || ltb size nbytes then 0 else size_t (size + 2 ^ 64 - nbytes)

-- If the buffer cannot be moved, the old one goes on being used.
unfoldable pub shrink : Bool → ElasticArray → ℕ → ℕ → Outcome ElasticArray
shrink granted ea nrec reclen =
    let nsize = kept ea.size nrec reclen in
    recover (resize granted ea nsize) (record ea { size = nsize })

unfoldable pub truncate : Bool → ElasticArray → Outcome ElasticArray
truncate granted ea =
    if ea.size == 0
    then done (record ea { alloc = 0; buf = [] })
    else if ltb ea.size ea.alloc
    then elim (realloc granted ea.buf ea.size) [
      | none ↦ fail
      | some nbuf ↦ done (record ea { buf = nbuf; alloc = ea.size })
    ]
    else done ea

-- `elasticarray_get`: the offset in `buf` of the pointer that it returns.
abbrev pub get : ℕ → ℕ → ℕ
get pos reclen = size_t (pos * reclen)

-- The `n` cells behind a pointer into `buf`.
abbrev pub load : ElasticArray → ℕ → ℕ → List Cell
load ea offset n = take n (drop offset ea.buf)

-- `elasticarray_export`: the caller gets the buffer and the number of records, and the
-- structure is gone.
unfoldable pub export : Bool → ElasticArray → ℕ → Outcome (List Cell × ℕ)
export granted ea reclen = truncate granted ea >>= λ ea'. done (ea'.buf, getsize ea' reclen)

-- `elasticarray_exportdup`: the array stays as it is.
unfoldable pub exportdup : Bool → ElasticArray → ℕ → Outcome (List Cell × ℕ)
exportdup granted ea reclen =
    if ea.size == 0
    then done ([], getsize ea reclen)
    else if granted
    then done (memcpy (replicate ea.size none) 0 ea.buf ea.size, getsize ea reclen)
    else fail
