-- ===== src/NetbufWrite.antt =====
-- netbuf/netbuf_write.c: the buffered writer. What `malloc` and `network_write` (or its TLS
-- variant) answer are arguments; that `network_write` wants between 1 and SSIZE_MAX bytes is
-- written out. The completion of a write is a call of `writbuf`.
pub mod Valid
pub mod Poke
pub mod Bytes
use libcperciva.Prelude.{
  ssize_max, ℕ, ◌+◌, ◌-◌, ◌^◌, List, [], ◌∷◌, ◌++◌, map, Bool, true, false, not, ◌||◌, ltb, leb,
  ◌==◌, if◌then◌else◌, Option, none, some, Outcome, done, fail, abort, ◌>>=◌, assert, Cell, length,
  replicate, memcpy, size_t, is_none,
}

pub record WriteBuf : Type 0 where
  pub buf : List Cell
  pub buflen : ℕ
  pub datalen : ℕ

-- `write_cookie` says whether a write is in progress.
pub record Writer : Type 0 where
  pub reserved : Bool
  pub failed : Bool
  pub buffers : List WriteBuf
  pub write_cookie : Bool
  pub curr : Option WriteBuf

abbrev wbuflen : ℕ
wbuflen = 4096

-- `memory` says whether `malloc` succeeds; the socket's options are left aside.
unfoldable pub init2 : Bool → Outcome Writer
init2 memory =
    if memory
    then done (record {
      reserved = false;
      failed = false;
      buffers = [];
      write_cookie = false;
      curr = none;
    })
    else fail

-- The start of a write of the first buffer, and whether the function returned 0.
unfoldable pub start_write : Bool → Writer → WriteBuf → List WriteBuf → Outcome (Writer × Bool)
start_write granted w wb rest = assert (not (wb.datalen == 0)) (
    assert (leb wb.datalen ssize_max) (
      if granted
      then done (record w { write_cookie = true; curr = some wb; buffers = rest }, true)
      else done (w, false)))

-- `poke` where the list of the buffers is this one.
unfoldable pub poke_first : Bool → Writer → List WriteBuf → Outcome (Writer × Bool)
poke_first granted w [] = done (w, true)
poke_first granted w (wb ∷ rest) =
    if w.write_cookie
    then done (w, true)
    else (if w.failed
        then done (w, true)
        else assert (is_none w.curr) (start_write granted w wb rest))

unfoldable pub poke : Bool → Writer → Outcome (Writer × Bool)
poke granted w = poke_first granted w w.buffers

-- Whether the last buffer has room for `len` more bytes.
unfoldable pub has_room : List WriteBuf → ℕ → Bool
has_room [] len = false
has_room (wb ∷ []) len = leb len (wb.buflen - wb.datalen)
has_room (wb ∷ next ∷ rest) len = has_room (next ∷ rest) len

-- The writer afterwards, and whether there is a reservation. `memory` says whether both calls of
-- `malloc` succeed.
unfoldable pub reserve : Bool → Writer → ℕ → Outcome (Writer × Bool)
reserve memory w len = assert (not w.reserved) (
    let buflen = if ltb wbuflen len then len else wbuflen in
    if has_room w.buffers len
    then done (record w { reserved = true }, true)
    else (if memory
        then (let wb : WriteBuf = record {
          buf = replicate buflen none;
          buflen = buflen;
          datalen = 0;
        } in
            done (record w { reserved = true; buffers = w.buffers ++ (wb ∷ []) }, true))
        else done (record w { reserved = true }, false)))

-- What the client copies to the pointer that `reserve` returned.
unfoldable pub store_last : List WriteBuf → List ℕ → List WriteBuf
store_last [] bytes = []
store_last (wb ∷ []) bytes =
    record wb { buf = memcpy wb.buf wb.datalen (map some bytes) (length bytes) } ∷ []
store_last (wb ∷ next ∷ rest) bytes = wb ∷ store_last (next ∷ rest) bytes

-- `WB->datalen += len` for the last buffer.
unfoldable pub advance_last : List WriteBuf → ℕ → List WriteBuf
advance_last [] len = []
advance_last (wb ∷ []) len = record wb { datalen = size_t (wb.datalen + len) } ∷ []
advance_last (wb ∷ next ∷ rest) len = wb ∷ advance_last (next ∷ rest) len

-- The assertions that there is a buffer, and that it has the room, are one test.
unfoldable pub consume : Bool → Writer → ℕ → Outcome (Writer × Bool)
consume granted w len = assert w.reserved (
    assert (has_room w.buffers len) (
      poke granted (record w {
        buffers = if w.failed then w.buffers else advance_last w.buffers len;
        reserved = false;
      })))

unfoldable pub write : Bool → Bool → Writer → List ℕ → Outcome (Writer × Bool)
write memory granted w bytes =
    if w.failed
    then done (w, true)
    else (reserve memory w (length bytes) >>= λ r.
        if r.1
        then consume granted (record r.0 { buffers = store_last r.0.buffers bytes }) (length bytes)
        else done (r.0, false))

-- What `writbuf` does after its assertions on the write in progress: `writelen` is the number of
-- bytes written, or none for -1, whose cast to `size_t` is 2 ^ 64 - 1.
unfoldable pub written : Bool → Writer → WriteBuf → Option ℕ → Outcome (Writer × Bool)
written granted w wb writelen =
    let idle : Writer = record w { write_cookie = false; curr = none } in
    let whole : Bool = elim writelen [
      | none ↦ (2 ^ 64 - 1) == wb.datalen
      | some n ↦ n == wb.datalen
    ] in
    assert (not w.failed)
      (if whole then poke granted idle else done (record idle { failed = true }, true))

-- The writer afterwards and what `poke` returns; the failure callback runs where the writer has
-- failed.
unfoldable pub writbuf : Bool → Writer → Option ℕ → Outcome (Writer × Bool)
writbuf granted w writelen =
    assert (not w.reserved) (
      assert w.write_cookie
        (elim w.curr [ none ↦ abort | some wb ↦ written granted w wb writelen ]))
