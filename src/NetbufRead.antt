-- ===== src/NetbufRead.antt =====
-- netbuf/netbuf_read.c: the buffered reader. What `network_read` (or its TLS variant) and
-- `events_immediate_register` return are arguments; the reads that they complete and the immediate
-- callback are calls of `callback_read` and `callback_success`.
pub mod Valid
pub mod Calls
pub mod Stored
pub mod Bytes
use libcperciva.Prelude.{
  ssize_max, ◌==◌, ℕ, ◌+◌, ◌-◌, ◌*◌, List, [], ◌∷◌, ◌++◌, Bool, true, false, not, size_t, map, ltb,
  leb, if◌then◌else◌, Option, none, some, Outcome, done, fail, abort, ◌>>=◌, assert, Cell, length,
  take, drop, replicate, memcpy, is_none,
}

-- The callback and its cookie are one value `K`; a pending read keeps the least and the largest
-- number of bytes that it was asked for.
pub record Pending : Type 0 where
  pub room : ℕ
  pub at_least : ℕ

pub record Reader (K : Type 0) : Type 0 where
  pub callback : Option K
  pub read_cookie : Option Pending
  pub immediate_cookie : Bool
  pub buf : List Cell
  pub buflen : ℕ
  pub bufpos : ℕ
  pub datalen : ℕ

-- What the callback is told.
pub data Status : Type 0 where
  available : Status
  eof : Status
  failed : Status

module _ {K : Type 0} where
  -- `callback` is not set yet; `memory` says which of the two calls of `malloc` succeed.
  unfoldable pub init2 : Bool × Bool → Outcome (Reader K)
  init2 memory =
      if memory.0
      then (if memory.1
          then done (record {
            callback = none;
            read_cookie = none;
            immediate_cookie = false;
            buf = replicate 4096 none;
            buflen = 4096;
            bufpos = 0;
            datalen = 0;
          })
          else fail)
      else fail

  unfoldable pub peek : Reader K → List Cell
  peek r = take (r.datalen - r.bufpos) (drop r.bufpos r.buf)

  -- The reader afterwards, and whether the function returned 0. `memory` says whether `malloc`
  -- succeeds.
  unfoldable pub resize_buffer : Bool → Reader K → ℕ → Reader K × Bool
  resize_buffer memory r len =
      let doubled = size_t (r.buflen * 2) in
      let nbuflen = if ltb doubled len then len else doubled in
      let count = r.datalen - r.bufpos in
      if memory
      then (
        record r {
          buf = memcpy (replicate nbuflen none) 0 (drop r.bufpos r.buf) count;
          buflen = nbuflen;
          datalen = count;
          bufpos = 0;
        },
        true,
      )
      else (r, false)

  -- `memmove` of the data to the start of the buffer.
  unfoldable pub move_down : Reader K → Reader K
  move_down r =
      let count = r.datalen - r.bufpos in
      record r { buf = memcpy r.buf 0 (drop r.bufpos r.buf) count; datalen = count; bufpos = 0 }

  unfoldable pub enlarge : Bool → Reader K → ℕ → Reader K × Bool
  enlarge memory r len = if ltb r.buflen len then resize_buffer memory r len else (r, true)

  -- "Move data to start of buffer if needed."
  unfoldable pub place_data : ℕ → Reader K × Bool → Reader K × Bool
  place_data len (r, false) = (r, false)
  place_data len (r, true) = (if ltb (r.buflen - r.bufpos) len then move_down r else r, true)

  -- The resize and the move that make room for `len` bytes.
  unfoldable pub make_room : Bool → Reader K → ℕ → Reader K × Bool
  make_room memory r len = place_data len (enlarge memory r len)

  -- `network_read` (or the TLS variant) for the rest of the buffer: it asserts that it is asked for
  -- between 1 and SSIZE_MAX bytes.
  unfoldable pub start_read : Bool → Reader K → ℕ → Outcome (Reader K × Bool)
  start_read granted r len =
      let room = r.buflen - r.datalen in
      let asked : Pending = record { room = room; at_least = r.bufpos + len - r.datalen } in
      assert (not (room == 0)) (
        assert (leb room ssize_max)
          (if granted then done (record r { read_cookie = some asked }, true) else done (r, false)))

  -- `granted` says whether the event or the read can be registered.
  unfoldable pub wait : Bool → Bool → Reader K → ℕ → K → Outcome (Reader K × Bool)
  wait memory granted r len callback = assert (is_none r.read_cookie) (
      assert (not r.immediate_cookie) (
        let s : Reader K = record r { callback = some callback } in
        let roomy = make_room memory s len in
        if leb len (s.datalen - s.bufpos)
        then done (record s { immediate_cookie = granted }, granted)
        else (if roomy.1 then start_read granted roomy.0 len else done (roomy.0, false))))

  -- The reader that the callback sees, the callback, and its status.
  unfoldable pub callback_success : Reader K → Outcome (Reader K × Option K × Status)
  callback_success r =
      assert r.immediate_cookie
        (done (record r { immediate_cookie = false }, r.callback, available))

  -- `lenread` is `none` for an error, and otherwise the bytes that the read has stored.
  unfoldable pub callback_read : Reader K → Option (List ℕ) → Outcome (Reader K × Option K × Status)
  callback_read r lenread =
      let s : Reader K = record r { read_cookie = none } in
      assert (not (is_none r.read_cookie)) (elim lenread [
        | none ↦ done (s, r.callback, failed)
        | some bytes ↦ done (read_bytes s bytes)
      ])
    where
      read_bytes : Reader K → List ℕ → Reader K × Option K × Status
      read_bytes s [] = (s, s.callback, eof)
      read_bytes s (b ∷ bs) = (
        record s {
          buf = memcpy s.buf s.datalen (map some (b ∷ bs)) (length (b ∷ bs));
          datalen = size_t (s.datalen + length (b ∷ bs));
        },
        s.callback,
        available,
      )

  unfoldable pub wait_cancel : Reader K → Reader K
  wait_cancel r = record r { read_cookie = none; immediate_cookie = false }

  unfoldable pub consume : Reader K → ℕ → Outcome (Reader K)
  consume r len =
      assert (leb len (r.datalen - r.bufpos)) (done (record r { bufpos = size_t (r.bufpos + len) }))

  -- `netbuf_read_free` of a reader that is not NULL.
  unfoldable pub free : Reader K → Outcome Bool
  free r = assert (is_none r.read_cookie) (assert (not r.immediate_cookie) (done true))
