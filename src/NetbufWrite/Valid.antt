-- ===== src/NetbufWrite/Valid.antt =====
-- netbuf/netbuf_write.c: the queue of buffers, and what a write adds to it.
use mathlib.Core.List.{append_assoc, append-nil}
use libcperciva.Prelude.{
  ssize_max, ℕ, ◌+◌, ◌-◌, ◌≤◌, ◌<◌, ◌≡◌, refl, sym, ap, ◌∙◌, arith, List, [], ◌∷◌, ◌++◌, map, true,
  true-false, some, Cell, length, take, memcpy, size_t, length-memcpy, take-memcpy, take_all,
  leb_of_le, le_of_leb, length-map,
}
use native.Mathlib.Nat.{mod-eq_of_lt}
use libcperciva.NetbufWrite.{WriteBuf, has_room, store_last, advance_last}

-- The data of a buffer and of several.
abbrev pub data_of : WriteBuf → List Cell
data_of wb = take wb.datalen wb.buf

abbrev pub contents : List WriteBuf → List Cell
contents [] = []
contents (wb ∷ rest) = data_of wb ++ contents rest

abbrev pub Fits : WriteBuf → Type 0
Fits wb = (length wb.buf ≡ wb.buflen) × (wb.buflen ≤ ssize_max) × (wb.datalen ≤ wb.buflen)

-- Every buffer has data.
abbrev pub AllFull : List WriteBuf → Type 0
AllFull [] = Unit
AllFull (wb ∷ rest) = (Fits wb × (0 < wb.datalen)) × AllFull rest

-- The same, but for the last buffer.
abbrev pub AllReady : List WriteBuf → Type 0
AllReady [] = Unit
AllReady (wb ∷ []) = Fits wb
AllReady (wb ∷ next ∷ rest) = (Fits wb × (0 < wb.datalen)) × AllReady (next ∷ rest)

pub AllFull-AllReady : (bufs : List WriteBuf) → AllFull bufs → AllReady bufs
AllFull-AllReady [] h = tt
AllFull-AllReady (wb ∷ []) h = h.0.0
AllFull-AllReady (wb ∷ next ∷ rest) h = (h.0, AllFull-AllReady (next ∷ rest) h.1)

pub append-AllReady :
    (bufs : List WriteBuf) (wb : WriteBuf) → AllFull bufs → Fits wb → AllReady (bufs ++ (wb ∷ []))
append-AllReady [] wb h k = k
append-AllReady (b ∷ []) wb h k = (h.0, k)
append-AllReady (b ∷ c ∷ rest) wb h k = (h.0, append-AllReady (c ∷ rest) wb h.1 k)

pub append-has_room :
    (bufs : List WriteBuf) (wb : WriteBuf) (len : ℕ)
    → len ≤ wb.buflen - wb.datalen
    → has_room (bufs ++ (wb ∷ [])) len ≡ true
unfolding has_room
append-has_room [] wb len h = leb_of_le len (wb.buflen - wb.datalen) h
append-has_room (b ∷ []) wb len h = leb_of_le len (wb.buflen - wb.datalen) h
append-has_room (b ∷ c ∷ rest) wb len h = append-has_room (c ∷ rest) wb len h

pub append-contents :
    (bufs : List WriteBuf) (wb : WriteBuf)
    → contents (bufs ++ (wb ∷ [])) ≡ contents bufs ++ data_of wb
append-contents [] wb = append-nil (data_of wb)
append-contents (b ∷ bufs) wb =
    ap (data_of b ++◌) (append-contents bufs wb)
    ∙ sym (append_assoc (data_of b) (contents bufs) (data_of wb))

-- Where the last buffer is found does not depend on the first of two.
has_room_skip :
    (wb : WriteBuf) (l : List WriteBuf) (len : ℕ)
    → (n : WriteBuf) × (r : List WriteBuf) × (l ≡ n ∷ r)
    → has_room (wb ∷ l) len ≡ has_room l len
unfolding has_room
has_room_skip wb l len (n, r, e) =
    ap (λ k. has_room (wb ∷ k) len) e ∙ sym (ap (λ k. has_room k len) e)

advance_last_skip :
    (wb : WriteBuf) (l : List WriteBuf) (len : ℕ)
    → (n : WriteBuf) × (r : List WriteBuf) × (l ≡ n ∷ r)
    → advance_last (wb ∷ l) len ≡ wb ∷ advance_last l len
unfolding advance_last
advance_last_skip wb l len (n, r, e) =
    ap (λ k. advance_last (wb ∷ k) len) e ∙ sym (ap (λ k. wb ∷ advance_last k len) e)

store_last_shape :
    (wb : WriteBuf) (rest : List WriteBuf) (bytes : List ℕ)
    → (n : WriteBuf) × (r : List WriteBuf) × (store_last (wb ∷ rest) bytes ≡ n ∷ r)
unfolding store_last
store_last_shape wb [] bytes = (_, [], refl)
store_last_shape wb (next ∷ rest) bytes = (wb, store_last (next ∷ rest) bytes, refl)

pub has_room-store_last :
    (bufs : List WriteBuf) (bytes : List ℕ) (len : ℕ)
    → has_room (store_last bufs bytes) len ≡ has_room bufs len
unfolding has_room store_last
has_room-store_last [] bytes len = refl
has_room-store_last (wb ∷ []) bytes len = refl
has_room-store_last (wb ∷ next ∷ rest) bytes len =
    has_room_skip wb (store_last (next ∷ rest) bytes) len (store_last_shape next rest bytes)
    ∙ has_room-store_last (next ∷ rest) bytes len

-- The bytes come behind the data of the buffers.
pub advance_last-contents :
    (bufs : List WriteBuf) (bytes : List ℕ)
    → AllReady bufs
    → has_room bufs (length bytes) ≡ true
    → 0 < length bytes
    → AllFull (advance_last (store_last bufs bytes) (length bytes))
      × (contents (advance_last (store_last bufs bytes) (length bytes))
          ≡ contents bufs ++ map some bytes)
unfolding has_room store_last advance_last
advance_last-contents [] bytes ready room some_bytes = absurd (true-false (sym room))
advance_last-contents (wb ∷ []) bytes ready room some_bytes =
    let (size, small, inside) = ready in
    let count = length bytes in
    let chunk : List Cell = map some bytes in
    let same : length chunk ≡ count = length-map some bytes in
    let has = le_of_leb count (wb.buflen - wb.datalen) room in
    let end : size_t (wb.datalen + count) ≡ wb.datalen + count = mod-eq_of_lt (omega arith) in
    (
      (
        (
          (
            length-memcpy wb.buf wb.datalen chunk count (omega arith) (omega arith) ∙ size,
            small,
            omega arith,
          ),
          omega arith,
        ),
        tt,
      ),
      append-nil _
          ∙ ap (λ n. take n (memcpy wb.buf wb.datalen chunk count)) end
          ∙ take-memcpy wb.buf wb.datalen chunk count (omega arith) (omega arith)
          ∙ ap (data_of wb ++◌) (take_all count chunk (omega arith))
          ∙ ap (λ l. l ++ chunk) (sym (append-nil (data_of wb))),
    )
advance_last-contents (wb ∷ next ∷ rest) bytes ready room some_bytes =
    let stored = store_last (next ∷ rest) bytes in
    let step = advance_last_skip wb stored (length bytes) (store_last_shape next rest bytes) in
    let (full, same) = advance_last-contents (next ∷ rest) bytes ready.1 room some_bytes in
    rw (step) (
      (ready.0, full),
      ap (data_of wb ++◌) same
          ∙ sym (append_assoc (data_of wb) (contents (next ∷ rest)) (map some bytes)),
    )
