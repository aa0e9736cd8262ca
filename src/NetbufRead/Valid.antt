-- ===== src/NetbufRead/Valid.antt =====
-- netbuf/netbuf_read.c: the state of a reader, and making room in its buffer.
use libcperciva.Prelude.{
  ssize_max, true-false, ℕ, ◌+◌, ◌-◌, ◌*◌, ◌^◌, ◌≤◌, ◌<◌, ◌≡◌, refl, subst, sym, ap, ◌∙◌, arith,
  List, Bool, true, false, ltb, inl, inr, ◌⊎◌, if◌then◌else◌, if-elim, Option, none, some, Cell,
  length, take, drop, replicate, memcpy, size_t, ltb→lt, le_of_ltb-false, length-memcpy,
  take-memcpy, length-drop, length-replicate,
}
use libcperciva.NetbufRead.{
  Pending, Reader, peek, resize_buffer, move_down, enlarge, place_data, make_room,
}

-- What a pending read may store lies in the buffer behind the data.
abbrev pub Fits : Option Pending → ℕ → ℕ → Type 0
Fits none datalen buflen = Unit
Fits (some p) datalen buflen = datalen + p.room ≤ buflen

no_read : (p : Option Pending) (m n : ℕ) → p ≡ none → Fits p m n
no_read p m n h = subst (λ q. Fits q m n) (sym h) tt

-- What was copied to the start of a buffer.
moved :
    (dst src : List Cell) (count : ℕ)
    → count ≤ length src
    → take (count - 0) (drop 0 (memcpy dst 0 src count)) ≡ take count src
moved dst src count h =
    let e : count - 0 ≡ 0 + count = omega arith in
    ap (λ n. take n (memcpy dst 0 src count)) e ∙ take-memcpy dst 0 src count (omega arith) h

-- The size that the buffer grows to.
grown : ℕ → ℕ → ℕ
grown buflen len = if ltb (size_t (buflen * 2)) len then len else size_t (buflen * 2)

grown_enough :
    (buflen len : ℕ) → len < 2 ^ 64 → (len ≤ grown buflen len) × (grown buflen len < 2 ^ 64)
unfolding grown
grown_enough buflen len h =
    let doubled = size_t (buflen * 2) in
    if-elim (λ n. (len ≤ n) × (n < 2 ^ 64)) (ltb doubled len) len doubled (λ e. (omega arith, h))
      (λ e. (le_of_ltb-false doubled len e, omega arith))

module _ {K : Type 0} where
  abbrev pub Valid : Reader K → Type 0
  Valid r =
      (length r.buf ≡ r.buflen)
      × (r.buflen < 2 ^ 64)
      × (r.bufpos ≤ r.datalen)
      × (r.datalen ≤ r.buflen)
      × Fits r.read_cookie r.datalen r.buflen

  -- What is available is kept, and no read is pending.
  abbrev pub KeepsData : Reader K → Reader K → Type 0
  KeepsData r s =
      Valid s
      × (peek s ≡ peek r)
      × (s.read_cookie ≡ none)
      × (s.immediate_cookie ≡ r.immediate_cookie)

  -- The start of the buffer afterwards is what was available.
  move_down_lem :
      (r : Reader K)
      → Valid r
      → r.read_cookie ≡ none
      → Valid (move_down r) × (peek (move_down r) ≡ peek r)
  unfolding move_down peek
  move_down_lem r (size, small, order, inside, fits) idle =
      let count = r.datalen - r.bufpos in
      let rest = length-drop r.bufpos r.buf in
      (
        (
          length-memcpy r.buf 0 (drop r.bufpos r.buf) count (omega arith) (omega arith) ∙ size,
          small,
          omega arith,
          omega arith,
          no_read r.read_cookie count r.buflen idle,
        ),
        moved r.buf (drop r.bufpos r.buf) count (omega arith),
      )

  resize_buffer_lem :
      (memory : Bool) (r : Reader K) (len : ℕ)
      → Valid r
      → r.read_cookie ≡ none
      → r.buflen < len
      → len < 2 ^ 64
      → let s = resize_buffer memory r len in
        KeepsData r s.0
        × (((s.1 ≡ false) × (memory ≡ false)) ⊎ ((s.1 ≡ true) × (len ≤ s.0.buflen - s.0.bufpos)))
  unfolding resize_buffer peek grown
  resize_buffer_lem false r len valid idle short fit = ((valid, refl, idle, refl), inl (refl, refl))
  resize_buffer_lem true r len (size, small, order, inside, fits) idle short fit =
      let count = r.datalen - r.bufpos in
      let rest = length-drop r.bufpos r.buf in
      let fresh = length-replicate {A = Cell} (grown r.buflen len) none in
      let (enough, below) = grown_enough r.buflen len fit in
      (
        (
          (
            length-memcpy (replicate (grown r.buflen len) none) 0 (drop r.bufpos r.buf) count
                  (omega arith) (omega arith)
                ∙ fresh,
            below,
            omega arith,
            omega arith,
            no_read r.read_cookie count (grown r.buflen len) idle,
          ),
          moved (replicate (grown r.buflen len) none) (drop r.bufpos r.buf) count (omega arith),
          idle,
          refl,
        ),
        inr (refl, omega arith),
      )

  enlarge_lem :
      (memory : Bool) (r : Reader K) (len : ℕ)
      → Valid r
      → r.read_cookie ≡ none
      → len < 2 ^ 64
      → let s = enlarge memory r len in
        KeepsData r s.0 × (((s.1 ≡ false) × (memory ≡ false)) ⊎ ((s.1 ≡ true) × (len ≤ s.0.buflen)))
  unfolding enlarge
  enlarge_lem memory r len valid idle fit =
      if-elim
        (λ (s : Reader K × Bool).
          KeepsData r s.0
          × (((s.1 ≡ false) × (memory ≡ false)) ⊎ ((s.1 ≡ true) × (len ≤ s.0.buflen))))
        (ltb r.buflen len) (resize_buffer memory r len) (r, true)
        (λ e.
          let (kept, room) =
            resize_buffer_lem memory r len valid idle (ltb→lt r.buflen len e) fit in
          (kept, elim room [ inl f ↦ inl f | inr m ↦ inr (m.0, omega arith) ]))
        (λ e. ((valid, refl, idle, refl), inr (refl, le_of_ltb-false r.buflen len e)))

  place_data_lem :
      (memory : Bool) (r : Reader K) (len : ℕ) (s : Reader K × Bool)
      → KeepsData r s.0
      → (((s.1 ≡ false) × (memory ≡ false)) ⊎ ((s.1 ≡ true) × (len ≤ s.0.buflen)))
      → let t = place_data len s in
        KeepsData r t.0
        × (((t.1 ≡ false) × (memory ≡ false)) ⊎ ((t.1 ≡ true) × (len ≤ t.0.buflen - t.0.bufpos)))
  unfolding place_data move_down
  place_data_lem memory r len (s, false) kept (inl f) = (kept, inl f)
  place_data_lem memory r len (s, false) kept (inr m) = absurd (true-false (sym m.0))
  place_data_lem memory r len (s, true) (valid, same, idle, quiet) room =
      if-elim
        (λ (t : Reader K).
          KeepsData r t
          × (((true ≡ false) × (memory ≡ false)) ⊎ ((true ≡ true) × (len ≤ t.buflen - t.bufpos))))
        (ltb (s.buflen - s.bufpos) len) (move_down s) s
        (λ e.
          let (v, kept) = move_down_lem s valid idle in
          (
            (v, kept ∙ same, idle, quiet),
            elim room [ inl f ↦ inl f | inr m ↦ inr (m.0, omega arith) ],
          ))
        (λ e. ((valid, same, idle, quiet), inr (refl, le_of_ltb-false (s.buflen - s.bufpos) len e)))

  resize_buffer-buflen :
      (memory : Bool) (r : Reader K) (len : ℕ)
      → r.buflen < len
      → len ≤ 2 ^ 62
      → r.buflen ≤ ssize_max
      → (resize_buffer memory r len).0.buflen ≤ ssize_max
  unfolding resize_buffer
  resize_buffer-buflen false r len short few small = small
  resize_buffer-buflen true r len short few small =
      if-elim (λ n. n ≤ ssize_max) (ltb (size_t (r.buflen * 2)) len) len (size_t (r.buflen * 2))
        (λ e. omega arith) (λ e. omega arith)

  place_data-buflen :
      (len : ℕ) (s : Reader K × Bool)
      → s.0.buflen ≤ ssize_max
      → (place_data len s).0.buflen ≤ ssize_max
  unfolding place_data move_down
  place_data-buflen len (s, false) small = small
  place_data-buflen len (s, true) small =
      if-elim (λ (t : Reader K). t.buflen ≤ ssize_max) (ltb (s.buflen - s.bufpos) len) (move_down s)
        s (λ e. small) (λ e. small)

  -- Making room keeps what is available, and makes room for `len` bytes from its start on.
  pub make_room_lem :
      (memory : Bool) (r : Reader K) (len : ℕ)
      → Valid r
      → r.read_cookie ≡ none
      → len < 2 ^ 64
      → let s = make_room memory r len in
        KeepsData r s.0
        × (((s.1 ≡ false) × (memory ≡ false)) ⊎ ((s.1 ≡ true) × (len ≤ s.0.buflen - s.0.bufpos)))
  unfolding make_room
  make_room_lem memory r len valid idle fit =
      let (kept, room) = enlarge_lem memory r len valid idle fit in
      place_data_lem memory r len (enlarge memory r len) kept room

  -- A buffer that a `ssize_t` counts stays one, for requests of at most 2 ^ 62 bytes.
  pub make_room-buflen :
      (memory : Bool) (r : Reader K) (len : ℕ)
      → r.buflen ≤ ssize_max
      → len ≤ 2 ^ 62
      → (make_room memory r len).0.buflen ≤ ssize_max
  unfolding make_room enlarge
  make_room-buflen memory r len small few = place_data-buflen len (enlarge memory r len) (
      if-elim (λ (s : Reader K × Bool). s.0.buflen ≤ ssize_max) (ltb r.buflen len)
        (resize_buffer memory r len) (r, true)
        (λ e. resize_buffer-buflen memory r len (ltb→lt r.buflen len e) few small) (λ e. small))
