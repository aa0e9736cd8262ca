-- ===== src/NetbufWrite/Poke.antt =====
-- netbuf/netbuf_write.c: starting a write, reserving room, and consuming a reservation.
use mathlib.Core.List.{append_assoc, append-nil}
use libcperciva.Prelude.{
  ssize_max, ℕ, ◌≤◌, ◌<◌, ◌≡◌, ◌⊎◌, inl, inr, refl, subst, sym, ap, ap₂, ◌∙◌, arith, List, [], ◌∷◌,
  ◌++◌, map, Bool, true, false, true-false, not, ltb, leb, ◌==◌, if◌then◌else◌, if-elim, Option,
  none, some, Returns, Returns-if, Returns-assert, Returns-map, Cell, length, replicate,
  length-replicate, le_of_ltb-false, leb_of_le, is_none,
}
use libcperciva.NetbufWrite.{
  WriteBuf, Writer, wbuflen, start_write, poke_first, poke, has_room, reserve, store_last,
  advance_last, consume,
}
use libcperciva.NetbufWrite.Valid.{
  data_of, contents, AllFull, AllReady, AllFull-AllReady, append-AllReady, append-has_room,
  append-contents, has_room-store_last, advance_last-contents,
}

-- The data of the buffer that is being written.
abbrev pub in_flight : Option WriteBuf → List Cell
in_flight none = []
in_flight (some wb) = data_of wb

-- A write is in progress exactly if there is a buffer that is being written, nothing is reserved,
-- and no write has failed.
abbrev pub Works : Writer → Type 0
Works w =
    (w.reserved ≡ false)
    × (w.failed ≡ false)
    × AllFull w.buffers
    × (((w.write_cookie ≡ false) × (w.curr ≡ none))
        ⊎ ((w.write_cookie ≡ true) × ((wb : WriteBuf) × (w.curr ≡ some wb))))

-- The data that was accepted and not written yet, in order.
abbrev pub queued : Writer → List Cell
queued w = in_flight w.curr ++ contents w.buffers

abbrev pub HasQueued : List Cell → Writer × Bool → Type 0
HasQueued bytes r = Works r.0 × (queued r.0 ≡ bytes)

not_zero : (n : ℕ) → 0 < n → not (n == 0) ≡ true
not_zero n h = ground arith

start_write_lem :
    (granted : Bool) (w : Writer) (wb : WriteBuf) (rest : List WriteBuf)
    → Works w
    → w.curr ≡ none
    → w.buffers ≡ wb ∷ rest
    → Returns (HasQueued (queued w)) (start_write granted w wb rest)
unfolding start_write
start_write_lem granted w wb rest (free, sound, full, writes) idle e =
    let (((size, small, inside), has_data), others) = subst AllFull e full in
    Returns-assert _ (not (wb.datalen == 0)) _ (not_zero wb.datalen has_data) (
      Returns-assert _ (leb wb.datalen ssize_max) _ (leb_of_le wb.datalen ssize_max (omega arith)) (
        Returns-if _ granted _ _
          (λ g. (
            (free, sound, others, inr (refl, (wb, refl))),
            sym (ap₂ (λ c b. in_flight c ++ contents b) idle e),
          ))
          (λ g. ((free, sound, full, writes), refl))))

idle_curr : (w : Writer) → Works w → w.write_cookie ≡ false → w.curr ≡ none
idle_curr w (free, sound, full, inl (c, idle)) e = idle
idle_curr w (free, sound, full, inr (c, busy)) e = absurd (true-false (sym c ∙ e))

poke_first_lem :
    (granted : Bool) (w : Writer) (bufs : List WriteBuf)
    → Works w
    → w.buffers ≡ bufs
    → Returns (HasQueued (queued w)) (poke_first granted w bufs)
unfolding poke_first
poke_first_lem granted w [] works e = (works, refl)
poke_first_lem granted w (wb ∷ rest) works e =
    Returns-if _ w.write_cookie _ _ (λ c. (works, refl))
      (λ c.
        Returns-if _ w.failed _ _ (λ f. (works, refl))
          (λ f.
            let idle = idle_curr w works c in
            Returns-assert _ (is_none w.curr) _ (ap is_none idle)
              (start_write_lem granted w wb rest works idle e)))

pub poke_lem :
    (granted : Bool) (w : Writer) → Works w → Returns (HasQueued (queued w)) (poke granted w)
unfolding poke
poke_lem granted w works = poke_first_lem granted w w.buffers works refl

-- A reservation of `len` bytes that changes no data.
abbrev pub Reserved : Writer → ℕ → Writer × Bool → Type 0
Reserved w len (r, ok) =
    (ok ≡ true)
    × (r.reserved ≡ true)
    × AllReady r.buffers
    × (has_room r.buffers len ≡ true)
    × (contents r.buffers ≡ contents w.buffers)
    × (r.failed ≡ w.failed)
    × (r.write_cookie ≡ w.write_cookie)
    × (r.curr ≡ w.curr)

pub reserve_lem :
    (w : Writer) (len : ℕ)
    → Works w
    → len ≤ ssize_max
    → Returns (Reserved w len) (reserve true w len)
unfolding reserve
reserve_lem w len (free, sound, full, writes) small =
    let buflen = if ltb wbuflen len then len else wbuflen in
    let wb : WriteBuf = record { buf = replicate buflen none; buflen = buflen; datalen = 0 } in
    let (large, fits) =
      if-elim (λ n. (len ≤ n) × (n ≤ ssize_max)) (ltb wbuflen len) len wbuflen
        (λ e. (omega arith, small)) (λ e. (le_of_ltb-false wbuflen len e, omega arith)) in
    Returns-assert _ (not w.reserved) _ (ap not free) (
      Returns-if _ (has_room w.buffers len) _ _
        (λ e. (refl, refl, AllFull-AllReady w.buffers full, e, refl, refl, refl, refl))
        (λ e. (
          refl,
          refl,
          append-AllReady w.buffers wb full
              (length-replicate {A = Cell} buflen none, fits, omega arith),
          append-has_room w.buffers wb len (omega arith),
          append-contents w.buffers wb ∙ append-nil (contents w.buffers),
          refl,
          refl,
          refl,
        )))

pub consume_lem :
    (granted : Bool) (w r : Writer) (bytes : List ℕ)
    → Works w
    → 0 < length bytes
    → Reserved w (length bytes) (r, true)
    → Returns
        (HasQueued (queued w ++ map some bytes))
        (consume granted (record r { buffers = store_last r.buffers bytes }) (length bytes))
unfolding consume
consume_lem granted w r bytes (free, sound, full, writes) some_bytes
      (ok, held, ready, room, same, failing, going, current) =
    let (filled, longer) = advance_last-contents r.buffers bytes ready room some_bytes in
    let bufs = advance_last (store_last r.buffers bytes) (length bytes) in
    let next : Writer = record r { buffers = bufs; reserved = false } in
    let works : Works next = (
      refl,
      failing ∙ sound,
      filled,
      elim writes [
        | inl (c, i) ↦ inl (going ∙ c, current ∙ i)
        | inr (c, (wb, e)) ↦ inr (going ∙ c, (wb, current ∙ e))
      ],
    ) in
    let kept : queued next ≡ queued w ++ map some bytes =
      ap₂ (λ c b. in_flight c ++ b) current (longer ∙ ap (λ l. l ++ map some bytes) same)
      ∙ sym (append_assoc (in_flight w.curr) (contents w.buffers) (map some bytes)) in
    Returns-assert _ r.reserved _ held (
      Returns-assert _ (has_room (store_last r.buffers bytes) (length bytes)) _
        (has_room-store_last r.buffers bytes (length bytes) ∙ room)
        (subst
          (λ f. Returns (HasQueued (queued w ++ map some bytes)) (
            poke granted (record r {
              buffers = if f then store_last r.buffers bytes else bufs;
              reserved = false;
            })))
          (sym (failing ∙ sound))
          (Returns-map _ _ (λ end (v, s). (v, s ∙ kept)) (poke granted next)
            (poke_lem granted next works))))
