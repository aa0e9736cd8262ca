-- ===== src/NetbufRead/Stored.antt =====
-- netbuf/netbuf_read.c: what a completed read makes available, and consumption.
use libcperciva.Prelude.{
  ℕ, ◌+◌, ◌-◌, ◌≤◌, ◌≡◌, refl, subst, sym, ap, ap₂, ◌∙◌, arith, List, ◌∷◌, ◌++◌, map, not, leb,
  Returns, Returns-assert, some, Cell, length, take, drop, memcpy, size_t, length-memcpy,
  take-memcpy, length-take, leb_of_le, drop-take, take_all, drop-drop, drop_append_left, take-take,
  take_add, length-map, is_none,
}
use native.Mathlib.Nat.{mod-eq_of_lt}
use libcperciva.NetbufRead.{Pending, Reader, available, peek, callback_read, consume}
use libcperciva.NetbufRead.Valid.{Fits, Valid}
use libcperciva.NetbufRead.Calls.{length-peek}

-- What stands from one position of a buffer to another, with more copied behind it.
window-memcpy :
    (buf chunk : List Cell) (from to end : ℕ)
    → from ≤ to
    → to ≤ length buf
    → end ≡ to + length chunk
    → take (end - from) (drop from (memcpy buf to chunk (length chunk)))
      ≡ take (to - from) (drop from buf) ++ chunk
window-memcpy buf chunk from to end order inside e =
    let stored = memcpy buf to chunk (length chunk) in
    let whole : from + (end - from) ≡ to + length chunk = omega arith in
    let before : from + (to - from) ≡ to = omega arith in
    sym (drop-take from (end - from) stored)
    ∙ ap (drop from) (
        ap (λ n. take n stored) whole
        ∙ take-memcpy buf to chunk (length chunk) inside (omega arith)
        ∙ ap (take to buf ++◌) (take_all (length chunk) chunk (omega arith)))
    ∙ drop_append_left from (take to buf) chunk (omega (arith, length-take to buf))
    ∙ ap (λ l. l ++ chunk)
        (ap (λ n. drop from (take n buf)) (sym before) ∙ drop-take from (to - from) buf)

module _ {K : Type 0} where
  -- The reader after the bytes of a read: they are available behind what was.
  pub callback_read-some :
      (r : Reader K) (p : Pending) (b : ℕ) (bs : List ℕ)
      → Valid r
      → r.read_cookie ≡ some p
      → length (b ∷ bs) ≤ p.room
      → Returns
          (λ end.
            Valid end.0
            × (peek end.0 ≡ peek r ++ map some (b ∷ bs))
            × (end.1 ≡ r.callback)
            × (end.2 ≡ available))
          (callback_read r (some (b ∷ bs)))
  unfolding callback_read peek
  callback_read-some r p b bs valid reading fit =
      let (size, small, order, inside, fits) = valid in
      let count = length (b ∷ bs) in
      let chunk : List Cell = map some (b ∷ bs) in
      let same : length chunk ≡ count = length-map some (b ∷ bs) in
      let room : r.datalen + p.room ≤ r.buflen =
        subst (λ q. Fits q r.datalen r.buflen) reading fits in
      let end : size_t (r.datalen + count) ≡ r.datalen + count = mod-eq_of_lt (omega arith) in
      Returns-assert _ (not (is_none r.read_cookie)) _ (ap (λ q. not (is_none q)) reading) (
        (
          length-memcpy r.buf r.datalen chunk count (omega arith) (omega arith) ∙ size,
          small,
          omega arith,
          omega arith,
          tt,
        ),
        ap
              (λ n.
                take (size_t (r.datalen + count) - r.bufpos)
                  (drop r.bufpos (memcpy r.buf r.datalen chunk n)))
              (sym same)
            ∙ window-memcpy r.buf chunk r.bufpos r.datalen (size_t (r.datalen + count)) order
                (omega arith) (omega arith),
        refl,
        refl,
      )

  pub consume_lem :
      (r : Reader K) (len : ℕ)
      → Valid r
      → len ≤ length (peek r)
      → Returns
          (λ s. Valid s × (take len (peek r) ++ peek s ≡ peek r) × (s.read_cookie ≡ r.read_cookie))
          (consume r len)
  unfolding consume peek
  consume_lem r len valid has =
      let n = r.datalen - r.bufpos in
      let rest = drop r.bufpos r.buf in
      let has_bytes : len ≤ n = omega (arith, length-peek r valid) in
      let (size, small, order, inside, fits) = valid in
      let pos : size_t (r.bufpos + len) ≡ r.bufpos + len = mod-eq_of_lt (omega arith) in
      let left : r.datalen - size_t (r.bufpos + len) ≡ n - len = omega arith in
      let split : len + (n - len) ≡ n = omega arith in
      Returns-assert _ (leb len n) _ (leb_of_le len n has_bytes) (
        (size, small, omega arith, inside, fits),
        ap₂ (λ a b. a ++ b) (take-take len n rest has_bytes)
              (ap₂ (λ k m. take k (drop m r.buf)) left pos
                ∙ ap (take (n - len)) (sym (drop-drop len r.bufpos r.buf)))
            ∙ sym (take_add len (n - len) rest)
            ∙ ap (λ k. take k rest) split,
        refl,
      )
