-- ===== src/NetworkIo/Read.antt =====
-- network/network_read.c: a read over the answers of `recv`.
use mathlib.Core.List.{append_assoc, append-nil}
use libcperciva.Prelude.{
  zero, suc, ◌-◌, ssize_max, ℕ, ◌+◌, ◌≤◌, ◌<◌, ◌≡◌, ◌⊎◌, inl, inr, refl, subst, sym, ap, ap₂, ◌∙◌,
  arith, List, [], ◌∷◌, ◌++◌, map, true, ltb, leb, Option, none, some, Outcome, done, ◌>>=◌,
  Returns, Returns-bind, Returns-if, Returns-assert, Cell, length, take, memcpy, size_t,
  length-append, length-memcpy, take-memcpy, take_all, not, ◌==◌, ltb→lt, le_of_ltb-false,
  leb_of_le, length-map, map-append,
}
use native.Mathlib.Nat.{mod-eq_of_lt}
use libcperciva.NetworkIo.{
  Socket, oplen, on_received, start, network_read, Cookie, Result, count, bytes, tryagain, advanced,
  read_ready,
}

-- The bytes `got` are at the start of the buffer, which has more room.
abbrev pub Reads : Cookie → List ℕ → Type 0
Reads c got =
    (length c.buf ≡ c.buflen)
    × (c.buflen ≤ ssize_max)
    × (c.minlen ≤ c.buflen)
    × (c.bufpos ≡ length got)
    × (c.bufpos ≤ c.buflen)
    × (take c.bufpos c.buf ≡ map some got)

-- The read goes on with fewer bytes than it wants, or tells how many bytes it has, which are enough.
abbrev pub Advances : Cookie → List ℕ → Cookie × Option Result → Type 0
Advances c got (d, told) =
    Reads d got
    × (d.buflen ≡ c.buflen)
    × (d.minlen ≡ c.minlen)
    × (((told ≡ none) × (length got < c.minlen))
        ⊎ ((told ≡ some (count (length got))) × (c.minlen ≤ length got)))

advanced_lem :
    (c : Cookie) (got : List ℕ) → Reads c got → Returns (Advances c got) (advanced true c)
unfolding advanced tryagain
advanced_lem c got reads =
    let (size, small, wanted, at, inside, same) = reads in
    Returns-if _ (ltb c.bufpos c.minlen) _ _
      (λ e. let few = ltb→lt c.bufpos c.minlen e in (reads, refl, refl, inl (refl, omega arith)))
      (λ e.
        let enough = le_of_ltb-false c.bufpos c.minlen e in
        Returns-assert _ (leb c.bufpos ssize_max) _ (leb_of_le c.bufpos ssize_max (omega arith))
          (reads, refl, refl, inr (ap (λ n. some (count n)) at, omega arith)))

pub on_received_lem :
    (c : Cookie) (got : List ℕ) (b : ℕ) (bs : List ℕ)
    → Reads c got
    → c.bufpos + length (b ∷ bs) ≤ c.buflen
    → Returns (Advances c (got ++ (b ∷ bs))) (on_received true c (bytes (b ∷ bs)))
unfolding on_received
on_received_lem c got b bs (size, small, wanted, at, inside, same) room =
    let n = length (b ∷ bs) in
    let chunk : List Cell = map some (b ∷ bs) in
    let whole : length chunk ≡ n = length-map some (b ∷ bs) in
    let end : size_t (c.bufpos + n) ≡ c.bufpos + n = mod-eq_of_lt (omega arith) in
    let d : Cookie = record c {
      buf = memcpy c.buf c.bufpos chunk n;
      bufpos = size_t (c.bufpos + n);
    } in
    let reads : Reads d (got ++ (b ∷ bs)) = (
      length-memcpy c.buf c.bufpos chunk n (omega arith) (omega arith) ∙ size,
      small,
      wanted,
      omega (arith, length-append got (b ∷ bs)),
      omega arith,
      ap (λ k. take k (memcpy c.buf c.bufpos chunk n)) end
          ∙ take-memcpy c.buf c.bufpos chunk n (omega arith) (omega arith)
          ∙ ap₂ (λ x y. x ++ y) same (take_all n chunk (omega arith))
          ∙ sym (map-append some got (b ∷ bs)),
    ) in
    advanced_lem d (got ++ (b ∷ bs)) reads

pub oplen_lem :
    (c : Cookie) → c.buflen ≤ ssize_max → c.bufpos ≤ c.buflen → oplen c ≡ c.buflen - c.bufpos
unfolding oplen
oplen_lem c small inside = omega arith

module _ {S : Type 0} (io : Socket S) where
  -- The socket is ready for up to this many times, until there is a result.
  abbrev pub receive : ℕ → S → Cookie → Outcome (S × Cookie × Option Result)
  receive zero s c = done (s, c, none)
  receive (suc times) s c = read_ready io true s c >>= λ r. elim r.2 [
    | none ↦ receive times r.0 r.1
    | some told ↦ done (r.0, r.1, some told)
  ]

module _ {S : Type 0} (io : Socket S) (got : S → List ℕ) where
  -- As long as there is data, `recv` gives at least one byte and at most as many as are wanted;
  -- `got` are all the bytes that it has given.
  abbrev pub Delivers : Type 0
  Delivers =
      (s : S) (n : ℕ)
      → 0 < n
      → (b : ℕ) × (bs : List ℕ) × ((io.recv s n).1 ≡ bytes (b ∷ bs))
        × (length (b ∷ bs) ≤ n)
        × (got (io.recv s n).0 ≡ got s ++ (b ∷ bs))

  -- The callback is told how many bytes `recv` has given behind those of `base`; the number is
  -- within the bounds, and the bytes are at the start of the buffer.
  abbrev pub Tells : List ℕ → ℕ → ℕ → S × Cookie × Option Result → Type 0
  Tells base minlen buflen (s, d, told) =
      (all : List ℕ) × (got s ≡ base ++ all)
      × (told ≡ some (count (length all)))
      × (minlen ≤ length all)
      × (length all ≤ buflen)
      × (take (length all) d.buf ≡ map some all)

  module _ (delivers : Delivers) (base : List ℕ) where
    read_ready_lem :
        (s : S) (c : Cookie) (have : List ℕ)
        → Reads c have
        → length have < c.buflen
        → got s ≡ base ++ have
        → Returns
            (λ (s', d, told).
              (new : List ℕ) × (length have < length new)
              × (got s' ≡ base ++ new)
              × Advances c new (d, told))
            (read_ready io true s c)
    unfolding read_ready
    read_ready_lem s c have reads room log =
        let (size, small, wanted, at, inside, same) = reads in
        let left = oplen_lem c small inside in
        let (b, bs, answer, few, more) = delivers s (oplen c) (omega (arith, left)) in
        let longer = length-append have (b ∷ bs) in
        rw (answer) (
          Returns-bind _ _ (on_received true c (bytes (b ∷ bs))) _
            (on_received_lem c have b bs reads (omega (arith, left)))
            (λ (d, told) step. (
              have ++ (b ∷ bs),
              omega arith,
              more ∙ ap (λ l. l ++ (b ∷ bs)) log ∙ append_assoc base have (b ∷ bs),
              step,
            )))

    -- After one answer: the read goes on as `rest` says, or it has its result.
    after_read :
        (c d : Cookie) (s : S) (new : List ℕ) (told : Option Result)
        (rest : Outcome (S × Cookie × Option Result))
        → got s ≡ base ++ new
        → Advances c new (d, told)
        → (Reads d new → length new < c.minlen → Returns (Tells base c.minlen c.buflen) rest)
        → Returns
            (Tells base c.minlen c.buflen)
            (elim told [ none ↦ rest | some t ↦ done (s, d, some t) ])
    after_read c d s new told rest log (reads, size, wanted, inl (e, few)) next =
        subst
          (λ o.
            Returns (Tells base c.minlen c.buflen)
              (elim o [ none ↦ rest | some t ↦ done (s, d, some t) ]))
          (sym e) (next reads few)
    after_read c d s new told rest log (reads, size, wanted, inr (e, enough)) next =
        let (whole, small, inside, at, bound, same) = reads in
        subst
          (λ o.
            Returns (Tells base c.minlen c.buflen)
              (elim o [ none ↦ rest | some t ↦ done (s, d, some t) ]))
          (sym e)
          (new, log, refl, enough, omega arith, subst (λ n. take n d.buf ≡ map some new) at same)

    receive_lem :
        (times : ℕ) (s : S) (c : Cookie) (have : List ℕ)
        → Reads c have
        → length have < c.buflen
        → got s ≡ base ++ have
        → 0 < times
        → c.minlen ≤ length have + times
        → Returns (Tells base c.minlen c.buflen) (receive io times s c)
    receive_lem zero s c have reads room log some_times enough = absurd (omega arith)
    receive_lem (suc times) s c have reads room log some_times enough =
        Returns-bind _ _ (read_ready io true s c) _ (read_ready_lem s c have reads room log)
          (λ (s', d, told) (new, more, log', step).
            after_read c d s' new told (receive io times s' d) log' step (λ r few.
              let (v, size, wanted, rest) = step in
              subst (λ n. Returns (Tells base n c.buflen) (receive io times s' d)) wanted
                (subst (λ n. Returns (Tells base d.minlen n) (receive io times s' d)) size
                  (receive_lem times s' d new r (omega (arith, reads)) log' (omega arith)
                    (omega arith)))))

    -- Assume that `recv`, asked for a positive number of bytes, gives at least one and at most that
    -- many, which `got` collects. If cookie and events are granted, `buflen` is between 1 and
    -- SSIZE_MAX and the length of the buffer, `minlen` is at most `buflen`, and the socket is ready
    -- for at least one and at least `minlen` times, then a read tells the callback a number of
    -- bytes from `minlen` to `buflen`; they are just the bytes that `recv` has given, and are at
    -- the start of the buffer.
    pub network_read_ends :
        (s : S) (buf : List Cell) (buflen minlen times : ℕ)
        → got s ≡ base
        → length buf ≡ buflen
        → 0 < buflen
        → buflen ≤ ssize_max
        → minlen ≤ buflen
        → 0 < times
        → minlen ≤ times
        → Returns
            (Tells base minlen buflen)
            (network_read true true buf buflen minlen >>= λ c. receive io times s c)
    unfolding start
    network_read_ends s buf buflen minlen times log size some_room small inside some_times enough =
        let c : Cookie = record { buf = buf; buflen = buflen; minlen = minlen; bufpos = 0 } in
        Returns-bind (λ d. d ≡ c) _ (start true true buf buflen minlen) _
          (Returns-assert _ (not (buflen == 0)) _ (ground arith)
            (Returns-assert _ (leb buflen ssize_max) _ (leb_of_le buflen ssize_max small) refl))
          (λ d e.
            subst (λ d. Returns (Tells base minlen buflen) (receive io times s d)) (sym e)
              (receive_lem times s c [] (size, small, inside, refl, omega arith, refl) (omega arith)
                (log ∙ sym (append-nil base)) some_times (omega arith)))
