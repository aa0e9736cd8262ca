-- ===== src/NetworkIo/Write.antt =====
-- network/network_write.c: a write over the answers of `send`.
use mathlib.Core.List.{append_assoc, append-nil}
use libcperciva.Prelude.{
  zero, suc, ◌-◌, ap, ap₂, length, length-take, length-drop, take-take, ssize_max, ℕ, ◌+◌, ◌≤◌, ◌<◌,
  ◌≡◌, ◌⊎◌, inl, inr, refl, subst, sym, ap, ◌∙◌, arith, List, ◌++◌, true, not, ◌==◌, ltb, leb,
  Option, none, some, Outcome, done, ◌>>=◌, Returns, Returns-bind, Returns-if, Returns-assert, Cell,
  take, drop, size_t, take_add, ltb→lt, le_of_ltb-false, leb_of_le,
}
use native.Mathlib.Nat.{mod-eq_of_lt}
use libcperciva.NetworkIo.{
  Socket, oplen, on_sent, start, network_write, Cookie, Result, count, taken, tryagain, advanced,
  write_ready,
}
use libcperciva.NetworkIo.Read.{oplen_lem}

-- The buffer has `buflen` bytes, of which `bufpos` were sent.
abbrev pub Sends : Cookie → Type 0
Sends c =
    (length c.buf ≡ c.buflen)
    × (c.buflen ≤ ssize_max)
    × (c.minlen ≤ c.buflen)
    × (c.bufpos ≤ c.buflen)

-- The cookie after `n` more bytes; the write goes on, or tells how many bytes were taken.
abbrev Advances : Cookie → ℕ → Cookie × Option Result → Type 0
Advances c n (d, told) =
    (d ≡ record c { bufpos = c.bufpos + n })
    × (((told ≡ none) × (c.bufpos + n < c.minlen))
        ⊎ ((told ≡ some (count (c.bufpos + n))) × (c.minlen ≤ c.bufpos + n)))

advanced_lem :
    (c : Cookie) (n : ℕ)
    → c.buflen ≤ ssize_max
    → c.bufpos + n ≤ c.buflen
    → Returns (Advances c n) (advanced true (record c { bufpos = c.bufpos + n }))
unfolding advanced tryagain
advanced_lem c n small inside =
    let pos = c.bufpos + n in
    Returns-if _ (ltb pos c.minlen) _ _ (λ e. (refl, inl (refl, ltb→lt pos c.minlen e)))
      (λ e.
        Returns-assert _ (leb pos ssize_max) _ (leb_of_le pos ssize_max (omega arith))
          (refl, inr (refl, le_of_ltb-false pos c.minlen e)))

on_sent_lem :
    (c : Cookie) (n : ℕ)
    → c.buflen ≤ ssize_max
    → 0 < n
    → c.bufpos + n ≤ c.buflen
    → Returns (Advances c n) (on_sent true c (taken n))
unfolding on_sent
on_sent_lem c n small positive inside =
    let end : size_t (c.bufpos + n) ≡ c.bufpos + n = mod-eq_of_lt (omega arith) in
    Returns-assert _ (not (n == 0)) _ (ground arith) (
      subst (λ p. Returns (Advances c n) (advanced true (record c { bufpos = p }))) (sym end)
        (advanced_lem c n small inside))

module _ {S : Type 0} (io : Socket S) where
  -- The socket is ready for up to this many times, until there is a result.
  abbrev pub transmit : ℕ → S → Cookie → Outcome (S × Cookie × Option Result)
  transmit zero s c = done (s, c, none)
  transmit (suc times) s c = write_ready io true s c >>= λ r. elim r.2 [
    | none ↦ transmit times r.0 r.1
    | some told ↦ done (r.0, r.1, some told)
  ]

module _ {S : Type 0} (io : Socket S) (sent : S → List Cell) where
  -- `send` takes at least one of the bytes that it is given, from their start on; `sent` are all
  -- the bytes that it has taken.
  abbrev pub Accepts : Type 0
  Accepts =
      (s : S) (input : List Cell)
      → 0 < length input
      → (n : ℕ) × ((io.send s input).1 ≡ taken n)
        × (0 < n)
        × (n ≤ length input)
        × (sent (io.send s input).0 ≡ sent s ++ take n input)

  -- The callback is told a number of bytes that is within the bounds, and `send` has taken just
  -- that many bytes from the start of the buffer, behind those of `base`.
  abbrev pub Tells : List Cell → ℕ → ℕ → List Cell → S × Cookie × Option Result → Type 0
  Tells base minlen buflen buf (s, d, told) =
      (n : ℕ) × (told ≡ some (count n))
      × (minlen ≤ n)
      × (n ≤ buflen)
      × (sent s ≡ base ++ take n buf)

  module _ (accepts : Accepts) (base : List Cell) where
    write_ready_lem :
        (s : S) (c : Cookie)
        → Sends c
        → c.bufpos < c.buflen
        → sent s ≡ base ++ take c.bufpos c.buf
        → Returns
            (λ (s', d, told).
              (n : ℕ) × (0 < n)
              × (c.bufpos + n ≤ c.buflen)
              × (sent s' ≡ base ++ take (c.bufpos + n) c.buf)
              × Advances c n (d, told))
            (write_ready io true s c)
    unfolding write_ready
    write_ready_lem s c (size, small, wanted, inside) room log =
        let left = oplen_lem c small inside in
        let rest = drop c.bufpos c.buf in
        let input = take (oplen c) rest in
        let given : length input ≡ c.buflen - c.bufpos =
          omega (arith, length-take (oplen c) rest, length-drop c.bufpos c.buf, left) in
        let (n, answer, some_taken, few, more) = accepts s input (omega (arith, given)) in
        let piece : take n input ≡ take n rest =
          take-take n (oplen c) rest (omega (arith, given, left)) in
        rw (answer) (
          Returns-bind _ _ (on_sent true c (taken n)) _
            (on_sent_lem c n small some_taken (omega (arith, given)))
            (λ (d, told) step. (
              n,
              some_taken,
              omega (arith, given),
              more
                  ∙ ap₂ (λ a b. a ++ b) log piece
                  ∙ append_assoc base (take c.bufpos c.buf) (take n rest)
                  ∙ ap (base ++◌) (sym (take_add c.bufpos n c.buf)),
              step,
            )))

    -- After one answer: the write goes on as `rest` says, or it has its result.
    after_write :
        (c d : Cookie) (s : S) (n : ℕ) (told : Option Result)
        (rest : Outcome (S × Cookie × Option Result))
        → c.bufpos + n ≤ c.buflen
        → sent s ≡ base ++ take (c.bufpos + n) c.buf
        → Advances c n (d, told)
        → (d ≡ record c { bufpos = c.bufpos + n }
            → c.bufpos + n < c.minlen
            → Returns (Tells base c.minlen c.buflen c.buf) rest)
        → Returns
            (Tells base c.minlen c.buflen c.buf)
            (elim told [ none ↦ rest | some t ↦ done (s, d, some t) ])
    after_write c d s n told rest inside log (same, inl (e, few)) next =
        subst
          (λ o.
            Returns (Tells base c.minlen c.buflen c.buf)
              (elim o [ none ↦ rest | some t ↦ done (s, d, some t) ]))
          (sym e) (next same few)
    after_write c d s n told rest inside log (same, inr (e, enough)) next =
        subst
          (λ o.
            Returns (Tells base c.minlen c.buflen c.buf)
              (elim o [ none ↦ rest | some t ↦ done (s, d, some t) ]))
          (sym e) (c.bufpos + n, refl, enough, inside, log)

    transmit_lem :
        (times : ℕ) (s : S) (c : Cookie)
        → Sends c
        → c.bufpos < c.buflen
        → sent s ≡ base ++ take c.bufpos c.buf
        → 0 < times
        → c.minlen ≤ c.bufpos + times
        → Returns (Tells base c.minlen c.buflen c.buf) (transmit io times s c)
    transmit_lem zero s c sends room log some_times enough = absurd (omega arith)
    transmit_lem (suc times) s c sends room log some_times enough =
        Returns-bind _ _ (write_ready io true s c) _ (write_ready_lem s c sends room log)
          (λ (s', d, told) (n, positive, inside, log', step).
            after_write c d s' n told (transmit io times s' d) inside log' step (λ same few.
              subst (λ k. Returns (Tells base c.minlen c.buflen c.buf) (transmit io times s' k))
                (sym same)
                (transmit_lem times s' (record c { bufpos = c.bufpos + n })
                  (sends.0, sends.1, sends.2, inside) (omega (arith, sends.2)) log' (omega arith)
                  (omega arith))))

    -- Assume that `send`, given some bytes, takes at least one of them from their start on, and
    -- `sent` collects what it takes. If cookie and events are granted, `buflen` is between 1 and
    -- SSIZE_MAX and the length of the buffer, `minlen` is at most `buflen`, and the socket is ready
    -- for at least one and at least `minlen` times, then a write tells the callback a number of
    -- bytes from `minlen` to `buflen`, and what `send` has taken is just that many bytes from the
    -- start of the buffer.
    pub network_write_ends :
        (s : S) (buf : List Cell) (buflen minlen times : ℕ)
        → sent s ≡ base
        → length buf ≡ buflen
        → 0 < buflen
        → buflen ≤ ssize_max
        → minlen ≤ buflen
        → 0 < times
        → minlen ≤ times
        → Returns
            (Tells base minlen buflen buf)
            (network_write true true buf buflen minlen >>= λ c. transmit io times s c)
    unfolding start
    network_write_ends s buf buflen minlen times log size some_room small inside some_times enough =
        let c : Cookie = record { buf = buf; buflen = buflen; minlen = minlen; bufpos = 0 } in
        Returns-bind (λ d. d ≡ c) _ (start true true buf buflen minlen) _
          (Returns-assert _ (not (buflen == 0)) _ (ground arith)
            (Returns-assert _ (leb buflen ssize_max) _ (leb_of_le buflen ssize_max small) refl))
          (λ d e.
            subst (λ d. Returns (Tells base minlen buflen buf) (transmit io times s d)) (sym e)
              (transmit_lem times s c (size, small, inside, omega arith) some_room
                (log ∙ sym (append-nil base)) some_times (omega arith)))
