-- ===== src/NetbufRead/Calls.antt =====
-- netbuf/netbuf_read.c: waiting for data.
use libcperciva.Prelude.{
  ssize_max, ◌==◌, Settles, Settles-if, Settles-assert, ℕ, ◌+◌, ◌-◌, ◌^◌, ◌≤◌, ◌<◌, ◌≡◌, refl, sym,
  ap, ◌∙◌, arith, Bool, true, false, true-false, not, leb, inl, inr, ◌⊎◌, none, some, length, drop,
  length-drop, length-take, le_of_leb, is_none,
}
use libcperciva.NetbufRead.{Pending, Reader, peek, make_room, start_read, wait}
use libcperciva.NetbufRead.Valid.{Valid, KeepsData, make_room_lem}

leb-false : (a b : ℕ) → leb a b ≡ false → b < a
leb-false a b h = ground arith

module _ {K : Type 0} where
  -- What a wait for `len` bytes leaves: a callback for the data that is there, a read that brings
  -- at least what is missing, or, where it fails, neither.
  abbrev pub Waits : Bool → Bool → Reader K → ℕ → Reader K × Bool → Type 0
  Waits memory granted r len (s, ok) =
      Valid s
      × (peek s ≡ peek r)
      × (((ok ≡ true)
            × (granted ≡ true)
            × (s.immediate_cookie ≡ true)
            × (s.read_cookie ≡ none)
            × (len ≤ length (peek s)))
          ⊎ ((ok ≡ true)
              × (granted ≡ true)
              × (s.immediate_cookie ≡ false)
              × ((p : Pending) × (s.read_cookie ≡ some p)
                  × (0 < p.at_least)
                  × (p.at_least ≤ p.room)
                  × (length (peek s) + p.at_least ≡ len)))
          ⊎ ((ok ≡ false)
              × ((granted ≡ false) ⊎ (memory ≡ false))
              × (s.immediate_cookie ≡ false)
              × (s.read_cookie ≡ none)))

  pub length-peek : (r : Reader K) → Valid r → length (peek r) ≡ r.datalen - r.bufpos
  unfolding peek
  length-peek r (size, small, order, inside, fits) =
      omega (
        arith,
        length-take (r.datalen - r.bufpos) (drop r.bufpos r.buf),
        length-drop r.bufpos r.buf,
      )

  enough_Waits :
      (memory granted : Bool) (r : Reader K) (len : ℕ) (callback : K)
      → Valid r
      → r.read_cookie ≡ none
      → len ≤ r.datalen - r.bufpos
      → Waits memory granted r len
          (record r { callback = some callback; immediate_cookie = granted }, granted)
  unfolding peek
  enough_Waits memory true r len callback valid idle enough =
      (valid, refl, inl (refl, refl, refl, idle, omega (arith, length-peek r valid)))
  enough_Waits memory false r len callback valid idle enough =
      (valid, refl, inr (inr (refl, inl refl, refl, idle)))

  module _ (memory granted : Bool) (r s : Reader K) (len : ℕ) (kept : KeepsData r s)
      (off : r.immediate_cookie ≡ false) (few : length (peek r) < len)
      (room : len ≤ s.buflen - s.bufpos) where
    -- The data ends before the place where `len` bytes would.
    missing : s.datalen - s.bufpos < len
    missing = omega (arith, length-peek s kept.0, ap length kept.1)

    read_Waits : Settles (Waits memory granted r len) (start_read granted s len)
    unfolding start_read peek missing
    read_Waits =
        let (valid, same, idle, quiet) = kept in
        let (whole, small, order, inside, fits) = valid in
        let space = s.buflen - s.datalen in
        Settles-assert _ (not (space == 0)) _ (λ e. Settles-assert _ (leb space ssize_max) _ (λ f.
          Settles-if _ granted _ _
            (λ g. (
              (whole, small, order, inside, omega arith),
              same,
              inr (
                  inl (
                    refl,
                    g,
                    quiet ∙ off,
                    (
                      record { room = space; at_least = s.bufpos + len - s.datalen },
                      refl,
                      omega (arith, missing),
                      omega arith,
                      omega (arith, missing, length-peek s valid),
                    ),
                  )),
            ))
            (λ g. (valid, same, inr (inr (refl, inl g, quiet ∙ off, idle))))))

  module _ (memory granted : Bool) (r : Reader K) (len : ℕ) (callback : K) (valid : Valid r)
      (idle : r.read_cookie ≡ none) (quiet : r.immediate_cookie ≡ false) where
    abbrev set : Reader K
    set = record r { callback = some callback }

    -- Where a wait returns, also for requests that `network_read` refuses.
    pub wait-Settles :
        len < 2 ^ 64 → Settles (Waits memory granted r len) (wait memory granted r len callback)
    unfolding wait peek
    wait-Settles fit =
        let roomy = make_room memory set len in
        let (kept, room) = make_room_lem memory set len valid idle fit in
        Settles-assert _ (is_none r.read_cookie) _ (λ i.
          Settles-assert _ (not r.immediate_cookie) _ (λ q.
            Settles-if _ (leb len (r.datalen - r.bufpos)) _ _
              (λ e.
                enough_Waits memory granted r len callback valid idle
                  (le_of_leb len (r.datalen - r.bufpos) e))
              (λ e.
                let few = leb-false len (r.datalen - r.bufpos) e in
                let short : length (peek set) < len = omega (arith, length-peek r valid) in
                Settles-if _ roomy.1 _ _
                  (λ f. elim room [
                    | inl (bad, m) ↦ absurd (true-false (sym f ∙ bad))
                    | inr (ok, enough) ↦
                        read_Waits memory granted set roomy.0 len kept quiet short enough
                  ])
                  (λ f. elim room [
                    | inl (bad, m) ↦
                        (kept.0, kept.1, inr (inr (refl, inr m, kept.3 ∙ quiet, kept.2)))
                    | inr (ok, enough) ↦ absurd (true-false (sym ok ∙ f))
                  ]))))
