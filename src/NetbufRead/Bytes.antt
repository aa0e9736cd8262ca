-- ===== src/NetbufRead/Bytes.antt =====
-- netbuf/netbuf_read.c: a reader over its lifetime, as the sequence of the calls and completions
-- that it sees.
use mathlib.Core.List.{append_assoc}
use libcperciva.Prelude.{
  Settles, ℕ, ◌^◌, ◌≤◌, ◌<◌, ◌≡◌, refl, subst, sym, ap, ◌∙◌, arith, List, [], ◌∷◌, ◌++◌, map, Bool,
  true, false, not, Option, none, some, Returns, Returns-assert, length-replicate, Outcome, done,
  Cell, length, take, map-append, is_none,
}
use libcperciva.NetbufRead.{
  Pending, Reader, Status, init2, peek, wait, callback_read, callback_success, wait_cancel, consume,
}
use libcperciva.NetbufRead.Valid.{Valid}
use libcperciva.NetbufRead.Calls.{wait-Settles}
use libcperciva.NetbufRead.Stored.{callback_read-some, consume_lem}

module _ (K : Type 0) where
  -- `Run got used r`: the reader `r` is reached, the bytes `got` were stored by reads, and `used`
  -- was consumed. The network layer stores at most as many bytes as the read has room for, and the
  -- client waits only while it does not wait already.
  pub data Run : List ℕ → List Cell → Reader K → Type 0 where
    start : (r : Reader K) → init2 (true, true) ≡ done r → Run [] [] r
    waited :
        {got : List ℕ} {used : List Cell} {r : Reader K} (s : Reader K) (memory granted ok : Bool)
        (len : ℕ) (callback : K)
        → Run got used r
        → r.read_cookie ≡ none
        → r.immediate_cookie ≡ false
        → len < 2 ^ 64
        → wait memory granted r len callback ≡ done (s, ok)
        → Run got used s
    read :
        {got : List ℕ} {used : List Cell} {r : Reader K} (s : Reader K) (p : Pending) (b : ℕ)
        (bs : List ℕ) (called : Option K) (status : Status)
        → Run got used r
        → r.read_cookie ≡ some p
        → length (b ∷ bs) ≤ p.room
        → callback_read r (some (b ∷ bs)) ≡ done (s, called, status)
        → Run (got ++ (b ∷ bs)) used s
    consumed :
        {got : List ℕ} (used : List Cell) (r s : Reader K) (len : ℕ)
        → Run got used r
        → len ≤ length (peek r)
        → consume r len ≡ done s
        → Run got (used ++ take len (peek r)) s
    ended :
        {got : List ℕ} {used : List Cell} {r : Reader K} (s : Reader K) (p : Pending)
        (called : Option K) (status : Status)
        → Run got used r
        → r.read_cookie ≡ some p
        → callback_read r (some []) ≡ done (s, called, status)
        → Run got used s
    broken :
        {got : List ℕ} {used : List Cell} {r : Reader K} (s : Reader K) (p : Pending)
        (called : Option K) (status : Status)
        → Run got used r
        → r.read_cookie ≡ some p
        → callback_read r none ≡ done (s, called, status)
        → Run got used s
    served :
        {got : List ℕ} {used : List Cell} {r : Reader K} (s : Reader K) (called : Option K)
        (status : Status)
        → Run got used r
        → r.immediate_cookie ≡ true
        → callback_success r ≡ done (s, called, status)
        → Run got used s
    cancelled :
        {got : List ℕ} {used : List Cell} {r : Reader K}
        → Run got used r
        → Run got used (wait_cancel r)

  -- What holds of a reader that a call returned.
  returned : {A : Type 0} (P : A → Type 0) (c : Outcome A) (a : A) → c ≡ done a → Returns P c → P a
  returned P c a e h = subst (Returns P) e h

  abbrev Holds : List ℕ → List Cell → Reader K → Type 0
  Holds got used r = Valid r × (used ++ peek r ≡ map some got)

  -- Ending a read or a callback changes none of the fields that a valid reader is about.
  quiet_end :
      (got : List ℕ) (used : List Cell) (r : Reader K) (p : Pending)
      → r.read_cookie ≡ some p
      → Holds got used r
      → Returns (λ end. Holds got used end.0) (callback_read r (some []))
        × Returns (λ end. Holds got used end.0) (callback_read r none)
  unfolding callback_read peek
  quiet_end got used r p reading ((size, small, order, inside, fits), same) =
      let running = ap (λ q. not (is_none q)) reading in
      let s : Holds got used (record r { read_cookie = none }) =
        ((size, small, order, inside, tt), same) in
      (Returns-assert _ _ _ running s, Returns-assert _ _ _ running s)

  served_end :
      (got : List ℕ) (used : List Cell) (r : Reader K)
      → r.immediate_cookie ≡ true
      → Holds got used r
      → Returns (λ end. Holds got used end.0) (callback_success r)
  unfolding callback_success peek
  served_end got used r set held = Returns-assert _ r.immediate_cookie _ set held

  cancel_end :
      (got : List ℕ) (used : List Cell) (r : Reader K)
      → Holds got used r
      → Holds got used (wait_cancel r)
  unfolding wait_cancel peek
  cancel_end got used r ((size, small, order, inside, fits), same) =
      ((size, small, order, inside, tt), same)

  fresh : Returns (Holds [] []) (init2 (true, true))
  unfolding init2 peek
  fresh = ((length-replicate {A = Cell} 4096 none, omega arith, omega arith, omega arith, tt), refl)

  -- However a reader is reached by waits, completed and failed reads, callbacks, cancellations and
  -- consumption, with no read storing more than it has room for, it is valid, and the bytes
  -- consumed and then the available ones are the bytes that were read, in order.
  pub Run_in_order :
      (got : List ℕ) (used : List Cell) (r : Reader K)
      → Run got used r
      → Valid r × (used ++ peek r ≡ map some got)
  Run_in_order got used z (start r e) = returned (Holds [] []) _ r e fresh
  Run_in_order got used z (waited s memory granted ok len callback run idle quiet fit e) =
      let (valid, same) = Run_in_order _ _ _ run in
      let (v, kept, rest) =
        subst (Settles _) e (wait-Settles memory granted _ len callback valid idle quiet fit) in
      (v, ap (used ++◌) kept ∙ same)
  Run_in_order got used z (read s p b bs called status run reading fit e) =
      let (valid, same) = Run_in_order _ _ _ run in
      let (v, more, rest, told) =
        returned _ _ (s, called, status) e (callback_read-some _ p b bs valid reading fit) in
      (
        v,
        ap (used ++◌) more
            ∙ sym (append_assoc used _ (map some (b ∷ bs)))
            ∙ ap (λ l. l ++ map some (b ∷ bs)) same
            ∙ sym (map-append some _ (b ∷ bs)),
      )
  Run_in_order got used z (consumed before r s len run has e) =
      let (valid, same) = Run_in_order _ before r run in
      let (v, split, rest) = returned _ _ s e (consume_lem r len valid has) in
      (v, append_assoc before (take len (peek r)) (peek s) ∙ ap (before ++◌) split ∙ same)
  Run_in_order got used z (ended s p called status run reading e) =
      returned _ _ _ e (quiet_end got used _ p reading (Run_in_order _ _ _ run)).0
  Run_in_order got used z (broken s p called status run reading e) =
      returned _ _ _ e (quiet_end got used _ p reading (Run_in_order _ _ _ run)).1
  Run_in_order got used z (served s called status run set e) =
      returned _ _ _ e (served_end got used _ set (Run_in_order _ _ _ run))
  Run_in_order got used z (cancelled run) = cancel_end got used _ (Run_in_order _ _ _ run)
