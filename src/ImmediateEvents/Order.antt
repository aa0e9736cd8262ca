-- ===== src/ImmediateEvents/Order.antt =====
-- events/events_immediate.c: the lists one behind the other are the order in which the events run.
use mathlib.Core.List.{append_assoc, append-nil}
use libcperciva.Prelude.{
  ℕ, zero, suc, ◌+◌, ◌≤◌, ◌<◌, ◌≡◌, ◌⊎◌, inl, inr, refl, sym, ap, ap₂, ◌∙◌, arith, List, [], ◌∷◌,
  ◌++◌, true, false, ltb, ◌==◌, if-elim, Option, none, some, done, Returns, Returns-bind,
  Returns-if, Returns-assert, length, take, drop, get_or, set, take-append-drop, take_next,
  take-take, take-set, take_all, nil_left, true-false, length-set, drop-get_or, lt→ltb, ltb→lt,
  le_of_ltb-false, ==_iff,
}
use libcperciva.ImmediateEvents.{Node, Events, queue, register, is_empty, advance, take_first, get}

empty_lem : {E : Type 0} (qs : List (Node E)) → is_empty qs ≡ true → qs ≡ []
empty_lem [] h = refl
empty_lem (q ∷ qs) h = absurd (true-false (sym h))

module _ {E : Type 0} where
  abbrev pub concat : List (List (Node E)) → List (Node E)
  concat [] = []
  concat (qs ∷ heads) = qs ++ concat heads

  -- There are 32 lists, and those before `minq` are empty.
  abbrev pub Valid : Events E → Type 0
  Valid s = (length s.heads ≡ 32) × (s.minq ≤ 32) × (concat (take s.minq s.heads) ≡ [])

  abbrev pub events : Events E → List (Node E)
  events s = concat s.heads

  concat-append : (xs ys : List (List (Node E))) → concat (xs ++ ys) ≡ concat xs ++ concat ys
  concat-append [] ys = refl
  concat-append (x ∷ xs) ys =
      ap (x ++◌) (concat-append xs ys) ∙ sym (append_assoc x (concat xs) (concat ys))

  -- The lists before one, that one, and the lists behind it.
  concat_split :
      (heads : List (List (Node E))) (i : ℕ)
      → i < length heads
      → concat heads ≡ concat (take i heads) ++ (get_or heads i [] ++ concat (drop (i + 1) heads))
  concat_split heads i h =
      ap concat (sym (take-append-drop i heads))
      ∙ concat-append (take i heads) (drop i heads)
      ∙ ap (λ l. concat (take i heads) ++ concat l) (drop-get_or i heads [] h)

  -- The lists up to one.
  concat_next :
      (heads : List (List (Node E))) (i : ℕ)
      → i < length heads
      → concat (take (i + 1) heads) ≡ concat (take i heads) ++ get_or heads i []
  concat_next heads i h =
      ap concat (take_next i heads [] h)
      ∙ concat-append (take i heads) (get_or heads i [] ∷ [])
      ∙ ap (concat (take i heads) ++◌) (append-nil (get_or heads i []))

  none_up_to :
      (heads : List (List (Node E))) (m n : ℕ)
      → m ≤ n
      → concat (take n heads) ≡ []
      → concat (take m heads) ≡ []
  none_up_to heads m n h e =
      ap concat (sym (take-take m n heads h))
      ∙ nil_left (concat (take m (take n heads))) (concat (drop m (take n heads))) (
          sym (concat-append (take m (take n heads)) (drop m (take n heads)))
          ∙ ap concat (take-append-drop m (take n heads))
          ∙ e)

  concat-set :
      (heads : List (List (Node E))) (i : ℕ) (qs : List (Node E))
      → i < length heads
      → concat (set heads i qs) ≡ concat (take i heads) ++ (qs ++ concat (drop (i + 1) heads))
  concat-set [] i qs h = absurd (omega arith)
  concat-set (x ∷ heads) zero qs h =
      let e : 1 ≡ 0 + 1 = omega arith in ap (λ k. qs ++ concat (drop k (x ∷ heads))) e
  concat-set (x ∷ heads) (suc i) qs h =
      let e : suc (i + 1) ≡ suc i + 1 = omega arith in
      ap (x ++◌) (concat-set heads i qs (omega arith))
      ∙ sym (append_assoc x (concat (take i heads)) _)
      ∙ ap (λ k. (x ++ concat (take i heads)) ++ (qs ++ concat (drop k (x ∷ heads)))) e

  -- Registering an event with a priority below 32 and the memory granted keeps a valid state valid,
  -- returns the node of this event, address and priority, and puts it behind all events of its own
  -- and smaller priorities and before all of larger ones.
  pub register_behind :
      (s : Events E) (r : E) (a prio : ℕ)
      → Valid s
      → prio < 32
      → Returns
          (λ end.
            Valid end.0
            × (end.1 ≡ record { address = a; event = r; prio = prio })
            × (events end.0
                ≡ concat (take (prio + 1) s.heads) ++ (end.1 ∷ concat (drop (prio + 1) s.heads))))
          (register s (some r) (some a) prio)
  unfolding register
  register_behind s r a prio (size, low, none_before) h =
      let q : Node E = record { address = a; event = r; prio = prio } in
      let behind = concat (drop (prio + 1) s.heads) in
      let heads = set s.heads prio (queue s prio ++ (q ∷ [])) in
      Returns-assert _ (ltb prio 32) _ (lt→ltb prio 32 h) (
        if-elim (λ m. (length heads ≡ 32) × (m ≤ 32) × (concat (take m heads) ≡ []))
            (ltb prio s.minq) prio s.minq
            (λ e.
              let below = ltb→lt prio s.minq e in
              (
                length-set s.heads prio _ ∙ size,
                omega arith,
                ap concat (take-set prio prio s.heads _ (omega arith))
                    ∙ none_up_to s.heads prio s.minq (omega arith) none_before,
              ))
            (λ e. (
              length-set s.heads prio _ ∙ size,
              low,
              ap concat (take-set s.minq prio s.heads _ (le_of_ltb-false prio s.minq e))
                  ∙ none_before,
            )),
        refl,
        concat-set s.heads prio (queue s prio ++ (q ∷ [])) (omega arith)
            ∙ ap (concat (take prio s.heads) ++◌) (append_assoc (queue s prio) (q ∷ []) behind)
            ∙ sym (append_assoc (concat (take prio s.heads)) (queue s prio) (q ∷ behind))
            ∙ ap (λ l. l ++ (q ∷ behind)) (sym (concat_next s.heads prio (omega arith))),
      )

  -- The first list that is not empty, from `minq` on.
  abbrev IsFirst : List (List (Node E)) → ℕ → Type 0
  IsFirst heads m =
      (m ≤ 32)
      × (concat (take m heads) ≡ [])
      × ((m ≡ 32) ⊎ ((m < 32) × (is_empty (get_or heads m []) ≡ false)))

  advance_lem :
      (fuel : ℕ) (heads : List (List (Node E))) (minq : ℕ)
      → length heads ≡ 32
      → minq ≤ 32
      → concat (take minq heads) ≡ []
      → 32 < fuel + minq
      → Returns (IsFirst heads) (advance fuel heads minq)
  unfolding advance
  advance_lem zero heads minq size low none_before enough = absurd (omega arith)
  advance_lem (suc fuel) heads minq size low none_before enough =
      let here = get_or heads minq [] in
      Returns-if (IsFirst heads) (ltb minq 32) _ (done minq)
        (λ e.
          let below = ltb→lt minq 32 e in
          Returns-if (IsFirst heads) (is_empty here) _ (done minq)
            (λ f.
              advance_lem fuel heads (minq + 1) size (omega arith)
                (concat_next heads minq (omega arith)
                  ∙ ap₂ (λ a b. a ++ b) none_before (empty_lem here f))
                (omega arith))
            (λ f. (low, none_before, inr (below, f))))
        (λ e. (low, none_before, inl (omega (arith, le_of_ltb-false minq 32 e))))

  -- What `get` takes off the events.
  abbrev pub TakesOff : List (Node E) → Events E × Option E → Type 0
  TakesOff before (s, event) =
      ((before ≡ []) × (event ≡ none) × (events s ≡ []))
      ⊎ ((q : Node E) × (before ≡ q ∷ events s) × (event ≡ some q.event))

  take_first_lem :
      (s : Events E) (qs : List (Node E))
      → Valid s
      → s.minq < 32
      → get_or s.heads s.minq [] ≡ qs
      → is_empty qs ≡ false
      → Returns (λ end. Valid end.0 × TakesOff (events s) end) (take_first s qs)
  unfolding take_first
  take_first_lem s [] valid below e f = absurd (true-false f)
  take_first_lem s (q ∷ qs) (size, low, none_before) below e f =
      let behind = concat (drop (s.minq + 1) s.heads) in
      (
        (
          length-set s.heads s.minq qs ∙ size,
          low,
          ap concat (take-set s.minq s.minq s.heads qs (omega arith)) ∙ none_before,
        ),
        inr (
          q,
          concat_split s.heads s.minq (omega arith)
              ∙ ap₂ (λ a b. a ++ (b ++ behind)) none_before e
              ∙ ap (◌∷◌ q) (
                  sym (
                    concat-set s.heads s.minq qs (omega arith)
                    ∙ ap (λ a. a ++ (qs ++ behind)) none_before)),
          refl,
        ),
      )

  -- In a valid state `events_immediate_get` ends and leaves a valid state: it gives NULL exactly if
  -- there are no events, and otherwise takes off the first event in the order of the priorities and
  -- leaves the others as they were.
  pub get_first :
      (s : Events E) → Valid s → Returns (λ end. Valid end.0 × TakesOff (events s) end) (get s)
  unfolding get
  get_first s (size, low, none_before) =
      Returns-bind (IsFirst s.heads) _ (advance 33 s.heads s.minq) _
        (advance_lem 33 s.heads s.minq size low none_before (omega arith))
        (λ m (small, none_now, first).
          let t : Events E = record s { minq = m } in
          Returns-if _ (m == 32) _ _
            (λ e.
              let all : events s ≡ [] =
                ap concat (sym (take_all m s.heads (omega (arith, (==_iff m 32).0 e))))
                ∙ none_now in
              ((size, small, none_now), inl (all, refl, all)))
            (λ e. elim first [
              | inl f ↦ absurd (true-false (sym ((==_iff m 32).1 f) ∙ e))
              | inr (below, f) ↦ take_first_lem t (queue t m) (size, small, none_now) below refl f
            ]))
