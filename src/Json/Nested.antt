-- ===== src/Json/Nested.antt =====
-- util/json.c: arrays, objects and values are skipped inside the text, and the recursion ends.
use libcperciva.Prelude.{
  ℕ, zero, suc, ◌<◌, ◌≡◌, refl, ◌||◌, List, [], ◌∷◌, Outcome, done, arith, Keeps, Returns-bind,
  Keeps-if, Keeps-bind, Returns-recover, Returns-Keeps, length, ◌==◌, if◌then◌else◌, inl, inr, ◌⊎◌,
}
use libcperciva.Json.{
  skip_ws, skip_string, is_number_char, array_loop, skip_array, skip_member, object_loop,
  skip_object, skip_value,
}
use libcperciva.Json.Skip.{
  IsTail, IsTail-refl, IsTail-end, IsTail-cons, IsTail-trans, IsTail-IsTail, length-IsTail,
  skip_ws-IsTail, skip_number-IsTail, skip_literal-StaysIn, StaysIn, StaysIn-trans, StaysIn-if,
  skip_string-StaysIn,
}

-- What stands at a position after white space: the end of the text, or a character.
pub next-cases :
    (buf : List ℕ) → (skip_ws buf ≡ []) ⊎ ((c : ℕ) × (rest : List ℕ) × (skip_ws buf ≡ c ∷ rest))
next-cases buf = go (skip_ws buf) refl
  where
    go :
        (after : List ℕ)
        → skip_ws buf ≡ after
        → (skip_ws buf ≡ []) ⊎ ((c : ℕ) × (rest : List ℕ) × (skip_ws buf ≡ c ∷ rest))
    go [] e = inl e
    go (c ∷ rest) e = inr (c, rest, e)

-- The character is inside the text, and so is what stands behind it.
pub next-IsTail :
    (buf : List ℕ) {c : ℕ} {rest : List ℕ} → skip_ws buf ≡ c ∷ rest → IsTail (c ∷ rest) buf
next-IsTail buf e = rw e at (skip_ws-IsTail buf)

-- What follows a member of an object: its end, or a comma and the next member.
StaysIn-after :
    (buf member : List ℕ)
    → IsTail member buf
    → (next : List ℕ → Outcome (List ℕ))
    → ((rest : List ℕ) → length rest < length buf → StaysIn rest (next rest))
    → StaysIn buf (elim member [
      | [] ↦ done []
      | c ∷ rest ↦
          if c == 0x7D then done rest else if c == 0x2C then next (skip_ws rest) else done []
    ])
StaysIn-after buf [] t next h = IsTail-end buf
StaysIn-after buf (c ∷ rest) t next h =
    let past = IsTail-trans (skip_ws-IsTail rest) (IsTail-IsTail t) in
    StaysIn-if buf (c == 0x7D) _ _ (IsTail-IsTail t) (
      StaysIn-if buf (c == 0x2C) _ _
        (StaysIn-trans _ past
          (h (skip_ws rest) (omega (arith, length-IsTail (skip_ws-IsTail rest), length-IsTail t))))
        (IsTail-end buf))

-- `value` is a skipping function that works on every text of fewer than `size` bytes.
module _ (value : List ℕ → Outcome (List ℕ)) (size : ℕ)
    (works : (buf : List ℕ) → length buf < size → StaysIn buf (value buf)) where
  array_loop-StaysIn :
      (fuel : ℕ) (buf : List ℕ)
      → length buf < fuel
      → length buf < size
      → StaysIn buf (array_loop value fuel buf)
  unfolding array_loop
  array_loop-StaysIn zero buf h k = absurd (omega arith)
  array_loop-StaysIn (suc fuel) buf h k =
      Returns-bind (λ rest. IsTail rest buf) (λ rest. IsTail rest buf) (value buf) _ (works buf k)
        (λ v t. elim (next-cases v) [
          | inl over ↦ rw over (IsTail-end buf)
          | inr (c, rest, e) ↦
              let at = IsTail-trans (next-IsTail v e) t in
              let past = IsTail-trans (skip_ws-IsTail rest) (IsTail-IsTail at) in
              rw e (
                StaysIn-if buf (c == 0x5D) _ _ (IsTail-IsTail at) (
                  StaysIn-if buf (c == 0x2C) _ _
                    (StaysIn-trans _ past (
                      array_loop-StaysIn fuel (skip_ws rest)
                        (omega (arith, length-IsTail (skip_ws-IsTail rest), length-IsTail at))
                        (omega (arith, length-IsTail past))))
                    (IsTail-end buf)))
        ])

  skip_array-StaysIn :
      (bracket : ℕ) (buf : List ℕ)
      → length buf < size
      → StaysIn (bracket ∷ buf) (skip_array value (bracket ∷ buf))
  unfolding skip_array
  skip_array-StaysIn bracket buf h = elim (next-cases buf) [
    | inl over ↦ rw (over, skip_array) (IsTail-end (bracket ∷ buf))
    | inr (c, rest, e) ↦
        let at = next-IsTail buf e in
        rw (e, skip_array)
          (StaysIn-if (bracket ∷ buf) (c == 0x5D) _ _ (IsTail-cons bracket (IsTail-IsTail at)) (
            StaysIn-trans _ (IsTail-cons bracket at) (
              array_loop-StaysIn (suc (length (c ∷ rest))) (c ∷ rest) (omega arith)
                (omega (arith, length-IsTail at)))))
  ]

  -- The rest of a member stays in the text, or the object is given up.
  skip_member-Keeps :
      (buf : List ℕ) → length buf < size → Keeps (λ rest. IsTail rest buf) (skip_member value buf)
  unfolding skip_member
  skip_member-Keeps buf h = elim (next-cases buf) [
    | inl over ↦ rw (over, skip_member) tt
    | inr (c, rest, e) ↦
        let at = next-IsTail buf e in
        let past = IsTail-trans (skip_ws-IsTail rest) (IsTail-IsTail at) in
        rw (e, skip_member)
          (Keeps-if (λ r. IsTail r buf) (c == 0x3A) _ _
            (λ _.
              Returns-Keeps (λ r. IsTail r buf) _
                (Returns-bind (λ r. IsTail r (skip_ws rest)) (λ r. IsTail r buf)
                  (value (skip_ws rest)) _
                  (works (skip_ws rest) (omega (arith, length-IsTail past)))
                  (λ v t. IsTail-trans (skip_ws-IsTail v) (IsTail-trans t past))))
            (λ _. tt))
  ]

  object_loop-StaysIn :
      (fuel : ℕ) (buf : List ℕ)
      → length buf < fuel
      → length buf < size
      → StaysIn buf (object_loop value fuel buf)
  unfolding object_loop
  object_loop-StaysIn zero buf h k = absurd (omega arith)
  object_loop-StaysIn (suc fuel) [] h k = IsTail-refl []
  object_loop-StaysIn (suc fuel) (quote ∷ buf) h k =
      let In = λ (rest : List ℕ). IsTail rest (quote ∷ buf) in
      StaysIn-if (quote ∷ buf) (quote == 0x22) _ _
        (Returns-recover In _ []
          (Keeps-bind In In (skip_string (quote ∷ buf)) _
            (Returns-Keeps In _ (skip_string-StaysIn quote buf))
            (λ name t.
              Keeps-bind (λ rest. IsTail rest name) In (skip_member value name) _
                (skip_member-Keeps name (omega (arith, length-IsTail t)))
                (λ member u. Returns-Keeps In _ (
                  StaysIn-after (quote ∷ buf) member (IsTail-trans u t)
                    (λ rest. object_loop value fuel rest)
                    (λ rest shorter. object_loop-StaysIn fuel rest (omega arith) (omega arith))))))
          (IsTail-end (quote ∷ buf)))
        (IsTail-end (quote ∷ buf))

  skip_object-StaysIn :
      (brace : ℕ) (buf : List ℕ)
      → length buf < size
      → StaysIn (brace ∷ buf) (skip_object value (brace ∷ buf))
  unfolding skip_object
  skip_object-StaysIn brace buf h = elim (next-cases buf) [
    | inl over ↦ rw (over, skip_object) (IsTail-end (brace ∷ buf))
    | inr (c, rest, e) ↦
        let at = next-IsTail buf e in
        rw (e, skip_object)
          (StaysIn-if (brace ∷ buf) (c == 0x7D) _ _ (IsTail-cons brace (IsTail-IsTail at)) (
            StaysIn-trans _ (IsTail-cons brace at) (
              object_loop-StaysIn (suc (length (c ∷ rest))) (c ∷ rest) (omega arith)
                (omega (arith, length-IsTail at)))))
  ]

-- A value is skipped inside the text, whatever stands there, if `depth` exceeds the text's length.
pub skip_value-StaysIn :
    (depth : ℕ) (buf : List ℕ) → length buf < depth → StaysIn buf (skip_value depth buf)
unfolding skip_value
skip_value-StaysIn zero buf h = absurd (omega arith)
skip_value-StaysIn (suc depth) [] h = IsTail-refl []
skip_value-StaysIn (suc depth) (c ∷ buf) h =
    let In = StaysIn-if (c ∷ buf) in
    let inner = λ (rest : List ℕ). skip_value depth rest in
    let works = λ (rest : List ℕ) (k : length rest < depth). skip_value-StaysIn depth rest k in
    In ((c == b'f') || ((c == b'n') || (c == b't'))) _ _ (skip_literal-StaysIn (c ∷ buf)) (
      In (c == 0x22) _ _ (skip_string-StaysIn c buf) (
        In (c == 0x5B) _ _ (skip_array-StaysIn inner depth works c buf (omega arith)) (
          In (c == 0x7B) _ _ (skip_object-StaysIn inner depth works c buf (omega arith))
            (In (is_number_char c) _ _ (skip_number-IsTail (c ∷ buf)) (IsTail-end (c ∷ buf))))))
