-- ===== src/Json/Skip.antt =====
-- util/json.c: the skipping functions end, and stop inside the text or at its end.
use mathlib.Core.List.{append_assoc, append-nil}
use libcperciva.Prelude.{
  ◌>>=◌, Returns-bind, done, ltb, leb, leb_of_le, le_of_leb, le_of_ltb-false, ℕ, zero, suc, ◌≤◌,
  ◌<◌, ◌≡◌, refl, ap, sym, ◌∙◌, Bool, true, false, Option, none, some, List, [], ◌∷◌, ◌++◌, Outcome,
  arith, Returns, Returns-if, Returns-map, length, drop, take, take-append-drop, length-append,
  ◌==◌, if◌then◌else◌,
}
use libcperciva.Prelude.Chars.{codes}
use libcperciva.Json.{
  is_ws, skip_ws, forward, memcmp, behind, skip_literal, skip_escape, cut_escape, string_loop,
  skip_string, is_number_char, skip_number,
}

-- `rest` is what is left of the text from some position on: a pointer between `buf` and `end`.
pub record IsTail (rest buf : List ℕ) : Type 0 where
  pub front : List ℕ
  pub splits : buf ≡ front ++ rest

pub IsTail-refl : (buf : List ℕ) → IsTail buf buf
IsTail-refl buf = record { front = []; splits = refl }

pub IsTail-end : (buf : List ℕ) → IsTail [] buf
IsTail-end buf = record { front = buf; splits = sym (append-nil buf) }

pub IsTail-cons : (c : ℕ) {rest buf : List ℕ} → IsTail rest buf → IsTail rest (c ∷ buf)
IsTail-cons c t = record { front = c ∷ t.front; splits = ap (◌∷◌ c) t.splits }

pub IsTail-trans : {a b c : List ℕ} → IsTail a b → IsTail b c → IsTail a c
IsTail-trans {a} s t = record {
  front = t.front ++ s.front;
  splits = t.splits ∙ ap (◌++◌ t.front) s.splits ∙ sym (append_assoc t.front s.front a);
}

pub IsTail-IsTail : {c : ℕ} {rest buf : List ℕ} → IsTail (c ∷ rest) buf → IsTail rest buf
IsTail-IsTail {c} {rest} t = IsTail-trans (IsTail-cons c (IsTail-refl rest)) t

pub length-IsTail : {rest buf : List ℕ} → IsTail rest buf → length rest ≤ length buf
length-IsTail {rest} t = omega (arith, ap length t.splits, length-append t.front rest)

pub drop-IsTail : (n : ℕ) (buf : List ℕ) → IsTail (drop n buf) buf
drop-IsTail n buf = record { front = take n buf; splits = sym (take-append-drop n buf) }

pub IsTail-if :
    (b : Bool) {x y buf : List ℕ} → IsTail x buf → IsTail y buf → IsTail (if b then x else y) buf
IsTail-if true p q = p
IsTail-if false p q = q

pub skip_ws-IsTail : (buf : List ℕ) → IsTail (skip_ws buf) buf
unfolding skip_ws
skip_ws-IsTail [] = IsTail-refl []
skip_ws-IsTail (c ∷ buf) =
    IsTail-if (is_ws c) (IsTail-cons c (skip_ws-IsTail buf)) (IsTail-refl (c ∷ buf))

pub skip_number-IsTail : (buf : List ℕ) → IsTail (skip_number buf) buf
unfolding skip_number
skip_number-IsTail [] = IsTail-refl []
skip_number-IsTail (c ∷ buf) =
    IsTail-if (is_number_char c) (IsTail-cons c (skip_number-IsTail buf)) (IsTail-refl (c ∷ buf))

-- The call returns a pointer into the text.
abbrev pub StaysIn : List ℕ → Outcome (List ℕ) → Type 0
StaysIn buf r = Returns (λ rest. IsTail rest buf) r

pub StaysIn-trans : {a b : List ℕ} (r : Outcome (List ℕ)) → IsTail b a → StaysIn b r → StaysIn a r
StaysIn-trans {a} {b} r t h =
    Returns-map (λ rest. IsTail rest b) (λ rest. IsTail rest a) (λ rest k. IsTail-trans k t) r h

pub StaysIn-cons :
    (c : ℕ) (buf : List ℕ) (r : Outcome (List ℕ)) → StaysIn buf r → StaysIn (c ∷ buf) r
StaysIn-cons c buf r h = StaysIn-trans r (IsTail-cons c (IsTail-refl buf)) h

pub StaysIn-if :
    (buf : List ℕ) (b : Bool) (x y : Outcome (List ℕ))
    → StaysIn buf x
    → StaysIn buf y
    → StaysIn buf (if b then x else y)
StaysIn-if buf b x y p q = Returns-if (λ rest. IsTail rest buf) b x y (λ _. p) (λ _. q)

pub forward-StaysIn : (n : ℕ) (buf : List ℕ) → n ≤ length buf → StaysIn buf (forward n buf)
unfolding forward
forward-StaysIn n buf h = rw (leb_of_le n (length buf) h) (drop-IsTail n buf)

-- A pointer into the text, if there is one.
abbrev pub Perhaps : List ℕ → Option (List ℕ) → Type 0
Perhaps buf none = Unit
Perhaps buf (some rest) = IsTail rest buf

memcmp-Returns :
    (buf word : List ℕ) → length word ≤ length buf → Returns (λ equal. Unit {0}) (memcmp buf word)
unfolding memcmp
memcmp-Returns buf [] h = tt
memcmp-Returns [] (w ∷ word) h = absurd (omega arith)
memcmp-Returns (c ∷ buf) (w ∷ word) h =
    Returns-bind _ _ (memcmp buf word) _ (memcmp-Returns buf word (omega arith)) (λ equal u. tt)

behind-Perhaps : (word buf : List ℕ) → Returns (Perhaps buf) (behind word buf)
unfolding behind
behind-Perhaps word buf =
    Returns-if _ (leb (length word) (length buf)) _ _
      (λ e.
        let long = le_of_leb (length word) (length buf) e in
        Returns-bind _ _ (memcmp buf word) _ (memcmp-Returns buf word long) (λ equal u.
          Returns-if _ equal _ _
            (λ f.
              Returns-bind _ _ (forward (length word) buf) _
                (forward-StaysIn (length word) buf long) (λ rest t. t))
            (λ f. tt)))
      (λ e. tt)

-- The text behind a word, or what the other words give.
or_next-StaysIn :
    (buf word : List ℕ) (next : Outcome (List ℕ))
    → StaysIn buf next
    → StaysIn buf (behind word buf >>= λ o. elim o [ some rest ↦ done rest | none ↦ next ])
or_next-StaysIn buf word next h =
    Returns-bind (Perhaps buf) _ (behind word buf) _ (behind-Perhaps word buf) (λ o t. perhaps o t)
  where
    perhaps :
        (o : Option (List ℕ))
        → Perhaps buf o
        → StaysIn buf (elim o [ some rest ↦ done rest | none ↦ next ])
    perhaps none t = h
    perhaps (some rest) t = t

pub skip_literal-StaysIn : (buf : List ℕ) → StaysIn buf (skip_literal buf)
unfolding skip_literal
skip_literal-StaysIn buf = or_next-StaysIn buf (codes "false") _ (
    or_next-StaysIn buf (codes "null") _
      (or_next-StaysIn buf (codes "true") (done []) (IsTail-end buf)))

skip_escape-Perhaps : (buf : List ℕ) → Returns (Perhaps buf) (skip_escape buf)
unfolding skip_escape
skip_escape-Perhaps [] = tt
skip_escape-Perhaps (c ∷ buf) =
    Returns-if _ (c == b'u') _ _
      (λ e.
        Returns-if _ (ltb (length buf) 4) _ _ (λ f. tt)
          (λ f.
            Returns-bind _ _ (forward 4 buf) _
              (forward-StaysIn 4 buf (le_of_ltb-false (length buf) 4 f))
              (λ rest t. IsTail-cons c t)))
      (λ e. IsTail-cons c (IsTail-refl buf))

cut_escape-IsTail : (buf : List ℕ) → IsTail (cut_escape buf) buf
unfolding cut_escape
cut_escape-IsTail [] = IsTail-refl []
cut_escape-IsTail (c ∷ buf) = IsTail-cons c (IsTail-refl buf)

-- A backslash and what follows it, if the loop goes on inside the text.
after_escape :
    (c : ℕ) (buf : List ℕ) (loop : List ℕ → Outcome (List ℕ)) (e : Option (List ℕ))
    → Perhaps buf e
    → ((rest : List ℕ) → IsTail rest buf → StaysIn rest (loop rest))
    → StaysIn (c ∷ buf) (elim e [ none ↦ done (cut_escape buf) | some rest ↦ loop rest ])
after_escape c buf loop none t h = IsTail-cons c (cut_escape-IsTail buf)
after_escape c buf loop (some rest) t h = StaysIn-trans (loop rest) (IsTail-cons c t) (h rest t)

string_loop-StaysIn :
    (fuel : ℕ) (buf : List ℕ) → length buf < fuel → StaysIn buf (string_loop fuel buf)
unfolding string_loop
string_loop-StaysIn zero buf h = absurd (omega arith)
string_loop-StaysIn (suc fuel) [] h = IsTail-refl []
string_loop-StaysIn (suc fuel) (c ∷ buf) h =
    StaysIn-if (c ∷ buf) (c == 0x22) _ _ (IsTail-cons c (IsTail-refl buf)) (
      StaysIn-if (c ∷ buf) (c == 0x5C) _ _
        (Returns-bind (Perhaps buf) _ (skip_escape buf) _ (skip_escape-Perhaps buf) (λ e t.
          after_escape c buf (λ rest. string_loop fuel rest) e t
            (λ rest u. string_loop-StaysIn fuel rest (omega (arith, length-IsTail u)))))
        (StaysIn-cons c buf (string_loop fuel buf) (string_loop-StaysIn fuel buf (omega arith))))

-- A string is skipped inside the text, whatever stands there.
pub skip_string-StaysIn :
    (quote : ℕ) (buf : List ℕ) → StaysIn (quote ∷ buf) (skip_string (quote ∷ buf))
unfolding skip_string
skip_string-StaysIn quote buf =
    StaysIn-cons quote buf _ (string_loop-StaysIn (suc (length buf)) buf (omega arith))
