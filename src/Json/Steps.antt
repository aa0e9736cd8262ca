-- ===== src/Json/Steps.antt =====
-- util/json.c: literals, the first characters of values, and single rounds of the loops.
use libcperciva.Prelude.{
  if◌then◌else◌, fail, ℕ, suc, ◌≤◌, ◌<◌, ◌≡◌, refl, sym, ap, subst, ◌∙◌, arith, true, false, leb,
  leb_of_le, ◌==◌, List, [], ◌∷◌, ◌++◌, Outcome, done, ◌>>=◌, recover, Returns, length,
}
use libcperciva.Prelude.Chars.{codes}
use libcperciva.Json.{
  is_ws, skip_ws, forward, memcmp, behind, skip_literal, skip_string, skip_number, array_loop,
  skip_array, skip_member, object_loop, skip_object, skip_value,
}
use libcperciva.Json.Grammar.{
  Blanks, Chars, InNumber, Value, false_value, null_value, true_value, string, number, empty_array,
  array, empty_object, object, Elements, last_element, element, Members, last_member, member,
}
use libcperciva.Json.Tokens.{skip_ws-Blanks, skip_string-Chars, InNumber-is_number_char}
use libcperciva.Json.Skip.{IsTail, length-IsTail, skip_string-StaysIn}
use libcperciva.Json.Nested.{skip_value-StaysIn}

five : (rest : List ℕ) → leb 5 (suc (suc (suc (suc (suc (length rest)))))) ≡ true
five rest = leb_of_le 5 (suc (suc (suc (suc (suc (length rest)))))) (omega arith)

four : (rest : List ℕ) → leb 4 (suc (suc (suc (suc (length rest))))) ≡ true
four rest = leb_of_le 4 (suc (suc (suc (suc (length rest))))) (omega arith)

pub skip_false : (rest : List ℕ) → skip_literal (codes "false" ++ rest) ≡ done rest
unfolding skip_literal behind memcmp forward
skip_false rest = rw (five rest) refl

pub skip_null : (rest : List ℕ) → skip_literal (codes "null" ++ rest) ≡ done rest
unfolding skip_literal behind memcmp forward
skip_null [] = refl
skip_null (c ∷ rest) = rw (five rest, four (c ∷ rest)) refl

pub skip_true : (rest : List ℕ) → skip_literal (codes "true" ++ rest) ≡ done rest
unfolding skip_literal behind memcmp forward
skip_true [] = refl
skip_true (c ∷ rest) = rw (five rest, four (c ∷ rest), behind, four (c ∷ rest)) refl

-- The first character of a value is none of those that the functions look for before it.
abbrev Starts : List ℕ → Type 0
Starts t = (c : ℕ) × (u : List ℕ) × (t ≡ c ∷ u) × (is_ws c ≡ false) × ((c == 0x5D) ≡ false)

number_starts : (c : ℕ) → InNumber c → (is_ws c ≡ false) × ((c == 0x5D) ≡ false)
number_starts c h = ground arith

Value-Starts : (t rest : List ℕ) → Value t rest → Starts t
Value-Starts z y (false_value rest) = (_, _, refl, refl, refl)
Value-Starts z y (null_value rest) = (_, _, refl, refl, refl)
Value-Starts z y (true_value rest) = (_, _, refl, refl, refl)
Value-Starts z y (string t rest s) = (_, _, refl, refl, refl)
Value-Starts z y (number c t rest d ds) = (c, t, refl, (number_starts c d).0, (number_starts c d).1)
Value-Starts z y (empty_array t rest b) = (_, _, refl, refl, refl)
Value-Starts z y (array t u rest b e) = (_, _, refl, refl, refl)
Value-Starts z y (empty_object t rest b) = (_, _, refl, refl, refl)
Value-Starts z y (object t u rest b m) = (_, _, refl, refl, refl)

pub Elements-Starts : (t rest : List ℕ) → Elements t rest → Starts t
Elements-Starts z y (last_element t u rest v b) = Value-Starts t u v
Elements-Starts z y (element t u v w rest x a b more) = Value-Starts t u x

pub no_blanks : (t : List ℕ) → Starts t → skip_ws t ≡ t
unfolding skip_ws
no_blanks t (c, u, e, black, other) = ap skip_ws e ∙ rw (black) (sym e)

pub skip_ws-Value : (t u rest : List ℕ) → Blanks t u → Value u rest → skip_ws t ≡ u
skip_ws-Value t u rest b v = skip_ws-Blanks t u b (no_blanks u (Value-Starts u rest v))

-- A character that is no blank.
pub skip_ws-char : (c : ℕ) (t u : List ℕ) → is_ws c ≡ false → Blanks t (c ∷ u) → skip_ws t ≡ c ∷ u
unfolding skip_ws
skip_ws-char c t u black b = skip_ws-Blanks t (c ∷ u) b (rw (black) refl)

pub length-skipped :
    (depth : ℕ) (t rest : List ℕ)
    → length t < depth
    → skip_value depth t ≡ done rest
    → length rest ≤ length t
length-skipped depth t rest h e =
    length-IsTail (subst (Returns (λ r. IsTail r t)) e (skip_value-StaysIn depth t h))

pub length-Chars : (t rest : List ℕ) → Chars t rest → length rest ≤ suc (length t)
length-Chars t rest s = length-IsTail (
    subst (Returns (λ r. IsTail r (0x22 ∷ t))) (skip_string-Chars t rest s)
      (skip_string-StaysIn 0x22 t))

pub skip_number-value :
    (depth c : ℕ) (t : List ℕ)
    → InNumber c
    → skip_value (suc depth) (c ∷ t) ≡ done (skip_number (c ∷ t))
unfolding skip_value
skip_number-value depth c t d =
    let f : (c == b'f') ≡ false = ground arith in
    let n : (c == b'n') ≡ false = ground arith in
    let t' : (c == b't') ≡ false = ground arith in
    let q : (c == 0x22) ≡ false = ground arith in
    let a : (c == 0x5B) ≡ false = ground arith in
    let o : (c == 0x7B) ≡ false = ground arith in
    rw (f, n, t', q, a, o, InNumber-is_number_char c d) refl

pub empty_array_lem :
    (value : List ℕ → Outcome (List ℕ)) (t rest : List ℕ)
    → skip_ws t ≡ 0x5D ∷ rest
    → skip_array value (0x5B ∷ t) ≡ done rest
unfolding skip_array
empty_array_lem value t rest e = rw (e, skip_array) refl

pub empty_object_lem :
    (value : List ℕ → Outcome (List ℕ)) (t rest : List ℕ)
    → skip_ws t ≡ 0x7D ∷ rest
    → skip_object value (0x7B ∷ t) ≡ done rest
unfolding skip_object
empty_object_lem value t rest e = rw (e, skip_object) refl

-- What the loops do with the text behind a value.
abbrev after_element : (List ℕ → Outcome (List ℕ)) → ℕ → List ℕ → Outcome (List ℕ)
after_element value fuel [] = done []
after_element value fuel (c ∷ rest) =
    let next = array_loop value fuel (skip_ws rest) in
    if c == 0x5D then done rest else if c == 0x2C then next else done []

abbrev after_member : (List ℕ → Outcome (List ℕ)) → ℕ → List ℕ → Outcome (List ℕ)
after_member value fuel [] = done []
after_member value fuel (c ∷ rest) =
    let next = object_loop value fuel (skip_ws rest) in
    if c == 0x7D then done rest else if c == 0x2C then next else done []

abbrev after_name : (List ℕ → Outcome (List ℕ)) → List ℕ → Outcome (List ℕ)
after_name value [] = fail
after_name value (c ∷ rest) =
    if c == 0x3A
    then (value (skip_ws rest) >>= λ behind_value. done (skip_ws behind_value))
    else fail

module _ (value : List ℕ → Outcome (List ℕ)) where
  pub array_step :
      (fuel : ℕ) (t u v : List ℕ)
      → value t ≡ done u
      → skip_ws u ≡ v
      → array_loop value (suc fuel) t ≡ after_element value fuel v
  unfolding array_loop
  array_step fuel t u v e f =
      ap (λ o. o >>= λ b. after_element value fuel (skip_ws b)) e ∙ ap (after_element value fuel) f

  pub object_step :
      (fuel : ℕ) (t u v w x y : List ℕ)
      → skip_string (0x22 ∷ t) ≡ done u
      → skip_ws u ≡ 0x3A ∷ v
      → skip_ws v ≡ w
      → value w ≡ done x
      → skip_ws x ≡ y
      → object_loop value (suc fuel) (0x22 ∷ t) ≡ recover (after_member value fuel y) []
  unfolding object_loop skip_member
  object_step fuel t u v w x y name colon black e f =
      let named : skip_member value u ≡ done y =
        ap (after_name value) colon
        ∙ ap (λ l. value l >>= λ b. done (skip_ws b)) black
        ∙ ap (λ o. o >>= λ b. done (skip_ws b)) e
        ∙ ap done f in
      ap (λ o. recover (o >>= λ n. skip_member value n >>= after_member value fuel) []) name
      ∙ ap (λ o. recover (o >>= after_member value fuel) []) named

pub array_begins :
    (value : List ℕ → Outcome (List ℕ)) (t u : List ℕ) (goal : Outcome (List ℕ))
    → skip_ws t ≡ u
    → Starts u
    → array_loop value (suc (length u)) u ≡ goal
    → skip_array value (0x5B ∷ t) ≡ goal
unfolding skip_array
array_begins value t u goal e (c, w, same, black, other) loop =
    let begins = e ∙ same in
    let looped = subst (λ l. array_loop value (suc (length l)) l ≡ goal) same loop in
    rw (begins, skip_array, other) looped

pub Members-black : (t rest : List ℕ) → Members t rest → skip_ws t ≡ t
unfolding skip_ws
Members-black z y (last_member t u v w x rest s a b value c) = refl
Members-black z y (member t u v w x p q rest s a b value c d more) = refl

Members-begin : (t rest : List ℕ) → Members t rest → (u : List ℕ) × (t ≡ 0x22 ∷ u)
Members-begin z y (last_member t u v w x rest s a b value c) = (t, refl)
Members-begin z y (member t u v w x p q rest s a b value c d more) = (t, refl)

pub object_begins :
    (depth : ℕ) (t u rest : List ℕ)
    → Blanks t u
    → Members u rest
    → object_loop (λ r. skip_value depth r) (suc (length u)) u ≡ done rest
    → skip_object (λ r. skip_value depth r) (0x7B ∷ t) ≡ done rest
unfolding skip_object
object_begins depth t u rest b m loop =
    let (w, same) = Members-begin u rest m in
    let begins = skip_ws-Blanks t u b (Members-black u rest m) ∙ same in
    let value = λ (r : List ℕ). skip_value depth r in
    let looped = subst (λ l. object_loop value (suc (length l)) l ≡ done rest) same loop in
    rw (begins, skip_object) looped
