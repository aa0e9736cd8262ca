-- ===== src/Json/Search.antt =====
-- util/json.c: `json_find` gives the value that belongs to a name in a JSON object.
use libcperciva.Prelude.{
  ℕ, zero, suc, ◌<◌, ◌≡◌, ◌≢◌, refl, ap, ap₂, ◌∙◌, arith, Bool, true, false, Bool-cases, inl, inr,
  ◌==◌, ==_iff, if◌then◌else◌, List, [], ◌∷◌, ◌++◌, Outcome, done, fail, ◌>>=◌, recover, length,
  length-append,
}
use libcperciva.Json.{is_ws, skip_ws, match_str, scan, skip_value, find_loop, json_find}
use libcperciva.Json.Grammar.{Blanks, Value}
use libcperciva.Json.Tokens.{length-Blanks}
use libcperciva.Json.Values.{skip_value-Value}
use libcperciva.Json.Steps.{skip_ws-char, skip_ws-Value, length-skipped}
use libcperciva.Json.Match.{ArePlain, AreChars, same, match_str-ArePlain}

-- `Answers s t z`: in the members `t` of an object, whose names have no escapes up to the one that
-- is looked for, `z` starts with the value of the first member named `s`, or there is no such
-- member and `z` is the end.
pub data Answers (s : List ℕ) : List ℕ → List ℕ → Type 0 where
  here :
      (t u v w x : List ℕ)
      → Blanks t (0x22 ∷ (s ++ 0x22 ∷ u))
      → Blanks u (0x3A ∷ v)
      → Blanks v w
      → Value w x
      → Answers s t w
  later :
      (name t u v w x y z : List ℕ)
      → Blanks t (0x22 ∷ (name ++ 0x22 ∷ u))
      → ArePlain name
      → name ≢ s
      → Blanks u (0x3A ∷ v)
      → Blanks v w
      → Value w x
      → Blanks x (0x2C ∷ y)
      → Answers s y z
      → Answers s t z
  absent :
      (name t u v w x rest : List ℕ)
      → Blanks t (0x22 ∷ (name ++ 0x22 ∷ u))
      → ArePlain name
      → name ≢ s
      → Blanks u (0x3A ∷ v)
      → Blanks v w
      → Value w x
      → Blanks x (0x7D ∷ rest)
      → Answers s t []
  no_members : (t rest : List ℕ) → Blanks t (0x7D ∷ rest) → Answers s t []

same_refl : (s : List ℕ) → same s s ≡ true
same_refl [] = refl
same_refl (c ∷ s) = let e : (c == c) ≡ true = (==_iff c c).1 refl in rw (e) (same_refl s)

same_sound : (name s : List ℕ) → same name s ≡ true → name ≡ s
same_sound [] [] h = refl
same_sound [] (d ∷ s) h = cc
same_sound (c ∷ name) [] h = cc
same_sound (c ∷ name) (d ∷ s) h =
    let e : c ≡ d = ground arith in ap₂ (λ a l. a ∷ l) e (same_sound name s (ground arith))

not_same : (name s : List ℕ) → name ≢ s → same name s ≡ false
not_same name s other = elim (Bool-cases (same name s)) [
  | inl e ↦ absurd (other (same_sound name s e))
  | inr e ↦ e
]

ArePlain-AreChars : (s : List ℕ) → ArePlain s → AreChars s
ArePlain-AreChars [] h = tt
ArePlain-AreChars (c ∷ s) h = (h.2, ArePlain-AreChars s h.3)

scan-char : (ch : ℕ) (t u : List ℕ) → is_ws ch ≡ false → Blanks t (ch ∷ u) → scan t ch ≡ done u
unfolding scan
scan-char ch t u black b =
    let e : (ch == ch) ≡ true = (==_iff ch ch).1 refl in
    rw (skip_ws-char ch t u black b, scan, e) refl

scan_other :
    (c ch : ℕ) (t u : List ℕ)
    → is_ws c ≡ false
    → (c == ch) ≡ false
    → Blanks t (c ∷ u)
    → scan t ch ≡ fail
unfolding scan
scan_other c ch t u black other b = rw (skip_ws-char c t u black b, scan, other) refl

-- What the loop does behind a name.
abbrev next_member : ℕ → List ℕ → List ℕ → Outcome (List ℕ)
next_member fuel s value = skip_value (suc (length value)) value >>= λ rest.
    scan rest 0x2C >>= λ comma. find_loop fuel comma s

abbrev behind_colon : ℕ → List ℕ → Bool → List ℕ → Outcome (List ℕ)
behind_colon fuel s found colon =
    if found then done (skip_ws colon) else next_member fuel s (skip_ws colon)

abbrev behind_name : ℕ → List ℕ → List ℕ × Bool → Outcome (List ℕ)
behind_name fuel s (rest, found) = scan rest 0x3A >>= behind_colon fuel s found

find_step :
    (fuel : ℕ) (name s t u v w x : List ℕ)
    → Blanks t (0x22 ∷ (name ++ 0x22 ∷ u))
    → ArePlain name
    → AreChars s
    → Blanks u (0x3A ∷ v)
    → Blanks v w
    → Value w x
    → find_loop (suc fuel) t s ≡ (if same name s then done w else next_member fuel s w)
unfolding find_loop
find_step fuel name s t u v w x a plain chars b c value =
    ap (λ o. o >>= λ n. match_str n s >>= behind_name fuel s) (scan-char 0x22 t _ refl a)
    ∙ ap (λ o. o >>= behind_name fuel s) (match_str-ArePlain name u s plain chars)
    ∙ ap (λ o. o >>= behind_colon fuel s (same name s)) (scan-char 0x3A u v refl b)
    ∙ ap (λ l. if same name s then done l else next_member fuel s l) (skip_ws-Value v w x c value)

skipped : (w x : List ℕ) → Value w x → skip_value (suc (length w)) w ≡ done x
skipped w x value = skip_value-Value (suc (length w)) w x value (omega arith)

length-Member :
    (name t u v w x : List ℕ)
    → Blanks t (0x22 ∷ (name ++ 0x22 ∷ u))
    → Blanks u (0x3A ∷ v)
    → Blanks v w
    → Value w x
    → length x < length t
length-Member name t u v w x a b c value =
    let first = length-Blanks t (0x22 ∷ (name ++ 0x22 ∷ u)) a in
    let both = length-append name (0x22 ∷ u) in
    let colon = length-Blanks u (0x3A ∷ v) b in
    let before = length-Blanks v w c in
    let here = length-skipped (suc (length w)) w x (omega arith) (skipped w x value) in omega arith

find_loop-Answers :
    (fuel : ℕ) (s t z : List ℕ)
    → ArePlain s
    → Answers s t z
    → length t < fuel
    → recover (find_loop fuel t s) [] ≡ done z
unfolding find_loop
find_loop-Answers zero s t z plain answers h = absurd (omega arith)
find_loop-Answers (suc fuel) s p q plain (here t u v w x a b c value) h =
    let chars = ArePlain-AreChars s plain in
    ap (λ o. recover o [])
      (find_step fuel s s t u v w x a plain chars b c value
        ∙ ap (λ f. if f then done w else next_member fuel s w) (same_refl s))
find_loop-Answers (suc fuel) s p q plain (later name t u v w x y z a np other b c value d more) h =
    let chars = ArePlain-AreChars s plain in
    let shorter = length-Member name t u v w x a b c value in
    let comma = length-Blanks x (0x2C ∷ y) d in
    ap (λ o. recover o [])
      (find_step fuel name s t u v w x a np chars b c value
        ∙ ap (λ f. if f then done w else next_member fuel s w) (not_same name s other)
        ∙ ap (λ o. o >>= λ rest. scan rest 0x2C >>= λ comma. find_loop fuel comma s)
            (skipped w x value)
        ∙ ap (λ o. o >>= λ comma. find_loop fuel comma s) (scan-char 0x2C x y refl d))
    ∙ find_loop-Answers fuel s y z plain more (omega arith)
find_loop-Answers (suc fuel) s p q plain (absent name t u v w x rest a np other b c value d) h =
    let chars = ArePlain-AreChars s plain in
    ap (λ o. recover o [])
      (find_step fuel name s t u v w x a np chars b c value
        ∙ ap (λ f. if f then done w else next_member fuel s w) (not_same name s other)
        ∙ ap (λ o. o >>= λ rest. scan rest 0x2C >>= λ comma. find_loop fuel comma s)
            (skipped w x value)
        ∙ ap (λ o. o >>= λ comma. find_loop fuel comma s) (scan_other 0x7D 0x2C x rest refl refl d))
find_loop-Answers (suc fuel) s p q plain (no_members t rest a) h =
    ap (λ o. recover (o >>= λ n. match_str n s >>= behind_name fuel s) [])
      (scan_other 0x7D 0x22 t rest refl refl a)

-- In a text of optional blanks, an opening brace and the members of an object, of which the names
-- up to the one that is looked for have no escapes, `json_find` for a name without quotes,
-- backslashes and NULs gives the text from the value of the first member of this name on; if no
-- member has it, all names have no escapes and the object ends, it gives the end. Values may be
-- nested, and their strings may have escapes.
pub json_find-Answers :
    (buf inside s z : List ℕ)
    → Blanks buf (0x7B ∷ inside)
    → ArePlain s
    → Answers s inside z
    → json_find buf s ≡ done z
unfolding json_find
json_find-Answers buf inside s z b plain answers =
    ap (λ o. recover (o >>= λ i. find_loop (suc (length i)) i s) [])
      (scan-char 0x7B buf inside refl b)
    ∙ find_loop-Answers (suc (length inside)) s inside z plain answers (omega arith)
