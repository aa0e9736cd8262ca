-- ===== src/Json.antt =====
-- util/json.c: finding a value by its name in the text of a JSON object.
-- A pointer `buf` into the text is the list of the bytes from it to `end`, so `end` is the empty
-- list. `abort` stands for a pointer that leaves the text, and for the model's fuel running out;
-- the theorems exclude both.
pub mod Skip
pub mod Nested
pub mod Find
pub mod Match
pub mod Grammar
pub mod Tokens
pub mod Steps
pub mod Values
pub mod Search
use libcperciva.Prelude.{
  leb, ℕ, zero, suc, ◌+◌, ◌<◌, Bool, true, false, not, ◌||◌, ◌&&◌, Option, none, some, List, [],
  ◌∷◌, Outcome, done, fail, abort, ◌>>=◌, recover, length, drop, get_or, ltb, ◌==◌, if◌then◌else◌,
}
use libcperciva.Prelude.Chars.{codes, strchr, is_found}

-- `buf + n`, which has to stay in the text or at its end.
unfoldable pub forward : ℕ → List ℕ → Outcome (List ℕ)
forward n buf = if leb n (length buf) then done (drop n buf) else abort

abbrev pub is_ws : ℕ → Bool
is_ws c = (c == 0x09) || ((c == 0x0A) || ((c == 0x0D) || (c == 0x20)))

unfoldable pub skip_ws : List ℕ → List ℕ
skip_ws [] = []
skip_ws (c ∷ buf) = if is_ws c then skip_ws buf else c ∷ buf

-- `memcmp(buf, word, n) == 0` for the `n` characters of `word`.
unfoldable pub memcmp : List ℕ → List ℕ → Outcome Bool
memcmp buf [] = done true
memcmp [] (w ∷ word) = abort
memcmp (c ∷ buf) (w ∷ word) = memcmp buf word >>= λ equal. done ((c == w) && equal)

-- The text behind `word`, if the text is long enough and begins with it.
unfoldable pub behind : List ℕ → List ℕ → Outcome (Option (List ℕ))
behind word buf =
    if leb (length word) (length buf)
    then (memcmp buf word >>= λ equal.
        if equal then (forward (length word) buf >>= λ rest. done (some rest)) else done none)
    else done none

unfoldable pub skip_literal : List ℕ → Outcome (List ℕ)
skip_literal buf = behind (codes "false") buf >>= λ f. elim f [
  | some rest ↦ done rest
  | none ↦ behind (codes "null") buf >>= λ n. elim n [
    | some rest ↦ done rest
    | none ↦ behind (codes "true") buf >>= λ t. elim t [ some rest ↦ done rest | none ↦ done [] ]
  ]
]

-- What stands behind the backslash: another character, or `u` and four more; none if the text ends
-- there.
unfoldable pub skip_escape : List ℕ → Outcome (Option (List ℕ))
skip_escape [] = done none
skip_escape (c ∷ buf) =
    if c == b'u'
    then (if ltb (length buf) 4 then done none else (forward 4 buf >>= λ rest. done (some rest)))
    else done (some buf)

-- Where `skip_string` stops if the text ends inside an escape.
unfoldable pub cut_escape : List ℕ → List ℕ
cut_escape [] = []
cut_escape (c ∷ buf) = buf

-- The loop of `skip_string`, on fuel.
unfoldable pub string_loop : ℕ → List ℕ → Outcome (List ℕ)
string_loop zero buf = abort
string_loop (suc fuel) [] = done []
string_loop (suc fuel) (c ∷ buf) =
    let plain = string_loop fuel buf in
    let escaped : Outcome (List ℕ) = skip_escape buf >>= λ e. elim e [
      | none ↦ done (cut_escape buf)
      | some rest ↦ string_loop fuel rest
    ] in
    if c == 0x22 then done buf else if c == 0x5C then escaped else plain

-- The text begins with the opening quote.
unfoldable pub skip_string : List ℕ → Outcome (List ℕ)
skip_string [] = abort
skip_string (quote ∷ buf) = string_loop (suc (length buf)) buf

abbrev pub numchars : List ℕ
numchars = codes "+-0123456789.eE"

-- `(c != '\0') && (strchr(numchars, c) != NULL)`.
unfoldable pub is_number_char : ℕ → Bool
is_number_char c = not (c == 0) && is_found (strchr numchars c)

unfoldable pub skip_number : List ℕ → List ℕ
skip_number [] = []
skip_number (c ∷ buf) = if is_number_char c then skip_number buf else c ∷ buf

-- The calls of `skip_value` from `skip_array` and `skip_object` are the argument `value`.
module _ (value : List ℕ → Outcome (List ℕ)) where
  unfoldable pub array_loop : ℕ → List ℕ → Outcome (List ℕ)
  array_loop zero buf = abort
  array_loop (suc fuel) buf = value buf >>= λ behind_value. elim (skip_ws behind_value) [
    | [] ↦ done []
    | c ∷ rest ↦
        let next = array_loop fuel (skip_ws rest) in
        if c == 0x5D then done rest else if c == 0x2C then next else done []
  ]

  unfoldable pub skip_array : List ℕ → Outcome (List ℕ)
  skip_array [] = abort
  skip_array (bracket ∷ buf) = elim (skip_ws buf) [
    | [] ↦ done []
    | c ∷ rest ↦ if c == 0x5D then done rest else array_loop (suc (length (c ∷ rest))) (c ∷ rest)
  ]

  -- A member of an object, behind its name: the colon, the value, and white space.
  unfoldable pub skip_member : List ℕ → Outcome (List ℕ)
  skip_member buf = elim (skip_ws buf) [
    | [] ↦ fail
    | c ∷ rest ↦
        if c == 0x3A
        then (value (skip_ws rest) >>= λ behind_value. done (skip_ws behind_value))
        else fail
  ]

  unfoldable pub object_loop : ℕ → List ℕ → Outcome (List ℕ)
  object_loop zero buf = abort
  object_loop (suc fuel) [] = done []
  object_loop (suc fuel) (quote ∷ buf) =
      let members : Outcome (List ℕ) = do
        behind_name ← skip_string (quote ∷ buf)
        behind_member ← skip_member behind_name
        elim behind_member [
          | [] ↦ done []
          | c ∷ rest ↦
              let next = object_loop fuel (skip_ws rest) in
              if c == 0x7D then done rest else if c == 0x2C then next else done []
        ]
      in if quote == 0x22 then recover members [] else done []

  unfoldable pub skip_object : List ℕ → Outcome (List ℕ)
  skip_object [] = abort
  skip_object (brace ∷ buf) = elim (skip_ws buf) [
    | [] ↦ done []
    | c ∷ rest ↦ if c == 0x7D then done rest else object_loop (suc (length (c ∷ rest))) (c ∷ rest)
  ]

-- `skip_value`, on fuel for the depth of its recursion.
unfoldable pub skip_value : ℕ → List ℕ → Outcome (List ℕ)
skip_value zero buf = abort
skip_value (suc depth) [] = done []
skip_value (suc depth) (c ∷ buf) =
    let array = skip_array (λ rest. skip_value depth rest) (c ∷ buf) in
    let object = skip_object (λ rest. skip_value depth rest) (c ∷ buf) in
    if (c == b'f') || ((c == b'n') || (c == b't'))
    then skip_literal (c ∷ buf)
    else if c == 0x22
    then skip_string (c ∷ buf)
    else if c == 0x5B
    then array
    else if c == 0x7B
    then object
    else if is_number_char c
    then done (skip_number (c ∷ buf))
    else done []

-- The character that an escape of one character stands for.
unfoldable pub unescape : ℕ → Option ℕ
unescape c =
    if c == 0x22
    then some 0x22
    else if c == 0x5C
    then some 0x5C
    else if c == b'/'
    then some b'/'
    else if c == b'b'
    then some 0x08
    else if c == b'f'
    then some 0x0C
    else if c == b'n'
    then some 0x0A
    else if c == b'r'
    then some 0x0D
    else if c == b't'
    then some 0x09
    else none

-- The first character of a C string, and the string without it unless it is at its end.
abbrev pub head_char : List ℕ → ℕ
head_char s = get_or s 0 0

abbrev pub advance : List ℕ → List ℕ
advance [] = []
advance (c ∷ s) = s

-- The loop of `match_str`, on fuel: where it stops, and `*foundit`.
unfoldable pub match_loop : ℕ → List ℕ → List ℕ → Bool → Outcome (List ℕ × Bool)
match_loop zero buf s found = abort
match_loop (suc fuel) [] s found = done ([], found)
match_loop (suc fuel) (c ∷ buf) s found =
    let compared : ℕ → List ℕ → Bool → Outcome (List ℕ × Bool) =
      λ ch rest still. match_loop fuel rest (advance s) (still && (ch == head_char s)) in
    let escaped : Outcome (List ℕ × Bool) = elim buf [
      | [] ↦ done ([], found)
      | e ∷ rest ↦ elim (unescape e) [
        | some ch ↦ compared ch rest found
        | none ↦
            if e == b'u'
            then if ltb (length rest) 4
              then done ([], found)
              else (forward 4 rest >>= λ more. compared c more false)
            else done ([], false)
      ]
    ] in
    if c == 0x22
    then done (buf, found && (head_char s == 0))
    else if c == 0x5C
    then escaped
    else compared c buf found

unfoldable pub match_str : List ℕ → List ℕ → Outcome (List ℕ × Bool)
match_str buf s = match_loop (suc (length buf)) buf s true

-- `SCAN`; `fail` for its `return (end)`.
unfoldable pub scan : List ℕ → ℕ → Outcome (List ℕ)
scan buf ch = elim (skip_ws buf) [ [] ↦ fail | c ∷ rest ↦ if c == ch then done rest else fail ]

-- The loop of `json_find`, on fuel.
unfoldable pub find_loop : ℕ → List ℕ → List ℕ → Outcome (List ℕ)
find_loop zero buf s = abort
find_loop (suc fuel) buf s = do
  name ← scan buf 0x22
  (behind_name, found) ← match_str name s
  colon ← scan behind_name 0x3A
  let here = skip_ws colon
  let next : Outcome (List ℕ) = do
    behind_value ← skip_value (suc (length here)) here
    comma ← scan behind_value 0x2C
    find_loop fuel comma s
  if found then done here else next

unfoldable pub json_find : List ℕ → List ℕ → Outcome (List ℕ)
json_find buf s = recover (scan buf 0x7B >>= λ inside. find_loop (suc (length inside)) inside s) []
