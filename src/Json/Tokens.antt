-- ===== src/Json/Tokens.antt =====
-- util/json.c: white space, strings, numbers and literals are skipped exactly.
use libcperciva.Prelude.{
  ℕ, zero, suc, ◌+◌, ◌-◌, ◌≤◌, ◌<◌, ◌≡◌, inl, inr, refl, sym, ap, ◌∙◌, arith, Bool, true, false,
  ◌&&◌, ◌||◌, Bool-cases, leb, ltb, leb_of_le, ltb-false_of_le, ◌==◌, List, [], ◌∷◌, done, length,
}
use libcperciva.Prelude.Chars.{strchr, strchr-all, all, holds_below, holds_below_at}
use libcperciva.Json.{
  is_ws, skip_ws, forward, skip_escape, string_loop, skip_string, numchars, is_number_char,
  skip_number,
}
use libcperciva.Json.Grammar.{
  IsBlank, Blanks, no_blank, blank, Chars, closing, plain, escape, unicode, InNumber, NumberEnds,
  Digits, no_digit, digit,
}

IsBlank-is_ws : (c : ℕ) → IsBlank c → is_ws c ≡ true
IsBlank-is_ws c h = ground arith

pub skip_ws-Blanks : (t u : List ℕ) → Blanks t u → skip_ws u ≡ u → skip_ws t ≡ u
unfolding skip_ws
skip_ws-Blanks z y (no_blank t) h = h
skip_ws-Blanks z y (blank c t u b more) h = rw (IsBlank-is_ws c b) (skip_ws-Blanks t u more h)

pub length-Blanks : (t u : List ℕ) → Blanks t u → length u ≤ length t
length-Blanks z y (no_blank t) = omega arith
length-Blanks z y (blank c t u b more) = omega (arith, length-Blanks t u more)

pub string_loop-Chars :
    (fuel : ℕ) (t rest : List ℕ) → Chars t rest → length t < fuel → string_loop fuel t ≡ done rest
unfolding string_loop skip_escape forward
string_loop-Chars zero z y s h = absurd (omega arith)
string_loop-Chars (suc fuel) z y (closing rest) h = refl
string_loop-Chars (suc fuel) z y (plain c t rest quote slash more) h =
    let no_quote : (c == 0x22) ≡ false = ground arith in
    let no_slash : (c == 0x5C) ≡ false = ground arith in
    rw (no_quote, no_slash) (string_loop-Chars fuel t rest more (omega arith))
string_loop-Chars (suc fuel) z y (escape e t rest other more) h =
    let no_u : (e == b'u') ≡ false = ground arith in
    rw (no_u) (string_loop-Chars fuel t rest more (omega arith))
string_loop-Chars (suc fuel) z y (unicode a b c d t rest more) h =
    let long : ltb (suc (suc (suc (suc (length t))))) 4 ≡ false =
      ltb-false_of_le (suc (suc (suc (suc (length t))))) 4 (omega arith) in
    let inside : leb 4 (suc (suc (suc (suc (length t))))) ≡ true =
      leb_of_le 4 (suc (suc (suc (suc (length t))))) (omega arith) in
    rw (long, inside) (string_loop-Chars fuel t rest more (omega arith))

pub skip_string-Chars : (t rest : List ℕ) → Chars t rest → skip_string (0x22 ∷ t) ≡ done rest
unfolding skip_string
skip_string-Chars t rest s = string_loop-Chars (suc (length t)) t rest s (omega arith)

abbrev in_number : ℕ → Bool
in_number c =
    (leb 0x30 c && leb c 0x39)
    || ((c == 0x2B) || ((c == 0x2D) || ((c == 0x2E) || ((c == 0x45) || (c == 0x65)))))

in_number-InNumber : (c : ℕ) → in_number c ≡ true → InNumber c
in_number-InNumber c h = elim (Bool-cases (leb 0x30 c && leb c 0x39)) [
  | inl d ↦ inl (ground arith, ground arith)
  | inr d ↦ elim (Bool-cases (c == 0x2B)) [
    | inl e ↦ inr (inl (ground arith))
    | inr e ↦ elim (Bool-cases (c == 0x2D)) [
      | inl f ↦ inr (inr (inl (ground arith)))
      | inr f ↦ elim (Bool-cases (c == 0x2E)) [
        | inl g ↦ inr (inr (inr (inl (ground arith))))
        | inr g ↦ elim (Bool-cases (c == 0x45)) [
          | inl i ↦ inr (inr (inr (inr (inl (ground arith)))))
          | inr i ↦ inr (inr (inr (inr (inr (ground arith)))))
        ]
      ]
    ]
  ]
]

all-in_number : all in_number numchars ≡ true
all-in_number = refl

unfoldable number_from : ℕ → Bool
number_from k = is_number_char (0x30 + k)

digits_run : holds_below number_from 10 ≡ true
unfolding holds_below number_from is_number_char strchr
digits_run = refl

signs_run :
    (is_number_char 0x2B ≡ true)
    × (is_number_char 0x2D ≡ true)
    × (is_number_char 0x2E ≡ true)
    × (is_number_char 0x45 ≡ true)
    × (is_number_char 0x65 ≡ true)
unfolding is_number_char strchr
signs_run = (refl, refl, refl, refl, refl)

pub InNumber-is_number_char : (c : ℕ) → InNumber c → is_number_char c ≡ true
unfolding number_from
InNumber-is_number_char c (inl (low, high)) =
    let e : 0x30 + (c - 0x30) ≡ c = omega arith in
    ap is_number_char (sym e) ∙ holds_below_at number_from 10 digits_run (c - 0x30) (omega arith)
InNumber-is_number_char c (inr (inl e)) = ap is_number_char e ∙ signs_run.0
InNumber-is_number_char c (inr (inr (inl e))) = ap is_number_char e ∙ signs_run.1
InNumber-is_number_char c (inr (inr (inr (inl e)))) = ap is_number_char e ∙ signs_run.2
InNumber-is_number_char c (inr (inr (inr (inr (inl e))))) = ap is_number_char e ∙ signs_run.3
InNumber-is_number_char c (inr (inr (inr (inr (inr e))))) = ap is_number_char e ∙ signs_run.4

is_number_char-InNumber : (c : ℕ) → is_number_char c ≡ true → InNumber c
unfolding is_number_char
is_number_char-InNumber c h =
    in_number-InNumber c
      (strchr-all in_number numchars c all-in_number (ground arith) (ground arith))

number_stops : (rest : List ℕ) → NumberEnds rest → skip_number rest ≡ rest
unfolding skip_number
number_stops [] h = refl
number_stops (c ∷ t) h = elim (Bool-cases (is_number_char c)) [
  | inl e ↦ absurd (h (is_number_char-InNumber c e))
  | inr e ↦ rw (e) refl
]

pub skip_number-Digits : (t rest : List ℕ) → Digits t rest → skip_number t ≡ rest
unfolding skip_number
skip_number-Digits z y (no_digit rest ends) = number_stops rest ends
skip_number-Digits z y (digit c t rest d more) =
    rw (InNumber-is_number_char c d) (skip_number-Digits t rest more)
