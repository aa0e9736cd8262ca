-- ===== src/Json/Match.antt =====
-- util/json.c: `match_str` compares a name without escapes with a C string.
use libcperciva.Prelude.{
  ℕ, zero, suc, ◌<◌, ◌≡◌, ◌≢◌, refl, ap, ◌∙◌, Bool, true, false, ◌&&◌, List, [], ◌∷◌, ◌++◌, done,
  arith, length, length-append, ◌==◌,
}
use libcperciva.Json.{head_char, advance, match_loop, match_str}

-- Characters that stand for themselves in a JSON string.
abbrev pub ArePlain : List ℕ → Type 0
ArePlain [] = Unit
ArePlain (c ∷ s) = (c ≢ 0x22) × (c ≢ 0x5C) × (c ≢ 0) × ArePlain s

-- The characters of a C string.
abbrev pub AreChars : List ℕ → Type 0
AreChars [] = Unit
AreChars (c ∷ s) = (c ≢ 0) × AreChars s

abbrev pub same : List ℕ → List ℕ → Bool
same [] [] = true
same [] (d ∷ t) = false
same (c ∷ s) [] = false
same (c ∷ s) (d ∷ t) = (c == d) && same s t

AreChars-advance : (s : List ℕ) → AreChars s → AreChars (advance s)
AreChars-advance [] h = tt
AreChars-advance (c ∷ s) h = h.1

-- At the end of the name the C string has to end as well.
head_char-same :
    (s : List ℕ) (found : Bool) → AreChars s → (found && (head_char s == 0)) ≡ (found && same [] s)
head_char-same [] found h = refl
head_char-same (c ∷ s) found h = let e : (c == 0) ≡ false = let ne = h.0 in ground arith in rw e

-- One character, and the rest of the name.
same-advance :
    (c : ℕ) (name s : List ℕ) (found : Bool)
    → c ≢ 0
    → ((found && (c == head_char s)) && same name (advance s)) ≡ (found && same (c ∷ name) s)
same-advance c name s false ne = refl
same-advance c name [] true ne = let e : (c == 0) ≡ false = ground arith in rw e
same-advance c name (d ∷ s) true ne = refl

match_loop-ArePlain :
    (fuel : ℕ) (name rest s : List ℕ) (found : Bool)
    → length name < fuel
    → ArePlain name
    → AreChars s
    → match_loop fuel (name ++ 0x22 ∷ rest) s found ≡ done (rest, found && same name s)
unfolding match_loop
match_loop-ArePlain zero name rest s found h p q = absurd (omega arith)
match_loop-ArePlain (suc fuel) [] rest s found h p q =
    ap (λ b. done (rest, b)) (head_char-same s found q)
match_loop-ArePlain (suc fuel) (c ∷ name) rest s found h (quote, slash, nul, p) q =
    let no_quote : (c == 0x22) ≡ false = ground arith in
    let no_slash : (c == 0x5C) ≡ false = ground arith in
    rw (no_quote, no_slash)
      (match_loop-ArePlain fuel name rest (advance s) (found && (c == head_char s)) (omega arith) p
          (AreChars-advance s q)
        ∙ ap (λ b. done (rest, b)) (same-advance c name s found nul))

-- A name of characters that stand for themselves, without NULs, is compared with a C string: the
-- call succeeds, stops behind the closing quote, and reports exactly whether the two are the same.
pub match_str-ArePlain :
    (name rest s : List ℕ)
    → ArePlain name
    → AreChars s
    → match_str (name ++ 0x22 ∷ rest) s ≡ done (rest, same name s)
unfolding match_str
match_str-ArePlain name rest s p q =
    match_loop-ArePlain (suc (length (name ++ 0x22 ∷ rest))) name rest s true
      (omega (arith, length-append name (0x22 ∷ rest))) p q
