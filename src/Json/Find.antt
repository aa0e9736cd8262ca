-- ===== src/Json/Find.antt =====
-- util/json.c: `json_find` ends, and returns a pointer into the text or its end.
use libcperciva.Prelude.{
  ◌>>=◌, Returns-bind, le_of_ltb-false, ℕ, zero, suc, ◌<◌, Bool, true, false, ◌&&◌, none, some,
  List, [], ◌∷◌, Outcome, done, arith, Returns, Keeps, Returns-if, Returns-map, Keeps-if,
  Keeps-bind, Keeps-map, Returns-recover, Returns-Keeps, length, ltb, ◌==◌, if◌then◌else◌,
  Option-cases, inl, inr,
}
use libcperciva.Json.{
  forward, skip_ws, skip_value, unescape, head_char, advance, match_loop, match_str, scan,
  find_loop, json_find,
}
use libcperciva.Json.Skip.{
  IsTail, IsTail-refl, IsTail-end, IsTail-cons, IsTail-trans, IsTail-IsTail, length-IsTail,
  forward-StaysIn, skip_ws-IsTail, StaysIn,
}
use libcperciva.Json.Nested.{next-cases, next-IsTail, skip_value-StaysIn}

-- A match that stops inside the text.
abbrev pub StopsIn : List ℕ → Outcome (List ℕ × Bool) → Type 0
StopsIn buf r = Returns (λ p. IsTail p.0 buf) r

StopsIn-trans :
    {a b : List ℕ} (r : Outcome (List ℕ × Bool)) → IsTail b a → StopsIn b r → StopsIn a r
StopsIn-trans {a} {b} r t h =
    Returns-map (λ p. IsTail p.0 b) (λ p. IsTail p.0 a) (λ p k. IsTail-trans k t) r h

StopsIn-if :
    (buf : List ℕ) (b : Bool) (x y : Outcome (List ℕ × Bool))
    → StopsIn buf x
    → StopsIn buf y
    → StopsIn buf (if b then x else y)
StopsIn-if buf b x y p q = Returns-if (λ p. IsTail p.0 buf) b x y (λ _. p) (λ _. q)

-- Behind a backslash, if the comparison of what follows it stops inside the text.
escape-StopsIn :
    (buf rest : List ℕ)
    → IsTail rest buf
    → (c : ℕ) (found : Bool) (compared : ℕ → List ℕ → Bool → Outcome (List ℕ × Bool))
    → ((ch : ℕ) (later : List ℕ) (still : Bool)
        → IsTail later rest
        → StopsIn buf (compared ch later still))
    → StopsIn buf (elim rest [
      | [] ↦ done ([], found)
      | e ∷ later ↦ elim (unescape e) [
        | some ch ↦ compared ch later found
        | none ↦
            if e == b'u'
            then if ltb (length later) 4
              then done ([], found)
              else (forward 4 later >>= λ more. compared c more false)
            else done ([], false)
      ]
    ])
escape-StopsIn buf [] t c found compared h = IsTail-end buf
escape-StopsIn buf (e ∷ later) t c found compared h = elim (Option-cases (unescape e)) [
  | inl k ↦ rw k (
      StopsIn-if buf (e == b'u') _ _
        (Returns-if (λ p. IsTail p.0 buf) (ltb (length later) 4) _ _ (λ _. IsTail-end buf)
          (λ f.
            Returns-bind (λ more. IsTail more later) _ (forward 4 later) _
              (forward-StaysIn 4 later (le_of_ltb-false (length later) 4 f))
              (λ more u. h c more false (IsTail-cons e u))))
        (IsTail-end buf))
  | inr (ch, k) ↦ rw k (h ch later found (IsTail-cons e (IsTail-refl later)))
]

match_loop-StopsIn :
    (fuel : ℕ) (buf s : List ℕ) (found : Bool)
    → length buf < fuel
    → StopsIn buf (match_loop fuel buf s found)
unfolding match_loop
match_loop-StopsIn zero buf s found h = absurd (omega arith)
match_loop-StopsIn (suc fuel) [] s found h = IsTail-refl []
match_loop-StopsIn (suc fuel) (c ∷ buf) s found h =
    let whole = c ∷ buf in
    let behind = IsTail-cons c (IsTail-refl buf) in
    let compared = λ (ch : ℕ) (rest : List ℕ) (still : Bool).
      match_loop fuel rest (advance s) (still && (ch == head_char s)) in
    let stops : (ch : ℕ) (rest : List ℕ) (still : Bool)
        → IsTail rest buf
        → StopsIn whole (compared ch rest still) =
      λ ch rest still t. StopsIn-trans (compared ch rest still) (IsTail-cons c t) (
        match_loop-StopsIn fuel rest (advance s) (still && (ch == head_char s))
          (omega (arith, length-IsTail t))) in
    StopsIn-if whole (c == 0x22) _ _ behind (
      StopsIn-if whole (c == 0x5C) _ _ (escape-StopsIn whole buf behind c found compared stops)
        (stops c buf found (IsTail-refl buf)))

pub match_str-StopsIn : (buf s : List ℕ) → StopsIn buf (match_str buf s)
unfolding match_str
match_str-StopsIn buf s = match_loop-StopsIn (suc (length buf)) buf s true (omega arith)

-- What `scan` finds stands further on in the text.
scan-Keeps :
    (buf : List ℕ) (ch : ℕ)
    → Keeps (λ rest. IsTail rest buf × (length rest < length buf)) (scan buf ch)
unfolding scan
scan-Keeps buf ch = elim (next-cases buf) [
  | inl over ↦ rw (over, scan) tt
  | inr (c, rest, e) ↦
      let at = next-IsTail buf e in
      rw (e, scan)
        (Keeps-if (λ r. IsTail r buf × (length r < length buf)) (c == ch) _ _
          (λ _. (IsTail-IsTail at, omega (arith, length-IsTail at))) (λ _. tt))
]

match_str-Keeps : (buf s : List ℕ) → Keeps (λ p. IsTail p.0 buf) (match_str buf s)
match_str-Keeps buf s =
    Returns-Keeps (λ p. IsTail p.0 buf) (match_str buf s) (match_str-StopsIn buf s)

skip_value-Keeps :
    (buf : List ℕ) → Keeps (λ rest. IsTail rest buf) (skip_value (suc (length buf)) buf)
skip_value-Keeps buf =
    Returns-Keeps (λ rest. IsTail rest buf) (skip_value (suc (length buf)) buf)
      (skip_value-StaysIn (suc (length buf)) buf (omega arith))

find_loop-Keeps :
    (fuel : ℕ) (buf s : List ℕ)
    → length buf < fuel
    → Keeps (λ rest. IsTail rest buf) (find_loop fuel buf s)
unfolding find_loop
find_loop-Keeps zero buf s h = absurd (omega arith)
find_loop-Keeps (suc fuel) buf s h =
    let In = λ (rest : List ℕ). IsTail rest buf in
    Keeps-bind _ In (scan buf 0x22) _ (scan-Keeps buf 0x22) (λ name (t, shorter).
      Keeps-bind _ In (match_str name s) _ (match_str-Keeps name s) (λ p u.
        Keeps-bind _ In (scan p.0 0x3A) _ (scan-Keeps p.0 0x3A) (λ colon (v, _).
          let here = IsTail-trans (skip_ws-IsTail colon) (IsTail-trans v (IsTail-trans u t)) in
          Keeps-if In p.1 _ _ (λ _. here)
            (λ _.
              Keeps-bind _ In (skip_value (suc (length (skip_ws colon))) (skip_ws colon)) _
                (skip_value-Keeps (skip_ws colon))
                (λ value w.
                  Keeps-bind _ In (scan value 0x2C) _ (scan-Keeps value 0x2C) (λ comma (x, less).
                    let last = IsTail-trans x (IsTail-trans w here) in
                    Keeps-map (λ rest. IsTail rest comma) In (λ rest k. IsTail-trans k last) _
                      (find_loop-Keeps fuel comma s (
                        omega (
                          arith,
                          length-IsTail w,
                          length-IsTail (skip_ws-IsTail colon),
                          length-IsTail v,
                          length-IsTail u,
                        )))))))))

-- For every text and every name `json_find` ends, moves no pointer beyond the end of the text, and
-- returns a pointer into the text or its end.
pub json_find_returns : (buf s : List ℕ) → StaysIn buf (json_find buf s)
unfolding json_find
json_find_returns buf s =
    let In = λ (rest : List ℕ). IsTail rest buf in
    Returns-recover In _ []
      (Keeps-bind _ In (scan buf 0x7B) _ (scan-Keeps buf 0x7B) (λ inside (t, _).
        Keeps-map (λ rest. IsTail rest inside) In (λ rest k. IsTail-trans k t) _
          (find_loop-Keeps (suc (length inside)) inside s (omega arith))))
      (IsTail-end buf)
