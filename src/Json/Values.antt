-- ===== src/Json/Values.antt =====
-- util/json.c: `skip_value` skips exactly one value.
use libcperciva.Prelude.{
  ℕ, zero, suc, ◌<◌, ◌≡◌, refl, ap, ◌∙◌, arith, List, [], ◌∷◌, done, recover, length,
}
use libcperciva.Json.{array_loop, skip_array, skip_member, object_loop, skip_object, skip_value}
use libcperciva.Json.Grammar.{
  digit, Value, false_value, null_value, true_value, string, number, empty_array, array,
  empty_object, object, Elements, last_element, element, Members, last_member, member,
}
use libcperciva.Json.Tokens.{skip_ws-Blanks, length-Blanks, skip_string-Chars, skip_number-Digits}
use libcperciva.Json.Steps.{
  skip_false, skip_null, skip_true, Elements-Starts, no_blanks, skip_ws-Value, skip_ws-char,
  length-skipped, length-Chars, skip_number-value, empty_array_lem, empty_object_lem, array_begins,
  Members-black, object_begins, array_step, object_step,
}

mutual
  unfolding skip_value skip_array array_loop skip_object object_loop skip_member

  pub skip_value-Value :
      (depth : ℕ) (t rest : List ℕ)
      → Value t rest
      → length t < depth
      → skip_value depth t ≡ done rest
  skip_value-Value zero t rest v h = absurd (omega arith)
  skip_value-Value (suc depth) z y (false_value rest) h = skip_false rest
  skip_value-Value (suc depth) z y (null_value rest) h = skip_null rest
  skip_value-Value (suc depth) z y (true_value rest) h = skip_true rest
  skip_value-Value (suc depth) z y (string t rest s) h = skip_string-Chars t rest s
  skip_value-Value (suc depth) z y (number c t rest d ds) h =
      skip_number-value depth c t d
      ∙ ap done (skip_number-Digits (c ∷ t) rest (digit c t rest d ds))
  skip_value-Value (suc depth) z y (empty_array t rest b) h =
      empty_array_lem (λ r. skip_value depth r) t rest (skip_ws-char 0x5D t rest refl b)
  skip_value-Value (suc depth) z y (array t u rest b e) h =
      let starts = Elements-Starts u rest e in
      let shorter = length-Blanks t u b in
      array_begins (λ r. skip_value depth r) t u (done rest)
        (skip_ws-Blanks t u b (no_blanks u starts)) starts
        (array_loop-Elements depth (suc (length u)) u rest e (omega arith) (omega arith))
  skip_value-Value (suc depth) z y (empty_object t rest b) h =
      empty_object_lem (λ r. skip_value depth r) t rest (skip_ws-char 0x7D t rest refl b)
  skip_value-Value (suc depth) z y (object t u rest b m) h =
      let shorter = length-Blanks t u b in
      object_begins depth t u rest b m
        (object_loop-Members depth (suc (length u)) u rest m (omega arith) (omega arith))

  array_loop-Elements :
      (depth fuel : ℕ) (t rest : List ℕ)
      → Elements t rest
      → length t < fuel
      → length t < depth
      → array_loop (λ r. skip_value depth r) fuel t ≡ done rest
  array_loop-Elements depth zero t rest e h k = absurd (omega arith)
  array_loop-Elements depth (suc fuel) z y (last_element t u rest v b) h k =
      array_step (λ r. skip_value depth r) fuel t u (0x5D ∷ rest) (skip_value-Value depth t u v k)
        (skip_ws-char 0x5D u rest refl b)
  array_loop-Elements depth (suc fuel) z y (element t u v w rest x a b more) h k =
      let e = skip_value-Value depth t u x k in
      let here = length-skipped depth t u k e in
      let comma = length-Blanks u (0x2C ∷ v) a in
      let next = length-Blanks v w b in
      let black = skip_ws-Blanks v w b (no_blanks w (Elements-Starts w rest more)) in
      let loop = array_loop-Elements depth fuel w rest more (omega arith) (omega arith) in
      array_step (λ r. skip_value depth r) fuel t u (0x2C ∷ v) e (skip_ws-char 0x2C u v refl a)
      ∙ ap (λ l. array_loop (λ r. skip_value depth r) fuel l) black
      ∙ loop

  object_loop-Members :
      (depth fuel : ℕ) (t rest : List ℕ)
      → Members t rest
      → length t < fuel
      → length t < depth
      → object_loop (λ r. skip_value depth r) fuel t ≡ done rest
  object_loop-Members depth zero t rest m h k = absurd (omega arith)
  object_loop-Members depth (suc fuel) z y (last_member t u v w x rest s a b value c) h k =
      let name = length-Chars t u s in
      let colon = length-Blanks u (0x3A ∷ v) a in
      let before = length-Blanks v w b in
      let e = skip_value-Value depth w x value (omega arith) in
      object_step (λ r. skip_value depth r) fuel t u v w x (0x7D ∷ rest) (skip_string-Chars t u s)
        (skip_ws-char 0x3A u v refl a) (skip_ws-Value v w x b value) e
        (skip_ws-char 0x7D x rest refl c)
  object_loop-Members depth (suc fuel) z y (member t u v w x p q rest s a b value c d more) h k =
      let name = length-Chars t u s in
      let colon = length-Blanks u (0x3A ∷ v) a in
      let before = length-Blanks v w b in
      let e = skip_value-Value depth w x value (omega arith) in
      let here = length-skipped depth w x (omega arith) e in
      let comma = length-Blanks x (0x2C ∷ p) c in
      let next = length-Blanks p q d in
      let black = skip_ws-Blanks p q d (Members-black q rest more) in
      let loop = object_loop-Members depth fuel q rest more (omega arith) (omega arith) in
      object_step (λ r. skip_value depth r) fuel t u v w x (0x2C ∷ p) (skip_string-Chars t u s)
        (skip_ws-char 0x3A u v refl a) (skip_ws-Value v w x b value) e
        (skip_ws-char 0x2C x p refl c)
      ∙ ap (λ l. recover (object_loop (λ r. skip_value depth r) fuel l) []) black
      ∙ ap (λ r. recover r []) loop
