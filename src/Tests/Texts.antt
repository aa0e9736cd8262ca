-- ===== src/Tests/Texts.antt =====
-- util/json.c and util/humansize.c at concrete texts.
use libcperciva.Prelude.{
  ◌∷◌, inl, inr, sym, ap, true-false, [], ℕ, ◌≡◌, refl, List, true, arith, done,
}
use libcperciva.Prelude.Chars.{codes, strchr}
use libcperciva.Json.{
  json_find, find_loop, scan, forward, skip_ws, match_str, match_loop, skip_value, unescape,
  skip_array, array_loop, skip_number, is_number_char, skip_object,
}
use libcperciva.Json.Skip.{StaysIn}
use libcperciva.Json.Find.{json_find_returns}
use libcperciva.Json.Grammar.{no_blank, blank, null_value, number, NumberEnds, no_digit}
use libcperciva.Json.Search.{Answers, here, later, json_find-Answers}
use libcperciva.Json.Match.{same, ArePlain, match_str-ArePlain}
use libcperciva.HumanSize.{humansize, decimal, decimal_loop, scale, scaled}

abbrev text : List ℕ
text = codes "{\"a\" : [1, {}], \"b\": 2}"

found : json_find text (codes "b") ≡ done (codes "2}")
unfolding json_find find_loop scan skip_ws match_str match_loop skip_value skip_array array_loop
    skip_number is_number_char strchr skip_object unescape
found = refl

-- A name that is written with an escape of four digits is not found.
escaped_name : json_find (codes "{\"\\u0061\": 1}") (codes "a") ≡ done []
unfolding json_find find_loop scan skip_ws match_str match_loop skip_value skip_number
    is_number_char strchr unescape forward
escaped_name = refl

json_find_returns_example : StaysIn text (json_find text (codes "b"))
json_find_returns_example = json_find_returns text (codes "b")

abbrev members : List ℕ
members = codes "\"a\":null,\"b\": 2}"

brace_ends : NumberEnds (codes "}")
brace_ends h = omega arith

letter_plain : ArePlain (codes "b")
letter_plain = omega arith

not_b : codes "a" ≡ codes "b" → ⊥
not_b e = absurd (true-false (sym (ap (λ l. same l (codes "b")) e)))

-- The second of two members.
second : Answers (codes "b") members (codes "2}")
second =
    later (codes "a") _ _ _ _ _ _ _ (no_blank _) (omega arith) (λ e. absurd (not_b e)) (no_blank _)
      (no_blank _) (null_value (codes ",\"b\": 2}")) (no_blank _)
      (here _ (codes ": 2}") (codes " 2}") (codes "2}") (codes "}") (no_blank _) (no_blank _)
        (blank 0x20 _ _ (inr (inr (inr refl))) (no_blank _))
        (number 0x32 _ _ (inl (omega arith, omega arith)) (no_digit _ brace_ends)))

json_find-Answers_example : json_find (0x7B ∷ members) (codes "b") ≡ done (codes "2}")
json_find-Answers_example =
    json_find-Answers (0x7B ∷ members) members (codes "b") (codes "2}") (no_blank _) letter_plain
      second

key_plain : ArePlain (codes "key")
key_plain = omega arith

match_str-ArePlain_example : match_str (codes "key\": 1") (codes "key") ≡ done (codes ": 1", true)
match_str-ArePlain_example =
    match_str-ArePlain (codes "key") (codes ": 1") (codes "key") key_plain (omega arith)

printed : humansize true 1234567 ≡ done (codes "1.2 MB")
unfolding humansize scale scaled decimal decimal_loop
printed = refl
