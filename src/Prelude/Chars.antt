-- ===== src/Prelude/Chars.antt =====
-- C strings as lists of character codes, and claims about a range of numbers checked by running.
use Prim.Native.Nat.{ℕ, zero, suc, ◌<◌}
use Prim.Native.Char.{code}
use Prim.Native.String.{String}
use mathlib.Core.Path.{◌≡◌, refl, sym, ap, subst, ◌∙◌}
use mathlib.Core.Bool.{Bool, true, false, not, ◌&&◌}
use mathlib.Core.Option.{Option, none, some}
use mathlib.Core.Option
use mathlib.Core.List.{List, [], ◌∷◌}
use native.Mathlib.Omega.{arith}
use mathlib.Core.Logic.{inl, inr}
use libcperciva.Prelude.Tests.{◌==◌, if◌then◌else◌, Bool-cases}

-- The codes of an ASCII literal.
abbrev pub codes : String → List ℕ
codes String.[] = []
codes (String.◌∷◌ c s) = code c ∷ codes s

-- `strchr(s, c) - s`, `none` for NULL; the NUL behind the string is found as well.
unfoldable pub strchr : List ℕ → ℕ → Option ℕ
strchr [] c = if c == 0 then some 0 else none
strchr (x ∷ xs) c = if x == c then some 0 else Option.map suc (strchr xs c)

-- Does the test hold at all numbers that are less than `bound`?
unfoldable pub holds_below : (ℕ → Bool) → ℕ → Bool
holds_below test zero = true
holds_below test (suc bound) = holds_below test bound && test bound

pub holds_below_at :
    (test : ℕ → Bool) (bound : ℕ)
    → holds_below test bound ≡ true
    → (k : ℕ) → k < bound
    → test k ≡ true
unfolding holds_below
holds_below_at test zero all k less = absurd (omega arith)
holds_below_at test (suc bound) all k less = elim (Bool-cases (test bound)) [
  | inr bad ↦ ground arith
  | inl good ↦ elim (Bool-cases (k == bound)) [
    | inl last ↦ ground arith
    | inr before ↦ holds_below_at test bound (ground arith) k (ground arith)
  ]
]

-- Is the answer of a search this position?
abbrev pub is_at : Option ℕ → ℕ → Bool
is_at none i = false
is_at (some j) i = j == i

pub is_at_sound : (o : Option ℕ) (i : ℕ) → is_at o i ≡ true → o ≡ some i
is_at_sound none i h = ground arith
is_at_sound (some j) i h = ground arith

abbrev pub is_found : Option ℕ → Bool
is_found none = false
is_found (some pos) = true

abbrev pub all : (ℕ → Bool) → List ℕ → Bool
all test [] = true
all test (x ∷ xs) = test x && all test xs

found_map : (o : Option ℕ) → is_found (Option.map suc o) ≡ is_found o
found_map none = refl
found_map (some pos) = refl

-- A character that is found, but for the NUL behind the string, passes a test that all pass.
pub strchr-all :
    (test : ℕ → Bool) (xs : List ℕ) (c : ℕ)
    → all test xs ≡ true
    → not (c == 0) ≡ true
    → is_found (strchr xs c) ≡ true
    → test c ≡ true
unfolding strchr
strchr-all test [] c h not_nul found = ground arith
strchr-all test (x ∷ xs) c h not_nul found = elim (Bool-cases (x == c)) [
  | inl same ↦ let e : x ≡ c = ground arith in subst (λ y. test y ≡ true) e (ground arith)
  | inr other ↦ strchr-all test xs c (ground arith) not_nul (
      sym (found_map (strchr xs c))
      ∙ sym (ap (λ b. is_found (if b then some 0 else Option.map suc (strchr xs c))) other)
      ∙ found)
]
