-- ===== src/Json/Grammar.antt =====
-- util/json.c: JSON texts, as the relation between a text and what is left of it.
use libcperciva.Prelude.{ℕ, ◌≤◌, ◌≡◌, ◌≢◌, ◌⊎◌, List, [], ◌∷◌, ◌++◌}
use libcperciva.Prelude.Chars.{codes}

abbrev pub IsBlank : ℕ → Type 0
IsBlank c = (c ≡ 0x09) ⊎ (c ≡ 0x0A) ⊎ (c ≡ 0x0D) ⊎ (c ≡ 0x20)

-- `t` is `u` behind any number of blanks.
pub data Blanks : List ℕ → List ℕ → Type 0 where
  no_blank : (t : List ℕ) → Blanks t t
  blank : (c : ℕ) (t u : List ℕ) → IsBlank c → Blanks t u → Blanks (c ∷ t) u

-- The characters of a string up to its closing quote.
pub data Chars : List ℕ → List ℕ → Type 0 where
  closing : (rest : List ℕ) → Chars (0x22 ∷ rest) rest
  plain : (c : ℕ) (t rest : List ℕ) → c ≢ 0x22 → c ≢ 0x5C → Chars t rest → Chars (c ∷ t) rest
  escape : (e : ℕ) (t rest : List ℕ) → e ≢ b'u' → Chars t rest → Chars (0x5C ∷ e ∷ t) rest
  unicode :
      (h i j k : ℕ) (t rest : List ℕ) → Chars t rest → Chars (0x5C ∷ b'u' ∷ h ∷ i ∷ j ∷ k ∷ t) rest

-- The characters of numbers.
abbrev pub InNumber : ℕ → Type 0
InNumber c =
    ((0x30 ≤ c) × (c ≤ 0x39)) ⊎ (c ≡ 0x2B) ⊎ (c ≡ 0x2D) ⊎ (c ≡ 0x2E) ⊎ (c ≡ 0x45) ⊎ (c ≡ 0x65)

abbrev pub NumberEnds : List ℕ → Type 0
NumberEnds [] = Unit
NumberEnds (c ∷ t) = InNumber c → ⊥

-- As many characters of numbers as there are.
pub data Digits : List ℕ → List ℕ → Type 0 where
  no_digit : (rest : List ℕ) → NumberEnds rest → Digits rest rest
  digit : (c : ℕ) (t rest : List ℕ) → InNumber c → Digits t rest → Digits (c ∷ t) rest

-- A value, the elements of an array, and the members of an object, the closing bracket included.
mutual
  pub data Value : List ℕ → List ℕ → Type 0 where
    false_value : (rest : List ℕ) → Value (codes "false" ++ rest) rest
    null_value : (rest : List ℕ) → Value (codes "null" ++ rest) rest
    true_value : (rest : List ℕ) → Value (codes "true" ++ rest) rest
    string : (t rest : List ℕ) → Chars t rest → Value (0x22 ∷ t) rest
    number : (c : ℕ) (t rest : List ℕ) → InNumber c → Digits t rest → Value (c ∷ t) rest
    empty_array : (t rest : List ℕ) → Blanks t (0x5D ∷ rest) → Value (0x5B ∷ t) rest
    array : (t u rest : List ℕ) → Blanks t u → Elements u rest → Value (0x5B ∷ t) rest
    empty_object : (t rest : List ℕ) → Blanks t (0x7D ∷ rest) → Value (0x7B ∷ t) rest
    object : (t u rest : List ℕ) → Blanks t u → Members u rest → Value (0x7B ∷ t) rest

  pub data Elements : List ℕ → List ℕ → Type 0 where
    last_element : (t u rest : List ℕ) → Value t u → Blanks u (0x5D ∷ rest) → Elements t rest
    element :
        (t u v w rest : List ℕ)
        → Value t u
        → Blanks u (0x2C ∷ v)
        → Blanks v w
        → Elements w rest
        → Elements t rest

  pub data Members : List ℕ → List ℕ → Type 0 where
    last_member :
        (t u v w x rest : List ℕ)
        → Chars t u
        → Blanks u (0x3A ∷ v)
        → Blanks v w
        → Value w x
        → Blanks x (0x7D ∷ rest)
        → Members (0x22 ∷ t) rest
    member :
        (t u v w x y z rest : List ℕ)
        → Chars t u
        → Blanks u (0x3A ∷ v)
        → Blanks v w
        → Value w x
        → Blanks x (0x2C ∷ y)
        → Blanks y z
        → Members z rest
        → Members (0x22 ∷ t) rest
