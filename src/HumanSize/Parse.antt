-- ===== src/HumanSize/Parse.antt =====
-- util/humansize.c: `humansize_parse` computes the size of every string of its format.
use libcperciva.Prelude.{
  ℕ, ◌+◌, ◌-◌, ◌*◌, ◌≡◌, true, false, List, [], ◌∷◌, Outcome, done, fail, leb, if◌then◌else◌,
}
use libcperciva.HumanSize.{uint64_max, State, Parser, is_digit, is_error}

abbrev pub AreDigits : List ℕ → Type 0
AreDigits [] = Unit
AreDigits (c ∷ s) = (is_digit c ≡ true) × AreDigits s

-- The number that decimal digits stand for, behind others that stand for `n`.
abbrev pub value_from : ℕ → List ℕ → ℕ
value_from n [] = n
value_from n (c ∷ s) = value_from (n * 10 + (c - b'0')) s

-- One character that may be left out.
pub data Maybe (c : ℕ) : List ℕ → Type 0 where
  left_out : Maybe c []
  there : Maybe c (c ∷ [])

-- The SI prefixes, and the factors that they stand for.
pub data SiPrefix : ℕ → ℕ → Type 0 where
  kilo : SiPrefix b'k' 1000
  mega : SiPrefix b'M' 1000000
  giga : SiPrefix b'G' 1000000000
  tera : SiPrefix b'T' 1000000000000
  peta : SiPrefix b'P' 1000000000000000
  exa : SiPrefix b'E' 1000000000000000000

-- An SI prefix that may be left out.
pub data Prefix : List ℕ → ℕ → Type 0 where
  left_out : Prefix [] 1
  there : {c m : ℕ} → SiPrefix c m → Prefix (c ∷ []) m

abbrev in_digits : ℕ → Parser
in_digits n = record { state = State.digits; size = n; multiplier = 1 }

-- The parser ends with this size and this multiplier, and without an error.
abbrev EndsWith : ℕ → ℕ → Parser → Type 0
EndsWith n m p =
    (st : State) × (is_error st ≡ false) × (p ≡ record { state = st; size = n; multiplier = m })

-- What the multiplication at the end does.
abbrev pub product : ℕ → ℕ → Outcome ℕ
product n m = if leb (n * m) uint64_max then done (n * m) else fail
