-- ===== src/HumanSize/Print.antt =====
-- util/humansize.c: `humansize` prints the greatest size of its format that is not too large.
use libcperciva.Prelude.{
  ℕ, suc, ◌+◌, ◌*◌, ◌/◌, ◌%◌, ◌^◌, ◌≤◌, ◌<◌, ◌≡◌, some, List, [], ◌∷◌, ◌++◌, get_elem?,
}
use libcperciva.Prelude.Chars.{codes}
use libcperciva.HumanSize.{decimal, prefixes}

-- `m` is the number of tenths of a unit of `unit` bytes that fit in `size`.
abbrev pub Tenths : ℕ → ℕ → ℕ → Type 0
Tenths m unit size = (m * unit ≤ 10 * size) × (10 * size < suc m * unit)

-- What the loop ends with: a size of two to four digits, in tenths of the prefix's unit.
abbrev pub IsScaled : ℕ → ℕ → ℕ × ℕ → Type 0
IsScaled size last (v, n) = (10 ≤ v) × (v < 10000) × (1 ≤ n) × (n ≤ last) × Tenths v (1000 ^ n) size

-- A string of the format, and the size that it shows: the greatest one that is not above `size`.
pub data Shows (size : ℕ) : List ℕ → Type 0 where
  bytes : size < 1000 → Shows size (decimal size ++ codes " B")
  tenths :
      (v n p : ℕ)
      → get_elem? prefixes n ≡ some p
      → 1 ≤ n
      → 10 ≤ v
      → v < 100
      → v * 1000 ^ n ≤ 10 * size
      → 10 * size < (v + 1) * 1000 ^ n
      → Shows size (decimal (v / 10) ++ (b'.' ∷ decimal (v % 10) ++ (b' ' ∷ p ∷ b'B' ∷ [])))
  whole :
      (v n p : ℕ)
      → get_elem? prefixes n ≡ some p
      → 1 ≤ n
      → 10 ≤ v
      → v < 1000
      → v * 1000 ^ n ≤ size
      → size < (v + 1) * 1000 ^ n
      → Shows size (decimal v ++ (b' ' ∷ p ∷ b'B' ∷ []))
