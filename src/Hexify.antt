-- ===== src/Hexify.antt =====
-- util/hexify.c: bytes written in hexadecimal, and read back.
-- A string is the list of its characters; past its end stands the NUL, for which `unhexify` looks.
pub mod RoundTrip
use Prim.Native.Nat.{bit_and}
use libcperciva.Prelude.{
  ℕ, zero, suc, ◌+◌, ◌*◌, ◌/◌, ◌%◌, ◌^◌, Bool, true, false, not, ◌||◌, ◌&&◌, Option, none, some,
  List, [], ◌∷◌, ◌++◌, Outcome, done, fail, get_or, ◌==◌, if◌then◌else◌,
}
use libcperciva.Prelude.Chars.{codes, strchr, is_found}

abbrev pub hexchars : List ℕ
hexchars = codes "0123456789abcdef0123456789ABCDEF"

-- What `hexify` stores at `out`, the NUL included.
unfoldable pub hexify : List ℕ → List ℕ
hexify [] = 0 ∷ []
hexify (x ∷ xs) = get_or hexchars (x / 2 ^ 4) 0 ∷ get_or hexchars (bit_and x 0x0f) 0 ∷ hexify xs

-- Is the character neither NUL nor missing in `hexchars`?
unfoldable pub is_hex : ℕ → Bool
is_hex c = not (c == 0) && is_found (strchr hexchars c)

-- The first loop of `unhexify`, with `left` characters to go.
unfoldable pub check : ℕ → List ℕ → Bool
check zero s = true
check (suc left) [] = false
check (suc left) (c ∷ s) = is_hex c && check left s

-- `(strchr(hexchars, c) - hexchars) & 0x0f`, for a character that is there.
unfoldable pub digit : ℕ → ℕ
digit c = elim (strchr hexchars c) [ none ↦ 0 | some pos ↦ bit_and pos 0x0f ]

-- The second loop of `unhexify`, with `left` pairs to go.
unfoldable pub convert : ℕ → List ℕ → List ℕ
convert zero s = []
convert (suc left) (first ∷ second ∷ s) =
    (digit first * 2 ^ 4 % 256 + digit second) % 256 ∷ convert left s
convert (suc left) s = []

-- The bytes that `unhexify` stores at `out`, or its error return.
unfoldable pub unhexify : List ℕ → ℕ → Outcome (List ℕ)
unhexify s len = if check (2 * len) s then done (convert len s) else fail
