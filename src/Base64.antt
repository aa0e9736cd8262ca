-- ===== src/Base64.antt =====
-- util/b64encode.c: bytes in base 64, and back.
-- What the functions store at `out` is the list that they return.
pub mod Block
pub mod RoundTrip
use Prim.Native.Nat.{bit_and}
use libcperciva.Prelude.{
  ℕ, zero, suc, ◌+◌, ◌-◌, ◌*◌, ◌/◌, ◌%◌, ◌^◌, Bool, true, false, not, ◌||◌, ◌&&◌, Option, none,
  some, List, [], ◌∷◌, ◌++◌, Outcome, done, fail, length, drop, get_or, leb, ltb, ◌==◌,
  if◌then◌else◌, ◌>>=◌,
}
use libcperciva.Prelude.Chars.{codes, strchr}

abbrev pub b64chars : List ℕ
b64chars = codes "ABCDEFGHIJKLMNOPQRSTUVWXYZabcdefghijklmnopqrstuvwxyz0123456789+/="

-- `t` once up to three bytes are shifted in, with `rounds` to go.
unfoldable pub read_block : ℕ → ℕ → List ℕ → ℕ
read_block zero t xs = t
read_block (suc rounds) t [] = read_block rounds (t * 2 ^ 8 % 2 ^ 32) []
read_block (suc rounds) t (x ∷ xs) = read_block rounds ((t * 2 ^ 8 % 2 ^ 32 + x) % 2 ^ 32) xs

-- The characters for `t` from the `j`th on, with `rounds` to go.
unfoldable pub write_block : ℕ → ℕ → ℕ → ℕ → List ℕ
write_block zero j len t = []
write_block (suc rounds) j len t =
    (if leb j len then get_or b64chars (bit_and (t / 2 ^ 18) 0x3f) 0 else b'=')
    ∷ write_block rounds (suc j) len (t * 2 ^ 6 % 2 ^ 32)

-- One round of `b64encode`.
unfoldable pub encode_block : List ℕ → List ℕ
encode_block xs = write_block 4 0 (length xs) (read_block 3 0 xs)

unfoldable pub encode_loop : List ℕ → List ℕ
encode_loop [] = []
encode_loop (a ∷ []) = encode_block (a ∷ [])
encode_loop (a ∷ b ∷ []) = encode_block (a ∷ b ∷ [])
encode_loop (a ∷ b ∷ c ∷ xs) = encode_block (a ∷ b ∷ c ∷ xs) ++ encode_loop xs

-- `b64encode`, with the NUL at the end.
unfoldable pub b64encode : List ℕ → List ℕ
b64encode xs = encode_loop xs ++ 0 ∷ []

-- `(in[i] != '\0') && (strchr(b64chars, in[i]) != NULL)`.
unfoldable pub is_b64 : ℕ → Bool
is_b64 c = not (c == 0) && elim (strchr b64chars c) [ none ↦ false | some pos ↦ true ]

-- The loop that checks the input and counts the '='; `none` for `goto bad`.
unfoldable pub count_dead : List ℕ → ℕ → Option ℕ
count_dead [] dead = some dead
count_dead (c ∷ s) dead =
    let dead' = if c == b'=' then dead + 1 else dead in
    let rest = count_dead s dead' in
    if is_b64 c then (if not (c == b'=') && ltb 0 dead' then none else rest) else none

-- `(uint32_t)((strchr(b64chars, c) - b64chars) & 0x3f)`, for a character that is there.
unfoldable pub digit : ℕ → ℕ
digit c = elim (strchr b64chars c) [ none ↦ 0 | some pos ↦ bit_and pos 0x3f ]

-- `t` after four characters.
unfoldable pub parse_block : ℕ → ℕ → ℕ → ℕ → ℕ
parse_block a b c d =
    let t1 = (0 * 2 ^ 6 % 2 ^ 32 + digit a) % 2 ^ 32 in
    let t2 = (t1 * 2 ^ 6 % 2 ^ 32 + digit b) % 2 ^ 32 in
    let t3 = (t2 * 2 ^ 6 % 2 ^ 32 + digit c) % 2 ^ 32 in (t3 * 2 ^ 6 % 2 ^ 32 + digit d) % 2 ^ 32

-- The three bytes of `t`.
unfoldable pub output_block : ℕ → List ℕ
output_block t =
    bit_and (t / 2 ^ 16) 0xff
    ∷ bit_and (t * 2 ^ 8 % 2 ^ 32 / 2 ^ 16) 0xff
    ∷ bit_and (t * 2 ^ 8 % 2 ^ 32 * 2 ^ 8 % 2 ^ 32 / 2 ^ 16) 0xff
    ∷ []

-- The loop of `b64decode`; the input's length is a multiple of four.
unfoldable pub decode_loop : List ℕ → List ℕ
decode_loop (a ∷ b ∷ c ∷ d ∷ s) = output_block (parse_block a b c d) ++ decode_loop s
decode_loop s = []

-- `b64decode`: the bytes stored at `out`, and `*outlen`; `fail` for a nonzero return.
unfoldable pub b64decode : List ℕ → Outcome (List ℕ × ℕ)
b64decode s = if not (length s % 4 == 0) then fail else elim (count_dead s 0) [
  | none ↦ fail
  | some dead ↦
      if ltb 2 dead then fail else (let out = decode_loop s in done (out, length out - dead))
]
