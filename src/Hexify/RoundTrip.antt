-- ===== src/Hexify/RoundTrip.antt =====
-- util/hexify.c: `unhexify` undoes `hexify`, and accepts hexadecimal characters only.
use libcperciva.Prelude.{
  ◌+◌, ◌-◌, ◌≤◌, ◌⊎◌, ◌||◌, leb, sym, ◌∙◌, Bool, ℕ, zero, suc, ◌*◌, ◌/◌, ◌%◌, ◌^◌, ◌<◌, ◌≡◌, refl,
  Bool-cases, inl, inr, ap, subst, ◌↔◌, true, ◌&&◌, List, [], ◌∷◌, done, arith, get_or, length,
  ◌==◌,
}
use libcperciva.Prelude.Bits.{bit_and_15}
use libcperciva.Prelude.Chars.{strchr, strchr-all, all, holds_below, holds_below_at}
use libcperciva.Hexify.{hexchars, hexify, is_hex, check, digit, convert, unhexify}

-- The bytes of a buffer.
abbrev pub AreBytes : List ℕ → Type 0
AreBytes [] = Unit
AreBytes (x ∷ xs) = (x < 256) × AreBytes xs

-- Is the digit for `d` taken for a digit, and for `d`?
unfoldable reads_back : ℕ → Bool
reads_back d = is_hex (get_or hexchars d 0) && (digit (get_or hexchars d 0) == d)

digits_read : holds_below reads_back 16 ≡ true
unfolding holds_below reads_back is_hex digit strchr
digits_read = refl

is_hex-get_or : (d : ℕ) → d < 16 → is_hex (get_or hexchars d 0) ≡ true
unfolding reads_back
is_hex-get_or d h = ground (arith, holds_below_at reads_back 16 digits_read d)

digit-get_or : (d : ℕ) → d < 16 → digit (get_or hexchars d 0) ≡ d
unfolding reads_back
digit-get_or d h = ground (arith, holds_below_at reads_back 16 digits_read d)

two_more : (n : ℕ) → 2 * suc n ≡ suc (suc (2 * n))
two_more n = omega arith

-- `check` accepts the digits, with whatever stands behind them.
check-hexify : (xs : List ℕ) → AreBytes xs → check (2 * length xs) (hexify xs) ≡ true
unfolding check hexify
check-hexify [] h = refl
check-hexify (x ∷ xs) (hx, h) = rw (
  two_more (length xs),
  is_hex-get_or (x / 2 ^ 4) (omega arith),
  bit_and_15 x,
  is_hex-get_or (x % 16) (omega arith),
  check-hexify xs h,
)

convert-hexify : (xs : List ℕ) → AreBytes xs → convert (length xs) (hexify xs) ≡ xs
unfolding convert hexify
convert-hexify [] h = refl
convert-hexify (x ∷ xs) (hx, h) =
    rw
      (
        bit_and_15 x,
        digit-get_or (x / 2 ^ 4) (omega arith),
        digit-get_or (x % 16) (omega arith),
        convert-hexify xs h,
      )
      (ap (λ k. k ∷ xs) (omega arith))

-- For any bytes, reading what `hexify` wrote gives the bytes back.
pub unhexify-hexify : (xs : List ℕ) → AreBytes xs → unhexify (hexify xs) (length xs) ≡ done xs
unfolding unhexify
unhexify-hexify xs h = rw (check-hexify xs h, convert-hexify xs h)

-- The digits and the letters of both cases.
abbrev pub IsHexDigit : ℕ → Type 0
IsHexDigit c = ((b'0' ≤ c) × (c ≤ b'9')) ⊎ ((b'a' ≤ c) × (c ≤ b'f')) ⊎ ((b'A' ≤ c) × (c ≤ b'F'))

abbrev in_range : ℕ → Bool
in_range c =
    (leb 0x30 c && leb c 0x39) || ((leb 0x61 c && leb c 0x66) || (leb 0x41 c && leb c 0x46))

in_range_lem : (c : ℕ) → in_range c ≡ true → IsHexDigit c
in_range_lem c h = elim (Bool-cases (leb 0x30 c && leb c 0x39)) [
  | inl d ↦ inl (ground arith, ground arith)
  | inr d ↦ elim (Bool-cases (leb 0x61 c && leb c 0x66)) [
    | inl e ↦ inr (inl (ground arith, ground arith))
    | inr e ↦ inr (inr (ground arith, ground arith))
  ]
]

all-in_range : all in_range hexchars ≡ true
all-in_range = refl

is_hex-IsHexDigit : (c : ℕ) → is_hex c ≡ true → IsHexDigit c
unfolding is_hex
is_hex-IsHexDigit c h =
    in_range_lem c (strchr-all in_range hexchars c all-in_range (ground arith) (ground arith))

-- Does the range from `first` on have digits only?
unfoldable run_from : ℕ → ℕ → Bool
run_from first k = is_hex (first + k)

runs :
    (holds_below (run_from 0x30) 10
      && (holds_below (run_from 0x61) 6 && holds_below (run_from 0x41) 6))
    ≡ true
unfolding holds_below run_from is_hex strchr
runs = refl

IsHexDigit-is_hex : (c : ℕ) → IsHexDigit c → is_hex c ≡ true
unfolding run_from
IsHexDigit-is_hex c (inl (low, high)) =
    let e : 0x30 + (c - 0x30) ≡ c = omega arith in
    ap is_hex (sym e)
    ∙ holds_below_at (run_from 0x30) 10 (ground (arith, runs)) (c - 0x30) (omega arith)
IsHexDigit-is_hex c (inr (inl (low, high))) =
    let e : 0x61 + (c - 0x61) ≡ c = omega arith in
    ap is_hex (sym e)
    ∙ holds_below_at (run_from 0x61) 6 (ground (arith, runs)) (c - 0x61) (omega arith)
IsHexDigit-is_hex c (inr (inr (low, high))) =
    let e : 0x41 + (c - 0x41) ≡ c = omega arith in
    ap is_hex (sym e)
    ∙ holds_below_at (run_from 0x41) 6 (ground (arith, runs)) (c - 0x41) (omega arith)

-- The first `n` characters of a string are there, and hexadecimal.
abbrev pub AreHex : ℕ → List ℕ → Type 0
AreHex zero s = Unit
AreHex (suc n) [] = ⊥
AreHex (suc n) (c ∷ s) = IsHexDigit c × AreHex n s

check-AreHex : (n : ℕ) (s : List ℕ) → check n s ≡ true → AreHex n s
unfolding check
check-AreHex zero s h = tt
check-AreHex (suc n) [] h = cc
check-AreHex (suc n) (c ∷ s) h =
    (is_hex-IsHexDigit c (ground arith), check-AreHex n s (ground arith))

AreHex-check : (n : ℕ) (s : List ℕ) → AreHex n s → check n s ≡ true
unfolding check
AreHex-check zero s h = refl
AreHex-check (suc n) [] h = absurd h
AreHex-check (suc n) (c ∷ s) (hc, h) = rw (IsHexDigit-is_hex c hc, AreHex-check n s h)

length-convert : (n : ℕ) (s : List ℕ) → AreHex (2 * n) s → length (convert n s) ≡ n
unfolding convert
length-convert zero s h = refl
length-convert (suc n) [] h = absurd (subst (λ k. AreHex k []) (two_more n) h)
length-convert (suc n) (a ∷ []) h =
    let g = subst (λ k. AreHex k (a ∷ [])) (two_more n) h in absurd g.1
length-convert (suc n) (a ∷ b ∷ s) h =
    let g = subst (λ k. AreHex k (a ∷ b ∷ s)) (two_more n) h in ap suc (length-convert n s g.1.1)

convert-AreBytes : (n : ℕ) (s : List ℕ) → AreBytes (convert n s)
unfolding convert
convert-AreBytes zero s = tt
convert-AreBytes (suc n) [] = tt
convert-AreBytes (suc n) (a ∷ []) = tt
convert-AreBytes (suc n) (a ∷ b ∷ s) = (omega arith, convert-AreBytes n s)

-- `unhexify` succeeds exactly if the string begins with `2 * len` characters that are digits or the
-- letters a to f in either case, and what it stores are `len` bytes.
pub unhexify_accepts :
    (s : List ℕ) (len : ℕ)
    → AreHex (2 * len) s
      ↔ ((out : List ℕ) × (unhexify s len ≡ done out) × (length out ≡ len) × AreBytes out)
unfolding unhexify
unhexify_accepts s len = (
  λ h. (
    convert len s,
    rw (AreHex-check (2 * len) s h),
    length-convert len s h,
    convert-AreBytes len s,
  ),
  λ (out, e, _, _). elim (Bool-cases (check (2 * len) s)) [
    | inl good ↦ check-AreHex (2 * len) s good
    | inr bad ↦ ground arith
  ],
)
