-- ===== src/HumanSize.antt =====
-- util/humansize.c: sizes in bytes printed with an SI prefix, and parsed.
-- A string is the list of its characters, without the NUL at its end.
pub mod Print
pub mod Parse
use libcperciva.Prelude.{
  ℕ, zero, suc, ◌+◌, ◌-◌, ◌*◌, ◌/◌, ◌%◌, ◌^◌, Bool, true, false, not, ◌||◌, ◌&&◌, Option, none,
  some, List, [], ◌∷◌, ◌++◌, Outcome, done, fail, abort, ◌>>=◌, get_elem?, get_or, ltb, leb, ◌==◌,
  if◌then◌else◌,
}
use libcperciva.Prelude.Chars.{codes}

-- What `printf` writes for `%d` and a number that is not negative, on fuel.
unfoldable pub decimal_loop : ℕ → ℕ → List ℕ
decimal_loop zero n = []
decimal_loop (suc fuel) n =
    let front = decimal_loop fuel (n / 10) in
    if ltb n 10 then (b'0' + n) ∷ [] else front ++ ((b'0' + n % 10) ∷ [])

unfoldable pub decimal : ℕ → List ℕ
decimal n = decimal_loop (suc n) n

-- The loop that looks for the prefix, on fuel: `size` and `shiftcnt` behind it.
unfoldable pub scale : ℕ → ℕ → ℕ → Outcome (ℕ × ℕ)
scale zero size shiftcnt = abort
scale (suc fuel) size shiftcnt =
    let next = scale fuel (size / 1000) (shiftcnt + 1) in
    if leb 10000 size then next else done (size, shiftcnt)

abbrev pub prefixes : List ℕ
prefixes = codes " kMGTPE"

-- The string, for a size in tenths of the unit with the prefix.
unfoldable pub scaled : ℕ → ℕ → List ℕ
scaled size prefix =
    if ltb size 100
    then decimal (size / 10) ++ (b'.' ∷ decimal (size % 10) ++ (b' ' ∷ prefix ∷ b'B' ∷ []))
    else decimal (size / 10) ++ (b' ' ∷ prefix ∷ b'B' ∷ [])

-- `abort` stands for a read beyond the string of the prefixes; `granted` says whether `asprintf`
-- gets its memory.
unfoldable pub humansize : Bool → ℕ → Outcome (List ℕ)
humansize granted size =
    (if ltb size 1000
      then done (decimal size ++ codes " B")
      else (scale 6 (size / 100) 1 >>= λ (size, shiftcnt). elim (get_elem? prefixes shiftcnt) [
        | none ↦ abort
        | some prefix ↦ done (scaled size prefix)
      ]))
    >>= λ s. if granted then done s else fail

abbrev pub uint64_max : ℕ
uint64_max = 2 ^ 64 - 1

-- The states of `humansize_parse`: -1, and 0 to 5.
pub data State : Type 0 where
  error : State
  initial : State
  digits : State
  space : State
  prefix : State
  unit : State
  garbage : State

pub record Parser : Type 0 where
  pub state : State
  pub size : ℕ
  pub multiplier : ℕ

unfoldable pub is_digit : ℕ → Bool
is_digit c = leb b'0' c && leb c b'9'

-- The factor of an SI prefix.
unfoldable pub factor : ℕ → ℕ
factor c =
    if c == b'E'
    then 1000 ^ 6
    else if c == b'P'
    then 1000 ^ 5
    else if c == b'T'
    then 1000 ^ 4
    else if c == b'G'
    then 1000 ^ 3
    else if c == b'M'
    then 1000 ^ 2
    else if c == b'k'
    then 1000
    else 1

-- The cases of the `switch`, from the last one to the first: each falls through to the one above.
unfoldable pub case_unit : Parser → ℕ → Parser
case_unit p c = record p { state = if c == b'B' then garbage else error }

unfoldable pub case_prefix : Parser → ℕ → Parser
case_prefix p c =
    let multiplier = p.multiplier * factor c % 2 ^ 64 in
    if multiplier == 1
    then case_unit (record p { multiplier = multiplier }) c
    else record p { state = unit; multiplier = multiplier }

unfoldable pub case_space : Parser → ℕ → Parser
case_space p c = if c == b' ' then record p { state = prefix } else case_prefix p c

-- A digit is taken into `*size`, or the state is -1.
unfoldable pub take_digit : Parser → ℕ → Parser
take_digit p c =
    let tens =
      if ltb (uint64_max / 10) p.size
      then record p { state = error }
      else record p { state = digits; size = p.size * 10 % 2 ^ 64 } in
    if ltb (uint64_max - (c - b'0')) tens.size
    then record tens { state = error }
    else record tens { size = (tens.size + (c - b'0')) % 2 ^ 64 }

unfoldable pub case_digits : Parser → ℕ → Parser
case_digits p c = if is_digit c then take_digit p c else case_space p c

unfoldable pub case_initial : Parser → ℕ → Parser
case_initial p c =
    let empty : Parser = record p { size = 0 } in
    if is_digit c then case_digits empty c else record empty { state = error }

unfoldable pub step : State → Parser → ℕ → Parser
step error p c = p
step initial p c = case_initial p c
step digits p c = case_digits p c
step space p c = case_space p c
step prefix p c = case_prefix p c
step unit p c = case_unit p c
step garbage p c = record p { state = error }

abbrev pub is_error : State → Bool
is_error error = true
is_error _ = false

-- The rounds of the loop behind the first one.
unfoldable pub parse_loop : List ℕ → Parser → Parser
parse_loop [] p = p
parse_loop (c ∷ s) p =
    let next = parse_loop s (step p.state p c) in if is_error p.state then p else next

-- The multiplication at the end, and what is returned.
unfoldable pub multiply : Parser → Outcome ℕ
multiply p =
    if ltb (uint64_max / p.multiplier) p.size
    then fail
    else if is_error p.state
    then fail
    else done (p.size * p.multiplier % 2 ^ 64)

-- `humansize_parse`; `size` is what `*size` holds before the call.
unfoldable pub humansize_parse : List ℕ → ℕ → Outcome ℕ
humansize_parse s size =
    let start : Parser = record { state = initial; size = size; multiplier = 1 } in
    multiply
      (elim s [ [] ↦ step initial start 0 | c ∷ rest ↦ parse_loop rest (step initial start c) ])
