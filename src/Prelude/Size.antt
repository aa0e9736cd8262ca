-- ===== src/Prelude/Size.antt =====
-- `size_t` on a 64-bit platform, memory as cells, and the C library's calls on buffers.
use Prim.Native.Nat.{ℕ, ◌+◌, ◌-◌, ◌%◌, ◌^◌, ◌≤◌}
use mathlib.Core.Path.{◌≡◌, ap, ◌∙◌}
use mathlib.Core.Bool.{Bool}
use mathlib.Core.Option.{Option, none, some}
use mathlib.Core.List.{List, ◌++◌}
use native.Mathlib.Omega.{arith}
use libcperciva.Prelude.Tests.{if◌then◌else◌}
use libcperciva.Prelude.Lists.{
  take-append_add, take-append_left, take_all, length, take, drop, replicate, length-append,
  length-take, length-drop, length-replicate,
}

abbrev pub size_mod : ℕ
size_mod = 2 ^ 64

abbrev pub size_max : ℕ
size_max = 2 ^ 64 - 1

-- `SSIZE_MAX`.
abbrev pub ssize_max : ℕ
ssize_max = 2 ^ 63 - 1

-- The wrap of `size_t` arithmetic.
abbrev pub size_t : ℕ → ℕ
size_t n = n % 2 ^ 64

-- A byte of memory; `none` is a byte that nothing was stored in.
abbrev pub Cell : Type 0
Cell = Option ℕ

-- `realloc(buf, n)`: `granted` says whether the allocator has the memory. The contents are kept
-- as far as they fit, and what is new is indeterminate.
unfoldable pub realloc : Bool → List Cell → ℕ → Option (List Cell)
realloc granted buf n = if granted then some (take n (buf ++ replicate n none)) else none

-- `memcpy(dst + pos, src, n)`.
unfoldable pub memcpy {ℓ} : {A : Type ℓ} → List A → ℕ → List A → ℕ → List A
memcpy dst pos src n = take pos dst ++ (take n src ++ drop (pos + n) dst)

pub length-memcpy {ℓ} :
    {A : Type ℓ} (dst : List A) (pos : ℕ) (src : List A) (n : ℕ)
    → n ≤ length src
    → pos + n ≤ length dst
    → length (memcpy dst pos src n) ≡ length dst
unfolding memcpy
length-memcpy dst pos src n h k = omega (
  arith,
  length-append (take pos dst) (take n src ++ drop (pos + n) dst),
  length-append (take n src) (drop (pos + n) dst),
  length-take pos dst,
  length-take n src,
  length-drop (pos + n) dst,
)

pub length-realloc : (buf : List Cell) (n : ℕ) → length (take n (buf ++ replicate n none)) ≡ n
length-realloc buf n = omega (
  arith,
  length-take n (buf ++ replicate n none),
  length-append buf (replicate n none),
  length-replicate {A = Cell} n none,
)

-- Reading as far as was copied.
pub take-memcpy {ℓ} :
    {A : Type ℓ} (buf : List A) (r : ℕ) (src : List A) (n : ℕ)
    → r ≤ length buf
    → n ≤ length src
    → take (r + n) (memcpy buf r src n) ≡ take r buf ++ take n src
unfolding memcpy
take-memcpy buf r src n h k =
    take-append_add r n (take r buf) (take n src ++ drop (r + n) buf)
      (omega (arith, length-take r buf))
    ∙ ap (take r buf ++◌) (
        take-append_left n (take n src) (drop (r + n) buf) (omega (arith, length-take n src))
        ∙ take_all n (take n src) (omega (arith, length-take n src)))
