-- ===== src/Klibc.antt =====
-- Memory and strings: kernel/source/klibc/string.cpp. Memory is a function from addresses to bytes.
-- A loop that runs up to a zero byte has fuel, and gives nothing when it runs out.
pub mod Copies
pub mod Strings
mod Tests
use sigma.Base.{
  ℕ, zero, suc, ◌+◌, ◌-◌, ◌%◌, ◌==◌, ltb, leb, ◌&&◌, not, if◌then◌else◌, Option, none, some, Bool,
  true, false,
}

abbrev pub Memory : Type 0
Memory = ℕ → ℕ

unfoldable pub write : ℕ → ℕ → Memory → Memory
write a v mem x = if a == x then v else mem x

-- The difference of two bytes as an `int`.
pub data ℤ : Type 0 where
  pos : ℕ → ℤ
  negsuc : ℕ → ℤ

unfoldable pub difference : ℕ → ℕ → ℤ
difference a b = if leb b a then pos (a - b) else negsuc (b - a - 1)

-- The loop of `memset` from the index `i` on, `n` rounds being left.
unfoldable pub fill : ℕ → ℕ → ℕ → ℕ → Memory → Memory
unfolding write
fill zero i s c mem = mem
fill (suc n) i s c mem = fill n (suc i) s c (write (s + i) (c % 256) mem)

unfoldable pub memset : ℕ → ℕ → ℕ → Memory → Memory
unfolding fill
memset s c n mem = fill n 0 s c mem

-- The upward loop of `memcpy` and `memmove`, from the index `i` on.
unfoldable pub copy_up : ℕ → ℕ → ℕ → ℕ → Memory → Memory
unfolding write
copy_up zero i dst src mem = mem
copy_up (suc n) i dst src mem = copy_up n (suc i) dst src (write (dst + i) (mem (src + i)) mem)

-- The downward loop of `memmove`.
unfoldable pub copy_down : ℕ → ℕ → ℕ → Memory → Memory
unfolding write
copy_down zero dst src mem = mem
copy_down (suc i) dst src mem = copy_down i dst src (write (dst + i) (mem (src + i)) mem)

unfoldable pub memcpy : ℕ → ℕ → ℕ → Memory → Memory
unfolding copy_up
memcpy dst src n mem = copy_up n 0 dst src mem

unfoldable pub memmove : ℕ → ℕ → ℕ → Memory → Memory
unfolding copy_up copy_down
memmove dst src n mem = if ltb dst src then copy_up n 0 dst src mem else copy_down n dst src mem

unfoldable pub memcmp : ℕ → ℕ → ℕ → Memory → ℤ
memcmp s1 s2 zero mem = pos 0
memcmp s1 s2 (suc n) mem =
    let rest = memcmp (suc s1) (suc s2) n mem in
    if ltb (mem s1) (mem s2) then negsuc 0 else if ltb (mem s2) (mem s1) then pos 1 else rest

unfoldable pub strlen : ℕ → ℕ → Memory → Option ℕ
strlen zero s mem = none
strlen (suc fuel) s mem =
    let rest = strlen fuel (suc s) mem in
    if mem s == 0 then some 0 else (elim rest [ some n ↦ some (suc n) | none ↦ none ])

unfoldable pub strcmp : ℕ → ℕ → ℕ → Memory → Option ℤ
unfolding difference
strcmp zero s1 s2 mem = none
strcmp (suc fuel) s1 s2 mem =
    let rest = strcmp fuel (suc s1) (suc s2) mem in
    if (mem s1 == mem s2) && not (mem s1 == 0) then rest else some (difference (mem s1) (mem s2))

unfoldable pub strcpy : ℕ → ℕ → ℕ → Memory → Option Memory
unfolding strlen memcpy
strcpy fuel dst src mem = elim (strlen fuel src mem) [
  | some n ↦ some (memcpy dst src (n + 1) mem)
  | none ↦ none
]

-- `memset_aligned_4k` and `memcpy_aligned_4k`.
unfoldable pub memset_aligned_4k : ℕ → ℕ → Memory → Memory
unfolding memset
memset_aligned_4k dst c mem = memset dst c 0x1000 mem

unfoldable pub memcpy_aligned_4k : ℕ → ℕ → Memory → Memory
unfolding memcpy
memcpy_aligned_4k dst src mem = memcpy dst src 0x1000 mem
