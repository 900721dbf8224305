-- ===== src/Proc/Initrd.antt =====
-- The initial RAM disk, a TAR archive in memory: kernel/source/proc/initrd.cpp. A name is the
-- address of its string; comparing two has fuel for strings that do not end.
pub mod Archive
mod Tests
use sigma.Base.{
  ℕ, zero, suc, ◌+◌, ◌-◌, ◌%◌, ◌/◌, ◌==◌, ltb, if◌then◌else◌, Option, none, some, Bool, true, false,
  List, [], ◌∷◌, add64, sub64, mul64, u64,
}
use sigma.Klibc.{Memory, ℤ, pos, negsuc, strcmp, memcpy}

-- A `char` that is widened to 64 bits.
unfoldable pub signed_char : ℕ → ℕ
signed_char b = if ltb b 128 then b else b + (u64 - 256)

-- The loop of `get_header_number`: `j` digits are left.
unfoldable pub digits_from : ℕ → ℕ → ℕ → ℕ → Memory → ℕ
unfolding signed_char
digits_from zero count size p mem = size
digits_from (suc j) count size p mem =
    digits_from j (mul64 count 8) (add64 size (mul64 (sub64 (signed_char (mem (p + j))) 48) count))
      p mem

unfoldable pub get_header_number : ℕ → Memory → ℕ
unfolding digits_from
get_header_number p mem = digits_from 11 1 0 p mem

-- Where `size` and the data stand in an entry.
abbrev pub size_field : ℕ
size_field = 124

abbrev pub data_offset : ℕ
data_offset = 512

-- The step of `init` from one header to the next.
unfoldable pub next_header : ℕ → ℕ → ℕ
next_header address entry_size =
    let next = add64 address (mul64 (add64 (entry_size / 512) 1) 512) in
    if entry_size % 512 == 0 then next else add64 next 512

-- The headers that `init` lists, in at most that many rounds.
unfoldable pub init : ℕ → ℕ → Memory → List ℕ
init zero address mem = []
init (suc n) address mem =
    let rest = init n (next_header address (get_header_number (address + size_field) mem)) mem in
    if mem address == 0 then [] else address ∷ rest

unfoldable pub is_zero : ℤ → Bool
is_zero (pos zero) = true
is_zero (pos (suc n)) = false
is_zero (negsuc n) = false

-- The first header whose name is the same string, if any.
unfoldable pub find_file : ℕ → ℕ → Memory → List ℕ → Option (Option ℕ)
unfolding is_zero strcmp
find_file fuel name mem [] = some none
find_file fuel name mem (h ∷ hs) =
    let rest = find_file fuel name mem hs in
    elim (strcmp fuel h name mem) [
      | none ↦ none
      | some v ↦ if is_zero v then some (some h) else rest
    ]

unfoldable pub get_size : ℕ → ℕ → Memory → List ℕ → Option ℕ
get_size fuel name mem hs = elim (find_file fuel name mem hs) [
  | none ↦ none
  | some none ↦ some 0
  | some (some h) ↦ some (get_header_number (h + size_field) mem)
]

unfoldable pub read_file : ℕ → ℕ → ℕ → ℕ → ℕ → Memory → List ℕ → Option (Bool × Memory)
read_file fuel name buf offset size mem hs = elim (get_size fuel name mem hs) [
  | none ↦ none
  | some n ↦
      if ltb (add64 n 1) (add64 size offset)
      then some (false, mem)
      else (elim (find_file fuel name mem hs) [
        | none ↦ none
        | some none ↦ some (false, mem)
        | some (some h) ↦ some (true, memcpy buf (add64 (h + data_offset) offset) size mem)
      ])
]
