-- ===== src/Misc.antt =====
-- The kernel's command line: kernel/source/misc/misc.cpp. The words stand in memory one after the
-- other, each ended by a zero byte; `init` has counted them.
pub mod Args
mod Tests
use sigma.Base.{
  ℕ, zero, suc, ◌+◌, ◌==◌, ◌||◌, ltb, if◌then◌else◌, Option, none, some, Bool, true, false,
}
use sigma.Klibc.{Memory, ℤ, pos, negsuc, memcmp, strlen, write}

-- misc::min.
unfoldable pub min : ℕ → ℕ → ℕ
min a b = if ltb a b then a else b

-- The loop of `init` over the characters from `s` on; the number of words ended, and the memory.
unfoldable pub split : ℕ → ℕ → Memory → ℕ × Memory
unfolding write
split zero s mem = (0, mem)
split (suc n) s mem =
    if (mem s == 32) || (mem s == 0)
    then (suc (split n (suc s) (write s 0 mem)).0, (split n (suc s) (write s 0 mem)).1)
    else split n (suc s) mem

unfoldable pub init : ℕ → ℕ → Memory → Option (ℕ × Memory)
unfolding split
init fuel str mem = elim (strlen fuel str mem) [
  | none ↦ none
  | some len ↦ some (
    (if len == 0 then (split len str mem).0 else suc (split len str mem).0),
    (split len str mem).1,
  )
]

unfoldable pub is_equal : ℤ → Bool
is_equal (pos zero) = true
is_equal (pos (suc n)) = false
is_equal (negsuc n) = false

-- The test of `get_bool` and `get_str`, given both lengths.
unfoldable pub matches : ℕ → ℕ → ℕ → ℕ → Memory → Bool
unfolding min is_equal memcmp
matches current key l m mem = is_equal (memcmp current key (min l m) mem)

-- The word at which the loop stops, if it does; `n` words are left.
unfoldable pub find_word : ℕ → ℕ → ℕ → ℕ → Memory → Option (Option ℕ)
unfolding matches
find_word fuel zero current key mem = some none
find_word fuel (suc n) current key mem = elim (strlen fuel current mem) [
  | none ↦ none
  | some l ↦ elim (strlen fuel key mem) [
    | none ↦ none
    | some m ↦
        (let rest = find_word fuel n (current + l + 1) key mem in
          if matches current key l m mem then some (some current) else rest)
  ]
]

unfoldable pub get_bool : ℕ → ℕ → ℕ → ℕ → Memory → Option Bool
unfolding find_word
get_bool fuel n str key mem = elim (find_word fuel n str key mem) [
  | none ↦ none
  | some none ↦ some false
  | some (some w) ↦ some true
]

-- 0 stands for null.
unfoldable pub get_str : ℕ → ℕ → ℕ → ℕ → Memory → Option ℕ
unfolding find_word
get_str fuel n str key mem = elim (find_word fuel n str key mem) [
  | none ↦ none
  | some none ↦ some 0
  | some (some w) ↦ (elim (strlen fuel key mem) [ none ↦ none | some m ↦ some (w + m + 1) ])
]
