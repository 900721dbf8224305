-- ===== src/Paging/Search.antt =====
-- The search for free addresses, `get_free_range` of kernel/source/arch/x86_64/paging.cpp, with
-- `div_ceil` of kernel/include/Sigma/misc/misc.h.
use sigma.Base.{
  ltb, ℕ, zero, suc, ◌-◌, ◌/◌, ◌==◌, ◌&&◌, if◌then◌else◌, Bool, Option, none, some, add64,
  block_size, minus_one,
}
use sigma.Paging.{Store, get_phys}

unfoldable pub div_ceil : ℕ → ℕ → ℕ
div_ceil a b = add64 a (b - 1) / b

-- The loop from `ptr` on; `none` if the fuel is spent.
unfoldable pub search_from : (free : ℕ → Bool) → ℕ → ℕ → ℕ → ℕ → ℕ → ℕ → Option ℕ
search_from free zero ptr end needed current count = none
search_from free (suc fuel) ptr end needed current count =
    let taken = if current == minus_one then ptr else current in
    let current' = if free ptr then taken else minus_one in
    let count' = if free ptr then suc count else 0 in
    let rest = search_from free fuel (add64 ptr block_size) end needed current' count' in
    if ltb ptr end
    then if free ptr && (count' == needed) then some current' else rest
    else some current

unfoldable pub get_free_range : ℕ → ℕ → ℕ → ℕ → ℕ → Store → Option ℕ
unfolding div_ceil search_from get_phys
get_free_range fuel root base end size s =
    search_from (λ ptr. get_phys root ptr s == minus_one) fuel base end (div_ceil size block_size)
      minus_one 0
