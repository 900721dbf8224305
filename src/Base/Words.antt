-- ===== src/Base/Words.antt =====
-- uint64_t arithmetic: every operation wraps at 2 ^ 64.
use Prim.Native.Nat.{ℕ, ◌+◌, ◌-◌, ◌*◌, ◌%◌}

abbrev pub u64 : ℕ
u64 = 18446744073709551616

abbrev pub add64 : ℕ → ℕ → ℕ
add64 a b = (a + b) % u64

abbrev pub sub64 : ℕ → ℕ → ℕ
sub64 a b = (a + u64 - b) % u64

abbrev pub mul64 : ℕ → ℕ → ℕ
mul64 a b = (a * b) % u64

-- (uint64_t)-1
abbrev pub minus_one : ℕ
minus_one = 18446744073709551615

-- mm::pmm::block_size
abbrev pub block_size : ℕ
block_size = 4096

-- ALIGN_DOWN(n, block_size) and n & ~(block_size - 1): the low twelve bits are cleared.
abbrev pub page_down : ℕ → ℕ
page_down n = n - n % block_size

-- ALIGN_UP(n, block_size), the sum wrapping.
abbrev pub page_up : ℕ → ℕ
page_up n = page_down ((n + 4095) % u64)
