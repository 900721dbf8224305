-- ===== src/Pci/Bars.antt =====
-- `read_bar` of kernel/source/arch/x86_64/drivers/pci.cpp, which writes all ones to a base address
-- register to learn the size of what it maps.
use sigma.Base.{ℕ, ◌+◌, ◌*◌, ◌/◌, ◌%◌, ◌-◌, ◌==◌, ltb, ◌&&◌, if◌then◌else◌}
use sigma.Paging.Entries.{bit_test, bit_set}
use sigma.Pci.{
  Coord, Access, Run, ◌>>=◌, ◌>>◌, return, read, write, Bar, bar_type_mem, bar_type_io,
  bar_type_invalid,
}

abbrev pub all_ones : ℕ
all_ones = 4294967295

-- `~(x & mask) + 1` in 32 bits, the mask clearing the bits below `unit`.
abbrev pub negated : ℕ → ℕ → ℕ
negated unit x = (4294967296 - x / unit * unit) % 4294967296

-- What the register reads after all ones, the old value then written back.
unfoldable pub probe : {S : Type 0} → Access S → Coord → ℕ → ℕ → Run S ℕ
probe a c offset old = do
  write a c offset all_ones 4
  x ← read a c offset 4
  write a c offset old 4
  return x

unfoldable pub read_io_bar : {S : Type 0} → Access S → Coord → ℕ → ℕ → ℕ → Run S Bar
unfolding probe
read_io_bar a c number offset bar = do
  x ← probe a c offset bar
  return (record {
    type = bar_type_io;
    number = number;
    flags = 0;
    base = bar / 4 * 4 % 65536;
    len = negated 4 x % 65536;
  })

-- The base by the type of the register: 32 bits, 64 bits with the next register, or unknown.
unfoldable pub mem_base : {S : Type 0} → Access S → Coord → ℕ → ℕ → Run S ℕ
mem_base a c offset bar =
    if bar / 2 % 4 == 0
    then return (bar / 16 * 16)
    else if bar / 2 % 4 == 2
    then (read a c (offset + 4) 4 >>= λ high. return (bar / 16 * 16 + high * 4294967296))
    else return 0

-- A prefetchable bar has bit 0 set in the local copy of the register, not in the flags.
unfoldable pub prefetch_mark : ℕ → ℕ
unfolding bit_set
prefetch_mark bar = if bit_test bar 3 then bit_set bar 0 else bar

unfoldable pub read_mem_bar : {S : Type 0} → Access S → Coord → ℕ → ℕ → ℕ → Run S Bar
unfolding mem_base prefetch_mark probe
read_mem_bar a c number offset bar = do
  base ← mem_base a c offset bar
  x ← probe a c offset (prefetch_mark bar)
  return
      (record { type = bar_type_mem; number = number; flags = 0; base = base; len = negated 16 x })

unfoldable pub mark_missing : Bar → Bar
mark_missing b =
    if (b.type == bar_type_mem) && (b.base == 0) && (b.len == 0)
    then record b { type = bar_type_invalid }
    else b

abbrev pub bar_offset : ℕ → ℕ
bar_offset number = 16 + number * 4

unfoldable pub read_bar : {S : Type 0} → Access S → Coord → ℕ → Run S Bar
unfolding read_io_bar read_mem_bar mark_missing
read_bar a c number =
    if ltb 5 number
    then return (record { type = bar_type_invalid; number = 0; flags = 0; base = 0; len = 0 })
    else (read a c (bar_offset number) 4 >>= λ bar.
        (if bit_test bar 0
          then read_io_bar a c number (bar_offset number) bar
          else read_mem_bar a c number (bar_offset number) bar)
        >>= λ b. return (mark_missing b))
