-- ===== src/Paging/Entries.antt =====
-- The 64-bit entries of page tables: the helpers of kernel/source/arch/x86_64/paging.cpp and
-- kernel/include/Sigma/misc/bitops.h. An entry is a word; its fields are the bits 0 to 11, the frame
-- number in the bits 12 to 51, and the bits 52 to 63. The operators on bits act on each field alone.
use Prim.Native.Nat.{bit_or}
use sigma.Base.{◌^◌, ℕ, ◌+◌, ◌*◌, ◌/◌, ◌%◌, ◌==◌, if◌then◌else◌, Bool}

-- bitops::bit_test and bitops::bit_set.
unfoldable pub bit_test : ℕ → ℕ → Bool
bit_test e n = (e / 2 ^ n) % 2 == 1

unfoldable pub bit_set : ℕ → ℕ → ℕ
unfolding bit_test
bit_set e n = if bit_test e n then e else e + 2 ^ n

-- `if(b) bit_set(e, n);`
unfoldable pub set_if : Bool → ℕ → ℕ → ℕ
unfolding bit_set
set_if b n e = if b then bit_set e n else e

abbrev pub low_field : ℕ → ℕ
low_field e = e % 4096

abbrev pub frame_field : ℕ → ℕ
frame_field e = e / 4096 % 1099511627776

abbrev pub high_field : ℕ → ℕ
high_field e = e / 4503599627370496

abbrev pub entry_of : ℕ → ℕ → ℕ → ℕ
entry_of low frame high = low + frame * 4096 + high * 4503599627370496

-- `entry & 0x000FFFFFFFFFF000`.
unfoldable pub get_frame : ℕ → ℕ
get_frame e = frame_field e * 4096

-- `entry |= phys & 0x000FFFFFFFFFF000`.
unfoldable pub set_frame : ℕ → ℕ → ℕ
set_frame e phys = entry_of (low_field e) (bit_or (frame_field e) (frame_field phys)) (high_field e)

-- `entry & 0xFFF0000000000FFF`.
unfoldable pub get_flags : ℕ → ℕ
get_flags e = entry_of (low_field e) 0 (high_field e)

-- `entry |= flags & 0xFFF0000000000FFF`.
unfoldable pub set_flags : ℕ → ℕ → ℕ
set_flags e flags =
    entry_of (bit_or (low_field e) (low_field flags)) (frame_field e)
      (bit_or (high_field e) (high_field flags))

pub data CacheType : Type 0 where
  normal uncacheable write_through write_back write_combining : CacheType

-- `entry |= get_pat_flags(types)`.
unfoldable pub add_pat_flags : CacheType → ℕ → ℕ
unfolding bit_set
add_pat_flags normal e = e
add_pat_flags write_back e = e
add_pat_flags write_combining e = bit_set e 3
add_pat_flags write_through e = bit_set e 4
add_pat_flags uncacheable e = bit_set (bit_set e 3) 7

unfoldable pub pml4_index : ℕ → ℕ
pml4_index a = a / 549755813888 % 512

unfoldable pub pdpt_index : ℕ → ℕ
pdpt_index a = a / 1073741824 % 512

unfoldable pub pd_index : ℕ → ℕ
pd_index a = a / 2097152 % 512

unfoldable pub pt_index : ℕ → ℕ
pt_index a = a / 4096 % 512

-- The shifted indices occupy different bits.
unfoldable pub indicies_to_addr : ℕ → ℕ → ℕ → ℕ → ℕ
indicies_to_addr i4 i3 i2 i1 = i4 * 549755813888 + i3 * 1073741824 + i2 * 2097152 + i1 * 4096
