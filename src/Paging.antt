-- ===== src/Paging.antt =====
-- Address spaces: kernel/source/arch/x86_64/paging.cpp. Page tables stand in physical memory, which
-- the kernel reaches at a fixed offset, KERNEL_PHYSICAL_VIRTUAL_MAPPING_BASE: a table is named by
-- its physical address, and the offset is left out. The translation cache is not modelled.
pub mod Entries
pub mod Bits
pub mod Tree
pub mod Hung
pub mod Space
pub mod Map
pub mod Leaf
pub mod Search
pub mod FirstFit
pub mod Clean
pub mod Clone
pub mod Tables
pub mod Release
pub mod Pages
pub mod Tests
use sigma.Base.{
  ℕ, zero, suc, ◌+◌, ◌*◌, ◌/◌, ◌%◌, ◌==◌, ltb, ◌&&◌, not, if◌then◌else◌, Bool, true, false, Option,
  none, some, List, [], ◌∷◌, ◌++◌, Outcome, ok, panic, ◌>>=◌, add64, block_size, minus_one,
}
use sigma.Mm.Pmm.{Pmm, alloc_block, free_block}
use sigma.Paging.Entries.{
  CacheType, bit_test, bit_set, set_if, get_frame, set_frame, get_flags, set_flags, add_pat_flags,
  pml4_index, pdpt_index, pd_index, pt_index,
}

-- The entry of a table, and the free frames.
pub record Store : Type 0 where
  pub entries : ℕ → ℕ → ℕ
  pub pmm : Pmm

abbrev pub present : ℕ → Bool
present e = bit_test e 0

abbrev pub huge : ℕ → Bool
huge e = bit_test e 7

unfoldable pub write_entry : ℕ → ℕ → ℕ → Store → Store
write_entry table i e s = record s {
  entries = λ t j. if (table == t) && (i == j) then e else s.entries t j;
}

-- `memset_aligned_4k(table, 0)`.
unfoldable pub clear_table : ℕ → Store → Store
clear_table table s = record s { entries = λ t j. if table == t then 0 else s.entries t j }

unfoldable pub alloc_table : Store → Outcome (ℕ × Store)
unfolding clear_table
alloc_table s = alloc_block s.pmm >>= λ r. ok (r.0, clear_table r.0 (record s { pmm = r.1 }))

-- The entry that `map_page` makes for a new table.
unfoldable pub table_entry : ℕ → ℕ
unfolding bit_set set_frame
table_entry frame = bit_set (bit_set (bit_set (set_frame 0 frame) 0) 1) 2

-- One level of `map_page`: the table that an entry names, made if the entry is not present.
unfoldable pub next_table : ℕ → ℕ → Store → Outcome (ℕ × Store)
unfolding alloc_table table_entry write_entry
next_table table i s =
    if present (s.entries table i)
    then ok (get_frame (s.entries table i), s)
    else (alloc_table s >>= λ r.
        ok (get_frame (table_entry r.0), write_entry table i (table_entry r.0) r.1))

unfoldable pub walk_tables : ℕ → List ℕ → Store → Outcome (ℕ × Store)
unfolding next_table
walk_tables table [] s = ok (table, s)
walk_tables table (i ∷ is) s = next_table table i s >>= λ r. walk_tables r.0 is r.1

-- The flags of an entry from those of `map_page`: present, writable, user, no_execute, global.
unfoldable pub entry_flags : ℕ → ℕ
unfolding bit_test set_if
entry_flags flags = set_if (bit_test flags 1) 1 (
    set_if (bit_test flags 4) 8
      (set_if (bit_test flags 3) 63 (set_if (bit_test flags 2) 2 (set_if (bit_test flags 0) 0 0))))

unfoldable pub page_entry : ℕ → ℕ → CacheType → ℕ
unfolding set_frame set_flags add_pat_flags entry_flags
page_entry phys flags cache = add_pat_flags cache (set_flags (set_frame 0 phys) (entry_flags flags))

-- The indices of the three upper levels.
abbrev pub upper_indices : ℕ → List ℕ
upper_indices virt = pml4_index virt ∷ pdpt_index virt ∷ pd_index virt ∷ []

unfoldable pub map_page : ℕ → ℕ → ℕ → ℕ → CacheType → Store → Outcome Store
unfolding walk_tables page_entry write_entry
map_page root phys virt flags cache s = walk_tables root (upper_indices virt) s >>= λ r.
    ok (write_entry r.0 (pt_index virt) (page_entry phys flags cache) r.1)

-- The nested tests of `get_phys`, `get_entry` and `set_page_protection`: the last table and index.
unfoldable pub find_entry : ℕ → List ℕ → ℕ → Store → Option (ℕ × ℕ)
find_entry table [] last s = if present (s.entries table last) then some (table, last) else none
find_entry table (i ∷ is) last s =
    let rest = find_entry (get_frame (s.entries table i)) is last s in
    if present (s.entries table i) then rest else none

unfoldable pub get_phys : ℕ → ℕ → Store → ℕ
unfolding find_entry get_frame
get_phys root virt s = elim (find_entry root (upper_indices virt) (pt_index virt) s) [
  | none ↦ minus_one
  | some (t, i) ↦ get_frame (s.entries t i)
]

unfoldable pub get_entry : ℕ → ℕ → Store → ℕ
unfolding find_entry
get_entry root virt s = elim (find_entry root (upper_indices virt) (pt_index virt) s) [
  | none ↦ 0
  | some (t, i) ↦ s.entries t i
]

-- The global bit goes to the entry itself, the others through `set_flags`.
unfoldable pub set_page_protection : ℕ → ℕ → ℕ → CacheType → Store → Bool × Store
unfolding find_entry set_if set_flags add_pat_flags write_entry
set_page_protection root virt flags cache s =
    elim (find_entry root (upper_indices virt) (pt_index virt) s) [
      | none ↦ (false, s)
      | some (t, i) ↦
          (let entry = set_if (bit_test flags 4) 8 (s.entries t i) in
            let entry_flags = set_if (bit_test flags 1) 1 (
              set_if (bit_test flags 3) 63
                (set_if (bit_test flags 2) 2 (set_if (bit_test flags 0) 0 0))) in
            (true, write_entry t i (add_pat_flags cache (set_flags entry entry_flags)) s))
    ]
