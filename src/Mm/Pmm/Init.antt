-- ===== src/Mm/Pmm/Init.antt =====
-- `mm::pmm::init` of kernel/source/mm/pmm.cpp. The firmware's map, the boot protocol, the symbol
-- tables' ranges and what the memory above the kernel holds are arguments.
use sigma.Base.{
  ℕ, zero, suc, ◌+◌, ◌-◌, ◌*◌, ◌/◌, ◌<◌, ◌≡◌, refl, List, [], ◌∷◌, arith, leb, ltb, ◌==◌,
  if◌then◌else◌, Outcome, ok, panic, ◌>>=◌, add64, sub64, mul64, block_size, u64, page_down,
  page_up, Bool-cases, inl, inr,
}
use sigma.Mm.Pmm.{Pmm, RleEntry, push, reserve_block, sort_stack, alloc_block}

-- multiboot_memory_map_t; type 1 is MULTIBOOT_MEMORY_AVAILABLE.
pub record MemoryMapEntry : Type 0 where
  pub addr : ℕ
  pub len : ℕ
  pub type : ℕ

pub record Boot : Type 0 where
  pub mmap : List MemoryMapEntry
  pub kernel_start : ℕ
  pub kernel_end : ℕ
  pub reserve_start : ℕ
  pub reserve_length : ℕ
  pub initrd_ptr : ℕ
  pub initrd_size : ℕ
  pub symtab_base : ℕ
  pub symtab_size : ℕ
  pub strtab_base : ℕ
  pub strtab_size : ℕ
  pub slots : List RleEntry

abbrev kernel_vbase : ℕ
kernel_vbase = 0xffffffff80000000

abbrev one_mib : ℕ
one_mib = 1048576

unfoldable pub count_blocks : ℕ → List MemoryMapEntry → ℕ
count_blocks n [] = n
count_blocks n (e ∷ es) = count_blocks (if e.type == 1 then add64 n (e.len / block_size) else n) es

-- One round of the loop over the map.
unfoldable pub push_entry : MemoryMapEntry → Pmm → Outcome Pmm
push_entry e p =
    if e.type == 1
    then (if ltb (add64 e.addr e.len) one_mib
        then ok p
        else if ltb e.addr one_mib
        then push (record { base = one_mib; n_pages = sub64 e.len (one_mib - e.addr) / block_size })
            p
        else push (record { base = e.addr; n_pages = e.len / block_size }) p)
    else ok p

unfoldable pub push_mmap : List MemoryMapEntry → Pmm → Outcome Pmm
push_mmap [] p = ok p
push_mmap (e ∷ es) p = push_entry e p >>= push_mmap es

-- `for(addr = first; addr <= last; addr += block_size) reserve_block(addr);`, on fuel.
unfoldable pub reserve_range : ℕ → ℕ → ℕ → Pmm → Outcome Pmm
reserve_range zero addr last p = ok p
reserve_range (suc fuel) addr last p =
    let round = reserve_block addr p >>= reserve_range fuel (add64 addr block_size) last in
    if leb addr last then round else ok p

pub rounds : ℕ → ℕ → ℕ
rounds addr last = (last - addr) / block_size + 2

unfoldable pub reserve_all : ℕ → ℕ → Pmm → Outcome Pmm
unfolding reserve_range rounds
reserve_all addr last p = reserve_range (rounds addr last) addr last p

-- Takes `n` frames and forgets them.
unfoldable pub alloc_and_drop : ℕ → Pmm → Outcome Pmm
alloc_and_drop zero p = ok p
alloc_and_drop (suc n) p = alloc_block p >>= λ r. alloc_and_drop n r.1

unfoldable pub init : Boot → Outcome Pmm
unfolding count_blocks push_mmap reserve_all alloc_and_drop
init b =
    let n_blocks = count_blocks 0 b.mmap in
    let end = add64 b.kernel_end (mul64 n_blocks 16) in
    let mbd_start = page_down b.reserve_start in
    let mbd_end = add64 (page_down (add64 b.reserve_start b.reserve_length)) block_size in
    let initrd_end = add64 b.initrd_size b.initrd_ptr in
    push_mmap b.mmap (record { live = []; stale = b.slots; n_slots = n_blocks })
    >>= sort_stack
    >>= reserve_all (sub64 b.kernel_start kernel_vbase) (sub64 end kernel_vbase)
    >>= reserve_all (sub64 mbd_start kernel_vbase) (sub64 mbd_end kernel_vbase)
    >>= reserve_all b.initrd_ptr initrd_end
    >>= reserve_all (page_down b.symtab_base) (page_up (add64 b.symtab_base b.symtab_size))
    >>= reserve_all (page_down b.strtab_base) (page_up (add64 b.strtab_base b.strtab_size))
    >>= sort_stack
    >>= alloc_and_drop 10

bind_cong :
    {f g : Pmm → Outcome Pmm} (r : Outcome Pmm) → ((q : Pmm) → f q ≡ g q) → (r >>= f) ≡ (r >>= g)
bind_cong (ok q) h = h q
bind_cong panic h = refl

reserve_range_fuel :
    (k m addr last : ℕ) (p : Pmm)
    → last + 4096 < u64
    → last < addr + k * 4096
    → last < addr + m * 4096
    → reserve_range k addr last p ≡ reserve_range m addr last p
unfolding reserve_range
reserve_range_fuel zero zero addr last p w h h' = refl
reserve_range_fuel zero (suc m) addr last p w h h' = ground arith
reserve_range_fuel (suc k) zero addr last p w h h' = ground arith
reserve_range_fuel (suc k) (suc m) addr last p w h h' = elim (Bool-cases (leb addr last)) [
  | inr over ↦ rw over
  | inl more ↦ rw more (
      bind_cong (reserve_block addr p)
        λ q. reserve_range_fuel k m (add64 addr block_size) last q w (ground arith) (ground arith))
]

-- The rounds that `reserve_all` counts are enough: where the last address leaves room for one more
-- step, any fuel that reaches past it gives the same, so the loop has ended by its own test.
pub reserve_all_enough :
    (fuel addr last : ℕ) (p : Pmm)
    → last + 4096 < u64
    → last < addr + fuel * 4096
    → reserve_range fuel addr last p ≡ reserve_all addr last p
unfolding reserve_all
reserve_all_enough fuel addr last p w h =
    reserve_range_fuel fuel (rounds addr last) addr last p w h (omega arith)
