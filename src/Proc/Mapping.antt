-- ===== src/Proc/Mapping.antt =====
-- `map_anonymous` of kernel/source/proc/process.cpp: pages for a range of addresses, with fresh
-- frames or with those given. A mapping that the IOMMU is told of is a pair (device, frame) of a
-- list. `get_phys_region` is not modelled.
pub mod Fresh
pub mod Range
mod Tests
use sigma.Base.{
  ◌-◌, ℕ, zero, suc, ◌+◌, ◌*◌, ◌/◌, ◌%◌, ◌==◌, not, ◌&&◌, if◌then◌else◌, Bool, true, false, Option,
  none, some, List, [], ◌∷◌, ◌++◌, Outcome, ok, panic, ◌>>=◌, add64, block_size,
}
use sigma.Mm.Pmm.{alloc_block}
use sigma.Paging.{Store, map_page, clear_table}
use sigma.Paging.Entries.{CacheType, normal, bit_test}
use sigma.Paging.Search.{div_ceil, get_free_range}
use sigma.Proc.Lifecycle.{is_canonical}

-- The address space of a thread, its list of frames, and what the devices may reach.
pub record Mappings : Type 0 where
  pub store : Store
  pub frames : List ℕ
  pub device_maps : List (ℕ × ℕ)

-- PROT_READ, PROT_WRITE and PROT_EXEC are the bits 0, 1 and 2; the flags of `map_page` are present,
-- writable, user and no_execute.
unfoldable pub page_flags : ℕ → ℕ
unfolding bit_test
page_flags prot =
    (if bit_test prot 0 then 1 else 0)
    + (if bit_test prot 1 then 2 else 0)
    + (if bit_test prot 2 then 0 else 8)
    + 4

unfoldable pub add_page : ℕ → ℕ → ℕ → ℕ → Mappings → Outcome Mappings
unfolding map_page
add_page root phys virt flags a =
    map_page root phys virt flags normal a.store >>= λ s. ok (record a { store = s })

-- Whether a page can be cleared through its address. It must be mapped for writing, since CR0.WP is
-- set, at a canonical address, or else the fault stops the kernel. An address within a page, from
-- which the write would go on into the next one, is left out: it counts as one that cannot.
unfoldable pub can_clear : ℕ → ℕ → Bool
unfolding bit_test is_canonical
can_clear virt flags =
    bit_test flags 0 && bit_test flags 1 && is_canonical virt && (virt % block_size == 0)

-- The frame of one round, which is null when it is at address 0; it is cleared through its new
-- address.
unfoldable pub add_fresh : ℕ → ℕ → ℕ → Mappings → Outcome Mappings
unfolding add_page clear_table can_clear
add_fresh root virt flags a = alloc_block a.store.pmm >>= λ r.
    if r.0 == 0
    then panic
    else (add_page root r.0 virt flags
          (record a { store = record a.store { pmm = r.1 }; frames = a.frames ++ r.0 ∷ [] })
        >>= λ a'.
            if can_clear virt flags
            then ok (record a' { store = clear_table r.0 a'.store })
            else panic)

-- The rounds with fresh frames.
unfoldable pub map_fresh : ℕ → ℕ → ℕ → ℕ → Mappings → Outcome Mappings
unfolding add_fresh
map_fresh root flags zero virt a = ok a
map_fresh root flags (suc n) virt a =
    add_fresh root virt flags a >>= map_fresh root flags n (add64 virt block_size)

-- The mapping goes to each device whose driver the thread is, if the IOMMU is active.
unfoldable pub tell_devices : List ℕ → ℕ → Mappings → Mappings
tell_devices [] phys a = a
tell_devices (d ∷ ds) phys a =
    tell_devices ds phys (record a { device_maps = a.device_maps ++ (d, phys) ∷ [] })

-- The rounds with the frames given.
unfoldable pub map_given : List ℕ → ℕ → ℕ → ℕ → ℕ → ℕ → Mappings → Outcome Mappings
unfolding tell_devices add_page
map_given devices root flags zero phys virt a = ok a
map_given devices root flags (suc n) phys virt a =
    add_page root phys virt flags (tell_devices devices phys a)
    >>= map_given devices root flags n (add64 phys block_size) (add64 virt block_size)

unfoldable pub map_at : List ℕ → ℕ → ℕ → ℕ → ℕ → ℕ → Mappings → Outcome (ℕ × Mappings)
unfolding map_fresh map_given page_flags div_ceil
map_at devices root size virt phys_base prot a =
    if virt == 0
    then ok (0, a)
    else ((if phys_base == 0
          then map_fresh root (page_flags prot) (div_ceil size block_size) virt a
          else map_given devices root (page_flags prot) (div_ceil size block_size) phys_base virt a)
        >>= λ a'. ok (virt, a'))

-- `mmap_bottom` and `mmap_top`.
abbrev pub mmap_bottom : ℕ
mmap_bottom = 0x900000000

abbrev pub mmap_top : ℕ
mmap_top = 0x7fffffffffff

-- `devices` are those whose driver is the thread, or none if the IOMMU is not active. The fuel is
-- that of the search.
unfoldable pub map_anonymous :
    ℕ → List ℕ → ℕ → ℕ → ℕ → ℕ → ℕ → Mappings → Option (Outcome (ℕ × Mappings))
unfolding map_at get_free_range
map_anonymous fuel devices root size virt_base phys_base prot a =
    if virt_base == 0
    then elim (get_free_range fuel root mmap_bottom mmap_top size a.store) [
      | none ↦ none
      | some virt ↦ some (map_at devices root size virt phys_base prot a)
    ]
    else some (map_at devices root size virt_base phys_base prot a)
