-- ===== src/Paging/Clone.antt =====
-- The copy of an address space: `clone_paging_info`, `clone_pdpt`, `clone_pd` and `clone_pt` of
-- kernel/source/arch/x86_64/paging.cpp. `clone_pd` and `clone_pdpt` have the same loop around
-- different calls, and so has the lower half of `clone_paging_info`.
pub mod Entry
pub mod Copied
pub mod Stable
pub mod Rounds
pub mod Loop
pub mod NewTable
pub mod Levels
pub mod Whole
use sigma.Base.{
  ℕ, zero, suc, ◌+◌, if◌then◌else◌, Bool, true, false, Option, none, some, Outcome, ok, panic,
  ◌>>=◌,
}
use sigma.Paging.Entries.{get_frame, set_frame, get_flags, set_flags}
use sigma.Paging.{Store, present, huge, write_entry, alloc_table}
use sigma.Paging.Clean.{deinit, init}

-- The `n` entries from `i` on, copied over.
unfoldable pub copy_entries : ℕ → ℕ → ℕ → ℕ → Store → Store
unfolding write_entry
copy_entries new old i zero s = s
copy_entries new old i (suc n) s =
    copy_entries new old (suc i) n (write_entry new i (s.entries old i) s)

unfoldable pub clone_pt : ℕ → Store → Outcome (ℕ × Store)
unfolding alloc_table copy_entries
clone_pt old s = alloc_table s >>= λ r. ok (r.0, copy_entries r.0 old 0 512 r.1)

-- The entry that names the copy of a table.
unfoldable pub cloned_entry : ℕ → ℕ → ℕ
unfolding set_frame set_flags get_flags
cloned_entry frame old_entry = set_flags (set_frame 0 frame) (get_flags old_entry)

-- One round: `below` copies the table that the entry names.
unfoldable pub clone_entry :
    (below : ℕ → Store → Outcome (ℕ × Store)) → ℕ → ℕ → ℕ → Store → Outcome Store
unfolding cloned_entry write_entry get_flags
clone_entry below new i old_entry s =
    if present (get_flags old_entry)
    then (if huge (get_flags old_entry)
        then ok (write_entry new i old_entry s)
        else (below (get_frame old_entry) s >>= λ r.
            ok (write_entry new i (cloned_entry r.0 old_entry) r.1)))
    else ok s

-- The `n` rounds from `i` on.
unfoldable pub clone_entries :
    (below : ℕ → Store → Outcome (ℕ × Store)) → ℕ → ℕ → ℕ → ℕ → Store → Outcome Store
unfolding clone_entry
clone_entries below new old i zero s = ok s
clone_entries below new old i (suc n) s =
    clone_entry below new i (s.entries old i) s >>= clone_entries below new old (suc i) n

unfoldable pub clone_pd : ℕ → Store → Outcome (ℕ × Store)
unfolding alloc_table clone_entries clone_pt
clone_pd old s =
    alloc_table s >>= λ r. clone_entries clone_pt r.0 old 0 512 r.1 >>= λ s'. ok (r.0, s')

unfoldable pub clone_pdpt : ℕ → Store → Outcome (ℕ × Store)
unfolding alloc_table clone_entries clone_pd
clone_pdpt old s =
    alloc_table s >>= λ r. clone_entries clone_pd r.0 old 0 512 r.1 >>= λ s'. ok (r.0, s')

-- The new context is given up and made again; its lower half gets copies, its upper half the entries.
unfoldable pub clone_paging_info : ℕ → Option ℕ → Store → Outcome (ℕ × Store)
unfolding deinit init clone_entries clone_pdpt copy_entries
clone_paging_info root new_info s = deinit new_info s >>= init new_info >>= λ r.
    clone_entries clone_pdpt r.0 root 0 256 r.1 >>= λ s'. ok (r.0, copy_entries r.0 root 256 256 s')
