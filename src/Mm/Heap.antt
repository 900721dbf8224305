-- ===== src/Mm/Heap.antt =====
-- The kernel heap: kernel/source/mm/alloc.cpp. The list of headers stands in the order of the links
-- from `head` to `tail`; a header knows its address, and the bytes outside the headers are the
-- memory. The mappings made are listed, last first: `map_page` of the kernel's own address space is
-- only recorded, and what it takes of frames for tables, or halts for want of them, is left out.
pub mod Placed
pub mod Backing
pub mod Growth
pub mod Allocation
pub mod Corruption
mod Tests
use sigma.Base.{
  ℕ, zero, suc, ◌+◌, ◌-◌, ◌%◌, ◌/◌, ◌==◌, ltb, leb, ◌&&◌, ◌||◌, not, if◌then◌else◌, Option, none,
  some, Bool, true, false, List, [], ◌∷◌, ◌++◌, Outcome, ok, panic, ◌>>=◌, add64, sub64, block_size,
  u64, minus_one, ◌*◌,
}
use sigma.Klibc.{Memory, memset_aligned_4k, memcpy}
use sigma.Mm.Pmm.{Pmm, alloc_block}

pub record Header : Type 0 where
  pub at : ℕ
  pub size : ℕ
  pub is_free : Bool
  pub magic_low : ℕ
  pub magic_high : ℕ

pub record Heap : Type 0 where
  pub headers : List Header
  pub page_offset : ℕ
  pub heap_offset : ℕ
  pub mapped : List (ℕ × ℕ)
  pub memory : Memory
  pub pmm : Pmm

-- sizeof(alloc::header).
abbrev pub header_size : ℕ
header_size = 64

-- Where both offsets start.
abbrev pub heap_base : ℕ
heap_base = 0xffffffffd0000000

unfoldable pub check_magic : Header → Bool
check_magic h = (h.magic_low == 0xbeef) && (h.magic_high == 0xc0de)

-- ALIGN_UP for a power of two.
unfoldable pub align_up : ℕ → ℕ → ℕ
align_up n align = add64 n (align - 1) - add64 n (align - 1) % align

unfoldable pub get_free_block : ℕ → List Header → Option Header
get_free_block size [] = none
get_free_block size (h ∷ hs) =
    let rest = get_free_block size hs in if h.is_free && leb size h.size then some h else rest

-- A write to `is_free` through a pointer to the header.
unfoldable pub set_free : ℕ → Bool → List Header → List Header
set_free a b [] = []
set_free a b (h ∷ hs) = (if h.at == a then record h { is_free = b } else h) ∷ set_free a b hs

unfoldable pub header_at : ℕ → List Header → Option Header
header_at a [] = none
header_at a (h ∷ hs) = let rest = header_at a hs in if h.at == a then some h else rest

-- One round of `morecore`'s loop, after the test for a null frame.
unfoldable pub map_block : ℕ → Pmm → Heap → Heap
unfolding memset_aligned_4k
map_block frame p h = record h {
  pmm = p;
  mapped = (frame, h.page_offset) ∷ h.mapped;
  memory = memset_aligned_4k h.page_offset 0 h.memory;
  page_offset = add64 h.page_offset block_size;
}

-- The loop, with the number of rounds left, and whether it ran to its end.
unfoldable pub map_pages : ℕ → Heap → Outcome (Bool × Heap)
unfolding map_block alloc_block
map_pages zero h = ok (true, h)
map_pages (suc n) h =
    let next = alloc_block h.pmm >>= λ r.
    if r.0 == 0 then ok (false, record h { pmm = r.1 }) else map_pages n (map_block r.0 r.1 h) in
    if leb h.page_offset h.heap_offset then next else ok (true, h)

-- As many rounds as pages are missing.
unfoldable pub rounds : Heap → ℕ
rounds h = (h.heap_offset + block_size - h.page_offset) / block_size

unfoldable pub morecore : ℕ → ℕ → Heap → Outcome (ℕ × Heap)
unfolding map_pages rounds align_up
morecore size align h =
    let start = align_up h.heap_offset align in
    let h' = record h { heap_offset = add64 start size } in
    map_pages (rounds h') h' >>= λ r. ok (if r.0 then start else 0, r.1)

-- `set_magic` and the other writes to a new header.
abbrev pub new_header : ℕ → ℕ → Header
new_header a size = record {
  at = a;
  size = size;
  is_free = false;
  magic_low = 0xbeef;
  magic_high = 0xc0de;
}

-- What `alloc` and `alloc_a` do for a block at the heap's end.
unfoldable pub append_block : ℕ → ℕ → Heap → Outcome (ℕ × Heap)
unfolding morecore
append_block size align h = morecore (add64 size header_size) align h >>= λ r.
    if r.0 == 0
    then ok (0, r.1)
    else ok
        (add64 r.0 header_size, record (r.1) { headers = r.1.headers ++ new_header r.0 size ∷ [] })

-- A pointer, 0 for null, and the heap.
unfoldable pub alloc : ℕ → Heap → Outcome (ℕ × Heap)
unfolding get_free_block check_magic set_free append_block
alloc size h = if size == 0 then ok (0, h) else (elim (get_free_block size h.headers) [
  | some b ↦
      if check_magic b
      then ok (add64 b.at header_size, record h { headers = set_free b.at false h.headers })
      else ok (0, h)
  | none ↦ append_block size 64 h
])

unfoldable pub alloc_a : ℕ → ℕ → Heap → Outcome (ℕ × Heap)
unfolding append_block
alloc_a size align h = append_block size align h

-- Where no header of the list stands before the pointer, none of them changes.
unfoldable pub free : ℕ → Heap → Heap
unfolding header_at check_magic set_free
free ptr h = if ptr == 0 then h else (elim (header_at (sub64 ptr header_size) h.headers) [
  | none ↦ h
  | some b ↦
      if not (check_magic b)
      then h
      else if b.is_free
      then h
      else record h { headers = set_free b.at true h.headers }
])

-- `stray` is what is read where no header of the list stands.
unfoldable pub realloc : Header → ℕ → ℕ → Heap → Outcome (ℕ × Heap)
unfolding header_at check_magic alloc free memcpy
realloc stray ptr size h =
    if (ptr == 0) && (size == 0)
    then ok (0, h)
    else if size == 0
    then ok (0, free ptr h)
    else if ptr == 0
    then alloc size h
    else (let b : Header = elim (header_at (sub64 ptr header_size) h.headers) [
      | some b ↦ b
      | none ↦ stray
    ] in
        if b.is_free
        then ok (0, h)
        else if not (check_magic b)
        then ok (0, h)
        else if leb size b.size
        then ok (ptr, h)
        else (alloc size h >>= λ r.
            if r.0 == 0
            then ok r
            else ok (r.0, free ptr (record (r.1) { memory = memcpy r.0 ptr b.size r.1.memory }))))

-- The address in `next`.
unfoldable pub next_of : List Header → ℕ
next_of [] = 0
next_of (h ∷ hs) = h.at

unfoldable pub check_for_corruption : List Header → Bool
unfolding next_of check_magic
check_for_corruption [] = false
check_for_corruption (h ∷ hs) =
    let rest = check_for_corruption hs in
    if (ltb (next_of hs) 0xffffffffcfffffff && not (next_of hs == 0))
      || (next_of hs == minus_one)
      || not (check_magic h)
    then true
    else rest

-- `init` maps pages without clearing them.
unfoldable pub init_pages : ℕ → Heap → Outcome Heap
init_pages zero h = ok h
init_pages (suc n) h = alloc_block h.pmm >>= λ r. init_pages n (record h {
  pmm = r.1;
  mapped = (r.0, h.page_offset) ∷ h.mapped;
  page_offset = add64 h.page_offset block_size;
})

unfoldable pub init : Heap → Outcome Heap
unfolding init_pages
init h = init_pages 4 h
