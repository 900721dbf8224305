-- ===== src/Mm/Heap/Tests.antt =====
-- A heap of two blocks, the first of them free, in four mapped pages.
use sigma.Base.{◌+◌, ◌≡◌, refl, arith, [], ◌∷◌, true, false}
use sigma.Mm.Pmm.{Pmm}
use sigma.Mm.Heap.{Header, Heap, header_size, check_magic, alloc, free}
use sigma.Mm.Heap.Placed.{IsHeap}
use sigma.Mm.Heap.Allocation.{Allocated, alloc-Allocated, free_lem}

abbrev stack : Pmm
stack = record { live = record { base = 0x100000; n_pages = 16 } ∷ []; stale = []; n_slots = 8 }

abbrev first : Header
first = record {
  at = 0xffffffffd0000000;
  size = 100;
  is_free = true;
  magic_low = 0xbeef;
  magic_high = 0xc0de;
}

abbrev second : Header
second = record {
  at = 0xffffffffd00000c0;
  size = 200;
  is_free = false;
  magic_low = 0xbeef;
  magic_high = 0xc0de;
}

abbrev two_blocks : Heap
two_blocks = record {
  headers = first ∷ second ∷ [];
  page_offset = 0xffffffffd0004000;
  heap_offset = 0xffffffffd00001c8;
  mapped = [];
  memory = λ _. 0;
  pmm = stack;
}

two_blocks-IsHeap : IsHeap two_blocks
unfolding check_magic
two_blocks-IsHeap = record {
  placed = (omega arith, refl, (omega arith, refl, omega arith));
  is_mapped = (omega arith, refl, (omega arith, refl, omega arith));
  in_space = omega arith;
}

alloc-Allocated_example : Allocated 300 two_blocks (alloc 300 two_blocks)
alloc-Allocated_example = alloc-Allocated 300 two_blocks two_blocks-IsHeap (omega arith)

free_lem_example :
    ((free (second.at + header_size) two_blocks).headers
      ≡ first ∷ record second { is_free = true } ∷ [])
    × IsHeap (free (second.at + header_size) two_blocks)
    × (free (second.at + header_size) (free (second.at + header_size) two_blocks)
        ≡ free (second.at + header_size) two_blocks)
free_lem_example = free_lem two_blocks second (first ∷ []) [] two_blocks-IsHeap refl refl
