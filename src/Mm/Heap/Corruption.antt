-- ===== src/Mm/Heap/Corruption.antt =====
-- `check_for_corruption` and the alignment of `alloc_a`, kernel/source/mm/alloc.cpp.
use native.Mathlib.Nat.{mod-add-mod, mod-eq_of_lt}
use sigma.Base.{
  ℕ, ◌+◌, ◌%◌, ◌<◌, ◌≤◌, ◌≡◌, ◌⊎◌, inl, inr, refl, arith, List, [], ◌∷◌, false, ◌==◌, u64,
  block_size, ltb, Outcome, ok, panic, ap, sym, ◌∙◌, ◌&&◌, ◌||◌, not, minus_one,
}
use sigma.Mm.Heap.{
  Header, Heap, header_size, heap_base, check_for_corruption, next_of, alloc_a, append_block,
}
use sigma.Mm.Heap.Placed.{Placed, IsHeap, Placed-bounds}
use sigma.Mm.Heap.Growth.{append_block-Appended, Appended, halts, fails, appends}

-- The test that the dump makes of an address in `next`.
next_fine :
    (lo hi : ℕ) (bs : List Header)
    → heap_base ≤ lo
    → hi < u64
    → Placed lo bs hi
    → ((ltb (next_of bs) 0xffffffffcfffffff && not (next_of bs == 0)) || (next_of bs == minus_one))
      ≡ false
unfolding next_of
next_fine lo hi [] low high p = refl
next_fine lo hi (b ∷ bs) low high p =
    ground (arith, p.0, Placed-bounds bs (b.at + header_size + b.size) hi p.2)

no_alarm :
    (bs : List Header) (lo hi : ℕ)
    → heap_base ≤ lo
    → hi < u64
    → Placed lo bs hi
    → check_for_corruption bs ≡ false
unfolding check_for_corruption
no_alarm [] lo hi low high p = refl
no_alarm (b ∷ bs) lo hi low high p = ground (
  arith,
  p.1,
  next_fine (b.at + header_size + b.size) hi bs (omega (arith, p.0)) high p.2,
  no_alarm bs (b.at + header_size + b.size) hi (omega (arith, p.0)) high p.2,
)

-- On a good heap the check for corruption finds none: no false alarm.
check_for_corruption-IsHeap : (h : Heap) → IsHeap h → check_for_corruption h.headers ≡ false
check_for_corruption-IsHeap h v =
    no_alarm h.headers heap_base h.page_offset (omega arith) v.in_space v.is_mapped

-- Null, or 64 bytes past a multiple of the alignment.
abbrev pub PastAligned : ℕ → Outcome (ℕ × Heap) → Type 0
PastAligned align panic = Unit {0}
PastAligned align (ok (p, h')) = (p ≡ 0) ⊎ (p % align ≡ header_size)

past : (align a : ℕ) → header_size < align → a % align ≡ 0 → (a + header_size) % align ≡ header_size
past align a big aligned =
    sym (mod-add-mod a align header_size)
    ∙ ap (λ z. (z + header_size) % align) aligned
    ∙ mod-eq_of_lt big

-- `alloc_a` aligns the header and not the pointer that it gives: asked for more than 64, it gives a
-- pointer that is 64 bytes past a multiple of the alignment.
alloc_a-PastAligned :
    (size align : ℕ) (h : Heap)
    → IsHeap h
    → header_size < align
    → h.heap_offset + align + size + header_size + block_size < u64
    → PastAligned align (alloc_a size align h)
unfolding alloc_a
alloc_a-PastAligned size align h v big room =
    read (append_block size align h) (append_block-Appended size align h v (omega arith) room)
  where
    read : (o : Outcome (ℕ × Heap)) → Appended size align h o → PastAligned align o
    read _ (halts w) = tt
    read _ (fails h' e good backed met) = inl refl
    read _ (appends a h' aligned e good backed took) = inr (past align a big aligned)
