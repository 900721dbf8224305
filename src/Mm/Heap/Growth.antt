-- ===== src/Mm/Heap/Growth.antt =====
-- How the heap of kernel/source/mm/alloc.cpp grows: `morecore` and the block put at its end.
use sigma.Base.{
  subst, ◌>>=◌, ℕ, ◌+◌, ◌%◌, ◌<◌, ◌≤◌, ◌≡◌, refl, arith, [], ◌∷◌, ◌++◌, Bool, true, false, ◌==◌,
  if◌then◌else◌, add64, u64, block_size, Outcome, ok, panic, ap, sym,
}
use sigma.Mm.Heap.{
  Heap, header_size, heap_base, align_up, map_pages, rounds, morecore, new_header, append_block,
}
use sigma.Mm.Heap.Backing.{Allocs, IsBacked, MetNull, Halted, Mapped, map_pages-Mapped}
use sigma.Mm.Heap.Placed.{Placed, IsHeap, Placed-bounds, Placed-le, Placed-snoc, align_up_lem}

-- What `append_block` leaves: it halts where the frame allocator does; a null pointer and the same
-- blocks where that gives a null frame; or a block of the size asked for at an aligned place after
-- all others. All pages that were added are mapped to frames that are not null.
pub data Appended (size align : ℕ) (h : Heap) : Outcome (ℕ × Heap) → Type 0 where
  halts : Halted h → Appended size align h panic
  fails :
      (h' : Heap)
      → h'.headers ≡ h.headers
      → IsHeap h'
      → IsBacked h h'
      → MetNull h h'
      → Appended size align h (ok (0, h'))
  appends :
      (a : ℕ) (h' : Heap)
      → a % align ≡ 0
      → h'.headers ≡ h.headers ++ new_header a size ∷ []
      → IsHeap h'
      → IsBacked h h'
      → Allocs h'.pmm h.pmm
      → Appended size align h (ok (a + header_size, h'))

-- The ends of `morecore` and of `append_block`.
abbrev pointer_of : ℕ → Bool × Heap → Outcome (ℕ × Heap)
pointer_of start r = ok (if r.0 then start else 0, r.1)

abbrev link : ℕ → ℕ × Heap → Outcome (ℕ × Heap)
link size r =
    if r.0 == 0
    then ok (0, r.1)
    else ok
        (add64 r.0 header_size, record (r.1) { headers = r.1.headers ++ new_header r.0 size ∷ [] })

module _ (size align : ℕ) (h : Heap) (v : IsHeap h) (start : ℕ) (lower : h.heap_offset ≤ start)
    (aligned : start % align ≡ 0) (room : start + (size + header_size) < u64) where
  raised : Heap
  raised = record h { heap_offset = add64 start (add64 size header_size) }

  not_null : (start == 0) ≡ false
  not_null = ground (arith, Placed-bounds h.headers heap_base h.heap_offset v.placed)

  end_of : add64 start (add64 size header_size) ≡ start + header_size + size
  end_of = omega arith

  header_end : add64 start header_size ≡ start + header_size
  header_end = omega arith

  append_end :
      (o : Outcome (Bool × Heap))
      → Mapped raised o
      → Appended size align h ((o >>= pointer_of start) >>= link size)
  unfolding raised
  append_end panic m = halts m
  append_end (ok (false, h')) m =
      fails h' m.blocks
        (record {
          placed =
              subst (λ l. Placed heap_base l h'.heap_offset) (sym m.blocks)
                (Placed-le h.headers _ _ _ (omega (arith, m.offset, end_of)) v.placed);
          is_mapped =
              subst (λ l. Placed heap_base l h'.page_offset) (sym m.blocks)
                (Placed-le h.headers _ _ _ m.further v.is_mapped);
          in_space = m.in_space;
        })
        (record { pages = m.backed.pages; kept = m.backed.kept }) m.ended
  append_end (ok (true, h')) m =
      rw (not_null, header_end)
        (appends start _ aligned (ap (λ l. l ++ new_header start size ∷ []) m.blocks)
          (record {
            placed =
                subst (λ l. Placed heap_base (l ++ new_header start size ∷ []) h'.heap_offset)
                  (sym m.blocks)
                  (Placed-snoc h.headers heap_base h.heap_offset start size h'.heap_offset v.placed
                    lower (omega (arith, m.offset, end_of)));
            is_mapped =
                subst (λ l. Placed heap_base (l ++ new_header start size ∷ []) h'.page_offset)
                  (sym m.blocks)
                  (Placed-snoc h.headers heap_base h.heap_offset start size h'.page_offset v.placed
                    lower (omega (arith, m.offset, end_of, m.enough refl)));
            in_space = m.in_space;
          })
          (record { pages = m.backed.pages; kept = m.backed.kept }) m.ended)

pub append_block-Appended :
    (size align : ℕ) (h : Heap)
    → IsHeap h
    → 0 < align
    → h.heap_offset + align + size + header_size + block_size < u64
    → Appended size align h (append_block size align h)
unfolding append_block morecore raised
append_block-Appended size align h v pos room =
    let (lower, upper, aligned) = align_up_lem h.heap_offset align pos (omega arith) in
    append_end size align h v (align_up h.heap_offset align) lower aligned (omega arith)
      (map_pages
        (rounds (raised size align h v (align_up h.heap_offset align) lower aligned (omega arith)))
        _)
      (map_pages-Mapped _ _ (omega arith) (omega (arith, v.in_space)) v.in_space)
