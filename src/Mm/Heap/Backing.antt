-- ===== src/Mm/Heap/Backing.antt =====
-- The loop of `morecore`, kernel/source/mm/alloc.cpp, that maps the pages of the heap.
use sigma.Base.{
  ◌≢◌, ◌⊎◌, ◌*◌, List, subst, leb→le, ◌>>=◌, ℕ, zero, suc, ◌+◌, ◌<◌, ◌≤◌, ◌≡◌, inl, inr, refl,
  arith, [], ◌∷◌, Bool, true, false, Bool-cases, ◌==◌, if◌then◌else◌, add64, u64, block_size, leb,
  Outcome, ok, panic, ap, sym, ◌∙◌,
}
use sigma.Mm.Pmm.{Pmm, alloc_block}
use sigma.Mm.Heap.{Heap, map_block, map_pages, rounds}

abbrev pub IsListed : ℕ × ℕ → List (ℕ × ℕ) → Type 0
IsListed x [] = ⊥
IsListed x (y ∷ ys) = (x ≡ y) ⊎ IsListed x ys

-- From `p` the frame allocator gave frames that are not null, one after the other, and came to `q`.
pub data Allocs (q : Pmm) : Pmm → Type 0 where
  no_more : Allocs q q
  one_more : (p p' : Pmm) (f : ℕ) → alloc_block p ≡ ok (f, p') → f ≢ 0 → Allocs q p' → Allocs q p

-- Each page between the old and the new offset is mapped to a frame that is not null, and what was
-- mapped before still is.
pub record IsBacked (h h' : Heap) : Type 0 where
  pub pages :
      (i : ℕ)
      → h.page_offset + 4096 * i < h'.page_offset
      → (f : ℕ) × (f ≢ 0) × IsListed (f, h.page_offset + 4096 * i) h'.mapped
  pub kept : (x : ℕ × ℕ) → IsListed x h.mapped → IsListed x h'.mapped

-- After some frames that were not null, the allocator gave a null frame, or halted.
abbrev pub MetNull : Heap → Heap → Type 0
MetNull h h' = (q : Pmm) × Allocs q h.pmm × (alloc_block q ≡ ok (0, h'.pmm))

abbrev pub Halted : Heap → Type 0
Halted h = (q : Pmm) × Allocs q h.pmm × (alloc_block q ≡ panic)

-- What the mapping loop leaves; `done` says that it ran to its end.
pub record IsMapped (h : Heap) (done : Bool) (h' : Heap) : Type 0 where
  pub blocks : h'.headers ≡ h.headers
  pub offset : h'.heap_offset ≡ h.heap_offset
  pub further : h.page_offset ≤ h'.page_offset
  pub in_space : h'.page_offset < u64
  pub enough : done ≡ true → h'.heap_offset < h'.page_offset
  pub backed : IsBacked h h'
  pub ended : if done then Allocs h'.pmm h.pmm else MetNull h h'

abbrev pub Mapped : Heap → Outcome (Bool × Heap) → Type 0
Mapped h panic = Halted h
Mapped h (ok (done, h')) = IsMapped h done h'

IsBacked-refl : (h : Heap) → IsBacked h h
IsBacked-refl h = record { pages = λ i lt. absurd (omega arith); kept = λ x l. l }

-- One page, and then the others.
map_block-IsBacked :
    (h h' : Heap) (f : ℕ) (p : Pmm)
    → f ≢ 0
    → h.page_offset + block_size < u64
    → IsBacked (map_block f p h) h'
    → IsBacked h h'
unfolding map_block
map_block-IsBacked h h' f p ne room b = record { pages = pages; kept = λ x l. b.kept x (inr l) }
  where
    at_start : h.page_offset ≡ h.page_offset + 4096 * 0
    at_start = omega arith

    further : (i : ℕ) → add64 h.page_offset block_size + 4096 * i ≡ h.page_offset + 4096 * suc i
    further i = omega arith

    pages :
        (i : ℕ)
        → h.page_offset + 4096 * i < h'.page_offset
        → (f : ℕ) × (f ≢ 0) × IsListed (f, h.page_offset + 4096 * i) h'.mapped
    pages zero lt =
        (f, ne, b.kept (f, h.page_offset + 4096 * 0) (inl (ap (λ v. (f, v)) (sym at_start))))
    pages (suc i) lt =
        let (g, ne', l) = b.pages i (omega (arith, further i)) in
        (g, ne', subst (λ v. IsListed (g, v) h'.mapped) (further i) l)

-- The frame of the first round.
Mapped-map_block :
    (h : Heap) (f : ℕ) (p : Pmm) (o : Outcome (Bool × Heap))
    → alloc_block h.pmm ≡ ok (f, p)
    → f ≢ 0
    → h.page_offset + block_size < u64
    → Mapped (map_block f p h) o
    → Mapped h o
unfolding map_block
Mapped-map_block h f p panic e ne room (q, al, stop) = (q, one_more _ _ f e ne al, stop)
Mapped-map_block h f p (ok (done, h')) e ne room m = record {
  blocks = m.blocks;
  offset = m.offset;
  further = omega (arith, m.further);
  in_space = m.in_space;
  enough = m.enough;
  backed = map_block-IsBacked h h' f p ne room m.backed;
  ended = by_end done m.ended;
}
  where
    by_end :
        (done : Bool)
        → (if done
            then Allocs h'.pmm p
            else ((q : Pmm) × Allocs q p × (alloc_block q ≡ ok (0, h'.pmm))))
        → if done then Allocs h'.pmm h.pmm else MetNull h h'
    by_end true al = one_more _ _ f e ne al
    by_end false (q, al, null) = (q, one_more _ _ f e ne al, null)

stays : (h : Heap) → h.page_offset < u64 → h.heap_offset < h.page_offset → IsMapped h true h
stays h r e = record {
  blocks = refl;
  offset = refl;
  further = omega arith;
  in_space = r;
  enough = λ _. e;
  backed = IsBacked-refl h;
  ended = no_more;
}

-- A round, given what the rounds after it do.
map_round :
    (n : ℕ) (h : Heap)
    → h.page_offset ≤ h.heap_offset
    → h.heap_offset + block_size < u64
    → ((f : ℕ) (p : Pmm) → Mapped (map_block f p h) (map_pages n (map_block f p h)))
    → (o : Outcome (ℕ × Pmm)) → alloc_block h.pmm ≡ o
    → Mapped h (
        o >>= λ r.
        if r.0 == 0 then ok (false, record h { pmm = r.1 }) else map_pages n (map_block r.0 r.1 h))
map_round n h le room later panic e = (h.pmm, no_more, e)
map_round n h le room later (ok (f, p)) e = elim (Bool-cases (f == 0)) [
  | inl null ↦ rw null (record {
    blocks = refl;
    offset = refl;
    further = omega arith;
    in_space = omega arith;
    enough = λ e. absurd (cc);
    backed = record { pages = λ i lt. absurd (omega arith); kept = λ x l. l };
    ended = (h.pmm, no_more, e ∙ ap (λ z. ok (z, p)) (is_null null));
  })
  | inr there ↦ rw there (Mapped-map_block h f p _ e (not_null there) (omega arith) (later f p))
]
  where
    is_null : (f == 0) ≡ true → f ≡ 0
    is_null null = ground (arith, null)

    not_null : (f == 0) ≡ false → f ≢ 0
    not_null there = ground (arith, there)

-- In as many rounds as pages are missing, the loop maps all of them or meets a null frame.
pub map_pages-Mapped :
    (n : ℕ) (h : Heap)
    → rounds h ≤ n
    → h.heap_offset + block_size < u64
    → h.page_offset < u64
    → Mapped h (map_pages n h)
unfolding map_pages rounds map_block
map_pages-Mapped zero h enough room range = stays h range (omega arith)
map_pages-Mapped (suc n) h enough room range = elim (Bool-cases (leb h.page_offset h.heap_offset)) [
  | inr done ↦ rw (done, map_pages) (stays h range (ground arith))
  | inl more ↦
      rw (more, map_pages)
        (map_round n h (leb→le _ _ more) room
          (λ f p.
            map_pages-Mapped n (map_block f p h) (omega (arith, leb→le _ _ more)) (omega arith)
              (omega arith))
          (alloc_block h.pmm) refl)
]
