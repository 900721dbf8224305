-- ===== src/Mm/Heap/Allocation.antt =====
-- What `alloc` and `free` of kernel/source/mm/alloc.cpp promise.
use sigma.Base.{
  ℕ, ◌+◌, ◌%◌, ◌<◌, ◌≤◌, ◌≡◌, ◌⊎◌, inl, inr, refl, arith, List, [], ◌∷◌, ◌++◌, Option, none, some,
  Bool, true, false, Bool-cases, ◌==◌, if◌then◌else◌, add64, sub64, u64, block_size, leb, Outcome,
  ok, panic, ap, ◌∙◌, subst, ◌&&◌,
}
use sigma.Mm.Heap.{
  Header, Heap, header_size, heap_base, check_magic, get_free_block, set_free, header_at,
  new_header, append_block, alloc, free,
}
use sigma.Mm.Heap.Placed.{Placed, IsHeap, set_free-Placed, Placed-bounds}
use sigma.Mm.Heap.Growth.{append_block-Appended, Appended, halts, fails, appends}
use sigma.Mm.Heap.Backing.{Halted, MetNull, IsBacked, Allocs}

-- No block of the list is free and big enough.
abbrev pub NoneFits : ℕ → List Header → Type 0
NoneFits size [] = Unit {0}
NoneFits size (b ∷ bs) = ((b.is_free ≡ false) ⊎ (b.size < size)) × NoneFits size bs

-- The first block of the list that is free and big enough.
pub record IsFirstFit (size : ℕ) (bs : List Header) (b : Header) : Type 0 where
  pub before : List Header
  pub after : List Header
  pub place : bs ≡ before ++ b ∷ after
  pub passed : NoneFits size before
  pub was_free : b.is_free ≡ true
  pub fits : size ≤ b.size

abbrev Found : ℕ → List Header → Option Header → Type 0
Found size bs none = NoneFits size bs
Found size bs (some b) = IsFirstFit size bs b

get_free_block-Found : (size : ℕ) (bs : List Header) → Found size bs (get_free_block size bs)
unfolding get_free_block
get_free_block-Found size [] = tt
get_free_block-Found size (b ∷ bs) = elim (Bool-cases (b.is_free && leb size b.size)) [
  | inl hit ↦
      rw (hit, get_free_block)
        (record {
          before = [];
          after = bs;
          place = refl;
          passed = tt;
          was_free = ground arith;
          fits = ground arith;
        })
  | inr miss ↦
      rw (miss, get_free_block)
        (later (get_free_block size bs) (ground arith) (get_free_block-Found size bs))
]
  where
    later :
        (o : Option Header)
        → (b.is_free ≡ false) ⊎ (b.size < size)
        → Found size bs o
        → Found size (b ∷ bs) o
    later none small f = (small, f)
    later (some c) small f = record {
      before = b ∷ f.before;
      after = f.after;
      place = ap (◌∷◌ b) f.place;
      passed = (small, f.passed);
      was_free = f.was_free;
      fits = f.fits;
    }

-- Where a block stands in a list of placed blocks.
module _ (b : Header) (after : List Header) (hi : ℕ) where
  lies_within :
      (before : List Header) (lo : ℕ)
      → Placed lo (before ++ b ∷ after) hi
      → (lo ≤ b.at) × (b.at + header_size + b.size ≤ hi) × (check_magic b ≡ true)
  lies_within [] lo p = (p.0, Placed-bounds after _ hi p.2, p.1)
  lies_within (c ∷ before) lo p =
      let (low, high, magic) = lies_within before _ p.2 in (omega (arith, p.0), high, magic)

  set_free_above :
      (bs : List Header) (lo a : ℕ) (f : Bool) → Placed lo bs hi → a < lo → set_free a f bs ≡ bs
  unfolding set_free
  set_free_above [] lo a f p lt = refl
  set_free_above (c ∷ bs) lo a f p lt =
      ground
        (arith, p.0, set_free_above bs (c.at + header_size + c.size) a f p.2 (omega (arith, p.0)))

  set_free_place :
      (before : List Header) (lo : ℕ) (f : Bool)
      → Placed lo (before ++ b ∷ after) hi
      → set_free b.at f (before ++ b ∷ after) ≡ before ++ record b { is_free = f } ∷ after
  unfolding set_free
  set_free_place [] lo f p =
      ground (arith, set_free_above after (b.at + header_size + b.size) b.at f p.2 (omega arith))
  set_free_place (c ∷ before) lo f p =
      ground (arith, (lies_within before _ p.2).0, set_free_place before _ f p.2)

  header_at_place :
      (before : List Header) (lo : ℕ)
      → Placed lo (before ++ b ∷ after) hi
      → header_at b.at (before ++ b ∷ after) ≡ some b
  unfolding header_at
  header_at_place [] lo p = ground arith
  header_at_place (c ∷ before) lo p =
      ground (arith, (lies_within before _ p.2).0, header_at_place before _ p.2)

-- What `alloc` gives on a good heap. It halts where no block fits and the frame allocator halts. Null
-- comes of a size of 0, or of a null frame when no block fits; a pointer is just past the header of the first free block that is big enough, which is then
-- in use, or of a new block after all others. Every other block is as it was.
pub data Allocated (size : ℕ) (h : Heap) : Outcome (ℕ × Heap) → Type 0 where
  no_size : size ≡ 0 → Allocated size h (ok (0, h))
  no_frame : NoneFits size h.headers → Halted h → Allocated size h panic
  null_frame :
      (h' : Heap)
      → NoneFits size h.headers
      → h'.headers ≡ h.headers
      → IsHeap h'
      → IsBacked h h'
      → MetNull h h'
      → Allocated size h (ok (0, h'))
  reuses :
      (b : Header) (fit : IsFirstFit size h.headers b) (h' : Heap)
      → h'.headers ≡ fit.before ++ record b { is_free = false } ∷ fit.after
      → h'.heap_offset ≡ h.heap_offset
      → h'.page_offset ≡ h.page_offset
      → h'.mapped ≡ h.mapped
      → h'.pmm ≡ h.pmm
      → IsHeap h'
      → Allocated size h (ok (b.at + header_size, h'))
  grows :
      (a : ℕ) (h' : Heap)
      → NoneFits size h.headers
      → a % 64 ≡ 0
      → h'.headers ≡ h.headers ++ new_header a size ∷ []
      → IsHeap h'
      → IsBacked h h'
      → Allocs h'.pmm h.pmm
      → Allocated size h (ok (a + header_size, h'))

grown :
    (size : ℕ) (h : Heap) (o : Outcome (ℕ × Heap))
    → NoneFits size h.headers
    → Appended size 64 h o
    → Allocated size h o
grown size h _ n (halts w) = no_frame n w
grown size h _ n (fails h' e v b w) = null_frame h' n e v b w
grown size h _ n (appends a h' m e v b w) = grows a h' n m e v b w

-- A block of a good heap: where it lies, and what a write to its `is_free` leaves.
module _ (h : Heap) (v : IsHeap h) (b : Header) (before after : List Header)
    (place : h.headers ≡ before ++ b ∷ after) where
  there : Placed heap_base (before ++ b ∷ after) h.page_offset
  there = subst (λ l. Placed heap_base l h.page_offset) place v.is_mapped

  block_bounds : (heap_base ≤ b.at) × (b.at + header_size + b.size < u64) × (check_magic b ≡ true)
  block_bounds =
      let (low, high, magic) = lies_within b after h.page_offset before heap_base there in
      (low, omega (arith, v.in_space), magic)

  marked-IsHeap : (f : Bool) → IsHeap (record h { headers = set_free b.at f h.headers })
  marked-IsHeap f = record {
    placed = set_free-Placed h.headers b.at f heap_base h.heap_offset v.placed;
    is_mapped = set_free-Placed h.headers b.at f heap_base h.page_offset v.is_mapped;
    in_space = v.in_space;
  }

  set_free_block :
      (f : Bool) → set_free b.at f h.headers ≡ before ++ record b { is_free = f } ∷ after
  set_free_block f = rw place (set_free_place b after h.page_offset before heap_base f there)

  header_at_block : header_at b.at h.headers ≡ some b
  header_at_block = rw place (header_at_place b after h.page_offset before heap_base there)

picked_fit :
    (size : ℕ) (h : Heap)
    → IsHeap h
    → (b : Header) (fit : IsFirstFit size h.headers b)
    → Allocated size h (
        if check_magic b
        then ok (add64 b.at header_size, record h { headers = set_free b.at false h.headers })
        else ok (0, h))
picked_fit size h v b fit =
    let (low, high, magic) = block_bounds h v b fit.before fit.after fit.place in
    let address : add64 b.at header_size ≡ b.at + header_size = omega (arith, high) in
    rw (magic, address)
      (reuses b fit _ (set_free_block h v b fit.before fit.after fit.place false) refl refl refl
        refl (marked-IsHeap h v b fit.before fit.after fit.place false))

-- On a good heap well below the end of the address space, `alloc` halts only when no block fits and
-- the frame allocator, after some frames, halts. Otherwise the heap is good afterwards, so its blocks
-- share no byte, and the pointer is the first free block that fits, or a new block after all others,
-- or null: for a size of 0, or where no block fits and the frame allocator gives a null frame. Blocks
-- lie below the page offset, and each page by which that moves is recorded as mapped to a frame that
-- is not null; what the mapping itself may take of frames is left out. All other blocks are as they
-- were.
pub alloc-Allocated :
    (size : ℕ) (h : Heap)
    → IsHeap h
    → h.heap_offset + size + header_size + 64 + block_size < u64
    → Allocated size h (alloc size h)
unfolding alloc
alloc-Allocated size h v room = elim (Bool-cases (size == 0)) [
  | inl e ↦ rw (e, alloc) (no_size (ground arith))
  | inr e ↦
      rw (e, alloc) (picked (get_free_block size h.headers) (get_free_block-Found size h.headers))
]
  where
    picked :
        (o : Option Header)
        → Found size h.headers o
        → Allocated size h (elim o [
          | some b ↦
              if check_magic b
              then ok (add64 b.at header_size, record h { headers = set_free b.at false h.headers })
              else ok (0, h)
          | none ↦ append_block size 64 h
        ])
    picked none f =
        grown size h _ f (append_block-Appended size 64 h v (omega arith) (omega (arith, room)))
    picked (some b) f = picked_fit size h v b f

-- The tests that `free` makes, on a block of a good heap.
module _ (h : Heap) (v : IsHeap h) (b : Header) (before after : List Header)
    (place : h.headers ≡ before ++ b ∷ after) where
  bounds : (heap_base ≤ b.at) × (b.at + header_size + b.size < u64) × (check_magic b ≡ true)
  bounds = block_bounds h v b before after place

  not_null : (b.at + header_size == 0) ≡ false
  not_null = ground arith

  header_before : header_at (sub64 (b.at + header_size) header_size) h.headers ≡ some b
  header_before = ap (λ a. header_at a h.headers) back ∙ header_at_block h v b before after place
    where
      back : sub64 (b.at + header_size) header_size ≡ b.at
      back = omega (arith, bounds.1)

  free_used :
      b.is_free ≡ false
      → free (b.at + header_size) h ≡ record h { headers = set_free b.at true h.headers }
  unfolding free
  free_used used = rw (not_null, free) (rw header_before (rw (bounds.2) (rw used refl)))

  free_freed : b.is_free ≡ true → free (b.at + header_size) h ≡ h
  unfolding free
  free_freed freed = rw (not_null, free) (rw header_before (rw (bounds.2) (rw freed refl)))

-- Freeing a block in use makes that block free and changes no other, the heap stays good, and
-- freeing the block again changes nothing at all.
pub free_lem :
    (h : Heap) (b : Header) (before after : List Header)
    → IsHeap h
    → h.headers ≡ before ++ b ∷ after
    → b.is_free ≡ false
    → ((free (b.at + header_size) h).headers ≡ before ++ record b { is_free = true } ∷ after)
      × IsHeap (free (b.at + header_size) h)
      × (free (b.at + header_size) (free (b.at + header_size) h) ≡ free (b.at + header_size) h)
free_lem h b before after v place used =
    let marked = set_free_block h v b before after place true in
    let good = marked-IsHeap h v b before after place true in
    rw (free_used h v b before after place used) (
      marked,
      good,
      free_freed (record h { headers = set_free b.at true h.headers }) good
          (record b { is_free = true }) before after marked refl,
    )
