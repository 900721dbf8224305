-- ===== src/Mm/Heap/Placed.antt =====
-- Where the blocks of the heap of kernel/source/mm/alloc.cpp lie.
use sigma.Base.{
  ◌*◌, ℕ, ◌+◌, ◌-◌, ◌%◌, ◌/◌, ◌<◌, ◌≤◌, ◌≡◌, refl, arith, List, [], ◌∷◌, ◌++◌, Bool, true, false,
  ◌==◌, if◌then◌else◌, add64, u64,
}
use native.Mathlib.Nat.{mod-lt, mod-le, mod-add-div, mul-mod_right}
use sigma.Mm.Heap.{
  Header, Heap, header_size, heap_base, check_magic, align_up, set_free, new_header,
}

-- From `lo` on, each block, its header first, lies after the one before it; the last ends by `hi`.
-- So no two blocks share a byte.
abbrev pub Placed : ℕ → List Header → ℕ → Type 0
Placed lo [] hi = lo ≤ hi
Placed lo (b ∷ bs) hi =
    (lo ≤ b.at) × (check_magic b ≡ true) × Placed (b.at + header_size + b.size) bs hi

-- The heap's blocks lie one after the other, below the offset from which blocks are carved and in
-- the mapped part.
pub record IsHeap (h : Heap) : Type 0 where
  pub placed : Placed heap_base h.headers h.heap_offset
  pub is_mapped : Placed heap_base h.headers h.page_offset
  pub in_space : h.page_offset < u64

pub Placed-le : (bs : List Header) (lo hi hi' : ℕ) → hi ≤ hi' → Placed lo bs hi → Placed lo bs hi'
Placed-le [] lo hi hi' le p = omega (arith, p)
Placed-le (b ∷ bs) lo hi hi' le p = (p.0, p.1, Placed-le bs _ hi hi' le p.2)

pub Placed-bounds : (bs : List Header) (lo hi : ℕ) → Placed lo bs hi → lo ≤ hi
Placed-bounds [] lo hi p = p
Placed-bounds (b ∷ bs) lo hi p = omega (arith, p.0, Placed-bounds bs _ hi p.2)

pub Placed-snoc :
    (bs : List Header) (lo hi a size hi' : ℕ)
    → Placed lo bs hi
    → hi ≤ a
    → a + header_size + size ≤ hi'
    → Placed lo (bs ++ new_header a size ∷ []) hi'
unfolding check_magic
Placed-snoc [] lo hi a size hi' p after e = (omega (arith, p), refl, e)
Placed-snoc (b ∷ bs) lo hi a size hi' p after e =
    (p.0, p.1, Placed-snoc bs _ hi a size hi' p.2 after e)

-- Neither place nor magic depends on `is_free`.
pub set_free-Placed :
    (bs : List Header) (a : ℕ) (f : Bool) (lo hi : ℕ)
    → Placed lo bs hi
    → Placed lo (set_free a f bs) hi
unfolding set_free check_magic
set_free-Placed [] a f lo hi p = p
set_free-Placed (b ∷ bs) a f lo hi p = marked (b.at == a) (set_free-Placed bs a f _ hi p.2)
  where
    marked :
        (hit : Bool)
        → Placed (b.at + header_size + b.size) (set_free a f bs) hi
        → Placed lo ((if hit then record b { is_free = f } else b) ∷ set_free a f bs) hi
    marked true rest = (p.0, p.1, rest)
    marked false rest = (p.0, p.1, rest)

-- The least multiple of the alignment that is not below the number.
pub align_up_lem :
    (n align : ℕ)
    → 0 < align
    → n + align < u64
    → (n ≤ align_up n align) × (align_up n align < n + align) × (align_up n align % align ≡ 0)
unfolding align_up
align_up_lem n align pos bound = (
  omega (arith, small, mod-le m align, exact),
  omega (arith, exact),
  rw whole (mul-mod_right align (m / align)),
)
  where
    m : ℕ
    m = add64 n (align - 1)

    exact : m ≡ n + (align - 1)
    exact = omega arith

    small : m % align < align
    small = mod-lt m pos

    whole : m - m % align ≡ align * (m / align)
    whole = ground (arith, mod-add-div m align)
