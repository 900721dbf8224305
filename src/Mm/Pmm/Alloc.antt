-- ===== src/Mm/Pmm/Alloc.antt =====
-- `alloc_block` and `alloc_n_blocks` of kernel/source/mm/pmm.cpp.
use sigma.Base.{
  ℕ, ◌+◌, ◌-◌, ◌≤◌, ◌<◌, ◌≡◌, ◌≢◌, refl, ◌⊎◌, inl, inr, List, [], ◌∷◌, arith, ◌==◌, length, Outcome,
  ok, panic, leb, if◌then◌else◌, ◌*◌, ◌>>=◌, Bool-cases, add64, block_size,
}
use sigma.Mm.Pmm.{
  Pmm, RleEntry, pop_nonempty, put_back, overwrite, alloc_block, cut_all, alloc_n_blocks,
}
use sigma.Mm.Pmm.Frames.{
  hit, copies, free_count, run_count, run_count-cons, run_count_empty, run_count_split, HasRoom,
  AreInRange,
}

-- The two ways in which the search for an entry with pages ends.
abbrev Popped : ℕ → List RleEntry → Outcome (RleEntry × Pmm) → Type 0
Popped n live r =
    ((r ≡ panic) × ((x : ℕ) → free_count live x ≡ 0))
    ⊎ ((e : RleEntry) × (q : Pmm) × (r ≡ ok (e, q))
        × (e.n_pages ≢ 0)
        × (length q.live < length live)
        × (q.n_slots ≡ n)
        × ((x : ℕ) → free_count live x ≡ copies e x + free_count q.live x))

Popped-cons :
    (n : ℕ) (live : List RleEntry) (e : RleEntry) {r : Outcome (RleEntry × Pmm)}
    → e.n_pages ≡ 0
    → Popped n live r
    → Popped n (e ∷ live) r
unfolding free_count
Popped-cons n live e z (inl (p, none_left)) =
    inl (p, λ x. omega (arith, none_left x, run_count_empty e.base e.n_pages x z))
Popped-cons n live e z (inr (f, q, p, pages, shorter, slots, counts)) = inr (
  f,
  q,
  p,
  pages,
  omega arith,
  slots,
  λ x. omega (arith, counts x, run_count_empty e.base e.n_pages x z),
)

pop_nonempty-Popped :
    (n : ℕ) (live stale : List RleEntry) → Popped n live (pop_nonempty n live stale)
unfolding pop_nonempty free_count
pop_nonempty-Popped n [] stale = inl (refl, λ x. refl)
pop_nonempty-Popped n (e ∷ live) stale = elim (Bool-cases (e.n_pages == 0)) [
  | inr some_pages ↦ rw some_pages (
      inr (
        e,
        record { live = live; stale = e ∷ stale; n_slots = n },
        refl,
        ground arith,
        omega arith,
        refl,
        λ x. refl,
      ))
  | inl empty ↦
      rw empty (Popped-cons n live e (ground arith) (pop_nonempty-Popped n live (e ∷ stale)))
]

-- The two ways in which `alloc_block` ends.
abbrev pub Allocated : Pmm → Outcome (ℕ × Pmm) → Type 0
Allocated p r =
    ((r ≡ panic) × ((x : ℕ) → free_count p.live x ≡ 0))
    ⊎ ((a : ℕ) × (q : Pmm) × (r ≡ ok (a, q))
        × HasRoom q
        × (q.n_slots ≡ p.n_slots)
        × ((x : ℕ) → free_count p.live x ≡ hit a x + free_count q.live x))

put_back_lem :
    (e : RleEntry) (q : Pmm)
    → length q.live + 3 ≤ q.n_slots
    → (q' : Pmm) × (put_back e q ≡ ok q')
      × HasRoom q'
      × (q'.n_slots ≡ q.n_slots)
      × ((x : ℕ) → free_count q'.live x ≡ copies e x + free_count q.live x)
unfolding put_back free_count
put_back_lem e q h = elim (Bool-cases (e.n_pages == 0)) [
  | inl empty ↦ rw empty (
    q,
    refl,
    omega arith,
    refl,
    λ x. omega (arith, run_count_empty e.base e.n_pages x (ground arith)),
  )
  | inr pages ↦ rw pages (
    record q { live = e ∷ q.live; stale = overwrite q.stale },
    ground arith,
    omega arith,
    refl,
    λ x. refl,
  )
]

-- With room on the stack, `alloc_block` halts exactly when no frame is free; otherwise it returns
-- one, and of every address the stack then lists as many copies as before, less the one handed out.
pub alloc_block-Allocated : (p : Pmm) → HasRoom p → Allocated p (alloc_block p)
unfolding alloc_block
alloc_block-Allocated p h = elim (pop_nonempty-Popped p.n_slots p.live p.stale) [
  | inl (e, none_left) ↦ rw e (inl (refl, none_left))
  | inr (ent, q, e, pages, shorter, slots, counts) ↦ rw e (
      finish ent q pages counts slots (
        put_back_lem (record { base = add64 ent.base block_size; n_pages = ent.n_pages - 1 }) q
          (omega arith)))
]
  where
    finish :
        (ent : RleEntry) (q : Pmm)
        → ent.n_pages ≢ 0
        → ((x : ℕ) → free_count p.live x ≡ copies ent x + free_count q.live x)
        → q.n_slots ≡ p.n_slots
        → (q' : Pmm) × (put_back
              (record { base = add64 ent.base block_size; n_pages = ent.n_pages - 1 })
              q
            ≡ ok q')
          × HasRoom q'
          × (q'.n_slots ≡ q.n_slots)
          × ((x : ℕ)
              → free_count q'.live x
                ≡ run_count (add64 ent.base block_size) (ent.n_pages - 1) x + free_count q.live x)
        → Allocated p (
            put_back (record { base = add64 ent.base block_size; n_pages = ent.n_pages - 1 }) q
            >>= λ rest. ok (ent.base, rest))
    finish ent q pages counts slots (q', e, room, slots', counts') = rw e (
        inr (
          ent.base,
          q',
          refl,
          room,
          omega arith,
          λ x. omega (arith, counts x, counts' x, run_count-cons ent.base ent.n_pages x pages),
        ))

-- How many entries are long enough for `n` frames.
unfoldable pub fits : ℕ → List RleEntry → ℕ
fits n [] = 0
fits n (e ∷ es) = (if leb n e.n_pages then 1 else 0) + fits n es

-- All the pages of the stack.
total_pages : List RleEntry → ℕ
total_pages [] = 0
total_pages (e ∷ es) = e.n_pages + total_pages es

-- The lower ends that the loop cuts off.
taken : ℕ → List RleEntry → ℕ → ℕ
taken n [] x = 0
taken n (e ∷ es) x = (if leb n e.n_pages then run_count e.base n x else 0) + taken n es x

cut_all-pages :
    (n : ℕ) (live : List RleEntry)
    → total_pages (cut_all n live).1 + n * fits n live ≡ total_pages live
unfolding cut_all fits total_pages
cut_all-pages n [] = omega arith
cut_all-pages n (e ∷ es) = ground (arith, cut_all-pages n es)

cut_all-count :
    (n : ℕ) (live : List RleEntry) (x : ℕ)
    → AreInRange live
    → free_count live x ≡ taken n live x + free_count (cut_all n live).1 x
unfolding cut_all taken free_count
cut_all-count n [] x v = refl
cut_all-count n (e ∷ es) x v =
    ground (arith, cut_all-count n es x v.2, run_count_split e.base n (e.n_pages - n) x v.0)

taken_none : (n : ℕ) (live : List RleEntry) (x : ℕ) → fits n live ≡ 0 → taken n live x ≡ 0
unfolding taken fits
taken_none n [] x h = refl
taken_none n (e ∷ es) x h = ground (arith, taken_none n es x)

cut_all_none : (n : ℕ) (live : List RleEntry) → fits n live ≡ 0 → (cut_all n live).0 ≡ 0
unfolding cut_all fits
cut_all_none n [] h = refl
cut_all_none n (e ∷ es) h = ground (arith, cut_all_none n es)

taken_one :
    (n : ℕ) (live : List RleEntry) (x : ℕ)
    → fits n live ≡ 1
    → taken n live x ≡ run_count (cut_all n live).0 n x
unfolding taken fits cut_all
taken_one n [] x h = absurd (omega arith)
taken_one n (e ∷ es) x h = ground (arith, taken_one n es x, taken_none n es x)

-- Where one entry alone is long enough, `alloc_n_blocks` takes exactly the run that it returns.
pub alloc_n_blocks_exact :
    (n : ℕ) (p : Pmm) {a : ℕ} {q : Pmm} (x : ℕ)
    → AreInRange p.live
    → fits n p.live ≡ 1
    → alloc_n_blocks n p ≡ ok (a, q)
    → free_count p.live x ≡ run_count a n x + free_count q.live x
unfolding alloc_n_blocks
alloc_n_blocks_exact n p x v one h =
    ground (arith, cut_all-count n p.live x v, taken_one n p.live x one)

-- Whatever the stack, every entry that is long enough loses `n` pages, though the caller gets one
-- run of `n`: with two such entries the pages of the other are in no entry any more.
alloc_n_blocks_leak :
    (n : ℕ) (p : Pmm) {a : ℕ} {q : Pmm}
    → alloc_n_blocks n p ≡ ok (a, q)
    → (total_pages q.live + n * fits n p.live ≡ total_pages p.live) × (0 < fits n p.live)
unfolding alloc_n_blocks
alloc_n_blocks_leak n p h =
    (ground (arith, cut_all-pages n p.live), ground (arith, cut_all_none n p.live))
