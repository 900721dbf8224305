-- ===== src/Mm/Pmm/Frames.antt =====
-- The abstract view of the frame stack of kernel/source/mm/pmm.cpp: how often an address is listed
-- as a free frame.
use sigma.Base.{
  ◌++◌, ℕ, zero, suc, ◌+◌, ◌-◌, ◌≤◌, ◌<◌, ◌≡◌, ◌≢◌, refl, List, [], ◌∷◌, arith, ◌==◌, if◌then◌else◌,
  add64, mul64, block_size, u64, length,
}
use sigma.Mm.Pmm.{Pmm, RleEntry}

-- 1 if the two addresses are the same.
abbrev pub hit : ℕ → ℕ → ℕ
hit b a = if b == a then 1 else 0

-- How often `a` is among the `n` frames from `b` on, the addresses wrapping at 2 ^ 64.
unfoldable pub run_count : ℕ → ℕ → ℕ → ℕ
run_count b zero a = 0
run_count b (suc n) a = hit b a + run_count (add64 b block_size) n a

abbrev pub copies : RleEntry → ℕ → ℕ
copies e a = run_count e.base e.n_pages a

-- How often `a` is a free frame of the stack.
unfoldable pub free_count : List RleEntry → ℕ → ℕ
free_count [] a = 0
free_count (e ∷ es) a = copies e a + free_count es a

-- How often an address is in the list.
abbrev pub times : ℕ → List ℕ → ℕ
times x [] = 0
times x (f ∷ fs) = hit f x + times x fs

pub times-append : (x : ℕ) (fs gs : List ℕ) → times x (fs ++ gs) ≡ times x fs + times x gs
times-append x [] gs = omega arith
times-append x (f ∷ fs) gs = omega (arith, times-append x fs gs)

-- There is a slot left for a push: the guard of `push` will never be stepped over.
pub record HasRoom (p : Pmm) : Type 0 where
  pub room : length p.live + 2 ≤ p.n_slots

-- Bases are words, and no entry is longer than the physical memory that a page table can name.
abbrev pub AreInRange : List RleEntry → Type 0
AreInRange [] = Unit {0}
AreInRange (e ∷ es) = (e.base < u64) × (e.n_pages < 4503599627370496) × AreInRange es

pub run_count-cons :
    (b n a : ℕ) → n ≢ 0 → run_count b n a ≡ hit b a + run_count (add64 b block_size) (n - 1) a
unfolding run_count
run_count-cons b zero a h = absurd (h refl)
run_count-cons b (suc n) a h = ground arith

-- One frame more at the upper end.
pub run_count-snoc :
    (b n a : ℕ)
    → b < u64
    → run_count b (suc n) a ≡ hit (add64 b (mul64 n block_size)) a + run_count b n a
unfolding run_count
run_count-snoc b zero a h = ground arith
run_count-snoc b (suc n) a h =
    ground (arith, run_count-snoc (add64 b block_size) n a (omega arith), regroup)
  where
    regroup : add64 (add64 b block_size) (mul64 n block_size) ≡ add64 b (mul64 (suc n) block_size)
    regroup = omega arith

pub run_count_empty : (b n a : ℕ) → n ≡ 0 → run_count b n a ≡ 0
unfolding run_count
run_count_empty b zero a h = refl
run_count_empty b (suc n) a h = absurd (omega arith)

-- The first `n` frames of a run, and the rest.
pub run_count_split :
    (b n k a : ℕ)
    → b < u64
    → run_count b (n + k) a ≡ run_count b n a + run_count (add64 b (mul64 block_size n)) k a
unfolding run_count
run_count_split b zero k a h = ground (arith, start)
  where
    start : add64 b (mul64 block_size 0) ≡ b
    start = omega arith
run_count_split b (suc n) k a h = ground (
  arith,
  run_count-cons b (suc n + k) a,
  run_count_split (add64 b block_size) n k a (omega arith),
  regroup,
)
  where
    regroup : add64 (add64 b block_size) (mul64 block_size n) ≡ add64 b (mul64 block_size (suc n))
    regroup = omega arith
