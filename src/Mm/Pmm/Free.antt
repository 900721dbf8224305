-- ===== src/Mm/Pmm/Free.antt =====
-- `free_block` of kernel/source/mm/pmm.cpp.
use sigma.Base.{
  ℕ, suc, ◌+◌, ◌<◌, ◌≡◌, refl, ◌⊎◌, inl, inr, List, [], ◌∷◌, arith, ◌==◌, length, Outcome, ok,
  panic, Bool-cases, Option-cases, add64, sub64, block_size, u64, none, some,
}
use sigma.Mm.Pmm.{Pmm, RleEntry, join, join_first, free_block}
use sigma.Mm.Pmm.Frames.{
  hit, copies, free_count, run_count, run_count-cons, run_count-snoc, run_count_empty, HasRoom,
  AreInRange,
}

-- An entry that takes the frame grows by it, at either end.
join_lem :
    (a : ℕ) (e : RleEntry) {e' : RleEntry}
    → a < u64
    → e.base < u64
    → e.n_pages < 4503599627370496
    → join a e ≡ some e'
    → (x : ℕ) → copies e' x ≡ hit a x + copies e x
unfolding join
join_lem a e ha hb hn h x = ground (
  arith,
  run_count-snoc e.base e.n_pages x,
  run_count-cons (sub64 e.base block_size) (add64 e.n_pages 1) x,
  below,
  grown,
)
  where
    below : add64 a block_size ≡ e.base → (sub64 e.base block_size ≡ a)
    below q = omega arith

    grown : add64 e.n_pages 1 ≡ suc e.n_pages
    grown = omega arith

pub join_first_lem :
    (a : ℕ) (live : List RleEntry) {live' : List RleEntry}
    → a < u64
    → AreInRange live
    → join_first a live ≡ some live'
    → (length live' ≡ length live) × ((x : ℕ) → free_count live' x ≡ hit a x + free_count live x)
unfolding join_first free_count
join_first_lem a [] ha v h = absurd (ground arith)
join_first_lem a (e ∷ lower) ha v h = elim (Option-cases (join_first a lower)) [
  | inr (rest, found) ↦
      let (len, counts) = join_first_lem a lower ha v.2 found in
      (ground arith, λ x. ground (arith, counts x))
  | inl missed ↦ elim (Option-cases (join a e)) [
    | inl refused ↦ absurd (ground arith)
    | inr (e', joined) ↦
        (ground arith, λ x. ground (arith, join_lem a e {e' = e'} ha v.0 v.1 joined x))
  ]
]

-- The two ways in which `free_block` ends.
abbrev pub Freed : ℕ → Pmm → Outcome Pmm → Type 0
Freed a p r =
    ((r ≡ panic) × (length p.live + 2 ≡ p.n_slots) × (join_first a p.live ≡ none))
    ⊎ ((q : Pmm) × (r ≡ ok q)
        × HasRoom q
        × (q.n_slots ≡ p.n_slots)
        × ((x : ℕ) → free_count q.live x ≡ hit a x + free_count p.live x))

-- `free_block` halts only when no entry can take the frame and the stack is full; otherwise the
-- freed frame is listed once more and every other frame as often as before.
pub free_block-Freed :
    (a : ℕ) (p : Pmm) → a < u64 → HasRoom p → AreInRange p.live → Freed a p (free_block a p)
unfolding free_block free_count
free_block-Freed a p ha r v = elim (Option-cases (join_first a p.live)) [
  | inr (live, found) ↦
      let (len, counts) = join_first_lem a p.live ha v found in
      rw (found, free_block) (inr (record p { live = live }, refl, omega arith, refl, counts))
  | inl missed ↦
      rw (missed, free_block)
        (elim (Bool-cases (length p.live + 2 == p.n_slots)) [
          | inl full ↦ rw full (inl (refl, ground arith, refl))
          | inr space ↦ rw space (inr (_, refl, ground arith, refl, λ x. ground (arith, one x)))
        ])
]
  where
    one : (x : ℕ) → run_count a 1 x ≡ hit a x
    one x = ground (arith, run_count-cons a 1 x, run_count_empty (add64 a block_size) 0 x refl)
