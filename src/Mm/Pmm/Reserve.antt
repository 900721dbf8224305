-- ===== src/Mm/Pmm/Reserve.antt =====
-- `reserve_block` of `mm::pmm::init`, kernel/source/mm/pmm.cpp.
use sigma.Base.{
  ◌==◌, Bool-cases, panic, inr, ok, Outcome, inl, ◌++◌, ℕ, zero, suc, ◌+◌, ◌-◌, ◌*◌, ◌/◌, ◌%◌, ◌≤◌,
  ◌<◌, ◌≡◌, ◌≢◌, refl, ◌⊎◌, List, [], ◌∷◌, arith, length, add64, sub64, mul64, block_size, u64,
  Option, none, some, true, false,
}
use sigma.Mm.Pmm.{
  overwrite, Pmm, reserve_block, split_first, RleEntry, covers, low_part, high_part, split,
}
use sigma.Mm.Pmm.Frames.{
  hit, copies, free_count, run_count, run_count-cons, run_count_empty, run_count_split,
}

-- An entry as the firmware's memory map gives it: page-aligned, and ending below 2 ^ 64.
abbrev pub AreAligned : List RleEntry → Type 0
AreAligned [] = Unit {0}
AreAligned (e ∷ es) = (e.base % 4096 ≡ 0) × (e.base + e.n_pages * 4096 + 4096 < u64) × AreAligned es

-- No entry with pages ends where the frame begins.
abbrev pub NoneEndsAt : ℕ → List RleEntry → Type 0
NoneEndsAt a [] = Unit {0}
NoneEndsAt a (e ∷ es) = ((e.n_pages ≡ 0) ⊎ (e.base + e.n_pages * 4096 ≢ a)) × NoneEndsAt a es

-- No frame of a run lies outside it.
run_count_outside :
    (b n a : ℕ) → b + n * 4096 < u64 → (a < b) ⊎ (b + n * 4096 ≤ a) → run_count b n a ≡ 0
unfolding run_count
run_count_outside b zero a h o = refl
run_count_outside b (suc n) a h o =
    ground (arith, run_count_outside (add64 b block_size) n a (omega arith) (omega arith))

extra_count : Option RleEntry → ℕ → ℕ
extra_count none x = 0
extra_count (some e) x = copies e x

-- A frame inside the entry, by its index.
split_lem :
    (e : RleEntry) (i x : ℕ)
    → i < e.n_pages
    → e.base + e.n_pages * 4096 + 4096 < u64
    → let s = split (e.base + i * 4096) e in
      copies e x ≡ hit (e.base + i * 4096) x + copies s.0 x + extra_count s.1 x
unfolding split low_part high_part extra_count
split_lem e i x h w = ground (
  arith,
  low,
  high,
  run_count_split e.base i (e.n_pages - i) x (omega arith),
  run_count-cons (e.base + i * 4096) (e.n_pages - i) x (omega arith),
  run_count_empty e.base i x,
  run_count_empty (add64 (e.base + i * 4096) block_size) (e.n_pages - i - 1) x,
  start,
  whole,
)
  where
    low : sub64 (e.base + i * 4096) e.base / block_size ≡ i
    low = omega arith

    high :
        sub64 (add64 e.base (mul64 e.n_pages block_size)) (add64 (e.base + i * 4096) block_size)
          / block_size
        ≡ e.n_pages - i - 1
    high = omega arith

    start : add64 e.base (mul64 block_size i) ≡ e.base + i * 4096
    start = omega arith

    whole : i + (e.n_pages - i) ≡ e.n_pages
    whole = omega arith

covers_inside :
    (e : RleEntry) (a : ℕ)
    → e.base + e.n_pages * 4096 + 4096 < u64
    → covers a e ≡ true
    → (e.n_pages ≢ 0) × (e.base ≤ a) × (a ≤ e.base + e.n_pages * 4096)
unfolding covers
covers_inside e a w h = ground arith

covers_outside :
    (e : RleEntry) (a : ℕ)
    → e.base + e.n_pages * 4096 + 4096 < u64
    → covers a e ≡ false
    → copies e a ≡ 0
unfolding covers
covers_outside e a w h =
    ground (
      arith,
      run_count_empty e.base e.n_pages a,
      run_count_outside e.base e.n_pages a (omega arith),
    )

-- The lowest entry that has the frame, if any, has pages both below and above it.
abbrev pub IsInside : ℕ → List RleEntry → Type 0
IsInside a [] = ⊥
IsInside a (e ∷ lower) =
    IsInside a lower
    ⊎ ((free_count lower a ≡ 0) × (e.base < a) × (a + 4096 < e.base + e.n_pages * 4096))

-- The two ways in which the search for an entry ends.
abbrev SplitAt : ℕ → List RleEntry → Option (List RleEntry × Option RleEntry) → Type 0
SplitAt a live r =
    ((r ≡ none) × (free_count live a ≡ 0))
    ⊎ ((live' : List RleEntry) × (extra : Option RleEntry) × (r ≡ some (live', extra))
        × (length live' ≡ length live)
        × ((x : ℕ) → free_count live x ≡ hit a x + free_count live' x + extra_count extra x)
        × ((second : RleEntry) → extra ≡ some second → IsInside a live))

split_second :
    (a : ℕ) (e : RleEntry) (lower : List RleEntry) (second : RleEntry)
    → a % 4096 ≡ 0
    → AreAligned (e ∷ lower)
    → NoneEndsAt a (e ∷ lower)
    → covers a e ≡ true
    → (split a e).1 ≡ some second
    → (e.base < a) × (a + 4096 < e.base + e.n_pages * 4096)
unfolding split low_part high_part
split_second a e lower second ha v n c h =
    let (pages, lo, hi) = covers_inside e a v.1 c in
    elim (Bool-cases (sub64 a e.base / block_size == 0)) [
      | inl none_below ↦ absurd (ground arith)
      | inr below ↦
          elim (Bool-cases (
            sub64 (add64 e.base (mul64 e.n_pages block_size)) (add64 a block_size) / block_size
            == 0)) [
              | inl none_above ↦ absurd (ground arith)
              | inr above ↦ (ground arith, ground arith)
            ]
    ]

split_at :
    (a : ℕ) (e : RleEntry) (lower : List RleEntry)
    → a % 4096 ≡ 0
    → AreAligned (e ∷ lower)
    → NoneEndsAt a (e ∷ lower)
    → covers a e ≡ true
    → (x : ℕ) → copies e x ≡ hit a x + copies (split a e).0 x + extra_count (split a e).1 x
split_at a e lower ha v n c x =
    let (pages, lo, hi) = covers_inside e a v.1 c in
    let i : ℕ = (a - e.base) / 4096 in
    let at : e.base + i * 4096 ≡ a = omega arith in rw at at (split_lem e i x (omega arith) v.1)

split_first-SplitAt :
    (a : ℕ) (live : List RleEntry)
    → a % 4096 ≡ 0
    → AreAligned live
    → NoneEndsAt a live
    → SplitAt a live (split_first a live)
unfolding split_first free_count
split_first-SplitAt a [] ha v n = inl (refl, refl)
split_first-SplitAt a (e ∷ lower) ha v n = elim (split_first-SplitAt a lower ha v.2 n.1) [
  | inr (live', extra, eq, len, counts, inside) ↦ rw eq (
      inr (
        e ∷ live',
        extra,
        refl,
        omega arith,
        λ x. omega (arith, counts x),
        λ second z. inl (inside second z),
      ))
  | inl (eq, missing) ↦ rw eq (elim (Bool-cases (covers a e)) [
    | inl hits ↦ rw hits (
        inr (
          (split a e).0 ∷ lower,
          (split a e).1,
          refl,
          refl,
          λ x. omega (arith, split_at a e lower ha v n hits x),
          λ second z.
              let (below, above) = split_second a e lower second ha v n hits z in
              inr (missing, below, above),
        ))
    | inr misses ↦ rw misses (inl (refl, omega (arith, covers_outside e a v.1 misses)))
  ])
]

-- The three ways in which `reserve_block` ends.
abbrev pub Reserved : ℕ → Pmm → Outcome Pmm → Type 0
Reserved a p r =
    ((r ≡ ok p) × (free_count p.live a ≡ 0))
    ⊎ ((r ≡ panic) × (length p.live + 2 ≡ p.n_slots) × IsInside a p.live)
    ⊎ ((q : Pmm) × (r ≡ ok q) × ((x : ℕ) → free_count p.live x ≡ hit a x + free_count q.live x))

-- On a page-aligned map with no entry that ends just where the frame begins, `reserve_block` takes
-- one copy of the frame out of the stack and no other; it changes nothing if the frame is not free,
-- and halts only on a full stack, and where the lowest entry that has the frame has pages on both
-- sides of it, so that a second part has to be pushed.
pub reserve_block-Reserved :
    (a : ℕ) (p : Pmm)
    → a % 4096 ≡ 0
    → AreAligned p.live
    → NoneEndsAt a p.live
    → Reserved a p (reserve_block a p)
unfolding reserve_block free_count extra_count
reserve_block-Reserved a p ha v n = elim (split_first-SplitAt a p.live ha v n) [
  | inl (eq, missing) ↦ rw (eq, reserve_block) (inl (refl, missing))
  | inr (live', none, eq, len, counts, inside) ↦
      rw (eq, reserve_block)
        (inr (inr (record p { live = live' }, refl, λ x. omega (arith, counts x))))
  | inr (live', some extra, eq, len, counts, inside) ↦
      rw (eq, reserve_block)
        (elim (Bool-cases (length live' + 2 == p.n_slots)) [
          | inl full ↦ rw full (inr (inl (refl, ground arith, inside extra refl)))
          | inr space ↦ rw space (
              inr (
                inr (
                  record p { live = extra ∷ live'; stale = overwrite p.stale },
                  refl,
                  λ x. omega (arith, counts x),
                )))
        ])
]

bogus_lem :
    (e : RleEntry)
    → e.n_pages ≢ 0
    → e.base + e.n_pages * 4096 + 4096 < u64
    → let a = e.base + e.n_pages * 4096 in
      (covers a e ≡ true)
      × (split a e ≡ (e, some (record { base = a + 4096; n_pages = 4503599627370495 })))
unfolding covers split low_part high_part
bogus_lem e h w = (ground arith, ground (arith, low, high, next))
  where
    low : sub64 (e.base + e.n_pages * 4096) e.base / block_size ≡ e.n_pages
    low = omega arith

    high :
        sub64
            (add64 e.base (mul64 e.n_pages block_size))
            (add64 (e.base + e.n_pages * 4096) block_size)
          / block_size
        ≡ 4503599627370495
    high = omega arith

    next : add64 (e.base + e.n_pages * 4096) block_size ≡ e.base + e.n_pages * 4096 + 4096
    next = omega arith

split_first_end :
    (upper : List RleEntry) (e : RleEntry)
    → e.n_pages ≢ 0
    → e.base + e.n_pages * 4096 + 4096 < u64
    → let a = e.base + e.n_pages * 4096 in
      split_first a (upper ++ e ∷ [])
      ≡ some (upper ++ e ∷ [], some (record { base = a + 4096; n_pages = 4503599627370495 }))
unfolding split_first
split_first_end [] e h w = ground (arith, bogus_lem e h w)
split_first_end (u ∷ upper) e h w = ground (arith, split_first_end upper e h w)

-- Reserving the frame just past the end of the lowest entry takes nothing from any entry; it adds
-- an entry of 2 ^ 52 - 1 pages, all but one page of the whole 64-bit address space.
reserve_block_past_end :
    (upper : List RleEntry) (e : RleEntry) (stale : List RleEntry) (n : ℕ)
    → e.n_pages ≢ 0
    → e.base + e.n_pages * 4096 + 4096 < u64
    → length (upper ++ e ∷ []) + 2 < n
    → let a = e.base + e.n_pages * 4096 in
      let live = upper ++ e ∷ [] in
      reserve_block a (record { live = live; stale = stale; n_slots = n })
      ≡ ok (record {
        live = record { base = a + 4096; n_pages = 4503599627370495 } ∷ live;
        stale = overwrite stale;
        n_slots = n;
      })
unfolding reserve_block
reserve_block_past_end upper e stale n h w room =
    rw (split_first_end upper e h w, reserve_block) (ground arith)
