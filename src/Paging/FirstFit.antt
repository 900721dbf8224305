-- ===== src/Paging/FirstFit.antt =====
-- What the search of kernel/source/arch/x86_64/paging.cpp for free addresses gives.
use sigma.Base.{
  ℕ_discrete, dec_lt, ltb, ℕ, zero, suc, ◌+◌, ◌-◌, ◌*◌, ◌<◌, ◌≤◌, ◌≡◌, ◌≢◌, ◌⊎◌, inl, inr, arith,
  ◌==◌, if◌then◌else◌, Bool, true, false, Bool-cases, Option, some, ap, sym, ◌∙◌, subst, u64, add64,
  block_size, minus_one,
}
use sigma.Paging.{Store, get_phys}
use sigma.Paging.Search.{div_ceil, search_from, get_free_range}

-- The pages of the range from `base` to `end` are numbered from 0; the search wants `needed` of them.
module _ (free : ℕ → Bool) (base end needed : ℕ) where
  abbrev pub page : ℕ → ℕ
  page k = base + 4096 * k

  abbrev pub AllFree : ℕ → ℕ → Type 0
  AllFree j n = (i : ℕ) → i < n → free (page (j + i)) ≡ true

  -- No full range within the first `k` pages.
  abbrev pub NoneWithin : ℕ → Type 0
  NoneWithin k = (w : ℕ) → w + needed ≤ k → ¬ AllFree w needed

  -- The page before `k`, if any, is taken.
  abbrev pub Edge : ℕ → Type 0
  Edge k = (i : ℕ) → suc i ≡ k → free (page i) ≡ false

  -- What the search gives: the first full range, or else the free pages at the end of the range,
  -- which do not reach further down, or else minus one, and the last page, if any, is taken.
  pub data Searched : Option ℕ → Type 0 where
    full :
        (j : ℕ)
        → AllFree j needed
        → page (j + needed) < end + 4096
        → ((w : ℕ) → w < j → ¬ AllFree w needed)
        → Searched (some (page j))
    short :
        (j n : ℕ)
        → AllFree j n
        → n ≢ 0
        → n < needed
        → end ≤ page (j + n)
        → page (j + n) < end + 4096
        → Edge j
        → ((w : ℕ) → page (w + needed) < end + 4096 → ¬ AllFree w needed)
        → Searched (some (page j))
    nothing :
        (n : ℕ)
        → end ≤ page n
        → page n < end + 4096
        → Edge n
        → ((w : ℕ) → page (w + needed) < end + 4096 → ¬ AllFree w needed)
        → Searched (some minus_one)

  -- What the loop knows when it comes to the page `k`.
  pub data Seen (k : ℕ) : ℕ → ℕ → Type 0 where
    run :
        (j count : ℕ)
        → j + count ≡ k
        → count ≢ 0
        → AllFree j count
        → count < needed
        → Edge j
        → NoneWithin k
        → Seen k (page j) count
    no_run : Edge k → NoneWithin k → Seen k minus_one 0

  module _ (some_needed : needed ≢ 0) (bound : end + 4096 ≤ u64) (start : base < end + 4096) where
    -- A window that reaches back over the page before `j` is not free.
    before : (j w : ℕ) → Edge j → w < j → j ≤ w + needed → ¬ AllFree w needed
    before j w edge lt le all = clash (
        sym (edge (j - 1) (omega arith))
        ∙ sym (ap (λ i. free (page i)) same)
        ∙ all (j - 1 - w) (omega arith))
      where
        same : w + (j - 1 - w) ≡ j - 1
        same = omega arith

        clash : false ≡ true → ⊥
        clash e = cc

    -- One free page more after the `count` from `j` on.
    run_on :
        (k j count : ℕ)
        → j + count ≡ k
        → AllFree j count
        → count < needed
        → Edge j
        → NoneWithin k
        → free (page k) ≡ true
        → page k < end
        → Seen (suc k) (page j) (suc count) ⊎ ((suc count ≡ needed) × Searched (some (page j)))
    run_on k j count e all few edge none_yet here inside = elim (ℕ_discrete (suc count) needed) [
      | yes same ↦ inr (same, full j (λ i lt. one_more i (omega arith)) (omega arith) far)
      | no ne ↦
          inl (
            run j (suc count) (omega arith) (omega arith) one_more (omega arith) edge
              (none_more ne))
    ]
      where
        one_more : AllFree j (suc count)
        one_more i lt = elim (ℕ_discrete i count) [
          | yes z ↦ ap (λ n. free (page n)) (at_end i z) ∙ here
          | no ne ↦ all i (omega arith)
        ]
          where
            at_end : (i : ℕ) → i ≡ count → j + i ≡ k
            at_end i z = omega arith

        far : (w : ℕ) → w < j → ¬ AllFree w needed
        far w lt all' = elim (dec_lt (w + needed) j) [
          | no near ↦ before j w edge lt (omega arith) all'
          | yes away ↦ none_yet w (omega arith) all'
        ]

        none_more : suc count ≢ needed → NoneWithin (suc k)
        none_more ne w within all' = far w (omega arith) all'

    -- A page that is taken.
    break_off : (k : ℕ) → free (page k) ≡ false → NoneWithin k → Seen (suc k) minus_one 0
    break_off k here none_yet = no_run edge (λ w within all. elim (dec_lt k (w + needed)) [
      | yes over ↦ before (suc k) w edge (omega arith) (omega arith) all
      | no under ↦ none_yet w (omega arith) all
    ])
      where
        edge : Edge (suc k)
        edge i e = ap (λ z. free (page z)) (same_page i e) ∙ here
          where
            same_page : (i : ℕ) → suc i ≡ suc k → i ≡ k
            same_page i e = omega arith

    abbrev taken_at : ℕ → ℕ → ℕ
    taken_at k current = if current == minus_one then page k else current

    named : (k j : ℕ) → page j < end → taken_at k (page j) ≡ page j
    named k j inside = ground arith

    free_step :
        (k current count : ℕ)
        → Seen k current count
        → free (page k) ≡ true
        → page k < end
        → Seen (suc k) (taken_at k current) (suc count)
          ⊎ ((suc count ≡ needed) × Searched (some (taken_at k current)))
    free_step k _ _ (run j count e pos all few edge none_yet) here inside =
        subst (λ z. Seen (suc k) z (suc count) ⊎ ((suc count ≡ needed) × Searched (some z)))
          (sym (named k j (omega arith))) (run_on k j count e all few edge none_yet here inside)
    free_step k _ _ (no_run edge none_yet) here inside =
        run_on k k 0 (omega arith) (λ i lt. absurd (omega arith)) (omega arith) edge none_yet here
          inside

    none_yet_of : (k current count : ℕ) → Seen k current count → NoneWithin k
    none_yet_of k _ _ (run j count e pos all few edge none_yet) = none_yet
    none_yet_of k _ _ (no_run edge none_yet) = none_yet

    fewer : {k current count : ℕ} → Seen k current count → count < needed
    fewer (run j count e pos all few edge none_yet) = few
    fewer (no_run edge none_yet) = omega arith

    at_end :
        (k current count : ℕ)
        → Seen k current count
        → end ≤ page k
        → page k < end + 4096
        → Searched (some current)
    at_end k _ _ (run j count e pos all few edge none_yet) over near =
        short j count all pos few (omega arith) (omega arith) edge
          (λ w within. none_yet w (omega arith))
    at_end k _ _ (no_run edge none_yet) over near =
        nothing k over near edge (λ w within. none_yet w (omega arith))

    pub searched :
        (fuel k current count : ℕ)
        → Seen k current count
        → page k < end + 4096
        → end + 4096 ≤ page (k + fuel)
        → Searched (search_from free fuel (page k) end needed current count)
    unfolding search_from
    searched zero k current count seen near enough = absurd (omega arith)
    searched (suc fuel) k current count seen near enough = elim (Bool-cases (ltb (page k) end)) [
      | inr over ↦ rw over (at_end k current count seen (ground arith) near)
      | inl within ↦ elim (Bool-cases (free (page k))) [
        | inr taken ↦
            rw (within, taken)
              (subst (λ z. Searched (search_from free fuel z end needed minus_one 0))
                (sym (next_page (inside within)))
                (searched fuel (suc k) minus_one 0
                  (break_off k taken (none_yet_of k current count seen))
                  (omega (arith, inside within)) (omega (arith, enough))))
        | inl here ↦
            rw (within, here)
              (goes_on (free_step k current count seen here (inside within)) (
                subst
                  (λ z.
                    Seen (suc k) (taken_at k current) (suc count)
                    → Searched
                        (search_from free fuel z end needed (taken_at k current) (suc count)))
                  (sym (next_page (inside within)))
                  (λ seen'.
                    searched fuel (suc k) (taken_at k current) (suc count) seen'
                      (omega (arith, inside within)) (omega (arith, enough)))))
      ]
    ]
      where
        goes_on :
            {rest : Option ℕ}
            → (Seen (suc k) (taken_at k current) (suc count)
                ⊎ ((suc count ≡ needed) × Searched (some (taken_at k current))))
            → (Seen (suc k) (taken_at k current) (suc count) → Searched rest)
            → Searched (if suc count == needed then some (taken_at k current) else rest)
        goes_on (inr (e, z)) h = rw (is_needed e) z
          where
            is_needed : suc count ≡ needed → (suc count == needed) ≡ true
            is_needed e = ground arith
        goes_on (inl seen') h = rw (not_needed seen') (h seen')
          where
            not_needed :
                Seen (suc k) (taken_at k current) (suc count) → (suc count == needed) ≡ false
            not_needed z = ground (arith, fewer z)

        inside : ltb (page k) end ≡ true → page k < end
        inside h = ground arith

        next_page : page k < end → add64 (page k) block_size ≡ page (suc k)
        next_page h = omega arith

-- For a size that is not 0 and a range that ends a page below 2 ^ 64, with fuel for each page of the
-- range, `get_free_range` ends: with the first addresses of the range whose pages, as many as the
-- size needs, are all unmapped; or, if there are none, with the start of all the unmapped pages at
-- the end of the range, fewer than asked for; or, if the last page is mapped or the range is empty,
-- with minus one.
pub get_free_range-Searched :
    (fuel root base end size : ℕ) (s : Store)
    → size ≢ 0
    → size + 4095 < u64
    → end + 4096 ≤ u64
    → base < end + 4096
    → end + 4096 ≤ base + 4096 * fuel
    → Searched
        (λ ptr. get_phys root ptr s == minus_one)
        base
        end
        (div_ceil size block_size)
        (get_free_range fuel root base end size s)
unfolding get_free_range div_ceil
get_free_range-Searched fuel root base end size s some_size small bound start enough =
    subst (λ z. Searched free base end needed (search_from free fuel z end needed minus_one 0))
      first
      (searched free base end needed (omega arith) bound start fuel 0 minus_one 0
        (no_run (λ i e. absurd (omega arith)) (λ w within all. omega arith)) (omega arith)
        (omega arith))
  where
    free : ℕ → Bool
    free ptr = get_phys root ptr s == minus_one

    needed : ℕ
    needed = div_ceil size block_size

    first : base + 4096 * 0 ≡ base
    first = omega arith
