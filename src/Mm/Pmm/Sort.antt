-- ===== src/Mm/Pmm/Sort.antt =====
-- `sort_stack` and `sorted_insert` of kernel/source/mm/pmm.cpp.
use mathlib.Core.List.Perm
use sigma.Base.{
  ℕ, suc, ◌+◌, ◌≤◌, ◌<◌, ◌≡◌, ◌≢◌, refl, inl, inr, List, [], ◌∷◌, arith, ◌==◌, ltb, if◌then◌else◌,
  length, Outcome, ok, ◌>>=◌, Bool-cases, Perm,
}
use sigma.Mm.Pmm.{
  Pmm, RleEntry, push, overwrite, at_pointer, sorted_insert_from, sorted_insert, sort_from,
  sort_stack,
}
use sigma.Mm.Pmm.Frames.{HasRoom}

-- The entries that have pages.
pub with_pages : List RleEntry → List RleEntry
with_pages [] = []
with_pages (e ∷ es) = if e.n_pages == 0 then with_pages es else e ∷ with_pages es

abbrev Holds : ℕ → ℕ → List RleEntry → Outcome Pmm → Type 0
Holds n k es r = (q : Pmm) × (r ≡ ok q) × (q.n_slots ≡ n) × (length q.live ≤ k) × Perm q.live es

push_lem :
    (e : RleEntry) (p : Pmm)
    → length p.live + 3 ≤ p.n_slots
    → push e p ≡ ok (record p { live = e ∷ p.live; stale = overwrite p.stale })
unfolding push
push_lem e p h = ground arith

push-Holds :
    (n k : ℕ) (e : RleEntry) (es : List RleEntry) {r : Outcome Pmm}
    → k + 3 ≤ n
    → Holds n k es r
    → Holds n (suc k) (e ∷ es) (r >>= push e)
push-Holds n k e es h (q, eq, slots, len, perm) =
    rw eq (_, push_lem e q (omega arith), slots, omega arith, Perm.cons e perm)

sorted_insert_from-Holds :
    (n : ℕ) (x : RleEntry) (live stale : List RleEntry)
    → length live + 3 ≤ n
    → Holds n (suc (length live)) (x ∷ live) (sorted_insert_from n x live stale)
unfolding sorted_insert_from
sorted_insert_from-Holds n x [] stale h = (
  _,
  push_lem x (record { live = []; stale = stale; n_slots = n }) h,
  refl,
  omega arith,
  Perm.refl _,
)
sorted_insert_from-Holds n x (temp ∷ live) stale h =
    elim (Bool-cases (ltb x.base (at_pointer stale).base)) [
      | inl here ↦ rw here (
        record { live = x ∷ temp ∷ live; stale = overwrite stale; n_slots = n },
        push_lem x (record { live = temp ∷ live; stale = stale; n_slots = n }) h,
        refl,
        omega arith,
        Perm.refl _,
      )
      | inr below ↦ rw below (
          swapped (
            push-Holds n (suc (length live)) temp (x ∷ live) (omega arith)
              (sorted_insert_from-Holds n x live (temp ∷ stale) (omega arith))))
    ]
  where
    swapped :
        {r : Outcome Pmm}
        → Holds n (suc (suc (length live))) (temp ∷ x ∷ live) r
        → Holds n (suc (suc (length live))) (x ∷ temp ∷ live) r
    swapped (q, eq, slots, len, perm) = (q, eq, slots, len, Perm.trans perm (Perm.swap x temp live))

sort_from-Holds :
    (n : ℕ) (live stale : List RleEntry)
    → length live + 2 ≤ n
    → Holds n (length live) (with_pages live) (sort_from n live stale)
unfolding sort_from with_pages sorted_insert
sort_from-Holds n [] stale h = (_, refl, refl, omega arith, Perm.refl _)
sort_from-Holds n (e ∷ live) stale h = add (sort_from-Holds n live (e ∷ stale) (omega arith))
  where
    add :
        {r : Outcome Pmm}
        → Holds n (length live) (with_pages live) r
        → Holds n
            (suc (length live))
            (if e.n_pages == 0 then with_pages live else e ∷ with_pages live)
            (r >>= λ p. if e.n_pages == 0 then ok p else sorted_insert e p)
    add (q, eq, slots, len, perm) = rw eq (elim (Bool-cases (e.n_pages == 0)) [
      | inl empty ↦ rw empty (q, refl, slots, omega arith, perm)
      | inr pages ↦
          let (q', eq', slots', len', perm') =
            sorted_insert_from-Holds q.n_slots e q.live q.stale (omega arith) in
          rw pages (q', eq', omega arith, omega arith, Perm.trans perm' (Perm.cons e perm))
    ])

-- `sort_stack` does not halt, keeps every entry that has pages and drops the others; it never uses
-- more slots than before.
sort_stack-perm :
    (p : Pmm)
    → HasRoom p
    → (q : Pmm) × (sort_stack p ≡ ok q)
      × HasRoom q
      × (q.n_slots ≡ p.n_slots)
      × Perm q.live (with_pages p.live)
unfolding sort_stack
sort_stack-perm p h =
    let (q, eq, slots, len, perm) = sort_from-Holds p.n_slots p.live p.stale h.room in
    (q, eq, omega arith, slots, perm)

-- It does not sort: three entries pushed in falling order of address come out with the lowest one
-- between the other two.
sort_stack_unsorted :
    (a b c : RleEntry) (stale : List RleEntry) (n : ℕ)
    → 4 < n
    → a.n_pages ≢ 0
    → b.n_pages ≢ 0
    → c.n_pages ≢ 0
    → c.base < b.base
    → b.base < a.base
    → sort_stack (record { live = c ∷ b ∷ a ∷ []; stale = stale; n_slots = n })
      ≡ ok (record { live = a ∷ c ∷ b ∷ []; stale = stale; n_slots = n })
unfolding sort_stack sorted_insert sort_from sorted_insert_from push
sort_stack_unsorted a b c stale n h na nb nc cb ba = ground arith
