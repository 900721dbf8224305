-- ===== src/Mm/Pmm.antt =====
-- kernel/source/mm/pmm.cpp: the physical frames, as a stack of runs (base, n_pages) that lies in
-- raw memory between `stack_base` and `stack_top`. `live` holds the entries below `stack_pointer`,
-- the topmost first; `stale` holds the slots from `stack_pointer` up, which the code never clears
-- and which `sort_stack` reads. `n_slots` is `stack_top - stack_base`.
-- The mutex makes each routine one step. A slot past the reserved memory reads as zeros.
pub mod Frames
pub mod Alloc
pub mod Free
pub mod Sort
pub mod Reserve
pub mod Init
mod Tests
use sigma.Base.{
  ℕ, ◌+◌, ◌-◌, ◌*◌, ◌/◌, List, [], ◌∷◌, Outcome, ok, panic, ◌>>=◌, Option, none, some, ltb, leb,
  ◌==◌, ◌&&◌, not, if◌then◌else◌, length, add64, sub64, mul64, block_size, true, false, Bool,
}

pub record RleEntry : Type 0 where
  pub base : ℕ
  pub n_pages : ℕ

pub record Pmm : Type 0 where
  pub live : List RleEntry
  pub stale : List RleEntry
  pub n_slots : ℕ

unfoldable pub pop_from : ℕ → List RleEntry → List RleEntry → Outcome (RleEntry × Pmm)
pop_from n [] stale = panic
pop_from n (e ∷ live) stale = ok (e, record { live = live; stale = e ∷ stale; n_slots = n })

unfoldable pub pop : Pmm → Outcome (RleEntry × Pmm)
unfolding pop_from
pop p = pop_from p.n_slots p.live p.stale

abbrev pub overwrite : List RleEntry → List RleEntry
overwrite [] = []
overwrite (e ∷ es) = es

-- The guard compares with `==`: one slot below the top stays unused.
unfoldable pub push : RleEntry → Pmm → Outcome Pmm
push e p =
    if length p.live + 2 == p.n_slots
    then panic
    else ok (record p { live = e ∷ p.live; stale = overwrite p.stale })

-- `ent = pop(); while(ent.n_pages == 0) ent = pop();`
unfoldable pub pop_nonempty : ℕ → List RleEntry → List RleEntry → Outcome (RleEntry × Pmm)
pop_nonempty n [] stale = panic
pop_nonempty n (e ∷ live) stale =
    let rest = pop_nonempty n live (e ∷ stale) in
    if e.n_pages == 0 then rest else ok (e, record { live = live; stale = e ∷ stale; n_slots = n })

-- What is left of an entry after its first frame is taken goes back, unless it is empty.
unfoldable pub put_back : RleEntry → Pmm → Outcome Pmm
unfolding push
put_back e p = if e.n_pages == 0 then ok p else push e p

unfoldable pub alloc_block : Pmm → Outcome (ℕ × Pmm)
unfolding pop_nonempty put_back
alloc_block p = do
  popped ← pop_nonempty p.n_slots p.live p.stale
  let ent = popped.0
  rest ← put_back (record { base = add64 ent.base block_size; n_pages = ent.n_pages - 1 }) popped.1
  ok (ent.base, rest)

-- The loop of `alloc_n_blocks` runs upwards from `stack_base` and has no `break`: every entry that
-- is big enough is cut, and the last one's base is kept.
unfoldable pub cut_all : ℕ → List RleEntry → ℕ × List RleEntry
cut_all n [] = (0, [])
cut_all n (e ∷ lower) =
    let (base, rest) = cut_all n lower in
    if leb n e.n_pages
    then (
      e.base,
      record { base = add64 e.base (mul64 block_size n); n_pages = e.n_pages - n } ∷ rest,
    )
    else (base, e ∷ rest)

unfoldable pub alloc_n_blocks : ℕ → Pmm → Outcome (ℕ × Pmm)
unfolding cut_all
alloc_n_blocks n p =
    let (base, live) = cut_all n p.live in
    if base == 0 then panic else ok (base, record p { live = live })

-- One entry: just under it, just above it, or neither.
unfoldable pub join : ℕ → RleEntry → Option RleEntry
join addr e =
    if add64 addr block_size == e.base
    then some (record { base = sub64 e.base block_size; n_pages = add64 e.n_pages 1 })
    else if add64 e.base (mul64 e.n_pages block_size) == addr
    then some (record e { n_pages = add64 e.n_pages 1 })
    else none

-- The lowest entry that takes the frame.
unfoldable pub join_first : ℕ → List RleEntry → Option (List RleEntry)
join_first addr [] = none
join_first addr (e ∷ lower) = elim (join_first addr lower) [
  | some rest ↦ some (e ∷ rest)
  | none ↦ elim (join addr e) [ some e' ↦ some (e' ∷ lower) | none ↦ none ]
]

unfoldable pub free_block : ℕ → Pmm → Outcome Pmm
unfolding push
free_block addr p = elim (join_first addr p.live) [
  | some live ↦ ok (record p { live = live })
  | none ↦ push (record { base = addr; n_pages = 1 }) p
]

-- `*stack_pointer`, the first slot above the stack.
abbrev pub at_pointer : List RleEntry → RleEntry
at_pointer [] = record { base = 0; n_pages = 0 }
at_pointer (e ∷ es) = e

-- Recursion on the live entries: each round pops one, inserts below it and pushes it again.
unfoldable pub sorted_insert_from : ℕ → RleEntry → List RleEntry → List RleEntry → Outcome Pmm
unfolding push
sorted_insert_from n x [] stale = push x (record { live = []; stale = stale; n_slots = n })
sorted_insert_from n x (temp ∷ live) stale =
    let below = sorted_insert_from n x live (temp ∷ stale) in
    let here = push x (record { live = temp ∷ live; stale = stale; n_slots = n }) in
    if ltb x.base (at_pointer stale).base then here else (below >>= push temp)

unfoldable pub sorted_insert : RleEntry → Pmm → Outcome Pmm
unfolding sorted_insert_from
sorted_insert x p = sorted_insert_from p.n_slots x p.live p.stale

unfoldable pub sort_from : ℕ → List RleEntry → List RleEntry → Outcome Pmm
unfolding sorted_insert
sort_from n [] stale = ok (record { live = []; stale = stale; n_slots = n })
sort_from n (entry ∷ live) stale = sort_from n live (entry ∷ stale) >>= λ p.
    if entry.n_pages == 0 then ok p else sorted_insert entry p

unfoldable pub sort_stack : Pmm → Outcome Pmm
unfolding sort_from
sort_stack p = sort_from p.n_slots p.live p.stale

-- The test of `reserve_block`, which lets the end of an entry pass for one of its frames.
unfoldable pub covers : ℕ → RleEntry → Bool
covers addr e =
    leb e.base addr && leb addr (add64 e.base (mul64 e.n_pages block_size)) && not (e.n_pages == 0)

unfoldable pub low_part : ℕ → RleEntry → RleEntry
low_part addr e = record { base = e.base; n_pages = sub64 addr e.base / block_size }

unfoldable pub high_part : ℕ → RleEntry → RleEntry
high_part addr e = record {
  base = add64 addr block_size;
  n_pages = sub64 (add64 e.base (mul64 e.n_pages block_size)) (add64 addr block_size) / block_size;
}

-- The entry's slot gets the first part that has pages; the other part, if any, is to be pushed.
unfoldable pub split : ℕ → RleEntry → RleEntry × Option RleEntry
unfolding low_part high_part
split addr e = if (low_part addr e).n_pages == 0 then (high_part addr e, none) else (
  low_part addr e,
  (if (high_part addr e).n_pages == 0 then none else some (high_part addr e)),
)

-- The lowest entry that covers the address is split; `none` if there is none.
unfoldable pub split_first : ℕ → List RleEntry → Option (List RleEntry × Option RleEntry)
split_first addr [] = none
split_first addr (e ∷ lower) = elim (split_first addr lower) [
  | some (rest, extra) ↦ some (e ∷ rest, extra)
  | none ↦
      if covers addr e then (let (e', extra) = split addr e in some (e' ∷ lower, extra)) else none
]

unfoldable pub reserve_block : ℕ → Pmm → Outcome Pmm
unfolding push
reserve_block addr p = elim (split_first addr p.live) [
  | none ↦ ok p
  | some (live, none) ↦ ok (record p { live = live })
  | some (live, some extra) ↦ push extra (record p { live = live })
]
