-- ===== src/Mm/Pmm/Tests.antt =====
-- The frame allocator of kernel/source/mm/pmm.cpp on small stacks.
use sigma.Base.{◌≡◌, ◌+◌, [], ◌∷◌, ok, refl, arith, inl, inr}
use sigma.Mm.Pmm.{Pmm, RleEntry, alloc_block, alloc_n_blocks, free_block, reserve_block}
use sigma.Mm.Pmm.Frames.{HasRoom, free_count, run_count}
use sigma.Mm.Pmm.Alloc.{Allocated, alloc_block-Allocated, alloc_n_blocks_exact, fits}
use sigma.Mm.Pmm.Free.{Freed, free_block-Freed}
use sigma.Mm.Pmm.Reserve.{Reserved, reserve_block-Reserved}

abbrev low_run : RleEntry
low_run = record { base = 1048576; n_pages = 3 }

abbrev high_run : RleEntry
high_run = record { base = 16777216; n_pages = 2 }

abbrev spent_run : RleEntry
spent_run = record { base = 33554432; n_pages = 0 }

-- A used-up entry on top of two runs.
abbrev two_runs : Pmm
two_runs = record { live = spent_run ∷ high_run ∷ low_run ∷ []; stale = []; n_slots = 8 }

two_runs-HasRoom : HasRoom two_runs
two_runs-HasRoom = omega arith

alloc_block_runs :
    alloc_block two_runs
    ≡ ok (
      16777216,
      record {
        live = record { base = 16781312; n_pages = 1 } ∷ low_run ∷ [];
        stale = spent_run ∷ [];
        n_slots = 8;
      },
    )
unfolding alloc_block
alloc_block_runs = refl

alloc_block-Allocated_example : Allocated two_runs (alloc_block two_runs)
alloc_block-Allocated_example = alloc_block-Allocated two_runs two_runs-HasRoom

alloc_three :
    alloc_n_blocks 3 two_runs
    ≡ ok (
      1048576,
      record two_runs { live = spent_run ∷ high_run ∷ record { base = 1060864; n_pages = 0 } ∷ [] },
    )
unfolding alloc_n_blocks
alloc_three = refl

one_fits : fits 3 two_runs.live ≡ 1
unfolding fits
one_fits = refl

alloc_n_blocks_exact_example :
    free_count two_runs.live 1052672
    ≡ run_count 1048576 3 1052672
      + free_count (spent_run ∷ high_run ∷ record { base = 1060864; n_pages = 0 } ∷ []) 1052672
alloc_n_blocks_exact_example =
    alloc_n_blocks_exact 3 two_runs 1052672 (omega arith) one_fits alloc_three

test_two_fit :
    alloc_n_blocks 2 two_runs
    ≡ ok (
      16777216,
      record two_runs {
        live =
            spent_run
            ∷ record { base = 16785408; n_pages = 0 }
            ∷ record { base = 1056768; n_pages = 1 }
            ∷ [];
      },
    )
unfolding alloc_n_blocks
test_two_fit = refl

free_block-Freed_example : Freed 1044480 two_runs (free_block 1044480 two_runs)
free_block-Freed_example =
    free_block-Freed 1044480 two_runs (omega arith) two_runs-HasRoom (omega arith)

abbrev middle_run : RleEntry
middle_run = record { base = 8388608; n_pages = 1 }

reserve_block-Reserved_example : Reserved 1052672 two_runs (reserve_block 1052672 two_runs)
reserve_block-Reserved_example =
    reserve_block-Reserved 1052672 two_runs refl (omega arith)
      (inl refl, (inr (omega arith), (inr (omega arith), tt)))
