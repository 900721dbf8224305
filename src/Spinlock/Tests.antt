-- ===== src/Spinlock/Tests.antt =====
-- Two levels taken and given back, for kernel/include/Sigma/arch/x86_64/misc/spinlock.h.
use sigma.Base.{some, ◌≡◌, refl, arith, true, List, [], ◌∷◌}
use sigma.Spinlock.{Call, locks, unlocks, run}
use sigma.Spinlock.Depth.{lock_at, lock_of, depth_after, run-lock_at}

abbrev twice : List Call
twice = locks ∷ locks ∷ unlocks ∷ unlocks ∷ []

test_balanced : depth_after twice 0 ≡ some 0
unfolding depth_after
test_balanced = refl

run-lock_at_example : run twice (lock_at true 0) ≡ lock_of true (depth_after twice 0)
run-lock_at_example = run-lock_at true twice 0 (omega arith)
