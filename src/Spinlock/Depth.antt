-- ===== src/Spinlock/Depth.antt =====
-- The lock of kernel/include/Sigma/arch/x86_64/misc/spinlock.h against the depth it counts.
use sigma.Base.{
  ◌-◌, ℕ, zero, suc, ◌+◌, ◌<◌, ◌≡◌, ◌≢◌, refl, arith, ◌==◌, if◌then◌else◌, Bool, true, false,
  Option, none, some, List, [], ◌∷◌, length, Outcome, ok, panic, ◌>>=◌, ap, ◌∙◌,
}
use sigma.Spinlock.{IrqLock, old_irq_flag, depth_of, lock, unlock, Call, locks, unlocks, run}

-- The lock taken `n` times by a CPU that took interrupts, or not, before the first.
abbrev pub lock_at : Bool → ℕ → IrqLock
lock_at before zero = record { count = 0; interrupts = before }
lock_at before (suc n) = record {
  count = if before then old_irq_flag + suc n else suc n;
  interrupts = false;
}

-- The depth after the calls; none if one of them gives back what is not taken.
unfoldable pub depth_after : List Call → ℕ → Option ℕ
depth_after [] n = some n
depth_after (locks ∷ cs) n = depth_after cs (suc n)
depth_after (unlocks ∷ cs) zero = none
depth_after (unlocks ∷ cs) (suc n) = depth_after cs n

-- A further level.
lock_deeper :
    (c : ℕ) (i : Bool)
    → depth_of c ≢ 0
    → lock (record { count = c; interrupts = i }) ≡ ok (record { count = c + 1; interrupts = i })
unfolding lock
lock_deeper c i h = rw (some_count, some_depth) refl
  where
    nonzero : c ≢ 0
    nonzero e = h (omega (arith, e))

    some_count : (c == 0) ≡ false
    some_count = ground (arith, nonzero)

    some_depth : (depth_of c == 0) ≡ false
    some_depth = ground (arith, h)

unlock_deeper :
    (c : ℕ) (i : Bool)
    → 1 < depth_of c
    → unlock (record { count = c; interrupts = i }) ≡ ok (record { count = c - 1; interrupts = i })
unfolding unlock
unlock_deeper c i h = rw (some_depth, not_last) refl
  where
    some_depth : (depth_of c == 0) ≡ false
    some_depth = ground (arith, h)

    not_last : (depth_of c == 1) ≡ false
    not_last = ground (arith, h)

lock-at : (b : Bool) (n : ℕ) → suc n < old_irq_flag → lock (lock_at b n) ≡ ok (lock_at b (suc n))
unfolding lock
lock-at true zero h = refl
lock-at false zero h = refl
lock-at true (suc n) h =
    lock_deeper (old_irq_flag + suc n) false (omega arith)
    ∙ ap (λ c. ok (record { count = c; interrupts = false })) (omega arith)
lock-at false (suc n) h =
    lock_deeper (suc n) false (omega arith)
    ∙ ap (λ c. ok (record { count = c; interrupts = false })) (omega arith)

unlock-at :
    (b : Bool) (n : ℕ) → suc n < old_irq_flag → unlock (lock_at b (suc n)) ≡ ok (lock_at b n)
unfolding unlock
unlock-at true zero h = refl
unlock-at false zero h = refl
unlock-at true (suc n) h =
    unlock_deeper (old_irq_flag + suc (suc n)) false (omega arith)
    ∙ ap (λ c. ok (record { count = c; interrupts = false })) (omega arith)
unlock-at false (suc n) h =
    unlock_deeper (suc (suc n)) false (omega arith)
    ∙ ap (λ c. ok (record { count = c; interrupts = false })) (omega arith)

unlock-zero : (b : Bool) → unlock (lock_at b 0) ≡ panic
unfolding unlock
unlock-zero b = refl

-- The lock at a depth, or a halt.
abbrev pub lock_of : Bool → Option ℕ → Outcome IrqLock
lock_of before none = panic
lock_of before (some n) = ok (lock_at before n)

-- For every sequence of calls of a CPU, as long as the count does not reach 2 ^ 63: the lock keeps
-- interrupts off at every depth above 0, gives them back as they were before the first call when
-- the last level is given back, and halts exactly when a level is given back that is not taken.
pub run-lock_at :
    (before : Bool) (cs : List Call) (n : ℕ)
    → n + length cs < old_irq_flag
    → run cs (lock_at before n) ≡ lock_of before (depth_after cs n)
unfolding run depth_after
run-lock_at before [] n h = refl
run-lock_at before (locks ∷ cs) n h =
    ap (λ z. z >>= run cs) (lock-at before n (omega arith))
    ∙ run-lock_at before cs (suc n) (omega arith)
run-lock_at before (unlocks ∷ cs) zero h = refl
run-lock_at before (unlocks ∷ cs) (suc n) h =
    ap (λ z. z >>= run cs) (unlock-at before n (omega arith))
    ∙ run-lock_at before cs n (omega arith)
