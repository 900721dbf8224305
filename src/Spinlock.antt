-- ===== src/Spinlock.antt =====
-- `irq_lock` of kernel/include/Sigma/arch/x86_64/misc/spinlock.h: the interrupts of one CPU held off,
-- with a count of how deep. The spin lock itself, `mutex`, is assembly.
pub mod Depth
mod Tests
use sigma.Base.{
  ℕ, ◌+◌, ◌-◌, ◌*◌, ◌%◌, ◌==◌, ltb, if◌then◌else◌, Bool, true, false, not, List, [], ◌∷◌, Outcome,
  ok, panic, ◌>>=◌, assert, ◌>>◌,
}

abbrev pub old_irq_flag : ℕ
old_irq_flag = 9223372036854775808

-- `_count`, and whether the CPU takes interrupts: the bit 9 of rflags.
pub record IrqLock : Type 0 where
  pub count : ℕ
  pub interrupts : Bool

-- `c & ~old_irq_flag`.
abbrev pub depth_of : ℕ → ℕ
depth_of c = c % old_irq_flag

unfoldable pub lock : IrqLock → Outcome IrqLock
lock l =
    if l.count == 0
    then ok (
        if l.interrupts
        then record { count = old_irq_flag + 1; interrupts = false }
        else record { count = 1; interrupts = false })
    else (assert (not (depth_of l.count == 0)) >> ok (record l { count = l.count + 1 }))

unfoldable pub unlock : IrqLock → Outcome IrqLock
unlock l =
    assert (not (depth_of l.count == 0))
    >> (if depth_of l.count == 1
        then ok (record {
          count = 0;
          interrupts = if ltb l.count old_irq_flag then l.interrupts else true;
        })
        else ok (record l { count = l.count - 1 }))

-- What a CPU does with its lock.
pub data Call : Type 0 where
  locks unlocks : Call

unfoldable pub run : List Call → IrqLock → Outcome IrqLock
unfolding lock unlock
run [] l = ok l
run (locks ∷ cs) l = lock l >>= run cs
run (unlocks ∷ cs) l = unlock l >>= run cs
