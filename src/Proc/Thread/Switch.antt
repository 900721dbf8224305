-- ===== src/Proc/Thread/Switch.antt =====
-- Saving a thread's context and switching back to it, kernel/source/proc/process.cpp.
use sigma.Base.{some, none, ◌≡◌, ◌≢◌, ◌<◌, arith}
use sigma.Proc.Thread.{Thread, Machine, save_context, switch_context}

-- The segment selectors have 16 bits, as in hardware.
abbrev pub HasSelectors : Machine → Type 0
HasSelectors m = (m.regs.cs < 65536) × (m.regs.ss < 65536) × (m.regs.ds < 65536)

-- A thread whose selectors have 16 bits, that is switched out and later switched in again, from
-- whatever other thread in another address space, finds every register, its thread-local base, its
-- SIMD state and the upper table of its address space as it left them.
pub switch_back :
    (m other : Machine) (t u : Thread)
    → HasSelectors m
    → m.cr3 ≡ t.vmm
    → u.context.cr3 ≢ m.cr3
    → switch_context other (save_context m t) (some u) ≡ m
unfolding switch_context save_context
switch_back m other t u (c, s, d) own differ = ground (arith, c, s, d)

-- So it does from an idle CPU, which has no thread to switch from.
pub switch_back_idle :
    (m other : Machine) (t : Thread)
    → HasSelectors m
    → m.cr3 ≡ t.vmm
    → switch_context other (save_context m t) none ≡ m
unfolding switch_context save_context
switch_back_idle m other t (c, s, d) own = ground (arith, c, s, d)
