-- ===== src/Proc/Lifecycle/Kill.antt =====
-- `kill` of kernel/source/proc/process.cpp: what it does to the thread and gives back to the frame
-- allocator. The memory of the SIMD area and of the kernel stacks is not modelled.
use sigma.Base.{ℕ, some, Outcome, ok, ◌>>=◌}
use sigma.Mm.Pmm.{Pmm}
use sigma.Paging.{Store}
use sigma.Paging.Clean.{deinit, init}
use sigma.Proc.Thread.{Thread}
use sigma.Proc.Lifecycle.{free_frames, retired}

-- The frames of the thread, then its address space, which `deinit` gives up and `init` makes anew.
unfoldable pub kill : ℕ → Thread → Store → Outcome (Thread × Store)
unfolding free_frames deinit init retired
kill simd t s = free_frames t.frames s.pmm >>= λ m.
    (deinit (some t.vmm) (record s { pmm = m }) >>= init (some t.vmm)) >>= λ r.
    ok (retired simd r.0 t, r.1)
