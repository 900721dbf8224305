-- ===== src/Proc/Lifecycle/Tests.antt =====
-- Threads made, killed and blocked, on small kernels.
use sigma.Base.{
  ◌≢◌, true, ℕ, ◌≡◌, [], ◌∷◌, ok, some, arith, ◌==◌, if◌then◌else◌, ap, inr, suc, zero,
}
use sigma.Proc.Thread.{Thread, Machine, Regs, running, silent, driver}
use sigma.Proc.Scheduler.{Kernel, timer_handler, resumes}
use sigma.Proc.Scheduler.Exclusive.{runs, state_of, IsExclusive}
use sigma.Types.Queue
use sigma.Proc.Lifecycle.{
  create_thread_int, create_blocked_thread, new_thread, retired, mark_blocked,
}
use sigma.Proc.Lifecycle.Fresh.{
  IsFresh, create_blocked_thread-IsFresh, create_blocked_thread-IsExclusive,
}
use sigma.Paging.{clear_table, Store}
use sigma.Paging.Tests.{one_page}
use sigma.Proc.Lifecycle.Window.{busy_and_idle, block_window}

abbrev one_frame : Thread
one_frame = record (new_thread 0 4) { frames = 0xa000 ∷ []; state = running; vmm = 4096 }

-- What that leaves: a new upper table at 4096, which was freed twice.
abbrev after_kill : Store
after_kill = clear_table 4096 (record one_page {
  pmm = record {
    live =
        record { base = 8192; n_pages = 3 }
        ∷ record { base = 40960; n_pages = 1 }
        ∷ record { base = 4096; n_pages = 7 }
        ∷ [];
    stale = [];
    n_slots = 100;
  };
})

abbrev next_user : Thread
next_user = create_thread_int 7 driver silent (retired 7 4096 one_frame)

abbrev registers : Regs
registers = record {
  rax = 1;
  rbx = 2;
  rcx = 3;
  rdx = 4;
  rdi = 5;
  rsi = 6;
  rbp = 7;
  rsp = 8;
  r8 = 9;
  r9 = 10;
  r10 = 11;
  r11 = 12;
  r12 = 13;
  r13 = 14;
  r14 = 15;
  r15 = 16;
  cs = 8;
  ss = 0;
  ds = 0;
  rip = 0xffffffff80001234;
  rflags = 0x202;
}

abbrev machine : Machine
machine = record { regs = registers; cr3 = 0x1000; fs_base = 0; simd = 0 }

block_window_example :
    (k : Kernel) × (m' : Machine) × (timer_handler 11 machine
        (mark_blocked 0 6 (busy_and_idle 10 11 one_frame (λ e. if e == 6 then 1 else 0)))
      ≡ ok (resumes k m'))
    × (runs k 0 ≡ some 0)
    × (runs k 1 ≡ some 0)
    × (m'.regs.rip ≡ one_frame.context.rip)
block_window_example =
    block_window 10 11 6 machine one_frame (λ e. if e == 6 then 1 else 0) (omega arith)
      (omega arith)

-- Thread 0 runs on both CPUs, being SILENT; thread 1 is DISABLED.
abbrev after_boot : Kernel
after_boot = record {
  threads = record (new_thread 0 0) { state = silent } ∷ new_thread 0 1 ∷ [];
  cpus =
      record { lapic_id = 10; enabled = true; current_thread = some 0 }
      ∷ record { lapic_id = 11; enabled = true; current_thread = some 0 }
      ∷ [];
  scheduling_queue = Queue.empty;
  next_tid = 2;
  events = λ _. 0;
}

only_the_first : (c i : ℕ) → runs after_boot c ≡ some i → i ≡ 0
only_the_first zero i r = ground arith
only_the_first (suc zero) i r = ground arith
only_the_first (suc (suc c)) i r = absurd (cc)

after_boot-IsExclusive : IsExclusive after_boot
after_boot-IsExclusive = record {
  busy = λ c i r. inr (ap (state_of after_boot) (only_the_first c i r));
  alone = λ c d i ne r s. ap (state_of after_boot) (only_the_first c i r);
}

create_blocked_thread-IsExclusive_example :
    ((c : ℕ) → runs after_boot c ≢ some (create_blocked_thread 7 driver after_boot).0)
    × ((c : ℕ)
        → runs (create_blocked_thread 7 driver after_boot).1 c
          ≢ some (create_blocked_thread 7 driver after_boot).0)
    × IsExclusive (create_blocked_thread 7 driver after_boot).1
create_blocked_thread-IsExclusive_example =
    create_blocked_thread-IsExclusive 7 driver after_boot after_boot-IsExclusive

create_blocked_thread-IsFresh_example :
    IsFresh 7 driver after_boot
      (create_blocked_thread 7 driver after_boot).0
      (create_blocked_thread 7 driver after_boot).1
create_blocked_thread-IsFresh_example = create_blocked_thread-IsFresh 7 driver after_boot
