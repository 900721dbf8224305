-- ===== src/Proc/Syscall/Tests.antt =====
-- A driver's read of a file, and a thread that yields.
use sigma.Base.{◌≡◌, ok}
use sigma.Proc.Thread.{Thread, Machine, Regs, driver}
use sigma.Proc.Lifecycle.{new_thread}
use sigma.Proc.Scheduler.{Kernel, resumes}
use sigma.Proc.Syscall.{syscall_handler, syscall_yield}
use sigma.Proc.Syscall.Guards.{Guarded, syscall_handler-Guarded}
use sigma.Proc.Syscall.Yield.{two_threads, yield_clobbers}

-- initrd_read of 16 bytes.
abbrev file_read : Regs
file_read = record {
  rax = 9;
  rbx = 0x400000;
  rcx = 0x500000;
  rdx = 0;
  rdi = 0;
  rsi = 16;
  rbp = 0;
  rsp = 0;
  r8 = 0;
  r9 = 0;
  r10 = 0;
  r11 = 0;
  r12 = 0;
  r13 = 0;
  r14 = 0;
  r15 = 0;
  cs = 0x13;
  ss = 0x1b;
  ds = 0x1b;
  rip = 0x401000;
  rflags = 0x202;
}

syscall_handler-Guarded_example : Guarded driver (syscall_handler driver file_read)
syscall_handler-Guarded_example = syscall_handler-Guarded driver file_read

abbrev caller : Machine
caller = record { regs = record file_read { rax = 4 }; cr3 = 0x2000; fs_base = 0; simd = 0 }

-- The other thread was switched out with 77 in rax.
abbrev preempted : Thread
preempted = record (new_thread 0 0) {
  context = record ((new_thread 0 0).context) { rax = 77; rip = 0x402000 };
}

yield_clobbers_example :
    (k : Kernel) × (m' : Machine) × (syscall_yield 10 caller
        (two_threads 10 preempted (new_thread 0 1) (λ _. 0))
      ≡ ok (resumes k m'))
    × (m'.regs.rip ≡ preempted.context.rip)
    × (m'.regs.rbx ≡ preempted.context.rbx)
    × (m'.regs.rax ≡ 0)
yield_clobbers_example = yield_clobbers 10 caller preempted (new_thread 0 1) (λ _. 0)
