-- ===== src/Proc/Tests.antt =====
-- Rings, context switches and the scheduler of kernel/source/proc on small kernels.
use sigma.Types.Queue.{n_items}
use sigma.Base.{
  inr, ◌%◌, zero, suc, sym, ◌∙◌, suc, ◌==◌, ap, if◌then◌else◌, ◌*◌, ℕ, ◌≡◌, ◌≢◌, ◌+◌, [], ◌∷◌, ok,
  refl, arith, inl, some, none, true, ◌>>=◌,
}
use sigma.Types.Queue
use sigma.Proc.Ipc.{Ring, new_ring}
use sigma.Proc.Ipc.Order.{
  Delivered, Sent, message, send-receive, send_all_reverses, send_all, receive_n,
}
use sigma.Proc.Thread.{
  ThreadState, Thread, ThreadContext, Regs, Machine, idle, running, silent, blocked, application,
  save_context, switch_context,
}
use sigma.Proc.Thread.Switch.{switch_back}
use sigma.Proc.Scheduler.{Kernel, timer_handler, round_robin}
use sigma.Proc.Scheduler.RoundRobin.{Taken, round_robin-Taken}
use sigma.Proc.Scheduler.Exclusive.{state_of, runs, IsExclusive}
use sigma.Proc.Scheduler.Timer.{Ends, timer_handler-IsExclusive}

-- Threads 4 and 7 share a ring.
abbrev ring_4_7 : Ring
ring_4_7 = new_ring 4 7

ring_4_7_apart : ring_4_7.a ≢ ring_4_7.b
unfolding new_ring
ring_4_7_apart = omega arith

-- Memory in which each address holds its own low byte.
abbrev low_bytes : ℕ → ℕ
low_bytes p = p % 256

-- The second thread sends six bytes to the first.
send-receive_example : Delivered ring_4_7 7 4 low_bytes 1000 6
unfolding new_ring
send-receive_example =
    send-receive ring_4_7 7 4 low_bytes 1000 6 ring_4_7_apart (inr (refl, refl)) (omega arith)

abbrev hello : Sent
hello = record { mem = low_bytes; buffer = 104; size = 2 }

abbrev bye : Sent
bye = record { mem = low_bytes; buffer = 98; size = 3 }

send_all_reverses_example :
    (send_all ring_4_7.a (hello ∷ bye ∷ []) ring_4_7 >>= receive_n ring_4_7.b 2)
    ≡ ok (some (message bye) ∷ some (message hello) ∷ [])
send_all_reverses_example = send_all_reverses (hello ∷ bye ∷ []) ring_4_7 ring_4_7_apart

abbrev regs_of : ℕ → Regs
regs_of n = record {
  rax = n + 0;
  rbx = n + 1;
  rcx = n + 2;
  rdx = n + 3;
  rdi = n + 4;
  rsi = n + 5;
  rbp = n + 6;
  rsp = n + 7;
  r8 = n + 8;
  r9 = n + 9;
  r10 = n + 10;
  r11 = n + 11;
  r12 = n + 12;
  r13 = n + 13;
  r14 = n + 14;
  r15 = n + 15;
  cs = n + 16;
  ss = n + 17;
  ds = n + 18;
  rip = n + 19;
  rflags = n + 20;
}

abbrev context_of : ℕ → ThreadContext
context_of n = record {
  rax = n + 0;
  rbx = n + 1;
  rcx = n + 2;
  rdx = n + 3;
  rdi = n + 4;
  rsi = n + 5;
  rbp = n + 6;
  rsp = n + 7;
  r8 = n + 8;
  r9 = n + 9;
  r10 = n + 10;
  r11 = n + 11;
  r12 = n + 12;
  r13 = n + 13;
  r14 = n + 14;
  r15 = n + 15;
  cs = n + 16;
  ss = n + 17;
  ds = n + 18;
  rip = n + 19;
  rflags = n + 20;
  cr3 = n * 4096;
  fs = n;
  simd_state = n;
}

abbrev machine_of : ℕ → Machine
machine_of n = record { regs = regs_of n; cr3 = n * 4096; fs_base = n; simd = n }

abbrev thread_of : ℕ → ThreadState → Thread
thread_of n s = record {
  context = context_of n;
  frames = [];
  stack_top = 0;
  stack_bottom = 0;
  state = s;
  privilege = application;
  vmm = n * 4096;
  tid = n;
  event = n;
}

switch_back_example :
    switch_context
      (machine_of 9)
      (save_context (machine_of 3) (thread_of 3 running))
      (some (thread_of 5 idle))
    ≡ machine_of 3
switch_back_example =
    switch_back (machine_of 3) (machine_of 9) (thread_of 3 running) (thread_of 5 idle)
      (omega arith, omega arith, omega arith) refl (omega arith)

-- Two CPUs: the first runs thread 1, the second idles. Thread 2 waits for event 2, which came.
abbrev two_cpus : Kernel
two_cpus = record {
  threads = thread_of 0 silent ∷ thread_of 1 running ∷ thread_of 2 blocked ∷ [];
  cpus =
      record { lapic_id = 10; enabled = true; current_thread = some 1 }
      ∷ record { lapic_id = 11; enabled = true; current_thread = none }
      ∷ [];
  scheduling_queue = Queue.empty;
  next_tid = 3;
  events = λ e. if e == 2 then 1 else 0;
}

round_robin-Taken_example : Taken 1 two_cpus (round_robin (some 1) two_cpus)
round_robin-Taken_example = round_robin-Taken 1 two_cpus (omega arith)

only_first : (c i : ℕ) → runs two_cpus c ≡ some i → (c ≡ 0) × (i ≡ 1)
only_first zero i r = (refl, ground arith)
only_first (suc zero) i r = absurd (cc)
only_first (suc (suc c)) i r = absurd (cc)

two_cpus-IsExclusive : IsExclusive two_cpus
two_cpus-IsExclusive = record {
  busy = λ c i r. inl (ap (state_of two_cpus) (only_first c i r).1);
  alone = λ c d i ne r s. absurd (ne ((only_first c i r).0 ∙ sym (only_first d i s).0));
}

timer_handler-IsExclusive_example : Ends IsExclusive (timer_handler 11 (machine_of 20) two_cpus)
timer_handler-IsExclusive_example =
    timer_handler-IsExclusive 11 (machine_of 20) two_cpus no_queue two_cpus-IsExclusive
  where
    no_queue : n_items two_cpus.scheduling_queue ≡ 0
    no_queue = unfold Queue.empty in refl
