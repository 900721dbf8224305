-- ===== src/Proc/Syscall/Yield.antt =====
-- What `syscall_yield` of kernel/source/proc/syscall.cpp does to the thread that it switches to.
use sigma.Base.{ℕ, ◌≡◌, some, refl, arith, ok, true, ◌∷◌, [], ◌==◌}
use sigma.Proc.Thread.{Thread, Machine, running, idle, save_context, switch_context, load_regs}
use sigma.Generic.Event.{Event}
use sigma.Types.Queue
use sigma.Proc.Scheduler.{
  Kernel, resumes, timer_handler, schedule, chosen, round_robin, scan_from, scan, check_thread,
  check_state, find_cpu, resume, saved, stopped, thread_at, rest_state,
}
use sigma.Proc.Syscall.{syscall_yield, set_return_value}

-- A CPU runs the second of two threads; the first is ready.
abbrev pub two_threads : ℕ → Thread → Thread → (ℕ → Event) → Kernel
two_threads l ready yielding events = record {
  threads = record ready { state = idle } ∷ record yielding { state = running } ∷ [];
  cpus = record { lapic_id = l; enabled = true; current_thread = some 1 } ∷ [];
  scheduling_queue = Queue.empty;
  next_tid = 2;
  events = events;
}

-- When a thread yields to another, the other resumes where it was switched out, but with 0 in rax,
-- whatever it had there: the return value of the call is written to the wrong thread's registers.
pub yield_clobbers :
    (l : ℕ) (m : Machine) (ready yielding : Thread) (events : ℕ → Event)
    → (k : Kernel) × (m' : Machine) × (syscall_yield l m (two_threads l ready yielding events)
        ≡ ok (resumes k m'))
      × (m'.regs.rip ≡ ready.context.rip)
      × (m'.regs.rbx ≡ ready.context.rbx)
      × (m'.regs.rax ≡ 0)
unfolding syscall_yield timer_handler find_cpu schedule round_robin scan_from scan check_thread
    check_state chosen resume saved stopped thread_at switch_context set_return_value Queue.empty
    rest_state save_context load_regs
yield_clobbers l m ready yielding events = (after, machine, runs_it, refl, refl, refl)
  where
    own : (l == l) ≡ true
    own = ground arith

    saved_one : Thread
    saved_one = save_context m (record yielding { state = running })

    after : Kernel
    after = record (two_threads l ready yielding events) {
      threads = record ready { state = running } ∷ record saved_one { state = idle } ∷ [];
      cpus = record { lapic_id = l; enabled = true; current_thread = some 0 } ∷ [];
    }

    machine : Machine
    machine = set_return_value 0 (switch_context m (record ready { state = idle }) (some saved_one))

    found :
        find_cpu l (two_threads l ready yielding events).cpus
        ≡ some (0, record { lapic_id = l; enabled = true; current_thread = some 1 })
    found = rw (own, find_cpu) refl

    runs_it : syscall_yield l m (two_threads l ready yielding events) ≡ ok (resumes after machine)
    runs_it = rw (found, syscall_yield, timer_handler) refl
