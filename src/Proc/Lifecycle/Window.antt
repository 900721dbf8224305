-- ===== src/Proc/Lifecycle/Window.antt =====
-- `thread::block` of kernel/source/proc/process.cpp lets go of its locks before it calls the timer
-- handler: what another CPU can do in between.
use sigma.Base.{◌-◌, ℕ, ◌≡◌, ◌≢◌, some, none, refl, arith, ok, true, false, ◌∷◌, [], ◌==◌}
use sigma.Proc.Thread.{Thread, Machine, blocked, running, idle, switch_context}
use sigma.Generic.Event.{Event, has_triggered}
use sigma.Types.Queue
use sigma.Proc.Scheduler.{
  set_event, Kernel, timer_handler, resumes, check_thread, check_state, set_event, round_robin,
  scan, resume, schedule, chosen, find_cpu, saved, stopped, thread_at,
}
use sigma.Proc.Scheduler.Exclusive.{runs}
use sigma.Proc.Lifecycle.{mark_blocked}

-- Two CPUs and one thread, which the first CPU runs; the second has nothing to do.
abbrev pub busy_and_idle : ℕ → ℕ → Thread → (ℕ → Event) → Kernel
busy_and_idle l₀ l₁ t events = record {
  threads = t ∷ [];
  cpus =
      record { lapic_id = l₀; enabled = true; current_thread = some 0 }
      ∷ record { lapic_id = l₁; enabled = true; current_thread = none }
      ∷ [];
  scheduling_queue = Queue.empty;
  next_tid = 1;
  events = events;
}

-- If the event that the thread waits for is already there, the second CPU's timer interrupt may
-- come before the first CPU has left the thread, and takes the thread: both CPUs then run it, the
-- second from the context of the last switch, since nothing was saved yet.
pub block_window :
    (l₀ l₁ await : ℕ) (m : Machine) (t : Thread) (events : ℕ → Event)
    → l₀ ≢ l₁
    → events await ≢ 0
    → (k : Kernel) × (m' : Machine) × (timer_handler l₁ m
          (mark_blocked 0 await (busy_and_idle l₀ l₁ t events))
        ≡ ok (resumes k m'))
      × (runs k 0 ≡ some 0)
      × (runs k 1 ≡ some 0)
      × (m'.regs.rip ≡ t.context.rip)
unfolding timer_handler mark_blocked find_cpu schedule round_robin scan check_thread check_state
    chosen set_event resume saved stopped thread_at switch_context has_triggered Queue.empty
block_window l₀ l₁ await m t events apart there = (_, _, runs_it, refl, refl, refl)
  where
    other : (l₀ == l₁) ≡ false
    other = ground arith

    own : (l₁ == l₁) ≡ true
    own = ground arith

    came : (events await == 0) ≡ false
    came = ground arith

    left : Kernel
    left =
        record (busy_and_idle l₀ l₁ (record t { event = await; state = running })
          (set_event events await (events await - 1))) {
            cpus =
                record { lapic_id = l₀; enabled = true; current_thread = some 0 }
                ∷ record { lapic_id = l₁; enabled = true; current_thread = some 0 }
                ∷ [];
          }

    found :
        find_cpu l₁ (busy_and_idle l₀ l₁ t events).cpus
        ≡ some (1, record { lapic_id = l₁; enabled = true; current_thread = none })
    found = rw (other, own, find_cpu) refl

    ready :
        check_state blocked (record t { event = await; state = blocked }) events
        ≡ some (record t { event = await; state = idle }, set_event events await (events await - 1))
    ready = rw (came, check_state) refl

    runs_it :
        timer_handler l₁ m (mark_blocked 0 await (busy_and_idle l₀ l₁ t events))
        ≡ ok (resumes left (switch_context m (record t { event = await; state = idle }) none))
    runs_it =
        rw (found, timer_handler)
          (rw (ready, schedule, chosen, round_robin, scan, check_thread) refl)
