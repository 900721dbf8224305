-- ===== src/Proc/Scheduler.antt =====
-- The scheduler of kernel/source/proc/process.cpp. A thread is named by its place in `thread_list`,
-- which only grows, and an event by its address. `scheduler_mutex` makes each handler one step.
pub mod RoundRobin
pub mod Places
pub mod Exclusive
pub mod Timer
use sigma.Base.{
  List, Option, none, some, Bool, ℕ, ◌==◌, if◌then◌else◌, true, false, ◌≡◌, Outcome, ok, panic, [],
  ◌∷◌, suc, zero, ◌>>=◌, ◌+◌, get_elem?, take, drop, ◌++◌, length,
}
use sigma.Proc.Thread.{
  Thread, ThreadState, idle, running, blocked, silent, disabled, Machine, save_context,
  switch_context,
}
use sigma.Types.Queue
use sigma.Types.Queue.{Queue, n_items}
use sigma.Generic.Event.{Event, has_triggered}

pub record ManagedCpu : Type 0 where
  pub lapic_id : ℕ
  pub enabled : Bool
  pub current_thread : Option ℕ

pub record Kernel : Type 0 where
  pub threads : List Thread
  pub cpus : List ManagedCpu
  pub scheduling_queue : Queue ℕ
  pub next_tid : ℕ
  pub events : ℕ → Event

-- A write through the pointer of one list entry.
abbrev pub modify {ℓ} : {A : Type ℓ} → ℕ → (A → A) → List A → List A
modify i f [] = []
modify zero f (x ∷ xs) = f x ∷ xs
modify (suc i) f (x ∷ xs) = x ∷ modify i f xs

unfoldable pub set_event : (ℕ → Event) → ℕ → Event → ℕ → Event
set_event events k c j = if k == j then c else events j

-- The lambda `check_thread`: the thread and the events after a test that passes.
unfoldable pub check_state : ThreadState → Thread → (ℕ → Event) → Option (Thread × (ℕ → Event))
unfolding has_triggered set_event
check_state idle t events = some (t, events)
check_state blocked t events =
    let (hit, count) = has_triggered (events t.event) in
    if hit then some (record t { state = idle }, set_event events t.event count) else none
check_state _ t events = none

unfoldable pub check_thread : Thread → (ℕ → Event) → Option (Thread × (ℕ → Event))
unfolding check_state
check_thread t events = check_state t.state t events

pub record Found : Type 0 where
  pub index : ℕ
  pub threads : List Thread
  pub events : ℕ → Event

-- A loop over list entries that returns at the first one to pass `check_thread`.
unfoldable pub scan : (ℕ → Event) → List Thread → Option Found
scan events [] = none
scan events (t ∷ ts) = elim (check_thread t events) [
  | some (t', events') ↦ some (record { index = 0; threads = t' ∷ ts; events = events' })
  | none ↦ elim (scan events ts) [
    | some f ↦ some (record f { index = suc f.index; threads = t ∷ f.threads })
    | none ↦ none
  ]
]

-- From the current entry to the end, then from the start to the current entry.
unfoldable pub scan_from : ℕ → (ℕ → Event) → List Thread → Option Found
scan_from i events ts = elim (scan events (drop i ts)) [
  | some f ↦ some (record f { index = i + f.index; threads = take i ts ++ f.threads })
  | none ↦ elim (scan events (take i ts)) [
    | some f ↦ some (record f { threads = f.threads ++ drop i ts })
    | none ↦ none
  ]
]

unfoldable pub round_robin : Option ℕ → Kernel → Option Found
round_robin none k = scan k.events k.threads
round_robin (some i) k = elim (get_elem? k.threads i) [
  | none ↦ none
  | some t ↦ scan_from i k.events k.threads
]

-- The first thread of that number.
unfoldable pub index_of_tid : ℕ → List Thread → Option ℕ
index_of_tid tid [] = none
index_of_tid tid (t ∷ ts) =
    if t.tid == tid
    then some 0
    else (elim (index_of_tid tid ts) [ some i ↦ some (suc i) | none ↦ none ])

unfoldable pub chosen : Option Found → Kernel → Option ℕ × Kernel
chosen none k = (none, k)
chosen (some f) k = (some f.index, record k { threads = f.threads; events = f.events })

-- A queued number goes first; one that names no thread halts.
unfoldable pub schedule : Option ℕ → Kernel → Outcome (Option ℕ × Kernel)
unfolding Queue.pop
schedule current k =
    if n_items k.scheduling_queue == 0 then ok (chosen (round_robin current k) k) else (do
      r ← Queue.pop k.scheduling_queue
      elim (index_of_tid r.0 k.threads) [
        | none ↦ panic
        | some i ↦ ok (some i, record k { scheduling_queue = r.1 })
      ])

unfoldable pub find_cpu : ℕ → List ManagedCpu → Option (ℕ × ManagedCpu)
find_cpu lapic_id [] = none
find_cpu lapic_id (c ∷ cs) =
    if c.lapic_id == lapic_id
    then some (0, c)
    else (elim (find_cpu lapic_id cs) [ some (i, d) ↦ some (suc i, d) | none ↦ none ])

-- `if(state == RUNNING) state = IDLE;`
unfoldable pub rest_state : ThreadState → ThreadState
rest_state running = idle
rest_state s = s

abbrev pub stop : Thread → Thread
stop t = record t { state = rest_state t.state }

-- How the timer interrupt ends on this CPU.
pub data Switched : Type 0 where
  unmanaged : Switched
  idles : Kernel → Switched
  resumes : Kernel → Machine → Switched

-- The old thread is saved before the new one is loaded; they may be the same.
unfoldable pub saved : Machine → Option ℕ → List Thread → List Thread
saved m none ts = ts
saved m (some i) ts = modify i (save_context m) ts

unfoldable pub stopped : Option ℕ → List Thread → List Thread
unfolding rest_state
stopped none ts = ts
stopped (some i) ts = modify i stop ts

-- `idle_cpu` up to `proc_idle`, which does not return.
unfoldable pub idle_cpu : Machine → ℕ → Option ℕ → Kernel → Kernel
idle_cpu m c none k = k
idle_cpu m c (some i) k = record k {
  threads = stopped (some i) (saved m (some i) k.threads);
  cpus = modify c (λ cpu. record cpu { current_thread = none }) k.cpus;
}

unfoldable pub thread_at : Option ℕ → List Thread → Option Thread
thread_at none ts = none
thread_at (some i) ts = get_elem? ts i

unfoldable pub resume : Machine → ℕ → Option ℕ → ℕ → Kernel → Outcome Switched
unfolding thread_at
resume m c old new k = elim (get_elem? (saved m old k.threads) new) [
  | none ↦ panic
  | some t ↦ ok (
      resumes
        (record k {
          threads =
              modify new (λ u. record u { state = running }) (stopped old (saved m old k.threads));
          cpus = modify c (λ cpu. record cpu { current_thread = some new }) k.cpus;
        })
        (switch_context m t (thread_at old (saved m old k.threads))))
]

unfoldable pub timer_handler : ℕ → Machine → Kernel → Outcome Switched
timer_handler lapic_id m k = elim (find_cpu lapic_id k.cpus) [
  | none ↦ ok unmanaged
  | some (c, cpu) ↦ (do
    r ← schedule cpu.current_thread k
    elim (r.0) [
      | none ↦ ok (idles (idle_cpu m c cpu.current_thread r.1))
      | some new ↦ resume m c cpu.current_thread new r.1
    ])
]
