-- ===== src/Proc/Lifecycle.antt =====
-- Threads made, blocked, woken and killed: kernel/source/proc/process.cpp. What SIMD state a new
-- thread starts with is an argument. The kernel stack is memory that nothing else reads, and a
-- thread's handle catalogue is modelled apart, in Generic/Handles.
pub mod Fresh
pub mod Kill
pub mod Release
pub mod Window
mod Tests
use sigma.Base.{
  List, Option, none, some, ℕ, [], ◌∷◌, ◌++◌, ◌+◌, ◌-◌, Outcome, ok, panic, ◌>>=◌, Bool, true,
  false, if◌then◌else◌, leb, ltb, ◌==◌, ◌&&◌, ◌||◌, suc, zero, add64, sub64, block_size, get_elem?,
  length,
}
use sigma.Mm.Pmm.{Pmm, alloc_block, free_block}
use sigma.Proc.Thread.{
  Thread, ThreadContext, ThreadState, disabled, idle, running, blocked, silent, Privilege,
  application, driver, kernel,
}
use sigma.Proc.Scheduler.{Kernel, ManagedCpu, modify, index_of_tid}

-- `thread_context()`, with the SIMD area given.
abbrev pub empty_context : ℕ → ThreadContext
empty_context simd = record {
  rax = 0;
  rbx = 0;
  rcx = 0;
  rdx = 0;
  rdi = 0;
  rsi = 0;
  rbp = 0;
  rsp = 0;
  r8 = 0;
  r9 = 0;
  r10 = 0;
  r11 = 0;
  r12 = 0;
  r13 = 0;
  r14 = 0;
  r15 = 0;
  cs = 0;
  ss = 0;
  ds = 0;
  rip = 0;
  rflags = 0;
  cr3 = 0;
  fs = 0;
  simd_state = simd;
}

-- `default_stack_top`.
abbrev pub default_stack_top : ℕ
default_stack_top = 0x800000000

unfoldable pub set_state : ℕ → ThreadState → Kernel → Kernel
set_state i s k = record k { threads = modify i (λ t. record t { state = s }) k.threads }

-- The part of `block` before it calls the timer handler; the locks are released in between.
unfoldable pub mark_blocked : ℕ → ℕ → Kernel → Kernel
mark_blocked i await k = record k {
  threads = modify i (λ t. record t { event = await; state = blocked }) k.threads;
}

unfoldable pub wake : ℕ → Kernel → Kernel
unfolding set_state
wake i k = set_state i idle k

unfoldable pub is_blocked_state : ThreadState → Bool
is_blocked_state blocked = true
is_blocked_state s = false

unfoldable pub is_blocked : Thread → Bool
unfolding is_blocked_state
is_blocked t = is_blocked_state t.state

unfoldable pub thread_for_tid : ℕ → Kernel → Option ℕ
unfolding index_of_tid
thread_for_tid tid k = index_of_tid tid k.threads

unfoldable pub wake_thread : ℕ → Kernel → Outcome Kernel
unfolding thread_for_tid wake
wake_thread tid k = elim (thread_for_tid tid k) [ none ↦ panic | some i ↦ ok (wake i k) ]

-- Bits 1 and 9; a driver also gets bits 12 and 13, the I/O privilege level.
unfoldable pub rflags_for : Privilege → ℕ
rflags_for driver = 0x3202
rflags_for p = 0x202

unfoldable pub code_selector : Privilege → ℕ
code_selector kernel = 0x08
code_selector p = 0x13

unfoldable pub data_selector : Privilege → ℕ
data_selector kernel = 0x0
data_selector p = 0x1b

unfoldable pub create_thread_int : ℕ → Privilege → ThreadState → Thread → Thread
unfolding rflags_for code_selector data_selector
create_thread_int simd p s t = record t {
  context = record (empty_context simd) {
    rflags = rflags_for p;
    cs = code_selector p;
    ds = data_selector p;
    ss = data_selector p;
  };
  privilege = p;
  state = s;
}

-- `thread()`, as `empty_entry` constructs it.
abbrev pub new_thread : ℕ → ℕ → Thread
new_thread simd tid = record {
  context = empty_context simd;
  frames = [];
  stack_top = default_stack_top;
  stack_bottom = default_stack_top;
  state = disabled;
  privilege = application;
  vmm = 0;
  tid = tid;
  event = 0;
}

unfoldable pub is_disabled : ThreadState → Bool
is_disabled disabled = true
is_disabled s = false

-- The first thread in the DISABLED state.
unfoldable pub first_disabled : List Thread → Option ℕ
unfolding is_disabled
first_disabled [] = none
first_disabled (t ∷ ts) =
    if is_disabled t.state
    then some 0
    else (elim (first_disabled ts) [ some i ↦ some (suc i) | none ↦ none ])

-- The place of the thread made, in a slot of the list that is free or at its end.
unfoldable pub create_blocked_thread : ℕ → Privilege → Kernel → ℕ × Kernel
unfolding first_disabled create_thread_int
create_blocked_thread simd p k = elim (first_disabled k.threads) [
  | some i ↦ (i, record k { threads = modify i (create_thread_int simd p silent) k.threads })
  | none ↦ (
    length k.threads,
    record k {
      threads = k.threads ++ create_thread_int simd p silent (new_thread simd k.next_tid) ∷ [];
      next_tid = add64 k.next_tid 1;
    },
  )
]

-- `get_paging_info() - KERNEL_PHYSICAL_VIRTUAL_MAPPING_BASE` of the cloned address space is
-- `space`; the entry point is the trampoline's address.
unfoldable pub make_kernel_thread : ℕ → ℕ → ℕ → ℕ → ℕ → Thread → Thread
make_kernel_thread space trampoline stack function userptr t = record t {
  context = record (t.context) {
    cr3 = space;
    rip = trampoline;
    rsp = stack;
    rdi = function;
    rsi = userptr;
  };
  vmm = space;
  privilege = kernel;
  state = idle;
}

-- The loop of `kill` over the thread's frames.
unfoldable pub free_frames : List ℕ → Pmm → Outcome Pmm
free_frames [] p = ok p
free_frames (f ∷ fs) p = free_block f p >>= free_frames fs

-- What `kill` leaves of the thread; `space` is the new address space. The list of frames is not
-- emptied.
unfoldable pub retired : ℕ → ℕ → Thread → Thread
retired simd space t = record t {
  state = disabled;
  context = empty_context simd;
  privilege = application;
  stack_top = default_stack_top;
  stack_bottom = default_stack_top;
  vmm = space;
}

-- The pages mapped, as pairs of a physical and a virtual address, last first.
unfoldable pub expand_stack : ℕ → Thread → Pmm → Outcome (Thread × Pmm × List (ℕ × ℕ))
expand_stack zero t p = ok (t, p, [])
expand_stack (suc pages) t p = alloc_block p >>= λ r.
    (let t' = record t {
      frames = t.frames ++ r.0 ∷ [];
      stack_bottom = sub64 t.stack_bottom block_size;
    } in
      expand_stack pages t' r.1 >>= λ x.
      ok (x.0, x.1, (r.0, sub64 t.stack_bottom block_size) ∷ x.2))

-- `misc::is_canonical`.
unfoldable pub is_canonical : ℕ → Bool
is_canonical addr =
    leb addr 0x00007fffffffffff || (leb 0xffff800000000000 addr && leb addr 0xffffffffffffffff)

unfoldable pub set_fsbase : ℕ → Thread → Outcome Thread
unfolding is_canonical
set_fsbase fs t =
    if is_canonical fs then ok (record t { context = record (t.context) { fs = fs } }) else panic

-- `init_multitasking`: the CPUs of the MADT, and the kernel's first thread.
unfoldable pub init_multitasking : ℕ → List ℕ → Kernel → Kernel
init_multitasking simd lapics k = record k {
  cpus = cpus_of lapics;
  threads = k.threads ++ record (new_thread simd k.next_tid) { state = silent } ∷ [];
  next_tid = add64 k.next_tid 1;
}
  where
    cpus_of : List ℕ → List ManagedCpu
    cpus_of [] = []
    cpus_of (l ∷ ls) = record { lapic_id = l; enabled = false; current_thread = none } ∷ cpus_of ls
