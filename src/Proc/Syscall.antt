-- ===== src/Proc/Syscall.antt =====
-- The system call handler: kernel/source/proc/syscall.cpp. A call is what the kernel is asked to do
-- once the guards of its function have passed; the parts called are modelled apart.
pub mod Guards
pub mod Yield
mod Tests
use sigma.Base.{
  ℕ, ◌==◌, leb, ltb, ◌&&◌, ◌||◌, not, if◌then◌else◌, Option, none, some, Bool, true, false, List,
  [], ◌∷◌, get_elem?, Outcome, ok, panic, ◌>>=◌,
}
use sigma.Proc.Thread.{Privilege, application, driver, kernel, Regs, Machine}
use sigma.Proc.Lifecycle.{is_canonical}
use sigma.Proc.Scheduler.{Kernel, Switched, unmanaged, idles, resumes, timer_handler}

pub data Call : Type 0 where
  early_klog set_fsbase initrd_get_size ipc_get_message_size : ℕ → Call
  kill fork yield get_current_tid block_forever : Call
  block_for_ipc unknown_block : ℕ → Call
  ipc_receive : ℕ → ℕ → Call
  ipc_send : ℕ → ℕ → ℕ → Call
  get_phys_region initrd_read : ℕ → ℕ → ℕ → ℕ → Call
  vm_map devctl vctl : ℕ → ℕ → ℕ → ℕ → ℕ → Call

-- What a handler comes to: a call, a value at once, or the PANIC of CHECK_PTR.
pub data Decision : Type 0 where
  calls : Call → Decision
  returns : ℕ → Decision
  halts : Decision

-- PTR_IS_USERLAND.
unfoldable pub is_userland : ℕ → Bool
is_userland p = leb p 0x8000000000000000

-- CHECK_PTR, before what follows it.
unfoldable pub check_ptr : ℕ → Decision → Decision
unfolding is_canonical is_userland
check_ptr p rest = if not (is_canonical p) || not (is_userland p) || (p == 0) then halts else rest

-- `privilege < DRIVER`.
unfoldable pub below_driver : Privilege → Bool
below_driver application = true
below_driver p = false

unfoldable pub syscall_early_klog : Privilege → Regs → Decision
unfolding check_ptr
syscall_early_klog p r = check_ptr r.rbx (calls (early_klog r.rbx))

unfoldable pub syscall_set_fsbase : Privilege → Regs → Decision
unfolding check_ptr
syscall_set_fsbase p r = check_ptr r.rbx (calls (set_fsbase r.rbx))

-- What comes before the call; CHECK_PTR on the address that `map_anonymous` gives back is left out.
unfoldable pub syscall_vm_map : Privilege → Regs → Decision
unfolding is_userland below_driver
syscall_vm_map p r =
    if not (is_userland r.rbx)
    then returns 1
    else if not (r.rcx == 0) && below_driver p
    then returns 1
    else calls (vm_map r.rdx r.rbx r.rcx r.rsi r.rdi)

unfoldable pub syscall_initrd_read : Privilege → Regs → Decision
unfolding check_ptr
syscall_initrd_read p r =
    check_ptr r.rbx (check_ptr r.rcx (calls (initrd_read r.rbx r.rcx r.rdx r.rsi)))

unfoldable pub syscall_initrd_get_size : Privilege → Regs → Decision
unfolding check_ptr
syscall_initrd_get_size p r = check_ptr r.rbx (calls (initrd_get_size r.rbx))

unfoldable pub syscall_ipc_send : Privilege → Regs → Decision
unfolding check_ptr
syscall_ipc_send p r = check_ptr r.rcx (calls (ipc_send r.rbx r.rcx r.rdx))

unfoldable pub syscall_ipc_receive : Privilege → Regs → Decision
unfolding check_ptr
syscall_ipc_receive p r = check_ptr r.rcx (calls (ipc_receive r.rbx r.rcx))

unfoldable pub syscall_block_thread : Privilege → Regs → Decision
syscall_block_thread p r =
    if r.rbx == 0
    then calls block_forever
    else if r.rbx == 1
    then calls (block_for_ipc r.rcx)
    else calls (unknown_block r.rbx)

unfoldable pub syscall_get_phys_region : Privilege → Regs → Decision
unfolding is_userland below_driver
syscall_get_phys_region p r =
    if not (is_userland r.rsi)
    then returns 1
    else if below_driver p
    then returns 1
    else calls (get_phys_region r.rbx r.rcx r.rdx r.rsi)

-- The table, in the order of the numbers.
abbrev pub syscalls : List (Privilege → Regs → Decision)
syscalls =
    syscall_early_klog
    ∷ syscall_set_fsbase
    ∷ (λ p r. calls kill)
    ∷ (λ p r. calls fork)
    ∷ (λ p r. calls yield)
    ∷ (λ p r. calls get_current_tid)
    ∷ syscall_block_thread
    ∷ syscall_vm_map
    ∷ syscall_get_phys_region
    ∷ syscall_initrd_read
    ∷ syscall_initrd_get_size
    ∷ syscall_ipc_send
    ∷ syscall_ipc_receive
    ∷ (λ p r. calls (ipc_get_message_size r.rbx))
    ∷ (λ p r. calls (devctl r.rbx r.rcx r.rdx r.rsi r.rdi))
    ∷ (λ p r. calls (vctl r.rbx r.rcx r.rdx r.rsi r.rdi))
    ∷ []

unfoldable pub syscall_handler : Privilege → Regs → Decision
syscall_handler p r = elim (get_elem? syscalls r.rax) [ none ↦ returns 1 | some f ↦ f p r ]

-- SYSCALL_SET_RETURN_VALUE, in whatever frame the call has left.
unfoldable pub set_return_value : ℕ → Machine → Machine
set_return_value v m = record m { regs = record (m.regs) { rax = v } }

-- `syscall_yield` and what the handler does after it: the frame is the next thread's by then.
unfoldable pub syscall_yield : ℕ → Machine → Kernel → Outcome Switched
unfolding set_return_value timer_handler
syscall_yield lapic_id m k = timer_handler lapic_id m k >>= return_from
  where
    return_from : Switched → Outcome Switched
    return_from unmanaged = ok unmanaged
    return_from (idles k') = ok (idles k')
    return_from (resumes k' m') = ok (resumes k' (set_return_value 0 m'))
