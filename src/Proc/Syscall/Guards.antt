-- ===== src/Proc/Syscall/Guards.antt =====
-- What the system call handler of kernel/source/proc/syscall.cpp lets through.
use sigma.Base.{
  Bool-cases, not, ◌||◌, ◌&&◌, ◌==◌, leb, leb→le, subst, sym, ℕ, ◌≤◌, ◌<◌, ◌≡◌, ◌≢◌, ◌⊎◌, inl, inr,
  refl, arith, none, some, false, List, [], ◌∷◌, get_elem?, zero, suc,
}
use sigma.Proc.Thread.{Privilege, application, driver, kernel, Regs}
use sigma.Proc.Lifecycle.{is_canonical}
use sigma.Proc.Syscall.{
  Call, Decision, calls, returns, halts, check_ptr, is_userland, below_driver, syscalls,
  syscall_handler, syscall_early_klog, syscall_set_fsbase, syscall_vm_map, syscall_initrd_read,
  syscall_initrd_get_size, syscall_ipc_send, syscall_ipc_receive, syscall_block_thread,
  syscall_get_phys_region, early_klog, set_fsbase, initrd_get_size, ipc_receive, ipc_send,
  get_phys_region, initrd_read, vm_map,
}

-- A pointer into the lower half of the address space, and not null.
abbrev pub IsUserPointer : ℕ → Type 0
IsUserPointer p = (p ≢ 0) × (p < 0x800000000000)

-- What is known of the arguments of a call that the handler makes. The address for vm_map and the
-- region for get_phys_region are only compared with 2 ^ 63.
abbrev pub IsGuarded : Privilege → Call → Type 0
IsGuarded p (early_klog s) = IsUserPointer s
IsGuarded p (set_fsbase b) = IsUserPointer b
IsGuarded p (initrd_get_size name) = IsUserPointer name
IsGuarded p (initrd_read name buf offset size) = IsUserPointer name × IsUserPointer buf
IsGuarded p (ipc_send ring buf size) = IsUserPointer buf
IsGuarded p (ipc_receive ring buf) = IsUserPointer buf
IsGuarded p (get_phys_region size prot flags region) =
    (p ≢ application) × (region ≤ 0x8000000000000000)
IsGuarded p (vm_map size virt phys prot flags) =
    (virt ≤ 0x8000000000000000) × ((phys ≡ 0) ⊎ (p ≢ application))
IsGuarded p c = Unit {0}

abbrev pub Guarded : Privilege → Decision → Type 0
Guarded p (calls c) = IsGuarded p c
Guarded p (returns v) = Unit {0}
Guarded p halts = Unit {0}

check_ptr_cases :
    (a : ℕ) (rest : Decision)
    → (check_ptr a rest ≡ halts) ⊎ ((check_ptr a rest ≡ rest) × IsUserPointer a)
unfolding check_ptr is_canonical is_userland
check_ptr_cases a rest =
    elim (Bool-cases (not (is_canonical a) || not (is_userland a) || (a == 0))) [
      | inl bad ↦ inl (rw (bad, check_ptr) refl)
      | inr good ↦ inr (rw (good, check_ptr) refl, (ground arith, ground arith))
    ]

check_ptr-Guarded :
    (p : Privilege) (a : ℕ) (rest : Decision)
    → (IsUserPointer a → Guarded p rest)
    → Guarded p (check_ptr a rest)
check_ptr-Guarded p a rest h = elim (check_ptr_cases a rest) [
  | inl bad ↦ subst (Guarded p) (sym bad) tt
  | inr (good, pointer) ↦ subst (Guarded p) (sym good) (h pointer)
]

not_application : (p : Privilege) → below_driver p ≡ false → p ≢ application
unfolding below_driver
not_application application e = absurd (cc)
not_application driver e = λ z. cc
not_application kernel e = λ z. cc

syscall_vm_map-Guarded : (p : Privilege) (r : Regs) → Guarded p (syscall_vm_map p r)
unfolding syscall_vm_map is_userland
syscall_vm_map-Guarded p r = elim (Bool-cases (leb r.rbx 0x8000000000000000)) [
  | inr high ↦ rw (high, syscall_vm_map) tt
  | inl low ↦ elim (Bool-cases (not (r.rcx == 0) && below_driver p)) [
    | inl refused ↦ rw (low, refused, syscall_vm_map) tt
    | inr allowed ↦ rw (low, allowed, syscall_vm_map) (leb→le _ _ low, physical allowed)
  ]
]
  where
    physical : (not (r.rcx == 0) && below_driver p) ≡ false → (r.rcx ≡ 0) ⊎ (p ≢ application)
    physical allowed = elim (Bool-cases (r.rcx == 0)) [
      | inl e ↦ inl (ground arith)
      | inr e ↦ inr (not_application p (ground arith))
    ]

syscall_get_phys_region-Guarded :
    (p : Privilege) (r : Regs) → Guarded p (syscall_get_phys_region p r)
unfolding syscall_get_phys_region is_userland
syscall_get_phys_region-Guarded p r = elim (Bool-cases (leb r.rsi 0x8000000000000000)) [
  | inr high ↦ rw (high, syscall_get_phys_region) tt
  | inl low ↦ elim (Bool-cases (below_driver p)) [
    | inl refused ↦ rw (low, refused, syscall_get_phys_region) tt
    | inr allowed ↦
        rw (low, allowed, syscall_get_phys_region) (not_application p allowed, leb→le _ _ low)
  ]
]

syscall_block_thread-Guarded : (p : Privilege) (r : Regs) → Guarded p (syscall_block_thread p r)
unfolding syscall_block_thread
syscall_block_thread-Guarded p r = elim (Bool-cases (r.rbx == 0)) [
  | inl e ↦ rw (e, syscall_block_thread) tt
  | inr e ↦ elim (Bool-cases (r.rbx == 1)) [
    | inl f ↦ rw (e, f, syscall_block_thread) tt
    | inr f ↦ rw (e, f, syscall_block_thread) tt
  ]
]

abbrev AllGuarded : Privilege → Regs → List (Privilege → Regs → Decision) → Type 0
AllGuarded p r [] = Unit {0}
AllGuarded p r (f ∷ fs) = Guarded p (f p r) × AllGuarded p r fs

found-Guarded :
    (fs : List (Privilege → Regs → Decision)) (n : ℕ) (p : Privilege) (r : Regs)
    → AllGuarded p r fs
    → Guarded p (elim (get_elem? fs n) [ none ↦ returns 1 | some f ↦ f p r ])
found-Guarded [] n p r all = tt
found-Guarded (f ∷ fs) zero p r all = all.0
found-Guarded (f ∷ fs) (suc n) p r all = found-Guarded fs n p r all.1

-- Whatever number and arguments a thread passes, the handler answers at once, halts, or makes a
-- call. The pointers of a log, FS base, RAM disk or message call are then not null and in the lower
-- half of the address space; those of vm_map and get_phys_region are at most 2 ^ 63; and only a
-- driver or the kernel has vm_map name a physical address or calls get_phys_region. Nothing is
-- said of the arguments of the other calls, devctl and vctl among them: they take pointers that
-- nothing checks, and vctl maps physical addresses for any thread.
pub syscall_handler-Guarded : (p : Privilege) (r : Regs) → Guarded p (syscall_handler p r)
unfolding syscall_handler syscall_early_klog syscall_set_fsbase syscall_initrd_read
    syscall_initrd_get_size syscall_ipc_send syscall_ipc_receive
syscall_handler-Guarded p r = found-Guarded syscalls r.rax p r (
  check_ptr-Guarded p r.rbx _ (λ a. a),
  (
    check_ptr-Guarded p r.rbx _ (λ a. a),
    (
      tt,
      (
        tt,
        (
          tt,
          (
            tt,
            (
              syscall_block_thread-Guarded p r,
              (
                syscall_vm_map-Guarded p r,
                (
                  syscall_get_phys_region-Guarded p r,
                  (
                    check_ptr-Guarded p r.rbx _ (λ a. check_ptr-Guarded p r.rcx _ (λ b. (a, b))),
                    (
                      check_ptr-Guarded p r.rbx _ (λ a. a),
                      (
                        check_ptr-Guarded p r.rcx _ (λ a. a),
                        (check_ptr-Guarded p r.rcx _ (λ a. a), (tt, (tt, (tt, tt)))),
                      ),
                    ),
                  ),
                ),
              ),
            ),
          ),
        ),
      ),
    ),
  ),
)
