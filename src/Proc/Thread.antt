-- ===== src/Proc/Thread.antt =====
-- `proc::process::thread` and its context: kernel/include/Sigma/proc/process.h, with
-- `save_context` and `switch_context` of kernel/source/proc/process.cpp. The saved SIMD area is one
-- number; a thread's address space is the physical address of its top table. The process-context
-- bits of cr3 are left out. A context keeps 16 bits of cs, ss and ds.
pub mod Switch
use sigma.Base.{List, Option, none, some, Bool, ℕ, ◌%◌, ◌==◌, if◌then◌else◌, not, true, false, ◌≡◌}

pub data ThreadState : Type 0 where
  disabled idle running blocked silent : ThreadState

pub data Privilege : Type 0 where
  application driver kernel : Privilege

-- `x86_64::idt::idt_registers`, as far as the scheduler uses it.
pub record Regs : Type 0 where
  pub rax : ℕ
  pub rbx : ℕ
  pub rcx : ℕ
  pub rdx : ℕ
  pub rdi : ℕ
  pub rsi : ℕ
  pub rbp : ℕ
  pub rsp : ℕ
  pub r8 : ℕ
  pub r9 : ℕ
  pub r10 : ℕ
  pub r11 : ℕ
  pub r12 : ℕ
  pub r13 : ℕ
  pub r14 : ℕ
  pub r15 : ℕ
  pub cs : ℕ
  pub ss : ℕ
  pub ds : ℕ
  pub rip : ℕ
  pub rflags : ℕ

pub record ThreadContext : Type 0 where
  pub rax : ℕ
  pub rbx : ℕ
  pub rcx : ℕ
  pub rdx : ℕ
  pub rdi : ℕ
  pub rsi : ℕ
  pub rbp : ℕ
  pub rsp : ℕ
  pub r8 : ℕ
  pub r9 : ℕ
  pub r10 : ℕ
  pub r11 : ℕ
  pub r12 : ℕ
  pub r13 : ℕ
  pub r14 : ℕ
  pub r15 : ℕ
  pub cs : ℕ
  pub ss : ℕ
  pub ds : ℕ
  pub rip : ℕ
  pub rflags : ℕ
  pub cr3 : ℕ
  pub fs : ℕ
  pub simd_state : ℕ

-- What the CPU holds besides the registers of the interrupt frame.
pub record Machine : Type 0 where
  pub regs : Regs
  pub cr3 : ℕ
  pub fs_base : ℕ
  pub simd : ℕ

pub record Thread : Type 0 where
  pub context : ThreadContext
  pub frames : List ℕ
  pub stack_top : ℕ
  pub stack_bottom : ℕ
  pub state : ThreadState
  pub privilege : Privilege
  pub vmm : ℕ
  pub tid : ℕ
  pub event : ℕ

unfoldable pub save_context : Machine → Thread → Thread
save_context m t = record t {
  context = record {
    rax = m.regs.rax;
    rbx = m.regs.rbx;
    rcx = m.regs.rcx;
    rdx = m.regs.rdx;
    rdi = m.regs.rdi;
    rsi = m.regs.rsi;
    rbp = m.regs.rbp;
    rsp = m.regs.rsp;
    r8 = m.regs.r8;
    r9 = m.regs.r9;
    r10 = m.regs.r10;
    r11 = m.regs.r11;
    r12 = m.regs.r12;
    r13 = m.regs.r13;
    r14 = m.regs.r14;
    r15 = m.regs.r15;
    cs = m.regs.cs % 65536;
    ss = m.regs.ss % 65536;
    ds = m.regs.ds % 65536;
    rip = m.regs.rip;
    rflags = m.regs.rflags;
    cr3 = m.cr3;
    fs = m.fs_base;
    simd_state = m.simd;
  };
}

-- The registers that `switch_context` writes into the interrupt frame.
unfoldable pub load_regs : ThreadContext → Regs
load_regs c = record {
  rax = c.rax;
  rbx = c.rbx;
  rcx = c.rcx;
  rdx = c.rdx;
  rdi = c.rdi;
  rsi = c.rsi;
  rbp = c.rbp;
  rsp = c.rsp;
  r8 = c.r8;
  r9 = c.r9;
  r10 = c.r10;
  r11 = c.r11;
  r12 = c.r12;
  r13 = c.r13;
  r14 = c.r14;
  r15 = c.r15;
  cs = c.cs;
  ss = c.ss;
  ds = c.ds;
  rip = c.rip;
  rflags = c.rflags;
}

-- The last test of `switch_context`: the address space is loaded unless both contexts name it.
unfoldable pub same_space : Option Thread → Thread → Bool
same_space none new = false
same_space (some old) new = old.context.cr3 == new.context.cr3

-- Without PCIDs, `vmm.set()` loads the address of the top table.
unfoldable pub switch_context : Machine → Thread → Option Thread → Machine
unfolding load_regs same_space
switch_context m new old = record {
  regs = load_regs new.context;
  fs_base = new.context.fs;
  simd = new.context.simd_state;
  cr3 = if same_space old new then m.cr3 else new.vmm;
}
