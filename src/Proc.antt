-- ===== src/Proc.antt =====
-- Threads and what they call: kernel/source/proc.
pub mod Ipc
pub mod Thread
pub mod Scheduler
pub mod Lifecycle
pub mod Mapping
mod Tests
pub mod Initrd
pub mod Syscall
