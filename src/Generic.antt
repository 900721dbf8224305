-- ===== src/Generic.antt =====
-- Kernel objects shared by the subsystems: kernel/include/Sigma/generic, kernel/source/generic.
pub mod Event
pub mod Handles
pub mod Device
mod Tests
