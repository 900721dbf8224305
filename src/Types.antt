-- ===== src/Types.antt =====
-- The kernel's containers: kernel/include/Sigma/types.
pub mod Queue
pub mod HashMap
pub mod Bitmap
pub mod Vector
pub mod LinkedList
mod Tests
