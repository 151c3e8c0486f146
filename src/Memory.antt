-- ===== src/Memory.antt =====
-- Memory of the kernel, `kernel/src/memory`.
pub mod Frame
pub mod Action
pub mod ArrayVec
pub mod Cores
pub mod MCache
pub mod Model
pub mod Refill
pub mod DetAlloc
pub mod Emergency
mod Tests
