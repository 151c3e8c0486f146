-- ===== src/Syscall.antt =====
-- The system calls of the kernel: `kernel/src/arch/x86_64/syscall.rs` and `kernel/src/error.rs`.
pub mod Errors
pub mod UserMemory
pub mod FileIo
pub mod Guard
pub mod Vspace
pub mod Mapped
pub mod Print
pub mod Process
pub mod Handle
pub mod Reports
mod Tests
