-- ===== src/Fs.antt =====
-- The in-memory file system of the kernel, `kernel/src/fs`.
pub mod File
pub mod Mnode
pub mod Mlnr
pub mod Fd
pub mod RwLock
mod Tests
