-- ===== src/Lib.antt =====
-- A verification library of the node-replicated kernel: its system calls, the replicated state of
-- files, processes and cores, the in-memory file system, and the frames, caches and mappings of memory.
--
-- How the parts interact. A call of a process (`lib/kpi/src/syscalls`) enters the kernel with six
-- numbers and leaves it with three registers; `kernel/src/arch/x86_64/syscall.rs` decodes them, checks
-- the memory of the process and calls the part that serves it. A file call becomes an operation of
-- `kernel/src/cnrfs.rs`, one on memory or frames an operation of `kernel/src/nrproc.rs`, and a request
-- for a core one of `kernel/src/nr.rs`. An operation on files names the logs that it goes to; each
-- replica takes the operations from the logs and applies them with `dispatch_mut`, or with `dispatch`
-- if they only read. The node keeps the open
-- descriptors of every process (`kernel/src/fs/fd.rs`) and the file system (`kernel/src/fs/mod.rs`),
-- which maps names to numbers and numbers to nodes (`kernel/src/fs/mnode.rs`); a node of a file
-- holds a list of page-sized buffers (`kernel/src/fs/file.rs`). Frames go from the cache of a node to
-- that of a core (`kernel/src/memory/mcache.rs`, `kernel/src/memory/mod.rs`), and from there into the
-- address space of a process; replicas that allocate share the results over bounded queues
-- (`kernel/src/memory/detmem.rs`, `kernel/src/mpmc.rs`).
--
-- Which file models which part:
--   Kpi/Io      lib/kpi/src/io.rs: flags, modes and types of files
--   Kpi/Match, Kpi/Codes and the enumerations (Ops for files, ProcessOps, VSpaceOps, SystemOps,
--               SystemCalls, SystemCallErrors)  lib/kpi/src/lib.rs: numbers and names
--   Kpi/Calls   lib/kpi/src/syscalls: the calls of a process
--   Syscall/Handle     kernel/src/arch/x86_64/syscall.rs: `syscall_handle`
--   Syscall/FileIo, Syscall/Vspace, Syscall/Process, Syscall/Print  the same file: `handle_fileio`,
--               `handle_vspace`, `handle_process` and `handle_system`, `process_print`
--   Syscall/UserMemory the same file: `user_virt_addr_valid`
--   Syscall/Errors     kernel/src/error.rs: the conversion to the errors of a system call
--   NrProcess   kernel/src/nrproc.rs: `dispatch`, `dispatch_mut`; NrProcess/Calls: the calls that
--               submit an operation
--   KernelNode  kernel/src/nr.rs: `dispatch`, `dispatch_mut`, `allocate_core_to_process`
--   Fs/File     kernel/src/fs/file.rs: `write_file`, `read_file`, `increase_file_size`, `get_size`
--   Fs/Mnode    kernel/src/fs/mnode.rs: `new`, `read`, `write`, `file_truncate`
--   Fs/Mlnr     kernel/src/fs/mod.rs: `create`, `mkdir`, `write`, `read`, `lookup`, `file_info`,
--               `delete`, `truncate`, `rename`
--   Fs/Fd       kernel/src/fs/fd.rs: `allocate_fd`, `deallocate_fd`, `get_fd`
--   Fs/RwLock   kernel/src/fs/rwlock.rs: `write`, `read` and the unlocks, as steps of threads
--   Cnrfs       kernel/src/cnrfs.rs: `hash` of both kinds of operations, `dispatch`, `dispatch_mut`
--   Cnrfs/Calls kernel/src/cnrfs.rs: `add_process`, `map_fd`, `file_io` and the other calls that
--               submit an operation
--   Memory/Frame   kernel/src/memory/mod.rs: `Frame`, `split_at` and the iterator over pages
--   Memory/Action  kernel/src/memory/vspace.rs: `MapAction`, `to_pt_rights` and its inverse
--   Memory/Cores   kernel/src/memory/vspace.rs: `CoreBitMap` and `TlbFlushHandle`
--   Memory/MCache  kernel/src/memory/mcache.rs: `populate`, allocating, releasing, growing and
--                  reaping pages; Memory/ArrayVec is the interface of its vectors
--   Memory/Refill  kernel/src/memory/mod.rs: `size_to_pages`, `refill_amount`, `try_refill_tcache`, with
--                  `try_mem_manager` of kernel/src/kcb.rs, outside the kernel's panic mode
--   Memory/Emergency kernel/src/memory/emem.rs: `allocate_layout`, `refill`
--   Memory/DetAlloc  kernel/src/memory/detmem.rs: `alloc`
--   Mpmc        kernel/src/mpmc.rs: `with_capacity`, and `push` and `pop` as steps of threads
--   Memory/Model   kernel/src/memory/vspace_model.rs: `map_frame`, `adjust`, `resolve`, `unmap`
--   Prelude     lists, machine words, maps and outcomes that they share
-- The modules below each of these hold its laws, and Tests the runs at concrete inputs.
--
-- How code becomes definitions. A function of the source is a function of the same name, which
-- takes the state and gives the outcome and the state after it. An outcome is a value, an error of
-- `kernel/src/error.rs`, a panic, or `stuck` for a loop of the model without fuel. Numbers are
-- natural numbers; sums and differences of a caller's numbers wrap at 2^64, as in a release build. A
-- hash map is an association list. The allocator is the list of its answers to the requests of
-- fallible allocation: each call of the source that may run out of memory is one request, in the
-- order of the source.
--
-- Fuel. The loops of `read_file` and `write_file` have one unit for each byte; each round but the
-- first copies a whole buffer or what is left, and the first at least one byte, so it is enough. The
-- iterator over a frame, and the loops that fill a cache from it, have one unit for each page. The
-- check of user memory has one for each page of the range and one more, and the search for the next
-- power of two one for each bit.
--
-- Sharing. `Arc<Mnode>` is a number with the count of its owners: the map, and each handler that
-- looked the name up and has not finished. A handler runs as one step; what handlers of other logs
-- do meanwhile to the same node shows in that count alone.
--
-- Threads. The lock and the bounded queue are relations of steps, one for each access to shared
-- memory, under sequential consistency. The queue is followed as long as fewer pushes than a limit
-- below the number of words have claimed a position. The queues of `kernel/src/memory/detmem.rs` are
-- the first-in first-out queues that this gives, one call after another.
--
-- Interfaces. `ArrayVec` (arrayvec) and `BitField` (bit_field) are records of operations with what the
-- crates document of them. `Process` and `AddressSpace` are the traits of the source, which
-- `kernel/src/arch` implements for a machine. `Files`, `Spaces` and `Control` hold what a handler of a
-- system call uses of the machine, the process's memory and the replicas.
--
-- Locks. The operations above take the locks of the file system within themselves; that the lock
-- of `kernel/src/fs/rwlock.rs` excludes is a development of its own, over interleaved steps.
--
-- Not modelled: the replication library, whose order of steps is a parameter; page tables, the ELF
-- loader and the registers of processes, the zone allocator, interrupts
-- and drivers, the boot loader and the user-space libraries and programs. Reading a user's pointer and
-- encoding with serde_cbor are parameters; filling a new frame with zeros, the log and the debug
-- output have no counterpart.
pub mod Prelude
pub mod Kpi
pub mod Fs
pub mod Cnrfs
pub mod Memory
pub mod Mpmc
pub mod NrProcess
pub mod KernelNode
pub mod Syscall
