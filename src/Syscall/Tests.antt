-- ===== src/Syscall/Tests.antt =====
-- The theorems on the system calls at small states.
use node_replicated_kernel.Prelude.{
  List, ℕ, ◌≡◌, refl, [], ◌∷◌, ◌++◌, ◌+◌, some, true, ltb, if◌then◌else◌, arith,
}
use node_replicated_kernel.Prelude.Outcome.{Outcome, ok, err, invalid_system_operation, not_mapped}
use node_replicated_kernel.Kpi.Ops
use node_replicated_kernel.Kpi.Ops.{write_at}
use node_replicated_kernel.Kpi.Calls
use node_replicated_kernel.Kpi.Calls.{Registers}
use node_replicated_kernel.Cnrfs
use node_replicated_kernel.Cnrfs.{synchronized}
use node_replicated_kernel.Syscall.UserMemory.{
  user_virt_addr_valid, Valid, user_virt_addr_valid-Valid,
}
use node_replicated_kernel.Syscall.FileIo.{Files, io, handle_fileio}
use node_replicated_kernel.Syscall.Handle.{Handlers}
use node_replicated_kernel.Syscall.Reports.{Told, enter, file_calls-Told}
use node_replicated_kernel.Syscall.Print.{Printer, output, joined, print_all}
use node_replicated_kernel.Syscall.Print.Lines.{AllPrinted, print_all-AllPrinted}
use node_replicated_kernel.Syscall.Vspace.{Spaces, map_memory}
use node_replicated_kernel.Memory.Refill.{mem}
use node_replicated_kernel.Syscall.Mapped.{Rounded, map_memory-Rounded}
use node_replicated_kernel.Memory.Frame.{Frame}
use node_replicated_kernel.NrProcess.{mapped}
use node_replicated_kernel.NrProcess.Answers.{Value}
use node_replicated_kernel.Syscall.Guard.{Guarded, handle_fileio-Guarded, offset_of}

-- The first MiB is mapped to itself.
abbrev first_mib : ℕ → Outcome (ℕ × ℕ)
first_mib a = if ltb a 1048576 then ok (a, 0) else err not_mapped

user_virt_addr_valid-Valid_example :
    Valid first_mib 4000 9000 (user_virt_addr_valid first_mib 4000 9000)
user_virt_addr_valid-Valid_example =
    user_virt_addr_valid-Valid first_mib 4000 9000 (omega arith) (omega arith)

-- The process 1 with the file system of `Cnrfs`, of which it reads nothing.
abbrev small_files : Files Cnrfs.Store
small_files = record {
  current_pid = λ s. ok 1;
  resolve = λ s pid. first_mib;
  is_set = true;
  execute_mut = Cnrfs.dispatch_mut;
  execute = λ op s. (ok synchronized, s);
  userptr_to_str = λ p. ok "a";
  user_slice = λ p len. [];
  store_info = λ p info s. s;
  direct = λ mnode buffer offset s. (ok 0, s);
}

handle_fileio-Guarded_example :
    Guarded small_files 1 4000 9000
      (io small_files write_at 1 0 4000 9000 (offset_of write_at 7))
      (Cnrfs.default, [])
      (handle_fileio small_files (Ops.code write_at) 0 4000 9000 7 (Cnrfs.default, []))
handle_fileio-Guarded_example =
    handle_fileio-Guarded small_files write_at 1 0 4000 9000 7 (Cnrfs.default, []) tt refl
      (omega arith) (omega arith)

-- File calls as they are, and calls of the other kinds that answer with their arguments or refuse.
abbrev small_handlers : Handlers Cnrfs.Store
small_handlers = record {
  handle_system = λ a b c s. (err (invalid_system_operation a), s);
  handle_process = λ a b c s. (ok (b, c), s);
  handle_vspace = λ a b c s. (ok (b, c), s);
  handle_fileio = handle_fileio small_files;
}

abbrev no_registers : Registers
no_registers = record { error_code = 0; ret1 = 0; ret2 = 0 }

file_calls-Told_example :
    Told
      (λ v. v.0)
      (handle_fileio small_files (Ops.code Ops.open_file) 64 0x202 7 3 (Cnrfs.default, []))
      (Calls.open_file (enter small_handlers 3) 3 64 0x202 7 (no_registers, (Cnrfs.default, [])))
    × Told
        (λ v. v.0)
        (handle_fileio small_files (Ops.code write_at) 0 4000 9000 3 (Cnrfs.default, []))
        (Calls.fileio
          (enter small_handlers 3)
          3
          write_at
          0
          4000
          9000
          (no_registers, (Cnrfs.default, [])))
    × Told
        (λ v. v.0)
        (handle_fileio small_files (Ops.code write_at) 0 4000 9000 7 (Cnrfs.default, []))
        (Calls.fileio_at
          (enter small_handlers 3)
          3
          write_at
          0
          4000
          9000
          7
          (no_registers, (Cnrfs.default, [])))
    × Told
        (λ v. 0)
        (handle_fileio small_files (Ops.code Ops.file_rename) 64 96 3 3 (Cnrfs.default, []))
        (Calls.rename (enter small_handlers 3) 3 64 96 (no_registers, (Cnrfs.default, [])))
    × Told
        (λ v. 0)
        (handle_fileio small_files (Ops.code Ops.mk_dir) 64 7 3 3 (Cnrfs.default, []))
        (Calls.mkdir_simple (enter small_handlers 3) 3 64 7 (no_registers, (Cnrfs.default, [])))
file_calls-Told_example =
    file_calls-Told small_handlers 3 write_at no_registers (Cnrfs.default, []) 64 96 0x202 7 0 4000
      9000 7 (λ e. omega arith) (λ e. omega arith)

abbrev two_strings : List (List ℕ)
two_strings = (97 ∷ 98 ∷ []) ∷ (99 ∷ 10 ∷ 100 ∷ []) ∷ []

abbrev nothing_waits : Printer
nothing_waits = record { print_buffer = some []; printed = [] }

print_all-AllPrinted_example :
    AllPrinted two_strings nothing_waits (print_all two_strings nothing_waits)
    × (output (print_all two_strings nothing_waits) ≡ output nothing_waits ++ joined two_strings)
print_all-AllPrinted_example = print_all-AllPrinted two_strings nothing_waits

abbrev frame_at : ℕ → ℕ → Frame
frame_at base size = record { base = base; size = size; affinity = 0 }

-- The state is the address that the allocator gives next.
abbrev bump : Spaces ℕ (Unit {0}) (Unit {0}) (Unit {0})
bump = record {
  current_pid = λ s. ok 1;
  node = λ s. 0;
  try_with_capacity = λ n s. (ok tt, s);
  try_refill_tcache = λ bp lp mem_type s. (ok tt, s);
  allocate_base_page = λ mem_type s. (ok (frame_at s 4096), s + 4096);
  allocate_large_page = λ mem_type s. (ok (frame_at s 2097152), s + 2097152);
  execute_mut = λ pid op s. (ok mapped, s);
  execute = λ pid op s. (ok mapped, s);
  shootdown = λ h s. (ok tt, s);
}

map_memory-Rounded_example : Value (Rounded 5000) (map_memory bump mem 1 1048576 5000 4194304).0
map_memory-Rounded_example =
    map_memory-Rounded bump mem 1 1048576 5000 4194304 (omega arith) (λ s. refl) (λ s. refl)
