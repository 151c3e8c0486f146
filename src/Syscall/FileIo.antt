-- ===== src/Syscall/FileIo.antt =====
-- `handle_fileio` of `kernel/src/arch/x86_64/syscall.rs`: the file calls of a process. The process, its
-- address space, the replica of the file system and user memory are those of the record `Files`.
use node_replicated_kernel.Prelude.{ℕ, Bool, String, List, ◌==◌, if◌then◌else◌}
use node_replicated_kernel.Prelude.Outcome.{Outcome, ok, panic, Comp, chain, crash}
use node_replicated_kernel.Kpi.Io.{FileInfo}
use node_replicated_kernel.Kpi.Ops.{
  FileOperation, create, open_file, read, read_at, write, write_at, close, get_info, delete,
  write_direct, file_rename, mk_dir, unknown,
}
use node_replicated_kernel.Kpi.Ops
use node_replicated_kernel.Cnrfs.{Modify, Access, NodeResult, no_offset}
use node_replicated_kernel.Cnrfs.Calls.{
  map_fd, file_io, unmap_fd, call_info, call_delete, call_rename, call_mkdir,
}
use node_replicated_kernel.Syscall.UserMemory.{user_virt_addr_valid}

-- What a file call uses, in the state `S`: `direct` is `write` of the file system that the core has,
-- below node replication.
pub record Files (S : Type 0) : Type 0 where
  pub current_pid : S → Outcome ℕ
  pub resolve : S → ℕ → ℕ → Outcome (ℕ × ℕ)
  pub is_set : Bool
  pub execute_mut : Modify → Comp S NodeResult
  pub execute : Access → Comp S NodeResult
  pub userptr_to_str : ℕ → Outcome String
  pub user_slice : ℕ → ℕ → List ℕ
  pub store_info : ℕ → FileInfo → S → S
  pub direct : ℕ → List ℕ → ℕ → Comp S ℕ

module _ {S : Type 0} (k : Files S) where
  -- `user_virt_addr_valid(pid, base, size)?`.
  abbrev pub checked : ℕ → ℕ → ℕ → Comp S (ℕ × ℕ) → Comp S (ℕ × ℕ)
  checked pid base size f s = chain (user_virt_addr_valid (k.resolve s pid) base size, s) λ _. f

  abbrev pub io : FileOperation → ℕ → ℕ → ℕ → ℕ → ℕ → Comp S (ℕ × ℕ)
  io = file_io k.is_set k.execute_mut k.execute k.userptr_to_str k.user_slice k.store_info

  -- `WriteDirect`, which writes to the node 2.
  abbrev pub write_directly : ℕ → ℕ → ℕ → ℕ → Comp S (ℕ × ℕ)
  write_directly arg2 arg3 arg4 arg5 s =
      let offset = if arg5 == 0 then 0 else arg4 in
      if k.is_set
      then chain (k.direct 2 (k.user_slice arg2 arg3) offset s) (λ len s. (ok (len, 0), s))
      else (panic, s)

  -- The match of `handle_fileio`.
  unfoldable pub file_call : FileOperation → ℕ → ℕ → ℕ → ℕ → ℕ → Comp S (ℕ × ℕ)
  file_call create pid arg2 arg3 arg4 arg5 = crash
  file_call open_file pid arg2 arg3 arg4 arg5 = checked pid arg2 0 (
      map_fd k.is_set k.execute_mut k.execute k.userptr_to_str k.user_slice k.store_info pid arg2
        arg3 arg4)
  file_call read pid arg2 arg3 arg4 arg5 =
      checked pid arg3 arg4 (io read pid arg2 arg3 arg4 no_offset)
  file_call write pid arg2 arg3 arg4 arg5 =
      checked pid arg3 arg4 (io write pid arg2 arg3 arg4 no_offset)
  file_call read_at pid arg2 arg3 arg4 arg5 =
      checked pid arg3 arg4 (io read_at pid arg2 arg3 arg4 arg5)
  file_call write_at pid arg2 arg3 arg4 arg5 =
      checked pid arg3 arg4 (io write_at pid arg2 arg3 arg4 arg5)
  file_call close pid arg2 arg3 arg4 arg5 =
      unmap_fd k.is_set k.execute_mut k.execute k.userptr_to_str k.user_slice k.store_info pid arg2
  file_call get_info pid arg2 arg3 arg4 arg5 = checked pid arg2 0 (
      call_info k.is_set k.execute_mut k.execute k.userptr_to_str k.user_slice k.store_info pid arg2
        arg3)
  file_call delete pid arg2 arg3 arg4 arg5 = checked pid arg2 0 (
      call_delete k.is_set k.execute_mut k.execute k.userptr_to_str k.user_slice k.store_info pid
        arg2)
  file_call write_direct pid arg2 arg3 arg4 arg5 = write_directly arg2 arg3 arg4 arg5
  file_call file_rename pid arg2 arg3 arg4 arg5 = checked pid arg2 0 (
      checked pid arg3 0 (
        call_rename k.is_set k.execute_mut k.execute k.userptr_to_str k.user_slice k.store_info pid
          arg2 arg3))
  file_call mk_dir pid arg2 arg3 arg4 arg5 = checked pid arg2 0 (
      call_mkdir k.is_set k.execute_mut k.execute k.userptr_to_str k.user_slice k.store_info pid
        arg2 arg3)
  file_call unknown pid arg2 arg3 arg4 arg5 = crash

  unfoldable pub handle_fileio : ℕ → ℕ → ℕ → ℕ → ℕ → Comp S (ℕ × ℕ)
  handle_fileio arg1 arg2 arg3 arg4 arg5 s =
      let op = Ops.from arg1 in
      chain (k.current_pid s, s) λ pid. file_call op pid arg2 arg3 arg4 arg5
