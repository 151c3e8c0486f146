-- ===== src/Cnrfs/Read.antt =====
-- `FileRead` of `kernel/src/cnrfs.rs` on every branch, down to the bytes of the file.
use node_replicated_kernel.Prelude.{
  ℕ, ◌≡◌, refl, Option-cases, Bool-cases, inl, inr, none, some, true, false, List, if◌then◌else◌,
  ◌==◌, add64, nat_eq,
}
use node_replicated_kernel.Prelude.Dict.{lookup}
use node_replicated_kernel.Prelude.Outcome.{
  Outcome, ok, err, panic, permission_error, invalid_file, no_process_found_for_pid,
}
use node_replicated_kernel.Kpi.Io.{is_read, is_readable}
use node_replicated_kernel.Fs.File.{File}
use node_replicated_kernel.Fs.File.Read.{content}
use node_replicated_kernel.Fs.Mnode.{MemNode}
use node_replicated_kernel.Fs.Mlnr.Inv.{Inv}
use node_replicated_kernel.Fs.Mlnr.Write.{IsFile, Refuses}
use node_replicated_kernel.Fs.Mlnr.Read.{
  ReadNode, missing, denied, bytes, read-ReadNode, count, copied,
}
use node_replicated_kernel.Fs.Fd.{Fd, FileDesc, get_fd}
use node_replicated_kernel.Fs.Fd.Slots.{get_fd-cases}
use node_replicated_kernel.Cnrfs.{
  MlnrKernelNode, View, NodeResult, file_accessed, no_offset, read_file, read_done, slot_of,
  process_or,
}
use node_replicated_kernel.Cnrfs.Descriptor.{IsOpen, Moved, advance-fs, advance-Moved}

-- Where a read starts.
abbrev pub reads_at : Fd → ℕ → ℕ
reads_at info offset = if offset == no_offset then info.offset else offset

-- Why a read gives no bytes.
pub data Unread (node : MlnrKernelNode) (pid fd : ℕ) : Outcome NodeResult → Type 0 where
  no_process :
      lookup pid node.process_map ≡ none → Unread node pid fd (err no_process_found_for_pid)
  out_of_range :
      (fds : FileDesc)
      → lookup pid node.process_map ≡ some fds
      → get_fd fds fd ≡ panic
      → Unread node pid fd panic
  closed :
      (fds : FileDesc)
      → lookup pid node.process_map ≡ some fds
      → get_fd fds fd ≡ ok none
      → Unread node pid fd (err permission_error)
  write_only :
      (fds : FileDesc) (info : Fd)
      → IsOpen node pid fd fds info
      → is_read info.flags ≡ false
      → Unread node pid fd (err permission_error)
  gone :
      (fds : FileDesc) (info : Fd)
      → IsOpen node pid fd fds info
      → lookup info.mnode node.fs.mnodes ≡ none
      → Unread node pid fd (err invalid_file)
  forbidden :
      (fds : FileDesc) (info : Fd) (n : MemNode)
      → IsOpen node pid fd fds info
      → lookup info.mnode node.fs.mnodes ≡ some n
      → Refuses node.fs info.mnode n is_readable
      → Unread node pid fd (err permission_error)

-- A read is refused and nothing changes; or the slice gets the bytes of the descriptor's file from
-- where the read starts, as many as there are and fit, the count is reported, and the descriptor moves
-- on by the count if no offset was given.
pub data Accessed (node : MlnrKernelNode) (pid fd : ℕ) (dst : List ℕ) (offset : ℕ)
    (r : Outcome NodeResult × View) : Type 0 where
  unread : Unread node pid fd r.0 → r.1 ≡ (node, dst) → Accessed node pid fd dst offset r
  accessed :
      (fds : FileDesc) (info : Fd) (n : MemNode) (f : File)
      → IsOpen node pid fd fds info
      → is_read info.flags ≡ true
      → IsFile node.fs info.mnode n f
      → is_readable f.modes ≡ true
      → r.0 ≡ ok (file_accessed (count (content f) dst (reads_at info offset)))
      → r.1.1 ≡ copied (content f) dst (reads_at info offset)
      → r.1.0.fs ≡ node.fs
      → Moved node r.1.0 pid fd fds info offset
          (add64 (reads_at info offset) (count (content f) dst (reads_at info offset)))
      → Accessed node pid fd dst offset r

module _ (node : MlnrKernelNode) (pid fd offset : ℕ) (dst : List ℕ) where
  read_done-Accessed :
      (fds : FileDesc) (info : Fd) (r : Outcome (ℕ × List ℕ))
      → IsOpen node pid fd fds info
      → is_read info.flags ≡ true
      → ReadNode node.fs info.mnode dst (reads_at info offset) r
      → Accessed node pid fd dst offset
          (read_done pid fd info offset (reads_at info offset) r (node, dst))
  unfolding read_done
  read_done-Accessed fds info r o allowed (missing e q) = rw q (unread (gone fds info o e) refl)
  read_done-Accessed fds info r o allowed (denied n e why q) =
      rw q (unread (forbidden fds info n o e why) refl)
  read_done-Accessed fds info r o allowed (bytes n f v a q) = rw q (
      accessed fds info n f o allowed v a refl refl (advance-fs pid fd info offset _ node)
        (advance-Moved node node.fs pid fd fds info offset _ o))

  -- On a file system with the invariant, `FileRead` fails and changes nothing only if the process, the
  -- descriptor or its node is missing, the descriptor is not for reading, or its node is a directory
  -- or a file whose modes forbid to read; or all allow it, and it copies the bytes of the descriptor's file, from the offset given or from where the
  -- descriptor stands, to the front of the user's slice, as many as there are
  -- and fit.
  pub read_file-Accessed :
      Inv node.fs → Accessed node pid fd dst offset (read_file pid fd offset (node, dst))
  unfolding read_file slot_of process_or
  read_file-Accessed i = elim (Option-cases (lookup pid node.process_map)) [
    | inl e ↦ rw (e, process_or) (unread (no_process e) refl)
    | inr (fds, e) ↦ elim (get_fd-cases fds fd) [
      | inl s ↦ rw (e, process_or, s) (unread (out_of_range fds e s) refl)
      | inr (none, s) ↦ rw (e, process_or, s) (unread (closed fds e s) refl)
      | inr (some info, s) ↦
          let o : IsOpen node pid fd fds info = record { here = e; slot = s } in
          elim (Bool-cases (is_read info.flags)) [
            | inr f ↦ rw (e, process_or, s, f) (unread (write_only fds info o f) refl)
            | inl t ↦
                rw (e, process_or, s, t)
                  (read_done-Accessed fds info _ o t
                    (read-ReadNode node.fs info.mnode i dst (reads_at info offset)))
          ]
    ]
  ]
