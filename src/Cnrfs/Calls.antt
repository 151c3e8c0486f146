-- ===== src/Cnrfs/Calls.antt =====
-- The calls of `kernel/src/cnrfs.rs` that submit an operation to the replica of this core. The
-- replica, and user memory, are parameters: `execute_mut` and `execute` run an operation and give its
-- response, and `is_set` says whether the core has a replica.
use node_replicated_kernel.Prelude.{ℕ, String, Bool, if◌then◌else◌, Option, none, some, List}
use node_replicated_kernel.Prelude.Outcome.{
  Outcome, ok, err, panic, stuck, replica_not_set, invalid_file_descriptor, Comp, chain,
}
use node_replicated_kernel.Kpi.Io.{FileInfo}
use node_replicated_kernel.Kpi.Ops.{FileOperation, write, write_at, read, read_at}
use node_replicated_kernel.Cnrfs.{
  Modify, process_add, file_open, file_write, file_close, file_delete, file_rename, mk_dir, Access,
  file_read, file_info, fd_to_mnode, file_name_to_mnode, synchronize, NodeResult, process_added,
  file_opened, file_accessed, file_closed, file_deleted, info_found, file_renamed, dir_created,
  mapped_file_to_mnode, synchronized,
}

-- The response that a call reports; any other is `unreachable!`.
abbrev pub reported : Modify → NodeResult → Option (ℕ × ℕ)
reported (process_add pid) (process_added p) = some (p, 0)
reported (file_open pid filename flags modes) (file_opened fd) = some (fd, 0)
reported (file_write pid fd mnode buffer len offset) (file_accessed n) = some (n, 0)
reported (file_close pid fd) (file_closed _) = some (0, 0)
reported (file_delete pid filename) file_deleted = some (0, 0)
reported (file_rename pid oldname newname) file_renamed = some (0, 0)
reported (mk_dir pid filename modes) dir_created = some (0, 0)
reported _ _ = none

abbrev pub looked_up : Access → NodeResult → Option (ℕ × ℕ)
looked_up (file_read pid fd mnode buffer len offset) (file_accessed n) = some (n, 0)
looked_up (fd_to_mnode pid fd) (mapped_file_to_mnode m) = some (m, 0)
looked_up (file_name_to_mnode pid name) (mapped_file_to_mnode m) = some (m, 0)
looked_up (synchronize log_id) synchronized = some (0, 0)
looked_up _ _ = none

abbrev pub or_unreachable {ℓ} : {A : Type ℓ} → Option A → Outcome A
or_unreachable (some a) = ok a
or_unreachable none = panic

abbrev pub respond :
    {S : Type 0} → (NodeResult → Option (ℕ × ℕ)) → Outcome NodeResult × S → Outcome (ℕ × ℕ) × S
respond f (ok r, s) = (or_unreachable (f r), s)
respond f (err e, s) = (err e, s)
respond f (panic, s) = (panic, s)
respond f (stuck, s) = (stuck, s)

abbrev pub info_of : NodeResult → Option FileInfo
info_of (info_found f_info) = some f_info
info_of _ = none

module _ {S : Type 0} (is_set : Bool) (execute_mut : Modify → Comp S NodeResult)
    (execute : Access → Comp S NodeResult) (userptr_to_str : ℕ → Outcome String)
    (user_slice : ℕ → ℕ → List ℕ) (store_info : ℕ → FileInfo → S → S) where
  -- With a replica, or `ReplicaNotSet`.
  abbrev pub with_replica : {A : Type 0} → Comp S A → Comp S A
  with_replica k s = if is_set then k s else (err replica_not_set, s)

  abbrev pub submit : Modify → Comp S (ℕ × ℕ)
  submit op s = respond (reported op) (execute_mut op s)

  abbrev pub ask : Access → Comp S (ℕ × ℕ)
  ask op s = respond (looked_up op) (execute op s)

  pub add_process : ℕ → Comp S (ℕ × ℕ)
  add_process pid = with_replica (submit (process_add pid))

  pub map_fd : ℕ → ℕ → ℕ → ℕ → Comp S (ℕ × ℕ)
  map_fd pid pathname flags modes = with_replica λ s.
      chain (userptr_to_str pathname, s) λ filename. submit (file_open pid filename flags modes)

  pub call_fd_to_mnode : ℕ → ℕ → Comp S (ℕ × ℕ)
  call_fd_to_mnode pid fd = with_replica (ask (fd_to_mnode pid fd))

  pub filename_to_mnode : ℕ → ℕ → Comp S (ℕ × ℕ)
  filename_to_mnode pid filename = with_replica (ask (file_name_to_mnode pid filename))

  -- `file_io`, once the node of the descriptor is known.
  pub io_at : FileOperation → ℕ → ℕ → ℕ → ℕ → ℕ → ℕ → Comp S (ℕ × ℕ)
  io_at write pid fd buffer len offset mnode =
      with_replica (submit (file_write pid fd mnode (user_slice buffer len) len offset))
  io_at write_at pid fd buffer len offset mnode =
      with_replica (submit (file_write pid fd mnode (user_slice buffer len) len offset))
  io_at read pid fd buffer len offset mnode =
      with_replica (ask (file_read pid fd mnode (user_slice buffer len) len offset))
  io_at read_at pid fd buffer len offset mnode =
      with_replica (ask (file_read pid fd mnode (user_slice buffer len) len offset))
  io_at _ pid fd buffer len offset mnode = with_replica λ s. (panic, s)

  -- Every error of the look-up is answered by `InvalidFileDescriptor`.
  abbrev pub io_found : Outcome (ℕ × ℕ) × S → (ℕ → Comp S (ℕ × ℕ)) → Outcome (ℕ × ℕ) × S
  io_found (ok (mnode, _), s) k = k mnode s
  io_found (err e, s) k = (err invalid_file_descriptor, s)
  io_found (panic, s) k = (panic, s)
  io_found (stuck, s) k = (stuck, s)

  pub file_io : FileOperation → ℕ → ℕ → ℕ → ℕ → ℕ → Comp S (ℕ × ℕ)
  file_io op pid fd buffer len offset s =
      io_found (call_fd_to_mnode pid fd s) (io_at op pid fd buffer len offset)

  pub unmap_fd : ℕ → ℕ → Comp S (ℕ × ℕ)
  unmap_fd pid fd = with_replica (submit (file_close pid fd))

  pub call_delete : ℕ → ℕ → Comp S (ℕ × ℕ)
  call_delete pid name =
      with_replica λ s. chain (userptr_to_str name, s) λ filename. submit (file_delete pid filename)

  -- What is found goes to user memory.
  abbrev pub info_response : ℕ → Outcome NodeResult × S → Outcome (ℕ × ℕ) × S
  info_response info_ptr (ok r, s) = elim (info_of r) [
    | some f_info ↦ (ok (0, 0), store_info info_ptr f_info s)
    | none ↦ (panic, s)
  ]
  info_response info_ptr (err e, s) = (err e, s)
  info_response info_ptr (panic, s) = (panic, s)
  info_response info_ptr (stuck, s) = (stuck, s)

  pub call_info : ℕ → ℕ → ℕ → Comp S (ℕ × ℕ)
  call_info pid name info_ptr s = chain (filename_to_mnode pid name s) λ found.
      with_replica λ s. info_response info_ptr (execute (file_info pid name found.0 info_ptr) s)

  pub call_rename : ℕ → ℕ → ℕ → Comp S (ℕ × ℕ)
  call_rename pid oldname newname = with_replica λ s.
      chain (userptr_to_str oldname, s)
        λ oldfilename s.
          chain (userptr_to_str newname, s)
            λ newfilename. submit (file_rename pid oldfilename newfilename)

  pub call_mkdir : ℕ → ℕ → ℕ → Comp S (ℕ × ℕ)
  call_mkdir pid pathname modes =
      with_replica
        λ s. chain (userptr_to_str pathname, s) λ filename. submit (mk_dir pid filename modes)

  pub synchronize_log : ℕ → Comp S (ℕ × ℕ)
  synchronize_log log_id = with_replica (ask (synchronize log_id))
