-- ===== src/Cnrfs.antt =====
-- `MlnrKernelNode` of `kernel/src/cnrfs.rs`: the replicated state of the file system, and the
-- dispatch of the operations in the log. User memory is a parameter: a name that a pointer of the
-- user names, or the error of reading it. An `i64` offset is its bit pattern.
pub mod Logs
pub mod Inv
pub mod Open
pub mod Descriptor
pub mod Calls
pub mod Answers
pub mod Write
pub mod Read
mod Reach
mod Tests
use node_replicated_kernel.Prelude.{
  ℕ, ◌+◌, ◌-◌, ◌%◌, zero, suc, String, Bool, true, false, not, ◌&&◌, ◌==◌, if◌then◌else◌, is_some,
  Option, none, some, List, [], ◌∷◌, ◌++◌, length, set, add64, sub64, word, nat_eq, string_eq,
}
use node_replicated_kernel.Prelude.Dict.{lookup, insert, remove}
use node_replicated_kernel.Prelude.Outcome.{
  Outcome, ok, err, panic, stuck, KError, permission_error, not_supported, invalid_file,
  no_process_found_for_pid, file_desc_for_pid_already_added, no_file_desc_for_pid, Comp, chain,
  ◌>>=◌, ◌>>◌, give, fail, Heap, request, and_then,
}
use node_replicated_kernel.Kpi.Io.{
  FileInfo, flags_from, is_read, is_write, is_create, is_truncate, is_append,
}
use node_replicated_kernel.Fs.Mlnr
use node_replicated_kernel.Fs.Mlnr.{MlnrFs, mnode_offset}
use node_replicated_kernel.Fs.Fd
use node_replicated_kernel.Fs.Fd.{
  FileDesc, update_fd, update_offset, allocate_fd, deallocate_fd, get_fd,
}

pub record MlnrKernelNode : Type 0 where
  pub process_map : List (ℕ × FileDesc)
  pub fs : MlnrFs

abbrev pub Store : Type 0
Store = MlnrKernelNode × Heap

unfoldable pub default : MlnrKernelNode
default = record { process_map = []; fs = Mlnr.default }

-- The operations that change the node, and those that read it; numbers are those of processes,
-- descriptors, nodes and user addresses.
pub data Modify : Type 0 where
  process_add : ℕ → Modify
  process_remove : ℕ → Modify
  file_open : ℕ → String → ℕ → ℕ → Modify
  file_write : ℕ → ℕ → ℕ → List ℕ → ℕ → ℕ → Modify
  file_close : ℕ → ℕ → Modify
  file_delete : ℕ → String → Modify
  file_rename : ℕ → String → String → Modify
  mk_dir : ℕ → String → ℕ → Modify

-- `FileRead` has the user's slice in place of its address.
pub data Access : Type 0 where
  file_read : ℕ → ℕ → ℕ → List ℕ → ℕ → ℕ → Access
  file_info : ℕ → ℕ → ℕ → ℕ → Access
  fd_to_mnode : ℕ → ℕ → Access
  file_name_to_mnode : ℕ → ℕ → Access
  synchronize : ℕ → Access

pub data NodeResult : Type 0 where
  process_added : ℕ → NodeResult
  process_removed : ℕ → NodeResult
  file_opened : ℕ → NodeResult
  file_accessed : ℕ → NodeResult
  file_closed : ℕ → NodeResult
  file_deleted : NodeResult
  info_found : FileInfo → NodeResult
  file_renamed : NodeResult
  dir_created : NodeResult
  mapped_file_to_mnode : ℕ → NodeResult
  synchronized : NodeResult

-- `-1` as an `i64`.
abbrev pub no_offset : ℕ
no_offset = word - 1

pub push_to_all : ℕ → List ℕ → List ℕ
push_to_all zero logs = logs
push_to_all (suc n) logs = push_to_all n logs ++ n ∷ []

-- `LogMapper::hash`: the logs that an operation goes to, of `nlogs`.
pub logs_of_modify : ℕ → Modify → List ℕ
logs_of_modify nlogs (process_add pid) = push_to_all nlogs []
logs_of_modify nlogs (process_remove pid) = push_to_all nlogs []
logs_of_modify nlogs (file_open pid filename flags modes) = push_to_all nlogs []
logs_of_modify nlogs (file_write pid fd mnode buffer len offset) =
    sub64 mnode mnode_offset % nlogs ∷ []
logs_of_modify nlogs (file_close pid fd) = push_to_all nlogs []
logs_of_modify nlogs (file_delete pid filename) = push_to_all nlogs []
logs_of_modify nlogs (file_rename pid oldname newname) = push_to_all nlogs []
logs_of_modify nlogs (mk_dir pid filename modes) = push_to_all nlogs []

pub logs_of_access : ℕ → Access → List ℕ
logs_of_access nlogs (file_read pid fd mnode buffer len offset) =
    sub64 mnode mnode_offset % nlogs ∷ []
logs_of_access nlogs (file_info pid name mnode info_ptr) = sub64 mnode mnode_offset % nlogs ∷ []
logs_of_access nlogs (fd_to_mnode pid fd) = 0 ∷ []
logs_of_access nlogs (file_name_to_mnode pid name) = 0 ∷ []
logs_of_access nlogs (synchronize log_id) = sub64 log_id 1 % nlogs ∷ []

-- An action on the file system, and a new list of slots of a process.
abbrev pub on_fs : {A : Type 0} → MlnrKernelNode → Outcome A × Mlnr.Store → Outcome A × Store
on_fs node (r, (fs, h)) = (r, (record node { fs = fs }, h))

abbrev pub set_slots : MlnrKernelNode → ℕ → FileDesc → MlnrKernelNode
set_slots node pid fds = record node { process_map = insert pid fds node.process_map }

-- `Modify::ProcessAdd`.
pub add_process : ℕ → Comp Store NodeResult
add_process pid (node, h) = chain (let (r, h') = request h in (r, (node, h'))) λ _ (node, h).
    if is_some (lookup pid node.process_map)
    then (err file_desc_for_pid_already_added, (node, h))
    else (ok (process_added pid), (set_slots node pid Fd.default, h))

-- `Modify::ProcessRemove`.
pub remove_process : ℕ → Comp Store NodeResult
remove_process pid (node, h) =
    if is_some (lookup pid node.process_map)
    then (ok (process_removed pid), (record node { process_map = remove pid node.process_map }, h))
    else (err no_file_desc_for_pid, (node, h))

-- The number of the node that `FileOpen` opens: that of the name, whose file is cut to length zero
-- if the flags say so, or that of a new file.
pub open_node : Option ℕ → String → ℕ → ℕ → Comp Mlnr.Store ℕ
open_node (some m) filename flags modes (fs, h) =
    if is_truncate flags
    then (let (r, fs') = Mlnr.truncate filename fs in chain (r, (fs', h)) (λ _. give m))
    else (ok m, (fs, h))
open_node none filename flags modes s = Mlnr.create filename modes s

-- The slot that was allocated is set, or on an error given back.
pub settle : ℕ → ℕ → ℕ → FileDesc → Outcome ℕ × Store → Outcome NodeResult × Store
settle pid fid flags fds (ok m, (node, h)) = (
  ok (file_opened fid),
  (set_slots node pid (set fds fid (some (update_fd Fd.default_fd m flags))), h),
)
settle pid fid flags fds (err e, (node, h)) =
    let (r, fds') = deallocate_fd fds fid in (and_then r (λ _. err e), (set_slots node pid fds', h))
settle pid fid flags fds (panic, s) = (panic, s)
settle pid fid flags fds (stuck, s) = (stuck, s)

pub open_slot : ℕ → Option ℕ → String → ℕ → ℕ → Option (ℕ × FileDesc) → Comp Store NodeResult
open_slot pid mnode filename flags modes none s = (err not_supported, s)
open_slot pid mnode filename flags modes (some (fid, fds)) (node, h) =
    settle pid fid flags fds (on_fs node (open_node mnode filename flags modes (node.fs, h)))

pub open_process : ℕ → Option ℕ → String → ℕ → ℕ → Option FileDesc → Comp Store NodeResult
open_process pid mnode filename flags modes none s = (panic, s)
open_process pid mnode filename flags modes (some fds) s =
    open_slot pid mnode filename flags modes (allocate_fd fds) s

-- The end of the handler: what it looked up is dropped.
pub drop_found : Option ℕ → String → MlnrKernelNode → MlnrKernelNode
drop_found none filename node = node
drop_found (some m) filename node = record node { fs = Mlnr.drop_name filename node.fs }

-- `Modify::FileOpen`, the name looked up.
pub open_found : ℕ → Option ℕ → String → ℕ → ℕ → Comp Store NodeResult
open_found pid mnode filename flags modes (node, h) =
    if not (is_some mnode) && not (is_create flags)
    then (err permission_error, (node, h))
    else open_process pid mnode filename flags modes (lookup pid node.process_map) (node, h)

pub open_file : ℕ → String → ℕ → ℕ → Comp Store NodeResult
open_file pid filename flags modes (node, h) =
    let (mnode, fs) = Mlnr.lookup_name filename node.fs in
    let (r, (node', h')) =
      open_found pid mnode filename (flags_from flags) modes (record node { fs = fs }, h) in
    (r, (drop_found mnode filename node', h'))

-- The descriptor `fd` of a process that must be there.
pub slot_of : Outcome FileDesc → ℕ → Outcome Fd.Fd
slot_of p fd = and_then p λ fds.
    and_then (get_fd fds fd) λ slot. elim slot [ some info ↦ ok info | none ↦ err permission_error ]

pub process_or : Outcome FileDesc → Option FileDesc → Outcome FileDesc
process_or other none = other
process_or other (some fds) = ok fds

-- The descriptor's offset moves on, unless the operation gave one.
pub advance : ℕ → ℕ → Fd.Fd → ℕ → ℕ → MlnrKernelNode → MlnrKernelNode
advance pid fd info offset new_offset node = elim (lookup pid node.process_map) [
  | some fds ↦
      if offset == no_offset
      then set_slots node pid (set fds fd (some (update_offset info new_offset)))
      else node
  | none ↦ node
]

-- Where a write goes: to the offset given, at the end of the file, or where the descriptor stands.
pub write_offset : MlnrFs → Fd.Fd → ℕ → Outcome ℕ
write_offset fs info offset =
    if offset == no_offset
    then (if is_append info.flags
        then and_then (Mlnr.file_info fs info.mnode) (λ finfo. ok finfo.fsize)
        else ok info.offset)
    else ok offset

-- What a write or read of `len` bytes reports.
pub accessed : ℕ → ℕ → Fd.Fd → ℕ → ℕ → Outcome ℕ × Store → Outcome NodeResult × Store
accessed pid fd info offset curr (ok len, (node, h)) =
    (ok (file_accessed len), (advance pid fd info offset (add64 curr len) node, h))
accessed pid fd info offset curr (err e, s) = (err e, s)
accessed pid fd info offset curr (panic, s) = (panic, s)
accessed pid fd info offset curr (stuck, s) = (stuck, s)

-- The write, once its offset is known, and once the descriptor is.
pub write_at : ℕ → ℕ → Fd.Fd → List ℕ → ℕ → ℕ → Comp Store NodeResult
write_at pid fd info buffer offset curr (node, h) =
    accessed pid fd info offset curr (on_fs node (Mlnr.write info.mnode buffer curr (node.fs, h)))

pub write_checked : ℕ → ℕ → List ℕ → ℕ → Fd.Fd → Comp Store NodeResult
write_checked pid fd buffer offset info (node, h) =
    if is_write info.flags
    then chain (write_offset node.fs info offset, (node, h)) (write_at pid fd info buffer offset)
    else (err permission_error, (node, h))

-- `Modify::FileWrite`.
pub write_file : ℕ → ℕ → List ℕ → ℕ → Comp Store NodeResult
write_file pid fd buffer offset (node, h) =
    let found = process_or panic (lookup pid node.process_map) in
    chain (slot_of found fd, (node, h)) (write_checked pid fd buffer offset)

-- `Modify::FileClose`.
pub close_file : ℕ → ℕ → Comp Store NodeResult
close_file pid fd (node, h) = elim (lookup pid node.process_map) [
  | some fds ↦
      let (r, fds') = deallocate_fd fds fd in
      (and_then r (λ _. ok (file_closed fd)), (set_slots node pid fds', h))
  | none ↦ (panic, (node, h))
]

-- The process must be there.
pub for_process : {A : Type 0} → ℕ → Comp Store A → Comp Store A
for_process pid k (node, h) =
    if is_some (lookup pid node.process_map)
    then k (node, h)
    else (err no_process_found_for_pid, (node, h))

abbrev pub report : NodeResult → Outcome (Unit {0}) × Store → Outcome NodeResult × Store
report result (r, s) = (and_then r (λ _. ok result), s)

pub delete_file : String → Comp Store NodeResult
delete_file filename (node, h) =
    let (r, fs) = Mlnr.delete filename node.fs in
    report file_deleted (r, (record node { fs = fs }, h))

pub rename_file : String → String → Comp Store NodeResult
rename_file oldname newname (node, h) =
    report file_renamed (on_fs node (Mlnr.rename oldname newname (node.fs, h)))

pub make_dir : String → ℕ → Comp Store NodeResult
make_dir filename modes (node, h) =
    report dir_created (on_fs node (Mlnr.mkdir filename modes (node.fs, h)))

-- `dispatch_mut`.
pub dispatch_mut : Modify → Comp Store NodeResult
dispatch_mut (process_add pid) s = add_process pid s
dispatch_mut (process_remove pid) s = remove_process pid s
dispatch_mut (file_open pid filename flags modes) s = open_file pid filename flags modes s
dispatch_mut (file_write pid fd mnode buffer len offset) s = write_file pid fd buffer offset s
dispatch_mut (file_close pid fd) s = close_file pid fd s
dispatch_mut (file_delete pid filename) s = for_process pid (delete_file filename) s
dispatch_mut (file_rename pid oldname newname) s = for_process pid (rename_file oldname newname) s
dispatch_mut (mk_dir pid filename modes) s = for_process pid (make_dir filename modes) s

-- A node, and the user's slice that a read fills.
abbrev pub View : Type 0
View = MlnrKernelNode × List ℕ

-- What a read of the file leaves of the slice and of the descriptor's offset.
pub read_done : ℕ → ℕ → Fd.Fd → ℕ → ℕ → Outcome (ℕ × List ℕ) → Comp View NodeResult
read_done pid fd info offset curr (ok (len, buffer)) (node, _) =
    (ok (file_accessed len), (advance pid fd info offset (add64 curr len) node, buffer))
read_done pid fd info offset curr (err e) s = (err e, s)
read_done pid fd info offset curr panic s = (panic, s)
read_done pid fd info offset curr stuck s = (stuck, s)

-- `Access::FileRead`.
pub read_file : ℕ → ℕ → ℕ → Comp View NodeResult
read_file pid fd offset (node, buffer) =
    let found = process_or (err no_process_found_for_pid) (lookup pid node.process_map) in
    chain (slot_of found fd, (node, buffer))
      λ info (node, buffer).
        let curr = if offset == no_offset then info.offset else offset in
        if is_read info.flags
        then read_done pid fd info offset curr (Mlnr.read node.fs info.mnode buffer curr)
            (node, buffer)
        else (err permission_error, (node, buffer))

pub mnode_of_fd : ℕ → ℕ → MlnrKernelNode → Outcome NodeResult
mnode_of_fd pid fd node =
    let found = process_or (err no_process_found_for_pid) (lookup pid node.process_map) in
    and_then (slot_of found fd) λ info. ok (mapped_file_to_mnode info.mnode)

-- The number of a name, which the handler owns for as long as it runs.
pub with_name :
    String
    → MlnrKernelNode
    → (MlnrKernelNode → Option ℕ → Outcome NodeResult)
    → Outcome NodeResult × MlnrKernelNode
with_name filename node k =
    let (mnode, fs) = Mlnr.lookup_name filename node.fs in
    let node' = record node { fs = fs } in (k node' mnode, drop_found mnode filename node')

-- Answers by number.
abbrev pub info_answer : MlnrKernelNode → Option ℕ → Outcome NodeResult
info_answer node none = err invalid_file
info_answer node (some m) = and_then (Mlnr.file_info node.fs m) λ i. ok (info_found i)

abbrev pub name_answer : MlnrKernelNode → Option ℕ → Outcome NodeResult
name_answer node none = err invalid_file
name_answer node (some m) = ok (mapped_file_to_mnode m)

abbrev pub named :
    {A : Type 0}
    → Outcome String
    → (String → Outcome A × MlnrKernelNode)
    → MlnrKernelNode
    → Outcome A × MlnrKernelNode
named (ok s) k node = k s
named (err e) k node = (err e, node)
named panic k node = (panic, node)
named stuck k node = (stuck, node)

module _ (userptr_to_str : ℕ → Outcome String) where
  -- `Access::FileInfo` and `Access::FileNameToMnode`.
  pub by_name :
      ℕ
      → ℕ
      → (MlnrKernelNode → Option ℕ → Outcome NodeResult)
      → MlnrKernelNode
      → Outcome NodeResult × MlnrKernelNode
  by_name pid name answer node =
      if is_some (lookup pid node.process_map)
      then named (userptr_to_str name) (λ filename. with_name filename node answer) node
      else (err no_process_found_for_pid, node)

  -- `dispatch`.
  pub dispatch : Access → MlnrKernelNode → Outcome NodeResult × View
  dispatch (file_read pid fd mnode buffer len offset) node = read_file pid fd offset (node, buffer)
  dispatch (file_info pid name mnode info_ptr) node =
      let (r, node') = by_name pid name info_answer node in (r, (node', []))
  dispatch (fd_to_mnode pid fd) node = (mnode_of_fd pid fd node, (node, []))
  dispatch (file_name_to_mnode pid name) node =
      let (r, node') = by_name pid name name_answer node in (r, (node', []))
  dispatch (synchronize log_id) node = (ok synchronized, (node, []))
