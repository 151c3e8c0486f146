-- ===== src/Cnrfs/Inv.antt =====
-- The file system of a node of `kernel/src/cnrfs.rs` keeps its invariant under every operation.
use node_replicated_kernel.Prelude.{
  ℕ, ◌+◌, ◌<◌, String, ◌≡◌, refl, inl, inr, Option, none, some, Bool-cases, List, length, add64,
  word, is_some, not, ◌&&◌, arith, nat_eq,
}
use node_replicated_kernel.Prelude.Dict.{lookup}
use node_replicated_kernel.Prelude.Outcome.{
  Outcome, ok, err, panic, stuck, chain, Heap, request_cases,
}
use node_replicated_kernel.Kpi.Io.{is_truncate, is_create, is_write, flags_from}
use node_replicated_kernel.Fs.Mlnr
use node_replicated_kernel.Fs.Mlnr.Inv.{Inv}
use node_replicated_kernel.Fs.Mlnr.Keep.{
  create-Inv, mkdir-Inv, write-Inv, truncate-Inv, rename-Inv, delete-Inv, lookup_name-Inv,
  drop_name-Inv, lookup_name-next,
}
use node_replicated_kernel.Fs.Fd.{Fd, FileDesc, allocate_fd}
use node_replicated_kernel.Cnrfs.Descriptor.{advance-fs}
use node_replicated_kernel.Cnrfs.{
  MlnrKernelNode, Modify, process_add, process_remove, file_open, file_write, file_close,
  file_delete, file_rename, mk_dir, Store, dispatch_mut, add_process, remove_process, open_file,
  open_found, open_process, open_slot, open_node, settle, drop_found, write_file, write_checked,
  write_at, write_offset, slot_of, process_or, accessed, close_file, for_process, delete_file,
  rename_file, make_dir,
}

-- No write of the operation ends beyond the last offset of a word.
abbrev pub Fits : Modify → MlnrKernelNode → Type 0
Fits (file_write pid fd mnode buffer len offset) node =
    (curr : ℕ) (info : Fd)
    → slot_of (process_or panic (lookup pid node.process_map)) fd ≡ ok info
    → write_offset node.fs info offset ≡ ok curr
    → curr + length buffer < word
Fits _ node = Unit

abbrev Kept : {A : Type 0} → Outcome A × Store → Type 0
Kept r = Inv r.1.0.fs

settle-Kept :
    (pid fid flags : ℕ) (fds : FileDesc) (r : Outcome ℕ × Store)
    → Kept r
    → Kept (settle pid fid flags fds r)
unfolding settle
settle-Kept pid fid flags fds (ok m, (node, h)) i = i
settle-Kept pid fid flags fds (err e, (node, h)) i = i
settle-Kept pid fid flags fds (panic, s) i = i
settle-Kept pid fid flags fds (stuck, s) i = i

given-Inv :
    (r : Outcome (Unit {0}) × Mlnr.MlnrFs) (h : Heap) (m : ℕ)
    → Inv r.1
    → Inv (chain {S = Mlnr.Store} (r.0, (r.1, h)) (λ _ s. (ok m, s))).1.0
given-Inv (ok u, fs) h m i = i
given-Inv (err e, fs) h m i = i
given-Inv (panic, fs) h m i = i
given-Inv (stuck, fs) h m i = i

-- Everything that `FileOpen` does after the name is looked up.
module _ (pid flags modes : ℕ) (filename : String) (node : MlnrKernelNode) (h : Heap)
    (i : Inv node.fs) (room : node.fs.nextmemnode + 1 < word) where
  open_node-Kept : (m : Option ℕ) → Inv (open_node m filename flags modes (node.fs, h)).1.0
  unfolding open_node
  open_node-Kept none = create-Inv node.fs h filename modes i room
  open_node-Kept (some m) = elim (Bool-cases (is_truncate flags)) [
    | inl t ↦
        rw t (given-Inv (Mlnr.truncate filename node.fs) h m (truncate-Inv node.fs filename i))
    | inr f ↦ rw f i
  ]

  open_process-Kept :
      (m : Option ℕ) (p : Option FileDesc)
      → Kept (open_process pid m filename flags modes p (node, h))
  unfolding open_process open_slot
  open_process-Kept m none = i
  open_process-Kept m (some fds) = slot-Kept m (allocate_fd fds)
    where
      slot-Kept :
          (m : Option ℕ) (a : Option (ℕ × FileDesc))
          → Kept (open_slot pid m filename flags modes a (node, h))
      slot-Kept m none = i
      slot-Kept m (some (fid, fds)) = settle-Kept pid fid flags fds _ (open_node-Kept m)

  open_found-Kept : (m : Option ℕ) → Kept (open_found pid m filename flags modes (node, h))
  unfolding open_found
  open_found-Kept m = elim (Bool-cases (not (is_some m) && not (is_create flags))) [
    | inl t ↦ rw t i
    | inr f ↦ rw f (open_process-Kept m (lookup pid node.process_map))
  ]

drop_found-Inv :
    (m : Option ℕ) (filename : String) (node : MlnrKernelNode)
    → Inv node.fs
    → Inv (drop_found m filename node).fs
unfolding drop_found
drop_found-Inv none filename node i = i
drop_found-Inv (some m) filename node i = drop_name-Inv node.fs filename i

open_file-Kept :
    (pid : ℕ) (filename : String) (flags modes : ℕ) (node : MlnrKernelNode) (h : Heap)
    → Inv node.fs
    → node.fs.nextmemnode + 1 < word
    → Kept (open_file pid filename flags modes (node, h))
unfolding open_file
open_file-Kept pid filename flags modes node h i room =
    let (m, fs) = Mlnr.lookup_name filename node.fs in
    drop_found-Inv m filename _ (
      open_found-Kept pid (flags_from flags) modes filename (record node { fs = fs }) h
        (lookup_name-Inv node.fs filename i) (rw (lookup_name-next node.fs filename) room) m)

accessed-Kept :
    (pid fd : ℕ) (info : Fd) (offset curr : ℕ) (r : Outcome ℕ × Store)
    → Kept r
    → Kept (accessed pid fd info offset curr r)
unfolding accessed
accessed-Kept pid fd info offset curr (ok len, (node, h)) i =
    rw (advance-fs pid fd info offset (add64 curr len) node) i
accessed-Kept pid fd info offset curr (err e, s) i = i
accessed-Kept pid fd info offset curr (panic, s) i = i
accessed-Kept pid fd info offset curr (stuck, s) i = i

-- A step that only looks comes first.
look-Kept :
    {A B : Type 0} (r : Outcome A) (node : MlnrKernelNode) (h : Heap)
    (k : A → Store → Outcome B × Store)
    → Inv node.fs
    → ((a : A) → r ≡ ok a → Kept (k a (node, h)))
    → Kept (chain (r, (node, h)) k)
look-Kept (ok a) node h k i f = f a refl
look-Kept (err e) node h k i f = i
look-Kept panic node h k i f = i
look-Kept stuck node h k i f = i

write_file-Kept :
    (pid fd mnode offset len : ℕ) (buffer : List ℕ) (node : MlnrKernelNode) (h : Heap)
    → Inv node.fs
    → Fits (file_write pid fd mnode buffer len offset) node
    → Kept (write_file pid fd buffer offset (node, h))
unfolding write_file write_checked write_at
write_file-Kept pid fd mnode offset len buffer node h i fits =
    look-Kept (slot_of (process_or panic (lookup pid node.process_map)) fd) node h
      (write_checked pid fd buffer offset) i
      λ info e. elim (Bool-cases (is_write info.flags)) [
        | inl t ↦
            rw (write_checked, t)
              (look-Kept (write_offset node.fs info offset) node h
                (write_at pid fd info buffer offset) i
                λ curr q.
                  accessed-Kept pid fd info offset curr _
                    (write-Inv node.fs h info.mnode curr buffer i (fits curr info e q)))
        | inr f ↦ rw (write_checked, f) i
      ]

close_file-Kept :
    (pid fd : ℕ) (node : MlnrKernelNode) (h : Heap)
    → Inv node.fs
    → Kept (close_file pid fd (node, h))
unfolding close_file
close_file-Kept pid fd node h i = ground arith

add_process-Kept :
    (pid : ℕ) (node : MlnrKernelNode) (h : Heap) → Inv node.fs → Kept (add_process pid (node, h))
unfolding add_process
add_process-Kept pid node h i = elim (request_cases h) [
  | inr (g, p, _) ↦ rw p i
  | inl (g, p, _) ↦ elim (Bool-cases (is_some (lookup pid node.process_map))) [
    | inl t ↦ rw (p, t) i
    | inr f ↦ rw (p, f) i
  ]
]

remove_process-Kept :
    (pid : ℕ) (node : MlnrKernelNode) (h : Heap) → Inv node.fs → Kept (remove_process pid (node, h))
unfolding remove_process
remove_process-Kept pid node h i = elim (Bool-cases (is_some (lookup pid node.process_map))) [
  | inl t ↦ rw t i
  | inr f ↦ rw f i
]

for_process-Kept :
    {A : Type 0} (pid : ℕ) (k : Store → Outcome A × Store) (node : MlnrKernelNode) (h : Heap)
    → Inv node.fs
    → Kept (k (node, h))
    → Kept (for_process pid k (node, h))
unfolding for_process
for_process-Kept pid k node h i j = elim (Bool-cases (is_some (lookup pid node.process_map))) [
  | inl t ↦ rw t j
  | inr f ↦ rw f i
]

-- Each operation of the log keeps the invariant of the file system, whether it succeeds, is refused,
-- runs out of memory or panics: there are node numbers left, and a write ends within a word.
pub dispatch_mut-Inv :
    (op : Modify) (node : MlnrKernelNode) (h : Heap)
    → Inv node.fs
    → node.fs.nextmemnode + 1 < word
    → Fits op node
    → Inv (dispatch_mut op (node, h)).1.0.fs
unfolding dispatch_mut delete_file rename_file make_dir
dispatch_mut-Inv (process_add pid) node h i room fits = add_process-Kept pid node h i
dispatch_mut-Inv (process_remove pid) node h i room fits = remove_process-Kept pid node h i
dispatch_mut-Inv (file_open pid filename flags modes) node h i room fits =
    open_file-Kept pid filename flags modes node h i room
dispatch_mut-Inv (file_write pid fd mnode buffer len offset) node h i room fits =
    write_file-Kept pid fd mnode offset len buffer node h i fits
dispatch_mut-Inv (file_close pid fd) node h i room fits = close_file-Kept pid fd node h i
dispatch_mut-Inv (file_delete pid filename) node h i room fits =
    for_process-Kept pid (delete_file filename) node h i (delete-Inv node.fs filename i)
dispatch_mut-Inv (file_rename pid oldname newname) node h i room fits =
    for_process-Kept pid (rename_file oldname newname) node h i
      (rename-Inv node.fs h oldname newname i)
dispatch_mut-Inv (mk_dir pid filename modes) node h i room fits =
    for_process-Kept pid (make_dir filename modes) node h i
      (mkdir-Inv node.fs h filename modes i room)
