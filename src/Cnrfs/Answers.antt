-- ===== src/Cnrfs/Answers.antt =====
-- The calls of `kernel/src/cnrfs.rs` never meet a response that they do not expect.
use node_replicated_kernel.Prelude.{
  ℕ, String, ◌≡◌, ◌≢◌, refl, sym, ◌∙◌, inl, inr, Option-cases, Option, none, some, Bool, true,
  false, not, ◌&&◌, is_some, List, if◌then◌else◌, nat_eq,
}
use node_replicated_kernel.Prelude.Dict.{lookup}
use node_replicated_kernel.Prelude.Outcome.{
  Outcome, ok, err, panic, stuck, KError, replica_not_set, Comp, chain, and_then, permission_error,
  Heap, request,
}
use node_replicated_kernel.Kpi.Io.{FileInfo, flags_from, is_write, is_create}
use node_replicated_kernel.Fs.Mlnr
use node_replicated_kernel.Fs.Fd.{Fd, FileDesc, allocate_fd, deallocate_fd}
use node_replicated_kernel.Cnrfs.{
  Access, MlnrKernelNode, Store, Modify, process_add, process_remove, file_open, file_write,
  file_close, file_delete, file_rename, mk_dir, NodeResult, file_closed, file_deleted, file_renamed,
  dir_created, add_process, open_file, open_found, open_process, open_slot, settle, write_file,
  write_checked, write_at, write_offset, slot_of, process_or, accessed, close_file, for_process,
  delete_file, rename_file, make_dir, dispatch_mut,
}
use node_replicated_kernel.Cnrfs.Calls.{reported, respond, with_replica, submit}

-- A value, if there is one, is one that the call of `op` expects.
abbrev pub Fitting : Modify → Outcome NodeResult → Type 0
Fitting op (ok r) = (v : ℕ × ℕ) × (reported op r ≡ some v)
Fitting op _ = Unit

chain-Fitting :
    {A : Type 0} (op : Modify) (r : Outcome A × Store) (k : A → Store → Outcome NodeResult × Store)
    → ((a : A) (s : Store) → Fitting op (k a s).0)
    → Fitting op (chain r k).0
chain-Fitting op (ok a, s) k f = f a s
chain-Fitting op (err e, s) k f = tt
chain-Fitting op (panic, s) k f = tt
chain-Fitting op (stuck, s) k f = tt

report-Fitting :
    (op : Modify) (n : NodeResult) (v : ℕ × ℕ) (r : Outcome (Unit {0}))
    → reported op n ≡ some v
    → Fitting op (and_then r (λ _. ok n))
report-Fitting op n v (ok u) e = (v, e)
report-Fitting op n v (err x) e = tt
report-Fitting op n v panic e = tt
report-Fitting op n v stuck e = tt

if-Fitting :
    (op : Modify) (b : Bool) (x y : Outcome NodeResult × Store)
    → Fitting op x.0
    → Fitting op y.0
    → Fitting op (if b then x else y).0
if-Fitting op true x y p q = p
if-Fitting op false x y p q = q

for_process-Fitting :
    (op : Modify) (pid : ℕ) (k : Store → Outcome NodeResult × Store) (s : Store)
    → Fitting op (k s).0
    → Fitting op (for_process pid k s).0
unfolding for_process
for_process-Fitting op pid k (node, h) f =
    if-Fitting op (is_some (lookup pid node.process_map)) _ _ f tt

refused-Fitting :
    {A : Type 0} (op : Modify) (r : Outcome A) (e : KError)
    → Fitting op (and_then {B = NodeResult} r (λ _. err e))
refused-Fitting op (ok a) e = tt
refused-Fitting op (err x) e = tt
refused-Fitting op panic e = tt
refused-Fitting op stuck e = tt

settle-Fitting :
    (pid : ℕ) (filename : String) (flags modes p fid fl : ℕ) (fds : FileDesc)
    (r : Outcome ℕ × Store)
    → Fitting (file_open pid filename flags modes) (settle p fid fl fds r).0
unfolding settle
settle-Fitting pid filename flags modes p fid fl fds (ok m, s) = ((fid, 0), refl)
settle-Fitting pid filename flags modes p fid fl fds (err e, s) =
    refused-Fitting (file_open pid filename flags modes) (deallocate_fd fds fid).0 e
settle-Fitting pid filename flags modes p fid fl fds (panic, s) = tt
settle-Fitting pid filename flags modes p fid fl fds (stuck, s) = tt

accessed-Fitting :
    (pid fd mnode len o : ℕ) (buffer : List ℕ) (p d : ℕ) (info : Fd) (offset curr : ℕ)
    (r : Outcome ℕ × Store)
    → Fitting (file_write pid fd mnode buffer len o) (accessed p d info offset curr r).0
unfolding accessed
accessed-Fitting pid fd mnode len o buffer p d info offset curr (ok n, s) = ((n, 0), refl)
accessed-Fitting pid fd mnode len o buffer p d info offset curr (err e, s) = tt
accessed-Fitting pid fd mnode len o buffer p d info offset curr (panic, s) = tt
accessed-Fitting pid fd mnode len o buffer p d info offset curr (stuck, s) = tt

open_process-Fitting :
    (pid : ℕ) (filename : String) (flags modes p fl : ℕ) (m : Option ℕ) (ds : Option FileDesc)
    (s : Store)
    → Fitting (file_open pid filename flags modes) (open_process p m filename fl modes ds s).0
unfolding open_process open_slot
open_process-Fitting pid filename flags modes p fl m none s = tt
open_process-Fitting pid filename flags modes p fl m (some fds) (node, h) =
    slot-Fitting (allocate_fd fds)
  where
    slot-Fitting :
        (a : Option (ℕ × FileDesc))
        → Fitting
            (file_open pid filename flags modes)
            (open_slot p m filename fl modes a (node, h)).0
    slot-Fitting none = tt
    slot-Fitting (some (fid, fds)) = settle-Fitting pid filename flags modes p fid fl fds _

open_found-Fitting :
    (pid : ℕ) (filename : String) (flags modes p fl : ℕ) (m : Option ℕ) (node : MlnrKernelNode)
    (h : Heap)
    → Fitting (file_open pid filename flags modes) (open_found p m filename fl modes (node, h)).0
unfolding open_found
open_found-Fitting pid filename flags modes p fl m node h =
    if-Fitting (file_open pid filename flags modes) (not (is_some m) && not (is_create fl))
      (err permission_error, (node, h))
      (open_process p m filename fl modes (lookup p node.process_map) (node, h)) tt
      (open_process-Fitting pid filename flags modes p fl m (lookup p node.process_map) (node, h))

write_checked-Fitting :
    (pid fd mnode len o : ℕ) (buffer bytes : List ℕ) (p d offset : ℕ) (info : Fd) (s : Store)
    → Fitting (file_write pid fd mnode buffer len o) (write_checked p d bytes offset info s).0
unfolding write_checked write_at
write_checked-Fitting pid fd mnode len o buffer bytes p d offset info (node, h) =
    let op = file_write pid fd mnode buffer len o in
    if-Fitting op (is_write info.flags) _ _
      (chain-Fitting op (write_offset node.fs info offset, (node, h)) _
        (λ curr s. accessed-Fitting pid fd mnode len o buffer p d info offset curr _))
      tt

close_file-Fitting : (pid fd : ℕ) (s : Store) → Fitting (file_close pid fd) (close_file pid fd s).0
unfolding close_file
close_file-Fitting pid fd (node, h) = elim (Option-cases (lookup pid node.process_map)) [
  | inl e ↦ rw (e, close_file) tt
  | inr (fds, e) ↦ rw (e, close_file) (closed (deallocate_fd fds fd).0)
]
  where
    closed : (r : Outcome ℕ) → Fitting (file_close pid fd) (and_then r (λ _. ok (file_closed fd)))
    closed (ok n) = ((0, 0), refl)
    closed (err e) = tt
    closed panic = tt
    closed stuck = tt

-- Whatever an operation that a call submits reports, the call expects: `dispatch_mut` never answers
-- an operation with the response of another, so no `unreachable!` of the calls is reached.
pub dispatch_mut-Fitting :
    (op : Modify) (s : Store)
    → ((pid : ℕ) → op ≢ process_remove pid)
    → Fitting op (dispatch_mut op s).0
unfolding dispatch_mut add_process open_file write_file delete_file rename_file make_dir
dispatch_mut-Fitting (process_add pid) (node, h) n =
    chain-Fitting (process_add pid) (let (r, h') = request h in (r, (node, h'))) _ λ _ s.
      if-Fitting (process_add pid) (is_some (lookup pid s.0.process_map)) _ _ tt ((pid, 0), refl)
dispatch_mut-Fitting (process_remove pid) s n = absurd (n pid refl)
dispatch_mut-Fitting (file_open pid filename flags modes) (node, h) n =
    let (m, fs) = Mlnr.lookup_name filename node.fs in
    open_found-Fitting pid filename flags modes pid (flags_from flags) m (record node { fs = fs }) h
dispatch_mut-Fitting (file_write pid fd mnode buffer len offset) (node, h) n =
    chain-Fitting (file_write pid fd mnode buffer len offset)
      (slot_of (process_or panic (lookup pid node.process_map)) fd, (node, h)) _
      λ info s. write_checked-Fitting pid fd mnode len offset buffer buffer pid fd offset info s
dispatch_mut-Fitting (file_close pid fd) s n = close_file-Fitting pid fd s
dispatch_mut-Fitting (file_delete pid filename) s n =
    for_process-Fitting (file_delete pid filename) pid (delete_file filename) s (
      report-Fitting (file_delete pid filename) file_deleted (0, 0) (Mlnr.delete filename s.0.fs).0
        refl)
dispatch_mut-Fitting (file_rename pid oldname newname) s n =
    for_process-Fitting (file_rename pid oldname newname) pid (rename_file oldname newname) s (
      report-Fitting (file_rename pid oldname newname) file_renamed (0, 0)
        (Mlnr.rename oldname newname (s.0.fs, s.1)).0 refl)
dispatch_mut-Fitting (mk_dir pid filename modes) s n =
    for_process-Fitting (mk_dir pid filename modes) pid (make_dir filename modes) s (
      report-Fitting (mk_dir pid filename modes) dir_created (0, 0)
        (Mlnr.mkdir filename modes (s.0.fs, s.1)).0 refl)

respond-panic :
    (op : Modify) (r : Outcome NodeResult × Store)
    → Fitting op r.0
    → (respond (reported op) r).0 ≡ panic
    → r.0 ≡ panic
respond-panic op (ok n, s) (v, e) p = absurd (ok≢panic (sym (rw e refl) ∙ p))
  where
    ok≢panic : ◌≡◌ {A = Outcome (ℕ × ℕ)} (ok v) panic → ⊥
    ok≢panic h = cc
respond-panic op (err e, s) f p = absurd (err≢panic p)
  where
    err≢panic : ◌≡◌ {A = Outcome (ℕ × ℕ)} (err e) panic → ⊥
    err≢panic h = cc
respond-panic op (panic, s) f p = refl
respond-panic op (stuck, s) f p = absurd (stuck≢panic p)
  where
    stuck≢panic : ◌≡◌ {A = Outcome (ℕ × ℕ)} stuck panic → ⊥
    stuck≢panic h = cc

-- A call that submits an operation other than `ProcessRemove` to a replica that applies it with
-- `dispatch_mut` panics only if `dispatch_mut` does: the response is always one that the call expects.
pub submit-panic :
    (is_set : Bool) (execute : Access → Comp Store NodeResult) (userptr_to_str : ℕ → Outcome String)
    (user_slice : ℕ → ℕ → List ℕ) (store_info : ℕ → FileInfo → Store → Store) (op : Modify)
    (s : Store)
    → ((pid : ℕ) → op ≢ process_remove pid)
    → (with_replica is_set dispatch_mut execute userptr_to_str user_slice store_info
        (submit is_set dispatch_mut execute userptr_to_str user_slice store_info op)
        s).0
      ≡ panic
    → (dispatch_mut op s).0 ≡ panic
submit-panic true execute userptr_to_str user_slice store_info op s n p =
    respond-panic op (dispatch_mut op s) (dispatch_mut-Fitting op s n) p
submit-panic false execute userptr_to_str user_slice store_info op s n p = absurd (err≢panic p)
  where
    err≢panic : ◌≡◌ {A = Outcome (ℕ × ℕ)} (err replica_not_set) panic → ⊥
    err≢panic h = cc
