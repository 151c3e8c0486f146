-- ===== src/Cnrfs/Open.antt =====
-- `FileOpen` of `kernel/src/cnrfs.rs` on every branch: what it does to the process's descriptors.
use node_replicated_kernel.Prelude.{
  ℕ, String, ◌≡◌, ◌≢◌, refl, sym, ◌∙◌, inl, inr, Option, none, some, Bool-cases, set, ℕ_discrete,
  is_some, not, ◌&&◌, nat_eq, string_eq,
}
use node_replicated_kernel.Prelude.Dict.{lookup, lookup-insert_self, lookup-insert_ne}
use node_replicated_kernel.Prelude.Outcome.{
  Outcome, ok, err, panic, KError, permission_error, not_supported, Heap,
}
use node_replicated_kernel.Kpi.Io.{is_truncate, is_create, flags_from}
use node_replicated_kernel.Fs.Mlnr
use node_replicated_kernel.Fs.Mlnr.{
  MlnrFs, ArcMnode, lookup_name, drop_name, share, truncate, truncate_node, create,
}
use node_replicated_kernel.Fs.Mlnr.Names.{
  number_of, lookup_name-keeps, drop_name-keeps, lookup_name-number_of, truncate-Numbers,
  create-Numbers,
}
use node_replicated_kernel.Fs.Mlnr.Inv.{Inv}
use node_replicated_kernel.Fs.Mlnr.Keep.{lookup_name-Inv}
use node_replicated_kernel.Fs.Fd.{FileDesc, default_fd, update_fd, deallocate_fd, get_fd}
use node_replicated_kernel.Fs.Fd.Slots.{
  IsFirstFree, allocate_fd-cases, get_fd-set_self, get_fd-set_ne,
}
use node_replicated_kernel.Cnrfs.{
  MlnrKernelNode, Store, NodeResult, file_opened, open_file, open_found, open_process, open_slot,
  open_node, settle, drop_found, set_slots, on_fs,
}

-- The descriptors of every process are the same.
abbrev pub SameSlots : MlnrKernelNode → MlnrKernelNode → Type 0
SameSlots node node' = (q : ℕ) → lookup q node'.process_map ≡ lookup q node.process_map

-- What `open_node` does: gives the number that the name has then, or an error.
data FoundNode (name : String) (r : Outcome ℕ × Mlnr.Store) : Type 0 where
  failed : (e : KError) → r.0 ≡ err e → FoundNode name r
  found : (k : ℕ) → r.0 ≡ ok k → number_of r.1.0 name ≡ some k → FoundNode name r

-- `FileOpen` is refused, and no process's descriptors change; or the process has the descriptors
-- `fds`, the first free one `fid` is taken for the number that the name has now, and nothing else of
-- the descriptors changes; or there is no such process, and it panics.
pub data Opened (node : MlnrKernelNode) (pid flags : ℕ) (filename : String)
    (r : Outcome NodeResult × Store) : Type 0 where
  refused : (e : KError) → r.0 ≡ err e → SameSlots node r.1.0 → Opened node pid flags filename r
  no_process :
      lookup pid node.process_map ≡ none
      → r.0 ≡ panic
      → SameSlots node r.1.0
      → Opened node pid flags filename r
  opened :
      (fid m : ℕ) (fds fds' : FileDesc)
      → lookup pid node.process_map ≡ some fds
      → IsFirstFree fds fid
      → r.0 ≡ ok (file_opened fid)
      → lookup pid r.1.0.process_map ≡ some fds'
      → get_fd fds' fid ≡ ok (some (record { mnode = m; flags = flags; offset = 0 }))
      → ((j : ℕ) → fid ≢ j → get_fd fds' j ≡ get_fd fds j)
      → ((q : ℕ) → pid ≢ q → lookup q r.1.0.process_map ≡ lookup q node.process_map)
      → number_of r.1.0.fs filename ≡ some m
      → Opened node pid flags filename r

module _ (pid flags modes : ℕ) (filename : String) (h : Heap) where
  open_node-Numbers :
      (fs : MlnrFs) (m : Option ℕ)
      → Inv fs
      → number_of fs filename ≡ m
      → FoundNode filename (open_node m filename flags modes (fs, h))
  unfolding open_node
  open_node-Numbers fs none i num = elim (create-Numbers fs h filename modes) [
    | inl (e, q) ↦ failed e q
    | inr (q, num') ↦ found _ q num'
  ]
  open_node-Numbers fs (some m) i num = elim (Bool-cases (is_truncate flags)) [
    | inr f ↦ rw f (found m refl num)
    | inl t ↦ elim (truncate-Numbers fs filename m i num) [
      | inl (e, q) ↦ rw (t, q) (failed e refl)
      | inr (q, num') ↦ rw (t, q) (found m refl num')
    ]
  ]

  -- The slots that were given back are those of before.
  given_back :
      (node : MlnrKernelNode) (fds : FileDesc)
      → lookup pid node.process_map ≡ some fds
      → (fs : MlnrFs) → SameSlots node (set_slots (record node { fs = fs }) pid fds)
  given_back node fds p fs q = elim (ℕ_discrete pid q) [
    | yes e ↦ rw (← e) (lookup-insert_self pid fds node.process_map ∙ sym p)
    | no ne ↦ lookup-insert_ne pid q fds node.process_map ne
  ]

  settle-Opened :
      (node : MlnrKernelNode) (fid : ℕ) (fds fds' : FileDesc) (r : Outcome ℕ × Mlnr.Store)
      → lookup pid node.process_map ≡ some fds
      → IsFirstFree fds fid
      → get_fd fds' fid ≡ ok (some default_fd)
      → ((j : ℕ) → fid ≢ j → get_fd fds' j ≡ get_fd fds j)
      → deallocate_fd fds' fid ≡ (ok fid, fds)
      → FoundNode filename r
      → Opened node pid flags filename (settle pid fid flags fds' (on_fs node r))
  unfolding settle
  settle-Opened node fid fds fds' (r, (fs, g)) p first now others back (failed e q) =
      rw (q, settle, back) (refused e refl (given_back node fds p fs))
  settle-Opened node fid fds fds' (r, (fs, g)) p first now others back (found m q num) =
      let fd = some (update_fd default_fd m flags) in
      rw (q, settle)
        (opened fid m fds (set fds' fid fd) p first refl
          (lookup-insert_self pid (set fds' fid fd) node.process_map)
          (get_fd-set_self fds' fid fd _ now) (λ j ne. get_fd-set_ne fds' fid j fd ne ∙ others j ne)
          (λ q ne. lookup-insert_ne pid q (set fds' fid fd) node.process_map ne) num)

  open_process-Opened :
      (node : MlnrKernelNode) (m : Option ℕ) (p : Option FileDesc)
      → Inv node.fs
      → number_of node.fs filename ≡ m
      → lookup pid node.process_map ≡ p
      → Opened node pid flags filename (open_process pid m filename flags modes p (node, h))
  unfolding open_process open_slot
  open_process-Opened node m none i num p = no_process p refl (λ q. refl)
  open_process-Opened node m (some fds) i num p = elim (allocate_fd-cases fds) [
    | inl (_, e) ↦ rw (e, open_slot) (refused not_supported refl (λ q. refl))
    | inr (fid, fds', first, e, now, others, _, back) ↦
        rw (e, open_slot)
          (settle-Opened node fid fds fds' _ p first now others back
            (open_node-Numbers node.fs m i num))
  ]

  open_found-Opened :
      (node : MlnrKernelNode) (m : Option ℕ)
      → Inv node.fs
      → number_of node.fs filename ≡ m
      → Opened node pid flags filename (open_found pid m filename flags modes (node, h))
  unfolding open_found
  open_found-Opened node m i num = elim (Bool-cases (not (is_some m) && not (is_create flags))) [
    | inl t ↦ rw t (refused permission_error refl (λ q. refl))
    | inr f ↦ rw f (open_process-Opened node m (lookup pid node.process_map) i num refl)
  ]

drop_found-Opened :
    (node : MlnrKernelNode) (fs : MlnrFs) (pid flags : ℕ) (filename : String) (m : Option ℕ)
    (r : Outcome NodeResult × Store)
    → Opened (record node { fs = fs }) pid flags filename r
    → Opened node pid flags filename (r.0, (drop_found m filename r.1.0, r.1.1))
unfolding drop_found
drop_found-Opened node fs pid flags filename none r (refused e q s) = refused e q s
drop_found-Opened node fs pid flags filename none r (no_process p q s) = no_process p q s
drop_found-Opened node fs pid flags filename none r (opened fid m fds fds' p f q p' g o w n) =
    opened fid m fds fds' p f q p' g o w n
drop_found-Opened node fs pid flags filename (some k) r (refused e q s) = refused e q s
drop_found-Opened node fs pid flags filename (some k) r (no_process p q s) = no_process p q s
drop_found-Opened node fs pid flags filename (some k) r (opened fid m fds fds' p f q p' g o w n) =
    opened fid m fds fds' p f q p' g o w (drop_name-keeps r.1.0.fs filename ∙ n)

-- `FileOpen` on every branch: it is refused with an error and the descriptors of every process stay as
-- they were; or it takes the first free descriptor of the process for the node that the name has
-- then, at offset zero and with the flags that the kernel knows, and no other descriptor changes; or it
-- panics, and there is no such process.
pub open_file-Opened :
    (pid : ℕ) (filename : String) (flags modes : ℕ) (node : MlnrKernelNode) (h : Heap)
    → Inv node.fs
    → Opened node pid (flags_from flags) filename (open_file pid filename flags modes (node, h))
unfolding open_file
open_file-Opened pid filename flags modes node h i =
    let (m, fs) = lookup_name filename node.fs in
    drop_found-Opened node fs pid (flags_from flags) filename m _ (
      open_found-Opened pid (flags_from flags) modes filename h (record node { fs = fs }) m
        (lookup_name-Inv node.fs filename i)
        (lookup_name-keeps node.fs filename ∙ sym (lookup_name-number_of node.fs filename)))
