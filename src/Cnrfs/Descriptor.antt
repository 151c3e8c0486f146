-- ===== src/Cnrfs/Descriptor.antt =====
-- An open descriptor of a process in a node of `kernel/src/cnrfs.rs`, and how it moves on.
use node_replicated_kernel.Prelude.{
  ℕ, ◌≡◌, ◌≢◌, refl, Bool-cases, inl, inr, some, set, if◌then◌else◌, ◌==◌, nat_eq, arith,
}
use node_replicated_kernel.Prelude.Dict.{lookup, lookup-insert_self, lookup-insert_ne}
use node_replicated_kernel.Prelude.Outcome.{ok, panic}
use node_replicated_kernel.Fs.Mlnr.{MlnrFs}
use node_replicated_kernel.Fs.Fd.{Fd, FileDesc, get_fd, update_offset}
use node_replicated_kernel.Fs.Fd.Slots.{get_fd-set_self, get_fd-set_ne}
use node_replicated_kernel.Cnrfs.{MlnrKernelNode, no_offset, slot_of, process_or, advance}

-- The process `pid` has the open descriptor `fd`.
pub record IsOpen (node : MlnrKernelNode) (pid fd : ℕ) (fds : FileDesc) (info : Fd) : Type 0 where
  pub here : lookup pid node.process_map ≡ some fds
  pub slot : get_fd fds fd ≡ ok (some info)

-- The descriptors are as before, but for the offset of `fd` if the operation gave none.
pub record Moved (node node' : MlnrKernelNode) (pid fd : ℕ) (fds : FileDesc) (info : Fd)
    (offset next : ℕ) : Type 0 where
  pub slots : FileDesc
  pub here : lookup pid node'.process_map ≡ some slots
  pub slot :
      get_fd slots fd
      ≡ ok (some (record info { offset = if offset == no_offset then next else info.offset }))
  pub others : (j : ℕ) → fd ≢ j → get_fd slots j ≡ get_fd fds j
  pub processes : (q : ℕ) → pid ≢ q → lookup q node'.process_map ≡ lookup q node.process_map

pub slot_of-open :
    (node : MlnrKernelNode) (pid fd : ℕ) (fds : FileDesc) (info : Fd)
    → IsOpen node pid fd fds info
    → slot_of (process_or panic (lookup pid node.process_map)) fd ≡ ok info
unfolding slot_of process_or
slot_of-open node pid fd fds info o = rw (o.here, process_or) (rw (slot_of, o.slot) refl)

pub advance-fs :
    (pid fd : ℕ) (info : Fd) (offset n : ℕ) (node : MlnrKernelNode)
    → (advance pid fd info offset n node).fs ≡ node.fs
unfolding advance
advance-fs pid fd info offset n node = ground arith

pub advance-Moved :
    (node : MlnrKernelNode) (fs : MlnrFs) (pid fd : ℕ) (fds : FileDesc) (info : Fd)
    (offset next : ℕ)
    → IsOpen node pid fd fds info
    → Moved node
        (advance pid fd info offset next (record node { fs = fs }))
        pid
        fd
        fds
        info
        offset
        next
unfolding advance
advance-Moved node fs pid fd fds info offset next o = elim (Bool-cases (offset == no_offset)) [
  | inl bare ↦
      let slots = set fds fd (some (update_offset info next)) in
      rw (o.here, advance, bare)
        (record {
          slots = slots;
          here = lookup-insert_self pid slots node.process_map;
          slot = rw bare (get_fd-set_self fds fd (some (update_offset info next)) _ o.slot);
          others = λ j ne. get_fd-set_ne fds fd j (some (update_offset info next)) ne;
          processes = λ q ne. lookup-insert_ne pid q slots node.process_map ne;
        })
  | inr given ↦
      rw (o.here, advance, given)
        (record {
          slots = fds;
          here = o.here;
          slot = rw given o.slot;
          others = λ j ne. refl;
          processes = λ q ne. refl;
        })
]
