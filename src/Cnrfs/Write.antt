-- ===== src/Cnrfs/Write.antt =====
-- `FileWrite` of `kernel/src/cnrfs.rs` on every branch, down to the bytes of the file.
use node_replicated_kernel.Prelude.{
  ℕ, ◌+◌, ◌<◌, ◌≡◌, refl, sym, ap, subst, ◌∙◌, Option-cases, Bool-cases, ◌⊎◌, inl, inr, none, some,
  true, false, List, length, if◌then◌else◌, ◌==◌, add64, word, nat_eq, arith,
}
use node_replicated_kernel.Prelude.Dict.{lookup}
use node_replicated_kernel.Prelude.Outcome.{
  Outcome, ok, err, panic, KError, permission_error, invalid_file, out_of_memory, Heap,
}
use node_replicated_kernel.Kpi.Io.{FileInfo, is_write, is_append, is_writable}
use node_replicated_kernel.Fs.File
use node_replicated_kernel.Fs.File.{File}
use node_replicated_kernel.Fs.File.Read.{content}
use node_replicated_kernel.Fs.File.Write.{Written, written, no_memory}
use node_replicated_kernel.Fs.Mnode.{MemNode}
use node_replicated_kernel.Fs.Mlnr
use node_replicated_kernel.Fs.Mlnr.{MlnrFs}
use node_replicated_kernel.Fs.Mlnr.Inv.{Inv}
use node_replicated_kernel.Fs.Mlnr.Write.{
  IsFile, Refuses, SameNodes, Holds, WroteNode, missing, denied, wrote, write-WroteNode,
  file_info-size, file_info-cases,
}
use node_replicated_kernel.Fs.Fd.{Fd, FileDesc, get_fd}
use node_replicated_kernel.Fs.Fd.Slots.{get_fd-cases}
use node_replicated_kernel.Cnrfs.Descriptor.{IsOpen, Moved, slot_of-open, advance-fs, advance-Moved}
use node_replicated_kernel.Cnrfs.{
  MlnrKernelNode, Store, NodeResult, file_accessed, no_offset, write_file, write_checked, write_at,
  write_offset, slot_of, process_or, accessed, advance, on_fs,
}

-- Where a write to a file of `size` bytes starts.
abbrev pub starts : Fd → ℕ → ℕ → ℕ
starts info offset size =
    if offset == no_offset then (if is_append info.flags then size else info.offset) else offset

-- Why a write does not reach a file.
pub data Rejected (node : MlnrKernelNode) (pid fd offset : ℕ) : Outcome NodeResult → Type 0 where
  no_process : lookup pid node.process_map ≡ none → Rejected node pid fd offset panic
  out_of_range :
      (fds : FileDesc)
      → lookup pid node.process_map ≡ some fds
      → get_fd fds fd ≡ panic
      → Rejected node pid fd offset panic
  closed :
      (fds : FileDesc)
      → lookup pid node.process_map ≡ some fds
      → get_fd fds fd ≡ ok none
      → Rejected node pid fd offset (err permission_error)
  read_only :
      (fds : FileDesc) (info : Fd)
      → IsOpen node pid fd fds info
      → is_write info.flags ≡ false
      → Rejected node pid fd offset (err permission_error)
  append_gone :
      (fds : FileDesc) (info : Fd)
      → IsOpen node pid fd fds info
      → offset ≡ no_offset
      → is_append info.flags ≡ true
      → lookup info.mnode node.fs.mnodes ≡ none
      → Rejected node pid fd offset panic
  gone :
      (fds : FileDesc) (info : Fd)
      → IsOpen node pid fd fds info
      → lookup info.mnode node.fs.mnodes ≡ none
      → Rejected node pid fd offset (err invalid_file)
  forbidden :
      (fds : FileDesc) (info : Fd) (n : MemNode)
      → IsOpen node pid fd fds info
      → lookup info.mnode node.fs.mnodes ≡ some n
      → Refuses node.fs info.mnode n is_writable
      → Rejected node pid fd offset (err permission_error)

-- A write is rejected, and no file, name or descriptor changes; or the file is `Written` from where
-- the write starts; then on success the descriptor moves to the end of the write if no offset was
-- given, and without memory no descriptor changes.
pub data Wrote (node : MlnrKernelNode) (h : Heap) (pid fd : ℕ) (buffer : List ℕ) (offset : ℕ)
    (r : Outcome NodeResult × Store) : Type 0 where
  rejected :
      Rejected node pid fd offset r.0
      → r.1.0.process_map ≡ node.process_map
      → SameNodes node.fs r.1.0.fs
      → Wrote node h pid fd buffer offset r
  short_of_memory :
      (fds : FileDesc) (info : Fd) (n : MemNode) (f : File) (w : Outcome ℕ × File.Store)
      → IsOpen node pid fd fds info
      → is_write info.flags ≡ true
      → IsFile node.fs info.mnode n f
      → is_writable f.modes ≡ true
      → Written f h buffer (starts info offset (length (content f))) w
      → w.0 ≡ err out_of_memory
      → r.0 ≡ err out_of_memory
      → Holds node.fs info.mnode n w.1.0 r.1.0.fs
      → r.1.0.process_map ≡ node.process_map
      → Wrote node h pid fd buffer offset r
  stored :
      (fds : FileDesc) (info : Fd) (n : MemNode) (f : File) (w : Outcome ℕ × File.Store)
      → IsOpen node pid fd fds info
      → is_write info.flags ≡ true
      → IsFile node.fs info.mnode n f
      → is_writable f.modes ≡ true
      → Written f h buffer (starts info offset (length (content f))) w
      → w.0 ≡ ok (length buffer)
      → r.0 ≡ ok (file_accessed (length buffer))
      → Holds node.fs info.mnode n w.1.0 r.1.0.fs
      → Moved node r.1.0 pid fd fds info offset
          (starts info offset (length (content f)) + length buffer)
      → Wrote node h pid fd buffer offset r

-- What `write_offset` gives, by the state of the file.
write_offset-cases :
    (fs : MlnrFs) (info : Fd) (offset : ℕ)
    → Inv fs
    → ((write_offset fs info offset ≡ panic)
        × (offset ≡ no_offset)
        × (is_append info.flags ≡ true)
        × (lookup info.mnode fs.mnodes ≡ none))
      ⊎ ((c : ℕ) × (write_offset fs info offset ≡ ok c)
          × ((n : MemNode) (f : File)
              → IsFile fs info.mnode n f
              → c ≡ starts info offset (length (content f))))
unfolding write_offset
write_offset-cases fs info offset i = elim (Bool-cases (offset == no_offset)) [
  | inr given ↦ inr (offset, rw given refl, λ n f v. rw given refl)
  | inl bare ↦ elim (Bool-cases (is_append info.flags)) [
    | inr given ↦ inr (info.offset, rw (bare, given) refl, λ n f v. rw (bare, given) refl)
    | inl a ↦ elim (file_info-cases fs info.mnode i) [
      | inl (e, q) ↦ inl (rw (bare, a, q) refl, (nat_eq.beq_iff offset no_offset).0 bare, a, e)
      | inr (size, q) ↦ inr (
        size.fsize,
        rw (bare, a, q) refl,
        λ n f v. rw (bare, a) (ap size_in (sym q ∙ file_info-size fs info.mnode i n f v)),
      )
    ]
  ]
]
  where
    size_in : Outcome FileInfo → ℕ
    size_in (ok size) = size.fsize
    size_in _ = 0

-- The end of a write that failed, and of one that did not.
accessed-err :
    (pid fd : ℕ) (info : Fd) (offset curr : ℕ) (node : MlnrKernelNode) (r : Outcome ℕ × Mlnr.Store)
    (e : KError)
    → r.0 ≡ err e
    → accessed pid fd info offset curr (on_fs node r) ≡ (err e, (record node { fs = r.1.0 }, r.1.1))
unfolding accessed
accessed-err pid fd info offset curr node (x, s) e q = rw q refl

accessed-ok :
    (pid fd : ℕ) (info : Fd) (offset curr len : ℕ) (node : MlnrKernelNode)
    (r : Outcome ℕ × Mlnr.Store)
    → r.0 ≡ ok len
    → accessed pid fd info offset curr (on_fs node r) ≡ (
      ok (file_accessed len),
      (advance pid fd info offset (add64 curr len) (record node { fs = r.1.0 }), r.1.1),
    )
unfolding accessed
accessed-ok pid fd info offset curr len node (x, s) q = rw q refl

module _ (node : MlnrKernelNode) (h : Heap) (pid fd offset : ℕ) (buffer : List ℕ) where
  -- The node has the file `f`, and the write to it has the result `r`.
  stored-Wrote :
      (fds : FileDesc) (info : Fd) (c : ℕ) (r : Outcome ℕ × Mlnr.Store) (n : MemNode) (f : File)
      (w : Outcome ℕ × File.Store)
      → IsOpen node pid fd fds info
      → is_write info.flags ≡ true
      → c + length buffer < word
      → c ≡ starts info offset (length (content f))
      → IsFile node.fs info.mnode n f
      → is_writable f.modes ≡ true
      → Written f h buffer (starts info offset (length (content f))) w
      → r.0 ≡ w.0
      → Holds node.fs info.mnode n w.1.0 r.1.0
      → Wrote node h pid fd buffer offset (accessed pid fd info offset c (on_fs node r))
  stored-Wrote fds info c r n f w o allowed fits at v mode out q holds = elim out [
    | no_memory m g k p s ch l bs ↦
        let failed : w.0 ≡ err out_of_memory = ap (λ (x : Outcome ℕ × File.Store). x.0) p in
        rw (accessed-err pid fd info offset c node r out_of_memory (q ∙ failed)) (
          short_of_memory fds info n f w o allowed v mode (no_memory m g k p s ch l bs) failed refl
            holds refl)
    | written m g p ch bs ↦
        let done : w.0 ≡ ok (length buffer) = ap (λ (x : Outcome ℕ × File.Store). x.0) p in
        let sum : add64 c (length buffer)
            ≡ starts info offset (length (content f)) + length buffer =
          omega (arith, at) in
        rw (accessed-ok pid fd info offset c (length buffer) node r (q ∙ done), sum)
          (stored fds info n f w o allowed v mode (written m g p ch bs) done refl
            (rw
              (advance-fs pid fd info offset
                (starts info offset (length (content f)) + length buffer)
                (record node { fs = r.1.0 }))
              holds)
            (advance-Moved node r.1.0 pid fd fds info offset _ o))
  ]

  -- The write itself, from `c` on.
  module _ (i : Inv node.fs) where
    write_at-Wrote :
        (fds : FileDesc) (info : Fd) (c : ℕ)
        → IsOpen node pid fd fds info
        → is_write info.flags ≡ true
        → c + length buffer < word
        → ((n : MemNode) (f : File)
            → IsFile node.fs info.mnode n f
            → c ≡ starts info offset (length (content f)))
        → Wrote node h pid fd buffer offset (write_at pid fd info buffer offset c (node, h))
    unfolding write_at
    write_at-Wrote fds info c o allowed fits at =
        by_node _ (write-WroteNode node.fs info.mnode i h buffer c fits)
      where
        by_node :
            (r : Outcome ℕ × Mlnr.Store)
            → WroteNode node.fs h info.mnode buffer c r
            → Wrote node h pid fd buffer offset (accessed pid fd info offset c (on_fs node r))
        by_node r (missing e q) =
            rw
              (accessed-err pid fd info offset c node r invalid_file
                (ap (λ (x : Outcome ℕ × Mlnr.Store). x.0) q))
              (rejected (gone fds info o e) refl (
                ap (λ (x : Outcome ℕ × Mlnr.Store). x.1.0.files) q,
                λ k. ap (λ (x : Outcome ℕ × Mlnr.Store). lookup k x.1.0.mnodes) q,
              ))
        by_node r (denied n e why q same) =
            rw (accessed-err pid fd info offset c node r permission_error q)
              (rejected (forbidden fds info n o e why) refl same)
        by_node r (wrote n f w v a out q holds) =
            stored-Wrote fds info c r n f w o allowed fits (at n f v) v a
              (subst (λ (k : ℕ). Written f h buffer k w) (at n f v) out) q holds

    write_checked-Wrote :
        (fds : FileDesc) (info : Fd)
        → IsOpen node pid fd fds info
        → ((c : ℕ) → write_offset node.fs info offset ≡ ok c → c + length buffer < word)
        → Wrote node h pid fd buffer offset (write_checked pid fd buffer offset info (node, h))
    unfolding write_checked
    write_checked-Wrote fds info o fits = elim (Bool-cases (is_write info.flags)) [
      | inr f ↦ rw f (rejected (read_only fds info o f) refl (refl, λ k. refl))
      | inl allowed ↦ elim (write_offset-cases node.fs info offset i) [
        | inl (q, bare, a, e) ↦
            rw (allowed, q) (rejected (append_gone fds info o bare a e) refl (refl, λ k. refl))
        | inr (c, q, at) ↦ rw (allowed, q) (write_at-Wrote fds info c o allowed (fits c q) at)
      ]
    ]

    -- On a file system with the invariant, if the write ends within a word, `FileWrite` fails or panics
    -- and changes no byte only if the process, the descriptor or its node is missing, the descriptor is
    -- not for writing, or its node is a directory or a file whose modes forbid to write; it runs out of
    -- memory and at most adds zeros to the file; or all allow it, and it stores the user's bytes in the file of the
    -- descriptor at the offset given, at the end of the file, or where the descriptor stands.
    pub write_file-Wrote :
        ((info : Fd) (c : ℕ)
          → slot_of (process_or panic (lookup pid node.process_map)) fd ≡ ok info
          → write_offset node.fs info offset ≡ ok c
          → c + length buffer < word)
        → Wrote node h pid fd buffer offset (write_file pid fd buffer offset (node, h))
    unfolding write_file slot_of process_or
    write_file-Wrote fits = elim (Option-cases (lookup pid node.process_map)) [
      | inl e ↦ rw (e, process_or) (rejected (no_process e) refl (refl, λ k. refl))
      | inr (fds, e) ↦ elim (get_fd-cases fds fd) [
        | inl s ↦ rw (e, process_or, s) (rejected (out_of_range fds e s) refl (refl, λ k. refl))
        | inr (none, s) ↦ rw (e, process_or, s) (rejected (closed fds e s) refl (refl, λ k. refl))
        | inr (some info, s) ↦
            let o : IsOpen node pid fd fds info = record { here = e; slot = s } in
            rw (slot_of-open node pid fd fds info o) (
              write_checked-Wrote fds info o
                (λ c. fits info c (slot_of-open node pid fd fds info o)))
      ]
    ]
