-- ===== src/Fs/Mlnr/Write.antt =====
-- `write` and `file_info` of `kernel/src/fs/mod.rs` on a file system that satisfies the invariant.
use node_replicated_kernel.Prelude.{
  ℕ, ◌+◌, ◌<◌, ◌≡◌, ◌≢◌, refl, sym, ap, ◌∙◌, Option-cases, Bool-cases, ◌⊎◌, inl, inr, Option, none,
  some, Bool, true, false, List, length, word, nat_eq, ℕ_discrete,
}
use node_replicated_kernel.Prelude.Dict.{lookup, insert, lookup-insert_self, lookup-insert_ne}
use node_replicated_kernel.Prelude.Outcome.{
  Outcome, ok, err, panic, invalid_file, permission_error, Heap,
}
use node_replicated_kernel.Kpi.Io.{FileType, directory, file, FileInfo, file_type_code, is_writable}
use node_replicated_kernel.Fs.File
use node_replicated_kernel.Fs.File.{File}
use node_replicated_kernel.Fs.File.Read.{content}
use node_replicated_kernel.Fs.File.Write.{Written}
use node_replicated_kernel.Fs.Mnode.{MemNode}
use node_replicated_kernel.Fs.Mnode.Access.{
  FileValid, Shape, write-Written, write-directory, get_file_size-content,
}
use node_replicated_kernel.Fs.Mlnr.{MlnrFs, Store, write, file_info, info_of}
use node_replicated_kernel.Fs.Mlnr.Inv.{Inv}

-- The number `m` is that of the well-formed file `f`.
pub record IsFile (fs : MlnrFs) (m : ℕ) (n : MemNode) (f : File) : Type 0 where
  pub there : lookup m fs.mnodes ≡ some n
  pub typed : n.node_type ≡ file
  pub holds : n.contents ≡ some f
  pub sound : FileValid f

-- No node or name is another than before.
abbrev pub SameNodes : MlnrFs → MlnrFs → Type 0
SameNodes fs fs' = (fs'.files ≡ fs.files) × ((k : ℕ) → lookup k fs'.mnodes ≡ lookup k fs.mnodes)

-- The node `m` has the file `f` now, and nothing else changed.
abbrev pub Holds : MlnrFs → ℕ → MemNode → File → MlnrFs → Type 0
Holds fs m n f fs' =
    (fs'.files ≡ fs.files)
    × (lookup m fs'.mnodes ≡ some (record n { contents = some f }))
    × ((k : ℕ) → m ≢ k → lookup k fs'.mnodes ≡ lookup k fs.mnodes)

-- Why the node refuses an access that needs the bit `allowed` of the modes: it is a directory, or its
-- file's modes lack the bit.
pub data Refuses (fs : MlnrFs) (m : ℕ) (n : MemNode) (allowed : ℕ → Bool) : Type 0 where
  no_file : n.node_type ≡ directory → Refuses fs m n allowed
  by_modes : (f : File) → IsFile fs m n f → allowed f.modes ≡ false → Refuses fs m n allowed

-- There is no such node; it is a directory, or its modes forbid it, and nothing changes; or its file
-- is `Written`.
pub data WroteNode (fs : MlnrFs) (h : Heap) (m : ℕ) (buffer : List ℕ) (at : ℕ)
    (r : Outcome ℕ × Store) : Type 0 where
  missing :
      lookup m fs.mnodes ≡ none → r ≡ (err invalid_file, (fs, h)) → WroteNode fs h m buffer at r
  denied :
      (n : MemNode)
      → lookup m fs.mnodes ≡ some n
      → Refuses fs m n is_writable
      → r.0 ≡ err permission_error
      → SameNodes fs r.1.0
      → WroteNode fs h m buffer at r
  wrote :
      (n : MemNode) (f : File) (w : Outcome ℕ × File.Store)
      → IsFile fs m n f
      → is_writable f.modes ≡ true
      → Written f h buffer at w
      → r.0 ≡ w.0
      → Holds fs m n w.1.0 r.1.0
      → WroteNode fs h m buffer at r

module _ (fs : MlnrFs) (m : ℕ) (i : Inv fs) where
  -- What a node is.
  pub data NodeKind (n : MemNode) : Type 0 where
    is_directory : n.node_type ≡ directory → NodeKind n
    is_file : (f : File) → IsFile fs m n f → NodeKind n

  pub NodeKind-valid : (n : MemNode) → lookup m fs.mnodes ≡ some n → NodeKind n
  NodeKind-valid n e = kind n.node_type n.contents refl refl (i.valid m n e)
    where
      kind :
          (t : FileType) (c : Option File)
          → n.node_type ≡ t
          → n.contents ≡ c
          → Shape t c
          → NodeKind n
      kind directory c t q v = is_directory t
      kind file none t q v = elim v [ ]
      kind file (some f) t q v = is_file f (record { there = e; typed = t; holds = q; sound = v })

  -- A node that is put back.
  reinsert :
      (n : MemNode)
      → lookup m fs.mnodes ≡ some n
      → SameNodes fs (record fs { mnodes = insert m n fs.mnodes })
  reinsert n e = (
    refl,
    λ k. elim (ℕ_discrete m k) [
      | yes s ↦ rw (← s) (lookup-insert_self m n fs.mnodes ∙ sym e)
      | no ne ↦ lookup-insert_ne m k n fs.mnodes ne
    ],
  )

  -- A write to a file system with the invariant is `WroteNode` on every branch: it never panics.
  pub write-WroteNode :
      (h : Heap) (buffer : List ℕ) (at : ℕ)
      → at + length buffer < word
      → WroteNode fs h m buffer at (write m buffer at (fs, h))
  unfolding write
  write-WroteNode h buffer at fits = elim (Option-cases (lookup m fs.mnodes)) [
    | inl e ↦ rw (e, write) (missing e refl)
    | inr (n, e) ↦ elim (NodeKind-valid n e) [
      | is_directory t ↦
          rw (e, write, write-directory n h buffer at t)
            (denied n e (no_file t) refl (reinsert n e))
      | is_file f v ↦
          let (yes_case, no_case) = write-Written n f h buffer at v.typed v.holds v.sound fits in
          elim (Bool-cases (is_writable f.modes)) [
            | inr d ↦ rw (e, write, no_case d) (denied n e (by_modes f v d) refl (reinsert n e))
            | inl a ↦
                let (w, q, out) = yes_case a in
                rw (e, write, q)
                  (wrote n f w v a out refl (
                    refl,
                    lookup-insert_self m _ fs.mnodes,
                    λ k ne. lookup-insert_ne m k _ fs.mnodes ne,
                  ))
          ]
    ]
  ]

  -- The size that `file_info` reports: the bytes of a file, and 0 for a directory.
  pub file_info-size :
      (n : MemNode) (f : File)
      → IsFile fs m n f
      → file_info fs m ≡ ok (record { ftype = 2; fsize = length (content f) })
  unfolding file_info info_of file_type_code
  file_info-size n f v =
      rw (v.there, file_info)
        (ap (info_of n) v.typed ∙ rw (get_file_size-content n f v.holds v.sound, info_of) refl)

  -- `file_info` panics on a number without a node, and only there.
  pub file_info-cases :
      ((lookup m fs.mnodes ≡ none) × (file_info fs m ≡ panic))
      ⊎ ((size : FileInfo) × (file_info fs m ≡ ok size))
  unfolding file_info info_of
  file_info-cases = elim (Option-cases (lookup m fs.mnodes)) [
    | inl e ↦ inl (e, rw (e, file_info) refl)
    | inr (n, e) ↦ elim (NodeKind-valid n e) [
      | is_directory t ↦ inr (
        record { ftype = file_type_code directory; fsize = 0 },
        rw (e, file_info) (ap (info_of n) t),
      )
      | is_file f v ↦ inr (_, file_info-size n f v)
    ]
  ]
