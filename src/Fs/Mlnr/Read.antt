-- ===== src/Fs/Mlnr/Read.antt =====
-- `read` of `kernel/src/fs/mod.rs` on a file system that satisfies the invariant.
use node_replicated_kernel.Prelude.{
  ℕ, ◌-◌, min, ◌≡◌, refl, Option-cases, Bool-cases, inl, inr, some, none, true, List, length, take,
  drop, overwrite, nat_eq,
}
use node_replicated_kernel.Prelude.Dict.{lookup}
use node_replicated_kernel.Prelude.Outcome.{Outcome, ok, err, invalid_file, permission_error}
use node_replicated_kernel.Kpi.Io.{is_readable}
use node_replicated_kernel.Fs.File.{File}
use node_replicated_kernel.Fs.File.Read.{content}
use node_replicated_kernel.Fs.Mnode.{MemNode}
use node_replicated_kernel.Fs.Mnode.Access.{read-eq, read-directory}
use node_replicated_kernel.Fs.Mlnr.{MlnrFs, read}
use node_replicated_kernel.Fs.Mlnr.Inv.{Inv}
use node_replicated_kernel.Fs.Mlnr.Write.{
  IsFile, Refuses, no_file, by_modes, NodeKind-valid, is_directory, is_file,
}

-- How many of the bytes `c` from `at` on a slice `dst` takes, and the slice with them.
abbrev pub count : List ℕ → List ℕ → ℕ → ℕ
count c dst at = min (length c - at) (length dst)

abbrev pub copied : List ℕ → List ℕ → ℕ → List ℕ
copied c dst at = overwrite dst 0 (take (count c dst at) (drop at c))

-- There is no such node; it is a directory, or its modes forbid to read it; or its bytes are copied.
pub data ReadNode (fs : MlnrFs) (m : ℕ) (dst : List ℕ) (at : ℕ) (r : Outcome (ℕ × List ℕ))
    : Type 0 where
  missing : lookup m fs.mnodes ≡ none → r ≡ err invalid_file → ReadNode fs m dst at r
  denied :
      (n : MemNode)
      → lookup m fs.mnodes ≡ some n
      → Refuses fs m n is_readable
      → r ≡ err permission_error
      → ReadNode fs m dst at r
  bytes :
      (n : MemNode) (f : File)
      → IsFile fs m n f
      → is_readable f.modes ≡ true
      → r ≡ ok (count (content f) dst at, copied (content f) dst at)
      → ReadNode fs m dst at r

pub read-ReadNode :
    (fs : MlnrFs) (m : ℕ) (i : Inv fs) (dst : List ℕ) (at : ℕ)
    → ReadNode fs m dst at (read fs m dst at)
unfolding read
read-ReadNode fs m i dst at = elim (Option-cases (lookup m fs.mnodes)) [
  | inl e ↦ rw (e, read) (missing e refl)
  | inr (n, e) ↦ elim (NodeKind-valid fs m i n e) [
    | is_directory t ↦ rw (e, read, read-directory n dst at t) (denied n e (no_file t) refl)
    | is_file f v ↦ elim (Bool-cases (is_readable f.modes)) [
      | inl a ↦ rw (e, read, read-eq n f dst at v.typed v.holds v.sound, a) (bytes n f v a refl)
      | inr d ↦
          rw (e, read, read-eq n f dst at v.typed v.holds v.sound, d)
            (denied n e (by_modes f v d) refl)
    ]
  ]
]
