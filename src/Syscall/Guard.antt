-- ===== src/Syscall/Guard.antt =====
-- What a read or a write of `kernel/src/arch/x86_64/syscall.rs` does with the buffer of the process.
use node_replicated_kernel.Prelude.{ℕ, ◌+◌, ◌<◌, ◌≤◌, ◌≡◌, ◌⊎◌, inl, inr, refl, word, arith}
use node_replicated_kernel.Prelude.Outcome.{
  Outcome, ok, err, panic, stuck, bad_address, Comp, chain,
}
use node_replicated_kernel.Kpi.Ops
use node_replicated_kernel.Kpi.Ops.{
  FileOperation, create, open_file, close, get_info, delete, write_direct, file_rename, mk_dir,
  unknown, read, read_at, write, write_at,
}
use node_replicated_kernel.Cnrfs.{no_offset}
use node_replicated_kernel.Syscall.UserMemory.{
  user_virt_addr_valid-Valid, Valid, beyond, wrapped, wrapped_beyond, empty, checked, resolved,
  refused, Checked, Resolves, IsRefusal, kernel_base,
}
use node_replicated_kernel.Syscall.FileIo
use node_replicated_kernel.Syscall.FileIo.{Files, io, file_call, handle_fileio}

abbrev pub IsTransfer : FileOperation → Type 0
IsTransfer read = Unit
IsTransfer write = Unit
IsTransfer read_at = Unit
IsTransfer write_at = Unit
IsTransfer _ = ⊥

-- The offset that the file system is given.
abbrev pub offset_of : FileOperation → ℕ → ℕ
offset_of read_at arg5 = arg5
offset_of write_at arg5 = arg5
offset_of _ arg5 = no_offset

module _ {S : Type 0} (k : Files S) where
  -- Why a buffer is refused with `r`: it ends in the kernel's half, or an address of it does not
  -- resolve.
  abbrev pub Reason : ℕ → ℕ → ℕ → S → Outcome (ℕ × ℕ) → Type 0
  Reason pid base size s r =
      ((kernel_base ≤ base + size) × (r ≡ err bad_address))
      ⊎ ((a : ℕ) × (base ≤ a) × (a < base + size) × (k.resolve s pid a ≡ r))

  -- The call is refused and changes nothing; or all of the buffer is mapped, and the call is `f`.
  pub data Guarded (pid base size : ℕ) (f : Comp S (ℕ × ℕ)) (s : S)
      : Outcome (ℕ × ℕ) × S → Type 0 where
    denied :
        (r : Outcome (ℕ × ℕ))
        → IsRefusal (k.resolve s pid) r
        → Reason pid base size s r
        → Guarded pid base size f s (r, s)
    reached :
        base + size < kernel_base
        → ((a : ℕ) → base ≤ a → a < base + size → Resolves (k.resolve s pid) a)
        → Guarded pid base size f s (f s)

  refuse :
      (pid base size : ℕ) (f : Comp S (ℕ × ℕ)) (s : S) (r : Outcome (ℕ × ℕ))
      → IsRefusal (k.resolve s pid) r
      → Reason pid base size s r
      → Guarded pid base size f s (chain (r, s) λ _. f)
  refuse pid base size f s (ok p) no_value why = absurd (no_value p refl)
  refuse pid base size f s (err e) no_value why = denied (err e) no_value why
  refuse pid base size f s panic no_value why = denied panic no_value why
  refuse pid base size f s stuck no_value why = denied stuck no_value why

  by_Checked :
      (pid base size : ℕ) (f : Comp S (ℕ × ℕ)) (s : S) (r : Outcome (ℕ × ℕ))
      → base + size < kernel_base
      → Checked (k.resolve s pid) base (base + size) r
      → Guarded pid base size f s (chain (r, s) λ _. f)
  by_Checked pid base size f s _ small (resolved e all) = reached small all
  by_Checked pid base size f s r small (refused a lo hi e bad) =
      refuse pid base size f s r bad (inr (a, lo, hi, e))

  by_Valid :
      (pid base size : ℕ) (f : Comp S (ℕ × ℕ)) (s : S) (r : Outcome (ℕ × ℕ))
      → 0 < size
      → base + size < word
      → Valid (k.resolve s pid) base size r
      → Guarded pid base size f s (chain (r, s) λ _. f)
  by_Valid pid base size f s r h fits (beyond below big e) =
      refuse pid base size f s r (λ p q. cc) (inl (big, e))
  by_Valid pid base size f s r h fits (wrapped over small e) = absurd (omega arith)
  by_Valid pid base size f s r h fits (wrapped_beyond over big e) = absurd (omega arith)
  by_Valid pid base size f s r h fits (empty e small q) = absurd (omega arith)
  by_Valid pid base size f s r h fits (checked more small c) =
      by_Checked pid base size f s r small c

  checked-Guarded :
      (pid base size : ℕ) (f : Comp S (ℕ × ℕ)) (s : S)
      → 0 < size
      → base + size < word
      → Guarded pid base size f s (FileIo.checked k pid base size f s)
  checked-Guarded pid base size f s h fits =
      by_Valid pid base size f s _ h fits
        (user_virt_addr_valid-Valid (k.resolve s pid) base size (omega arith) (omega arith))

  call-Guarded :
      (op : FileOperation) (pid fd buffer len arg5 : ℕ) (s : S)
      → IsTransfer op
      → 0 < len
      → buffer + len < word
      → Guarded pid buffer len
          (io k op pid fd buffer len (offset_of op arg5))
          s
          (file_call k op pid fd buffer len arg5 s)
  unfolding file_call
  call-Guarded read pid fd buffer len arg5 s t h fits =
      checked-Guarded pid buffer len (io k read pid fd buffer len no_offset) s h fits
  call-Guarded write pid fd buffer len arg5 s t h fits =
      checked-Guarded pid buffer len (io k write pid fd buffer len no_offset) s h fits
  call-Guarded read_at pid fd buffer len arg5 s t h fits =
      checked-Guarded pid buffer len (io k read_at pid fd buffer len arg5) s h fits
  call-Guarded write_at pid fd buffer len arg5 s t h fits =
      checked-Guarded pid buffer len (io k write_at pid fd buffer len arg5) s h fits
  call-Guarded create pid fd buffer len arg5 s t h fits = absurd t
  call-Guarded open_file pid fd buffer len arg5 s t h fits = absurd t
  call-Guarded close pid fd buffer len arg5 s t h fits = absurd t
  call-Guarded get_info pid fd buffer len arg5 s t h fits = absurd t
  call-Guarded delete pid fd buffer len arg5 s t h fits = absurd t
  call-Guarded write_direct pid fd buffer len arg5 s t h fits = absurd t
  call-Guarded file_rename pid fd buffer len arg5 s t h fits = absurd t
  call-Guarded mk_dir pid fd buffer len arg5 s t h fits = absurd t
  call-Guarded unknown pid fd buffer len arg5 s t h fits = absurd t

  -- A call of a process to read or write a buffer of at least a byte that does not wrap around is
  -- refused, and then changes nothing, exactly with `BadAddress` where the buffer ends in the kernel's
  -- half or with what an address of the buffer resolves to; or every address of the buffer is in a
  -- page that resolves, and the call is that of the file system, with the offset -1 for `Read` and
  -- `Write`.
  pub handle_fileio-Guarded :
      (op : FileOperation) (pid fd buffer len arg5 : ℕ) (s : S)
      → IsTransfer op
      → k.current_pid s ≡ ok pid
      → 0 < len
      → buffer + len < word
      → Guarded pid buffer len
          (io k op pid fd buffer len (offset_of op arg5))
          s
          (handle_fileio k (Ops.code op) fd buffer len arg5 s)
  unfolding handle_fileio
  handle_fileio-Guarded op pid fd buffer len arg5 s t e h fits =
      rw (e, Ops.from-Codec.back op) (call-Guarded op pid fd buffer len arg5 s t h fits)
