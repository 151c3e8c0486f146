-- ===== src/Cnrfs/Logs.antt =====
-- `LogMapper` of `kernel/src/cnrfs.rs`: which operations the replicas see in one order.
use node_replicated_kernel.Prelude.{
  ℕ, zero, suc, ◌%◌, ◌<◌, ◌≡◌, ◌≢◌, refl, ◌⊎◌, inl, inr, List, [], ◌∷◌, ◌++◌, sub64, arith,
  ℕ_discrete,
}
use native.Mathlib.Nat.{mod-lt}
use node_replicated_kernel.Fs.Mlnr.{mnode_offset}
use node_replicated_kernel.Cnrfs.{
  Modify, process_add, process_remove, file_open, file_write, file_close, file_delete, file_rename,
  mk_dir, Access, file_read, file_info, fd_to_mnode, file_name_to_mnode, synchronize, push_to_all,
  logs_of_modify, logs_of_access,
}

-- The log `l` is among `logs`.
abbrev pub Has : ℕ → List ℕ → Type 0
Has l [] = ⊥
Has l (x ∷ logs) = (l ≡ x) ⊎ Has l logs

-- There is a log in both lists.
abbrev pub Share : ℕ → List ℕ → List ℕ → Type 0
Share nlogs xs ys = (l : ℕ) × (l < nlogs) × Has l xs × Has l ys

-- Writes to different nodes: the only operations that may go unordered.
abbrev pub Apart : Modify → Modify → Type 0
Apart (file_write p fd m b n o) (file_write p' fd' m' b' n' o') = m ≢ m'
Apart _ _ = ⊥

-- What an access may miss: only a write, and only one to another node where the access names one.
abbrev pub Unrelated : Access → Modify → Type 0
Unrelated (file_read p fd m b n o) (file_write p' fd' m' b' n' o') = m ≢ m'
Unrelated (file_info p name m ptr) (file_write p' fd' m' b' n' o') = m ≢ m'
Unrelated (fd_to_mnode p fd) (file_write p' fd' m' b' n' o') = Unit
Unrelated (file_name_to_mnode p name) (file_write p' fd' m' b' n' o') = Unit
Unrelated (synchronize log_id) (file_write p' fd' m' b' n' o') = Unit
Unrelated _ _ = ⊥

Has-left : (l : ℕ) (xs ys : List ℕ) → Has l xs → Has l (xs ++ ys)
Has-left l [] ys h = elim h [ ]
Has-left l (x ∷ xs) ys (inl e) = inl e
Has-left l (x ∷ xs) ys (inr h) = inr (Has-left l xs ys h)

Has-last : (l : ℕ) (xs : List ℕ) → Has l (xs ++ l ∷ [])
Has-last l [] = inl refl
Has-last l (x ∷ xs) = inr (Has-last l xs)

push_to_all-Has : (n l : ℕ) (logs : List ℕ) → l < n → Has l (push_to_all n logs)
unfolding push_to_all
push_to_all-Has zero l logs lt = absurd (omega arith)
push_to_all-Has (suc n) l logs lt = elim (ℕ_discrete l n) [
  | yes e ↦ rw e (Has-last n (push_to_all n logs))
  | no ne ↦ Has-left l (push_to_all n logs) (n ∷ []) (push_to_all-Has n l logs (omega arith))
]

module _ (nlogs : ℕ) (pos : 0 < nlogs) where
  -- The log of a node.
  log_of : ℕ → ℕ
  log_of mnode = sub64 mnode mnode_offset % nlogs

  every-Has : (l : ℕ) → l < nlogs → Has l (push_to_all nlogs [])
  every-Has l lt = push_to_all-Has nlogs l [] lt

  modify-Has : (o : Modify) → (l : ℕ) × (l < nlogs) × Has l (logs_of_modify nlogs o)
  unfolding logs_of_modify
  modify-Has (file_write pid fd mnode buffer len offset) = (_, mod-lt _ pos, inl refl)
  modify-Has (process_add pid) = (0, pos, every-Has 0 pos)
  modify-Has (process_remove pid) = (0, pos, every-Has 0 pos)
  modify-Has (file_open pid filename flags modes) = (0, pos, every-Has 0 pos)
  modify-Has (file_close pid fd) = (0, pos, every-Has 0 pos)
  modify-Has (file_delete pid filename) = (0, pos, every-Has 0 pos)
  modify-Has (file_rename pid oldname newname) = (0, pos, every-Has 0 pos)
  modify-Has (mk_dir pid filename modes) = (0, pos, every-Has 0 pos)

  access-Has : (a : Access) → (l : ℕ) × (l < nlogs) × Has l (logs_of_access nlogs a)
  unfolding logs_of_access
  access-Has (file_read pid fd mnode buffer len offset) = (_, mod-lt _ pos, inl refl)
  access-Has (file_info pid name mnode info_ptr) = (_, mod-lt _ pos, inl refl)
  access-Has (fd_to_mnode pid fd) = (0, pos, inl refl)
  access-Has (file_name_to_mnode pid name) = (0, pos, inl refl)
  access-Has (synchronize log_id) = (_, mod-lt _ pos, inl refl)

  -- Each shares a log with the operations that go to all.
  modify-Share_left : (o : Modify) → Share nlogs (logs_of_modify nlogs o) (push_to_all nlogs [])
  modify-Share_left o = let (l, lt, h) = modify-Has o in (l, lt, h, every-Has l lt)

  modify-Share_right : (o : Modify) → Share nlogs (push_to_all nlogs []) (logs_of_modify nlogs o)
  modify-Share_right o = let (l, lt, h) = modify-Has o in (l, lt, every-Has l lt, h)

  access-Share_left : (a : Access) → Share nlogs (logs_of_access nlogs a) (push_to_all nlogs [])
  access-Share_left a = let (l, lt, h) = access-Has a in (l, lt, h, every-Has l lt)

  -- Two operations that change the node have a log in common, which orders them, except two writes
  -- to nodes of different numbers.
  pub logs_of_modify-Share :
      (o p : Modify) → Share nlogs (logs_of_modify nlogs o) (logs_of_modify nlogs p) ⊎ Apart o p
  unfolding logs_of_modify
  logs_of_modify-Share (file_write pid fd mnode buffer len offset)
        (file_write pid' fd' mnode' buffer' len' offset') =
      elim (ℕ_discrete mnode mnode') [
        | yes e ↦ inl (_, mod-lt _ pos, inl refl, inl (rw e refl))
        | no ne ↦ inr ne
      ]
  logs_of_modify-Share (file_write pid fd mnode buffer len offset) (process_add pid') =
      inl (modify-Share_left (file_write pid fd mnode buffer len offset))
  logs_of_modify-Share (file_write pid fd mnode buffer len offset) (process_remove pid') =
      inl (modify-Share_left (file_write pid fd mnode buffer len offset))
  logs_of_modify-Share (file_write pid fd mnode buffer len offset)
        (file_open pid' filename' flags' modes') =
      inl (modify-Share_left (file_write pid fd mnode buffer len offset))
  logs_of_modify-Share (file_write pid fd mnode buffer len offset) (file_close pid' fd') =
      inl (modify-Share_left (file_write pid fd mnode buffer len offset))
  logs_of_modify-Share (file_write pid fd mnode buffer len offset) (file_delete pid' filename') =
      inl (modify-Share_left (file_write pid fd mnode buffer len offset))
  logs_of_modify-Share (file_write pid fd mnode buffer len offset)
        (file_rename pid' oldname' newname') =
      inl (modify-Share_left (file_write pid fd mnode buffer len offset))
  logs_of_modify-Share (file_write pid fd mnode buffer len offset) (mk_dir pid' filename' modes') =
      inl (modify-Share_left (file_write pid fd mnode buffer len offset))
  logs_of_modify-Share (process_add pid) p = inl (modify-Share_right p)
  logs_of_modify-Share (process_remove pid) p = inl (modify-Share_right p)
  logs_of_modify-Share (file_open pid filename flags modes) p = inl (modify-Share_right p)
  logs_of_modify-Share (file_close pid fd) p = inl (modify-Share_right p)
  logs_of_modify-Share (file_delete pid filename) p = inl (modify-Share_right p)
  logs_of_modify-Share (file_rename pid oldname newname) p = inl (modify-Share_right p)
  logs_of_modify-Share (mk_dir pid filename modes) p = inl (modify-Share_right p)

  -- An operation that reads has a log in common with each operation that changes the node, except
  -- with writes: a read of a file and a look at its size share the log of the writes to the node that
  -- they name, and the others name none.
  pub logs_of_access-Share :
      (a : Access) (o : Modify)
      → Share nlogs (logs_of_access nlogs a) (logs_of_modify nlogs o) ⊎ Unrelated a o
  unfolding logs_of_access logs_of_modify
  logs_of_access-Share (file_read p f mnode b n o) (file_write pid fd mnode' buffer len offset) =
      elim (ℕ_discrete mnode mnode') [
        | yes e ↦ inl (_, mod-lt _ pos, inl refl, inl (rw e refl))
        | no ne ↦ inr ne
      ]
  logs_of_access-Share (file_info p name mnode info_ptr)
        (file_write pid fd mnode' buffer len offset) =
      elim (ℕ_discrete mnode mnode') [
        | yes e ↦ inl (_, mod-lt _ pos, inl refl, inl (rw e refl))
        | no ne ↦ inr ne
      ]
  logs_of_access-Share (fd_to_mnode p f) (file_write pid fd mnode' buffer len offset) = inr tt
  logs_of_access-Share (file_name_to_mnode p name) (file_write pid fd mnode' buffer len offset) =
      inr tt
  logs_of_access-Share (synchronize log_id) (file_write pid fd mnode' buffer len offset) = inr tt
  logs_of_access-Share a (process_add pid) = inl (access-Share_left a)
  logs_of_access-Share a (process_remove pid) = inl (access-Share_left a)
  logs_of_access-Share a (file_open pid filename flags modes) = inl (access-Share_left a)
  logs_of_access-Share a (file_close pid fd) = inl (access-Share_left a)
  logs_of_access-Share a (file_delete pid filename) = inl (access-Share_left a)
  logs_of_access-Share a (file_rename pid oldname newname) = inl (access-Share_left a)
  logs_of_access-Share a (mk_dir pid filename modes) = inl (access-Share_left a)
