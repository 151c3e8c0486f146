-- ===== src/Fs/Mlnr/Keep.antt =====
-- Writes, deletions, truncations and renames of `kernel/src/fs/mod.rs` keep the invariant.
use node_replicated_kernel.Prelude.{
  ℕ, ◌+◌, ◌<◌, ◌≤◌, String, ◌≡◌, refl, inl, inr, List, Option-cases, Bool-cases, ◌==◌, is_some,
  length, word, nat_eq, string_eq, arith,
}
use node_replicated_kernel.Prelude.Dict.{lookup}
use node_replicated_kernel.Prelude.Outcome.{
  Outcome, ok, err, panic, stuck, chain, Heap, request_cases,
}
use node_replicated_kernel.Kpi.Io.{FileType, directory, file}
use node_replicated_kernel.Fs.Mnode.Access.{
  write-NodeValid, file_truncate-NodeValid, write-mnode_num, truncate-mnode_num,
}
use node_replicated_kernel.Fs.Mlnr.{
  MlnrFs, Store, create_node, create, mkdir, write, share, lookup_name, drop_name, delete, truncate,
  truncate_node, make_way, unwrap_delete, move_entry, rename, on_fs,
}
use node_replicated_kernel.Fs.Mlnr.Create.{present, no_memory, created, create_node-Created}
use node_replicated_kernel.Fs.Mlnr.Inv.{Inv, with_node-Inv}
use node_replicated_kernel.Fs.Mlnr.Maps.{replace-Inv, remove-Inv, recount-Inv, move-Inv}

-- The counter may move on.
counted : (fs : MlnrFs) (n : ℕ) → Inv fs → fs.nextmemnode ≤ n → Inv (record fs { nextmemnode = n })
counted fs n i le = record {
  named = i.named;
  apart = i.apart;
  numbered = λ k m e. let (x, l) = i.numbered k m e in (x, omega arith);
  valid = i.valid;
}

unwrapped : (r : Outcome (Unit {0}) × MlnrFs) → Inv r.1 → Inv (unwrap_delete r).1
unwrapped (ok u, fs) i = i
unwrapped (err e, fs) i = i
unwrapped (panic, fs) i = i
unwrapped (stuck, fs) i = i

-- Every branch of every operation that changes the file system keeps the invariant.
pub create_node-Inv :
    (fs : MlnrFs) (h : Heap) (name : String) (modes : ℕ) (t : FileType)
    → Inv fs
    → fs.nextmemnode + 1 < word
    → Inv (create_node name modes t (fs, h)).1.0
create_node-Inv fs h name modes t i fits = elim (create_node-Created name modes t fs h) [
  | present a e p ↦ rw p i
  | no_memory n g e c s p ↦
      rw p (counted fs n i (elim c [ inl x ↦ omega arith | inr x ↦ omega arith ]))
  | created node g e v num ty p ↦ rw p (with_node-Inv fs name node i fits v num)
]

pub write-Inv :
    (fs : MlnrFs) (h : Heap) (k offset : ℕ) (bytes_in : List ℕ)
    → Inv fs
    → offset + length bytes_in < word
    → Inv (write k bytes_in offset (fs, h)).1.0
unfolding write
write-Inv fs h k offset bytes_in i fits = elim (Option-cases (lookup k fs.mnodes)) [
  | inl e ↦ rw (e, write) i
  | inr (n, e) ↦
      rw (e, write)
        (replace-Inv fs i k n _ e (write-NodeValid n h bytes_in offset (i.valid k n e) fits)
          (write-mnode_num n h bytes_in offset))
]

pub lookup_name-Inv : (fs : MlnrFs) (name : String) → Inv fs → Inv (lookup_name name fs).1
unfolding lookup_name share
lookup_name-Inv fs name i = elim (Option-cases (lookup name fs.files)) [
  | inl e ↦ rw e i
  | inr (a, e) ↦ rw e (recount-Inv fs i name a _ e refl)
]

pub drop_name-Inv : (fs : MlnrFs) (name : String) → Inv fs → Inv (drop_name name fs)
unfolding drop_name share
drop_name-Inv fs name i = elim (Option-cases (lookup name fs.files)) [
  | inl e ↦ rw e i
  | inr (a, e) ↦ rw e (recount-Inv fs i name a _ e refl)
]

pub delete-Inv : (fs : MlnrFs) (name : String) → Inv fs → Inv (delete name fs).1
unfolding delete
delete-Inv fs name i = elim (Option-cases (lookup name fs.files)) [
  | inl e ↦ rw (e, delete) i
  | inr (a, e) ↦ elim (Bool-cases (a.strong == 1)) [
    | inl t ↦ rw (e, delete, t) (remove-Inv fs i name a e)
    | inr f ↦ rw (e, delete, f) i
  ]
]

pub truncate-Inv : (fs : MlnrFs) (name : String) → Inv fs → Inv (truncate name fs).1
unfolding truncate truncate_node
truncate-Inv fs name i = elim (Option-cases (lookup name fs.files)) [
  | inl e ↦ rw (e, truncate) i
  | inr (a, e) ↦
      let (n, q) = i.named name a e in
      rw (e, truncate, q)
        (replace-Inv fs i a.value n _ q (file_truncate-NodeValid n (i.valid a.value n q))
          (truncate-mnode_num n))
]

move_entry-Inv : (fs : MlnrFs) (p q : String) → Inv fs → Inv (move_entry p q fs).1
unfolding move_entry
move_entry-Inv fs p q i = elim (Option-cases (lookup p fs.files)) [
  | inl e ↦ rw (e, move_entry) i
  | inr (a, e) ↦ rw (e, move_entry) (move-Inv fs i p q a e)
]

make_way-Inv : (fs : MlnrFs) (q : String) → Inv fs → Inv (make_way q fs).1
unfolding make_way
make_way-Inv fs q i = elim (Bool-cases (is_some (lookup q fs.files))) [
  | inl t ↦ rw t (unwrapped (delete q fs) (delete-Inv fs q i))
  | inr f ↦ rw f i
]

-- The end of `rename`, whatever making way gave.
moved-Inv :
    (r : Outcome (Unit {0}) × MlnrFs) (p q : String) (g : Heap)
    → Inv r.1
    → Inv (chain (r.0, (r.1, g)) (λ _. on_fs (move_entry p q))).1.0
moved-Inv (ok u, fs) p q g i = move_entry-Inv fs p q i
moved-Inv (err e, fs) p q g i = i
moved-Inv (panic, fs) p q g i = i
moved-Inv (stuck, fs) p q g i = i

pub rename-Inv : (fs : MlnrFs) (h : Heap) (p q : String) → Inv fs → Inv (rename p q (fs, h)).1.0
unfolding rename
rename-Inv fs h p q i = elim (Option-cases (lookup p fs.files)) [
  | inl e ↦ rw e i
  | inr (a, e) ↦ rw e (elim (request_cases h) [
    | inl (g, x, _) ↦ rw x (moved-Inv (make_way q fs) p q g (make_way-Inv fs q i))
    | inr (g, x, _) ↦ rw x i
  ])
]

pub create-Inv :
    (fs : MlnrFs) (h : Heap) (name : String) (modes : ℕ)
    → Inv fs
    → fs.nextmemnode + 1 < word
    → Inv (create name modes (fs, h)).1.0
unfolding create
create-Inv fs h name modes i fits = create_node-Inv fs h name modes file i fits

same_fs : (r : Outcome ℕ × Store) → Inv r.1.0 → Inv (chain r (λ _ s. (ok tt, s))).1.0
same_fs (ok n, s) i = i
same_fs (err e, s) i = i
same_fs (panic, s) i = i
same_fs (stuck, s) i = i

pub mkdir-Inv :
    (fs : MlnrFs) (h : Heap) (name : String) (modes : ℕ)
    → Inv fs
    → fs.nextmemnode + 1 < word
    → Inv (mkdir name modes (fs, h)).1.0
unfolding mkdir
mkdir-Inv fs h name modes i fits =
    same_fs (create_node name modes directory (fs, h))
      (create_node-Inv fs h name modes directory i fits)

-- A lookup takes no number.
pub lookup_name-next :
    (fs : MlnrFs) (name : String) → (lookup_name name fs).1.nextmemnode ≡ fs.nextmemnode
unfolding lookup_name share
lookup_name-next fs name = elim (Option-cases (lookup name fs.files)) [
  | inl e ↦ rw e
  | inr (a, e) ↦ rw e
]
