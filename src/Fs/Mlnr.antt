-- ===== src/Fs/Mlnr.antt =====
-- `MlnrFS` of `kernel/src/fs/mod.rs`: the map from names to node numbers, the map from node numbers
-- to nodes, and the next number. The locks around the maps are taken and released within each
-- operation, so an operation is one step on the state. `strong` counts the owners of a shared
-- number: the map, and each handler that looked the name up and has not finished.
pub mod Create
pub mod Inv
pub mod Maps
pub mod Keep
pub mod Names
pub mod Rename
pub mod Write
pub mod Read
use node_replicated_kernel.Prelude.{
  ℕ, ◌+◌, ◌-◌, String, Bool, true, false, ◌==◌, if◌then◌else◌, is_some, Option, none, some, List,
  [], ◌∷◌, add64, nat_eq, string_eq,
}
use node_replicated_kernel.Prelude.Dict.{lookup, insert, remove}
use node_replicated_kernel.Prelude.Outcome.{
  Outcome, ok, err, panic, stuck, already_present, invalid_file, permission_error, Comp, ◌>>=◌,
  ◌>>◌, give, fail, Heap, request, and_then,
}
use node_replicated_kernel.Kpi.Io.{FileType, directory, file, FileInfo, file_type_code, s_irwxu}
use node_replicated_kernel.Fs.Mnode
use node_replicated_kernel.Fs.Mnode.{MemNode}

-- `Arc<Mnode>`.
pub record ArcMnode : Type 0 where
  pub value : ℕ
  pub strong : ℕ

pub record MlnrFs : Type 0 where
  pub mnodes : List (ℕ × MemNode)
  pub files : List (String × ArcMnode)
  pub root : String × ℕ
  pub nextmemnode : ℕ

abbrev pub Store : Type 0
Store = MlnrFs × Heap

abbrev pub rootdir : String
rootdir = "/"

abbrev pub mnode_offset : ℕ
mnode_offset = 2

abbrev pub alloc : {A : Type 0} → Comp Heap A → Comp Store A
alloc m (fs, h) = let (r, h') = m h in (r, (fs, h'))

abbrev pub get : Comp Store MlnrFs
get (fs, h) = (ok fs, (fs, h))

abbrev pub put : MlnrFs → Comp Store (Unit {0})
put fs (_, h) = (ok tt, (fs, h))

-- `MlnrFS::default`: the root directory alone.
abbrev pub root_node : MemNode
root_node = record { mnode_num = 1; name = rootdir; node_type = directory; contents = none }

unfoldable pub default : MlnrFs
default = record {
  mnodes = (1, root_node) ∷ [];
  files = (rootdir, record { value = 1; strong = 1 }) ∷ [];
  root = (rootdir, 1);
  nextmemnode = mnode_offset;
}

-- The number that is next, and the counter moved on.
pub get_next_mno : Comp Store ℕ
get_next_mno (fs, h) = (ok fs.nextmemnode, (record fs { nextmemnode = add64 fs.nextmemnode 1 }, h))

-- `create` and `mkdir` up to what they report.
pub create_node : String → ℕ → FileType → Comp Store ℕ
create_node pathname modes node_type = do
  fs ← get
  if is_some (lookup pathname fs.files) then fail already_present else give tt
  alloc request
  mnode_num ← get_next_mno
  alloc request
  alloc request
  memnode ← alloc (Mnode.new mnode_num pathname modes node_type)
  fs' ← get
  put (record fs' {
    mnodes = insert mnode_num memnode fs'.mnodes;
    files = insert pathname (record { value = mnode_num; strong = 1 }) fs'.files;
  })
  give mnode_num

pub create : String → ℕ → Comp Store ℕ
create pathname modes = create_node pathname modes file

pub mkdir : String → ℕ → Comp Store (Unit {0})
mkdir pathname modes = do _ ← create_node pathname modes directory; give tt

-- A node's operation, with its result put back.
abbrev pub at_node : {A : Type 0} → ℕ → Outcome A × Mnode.Store → MlnrFs → Outcome A × Store
at_node mnode_num (r, (node, h)) fs =
    (r, (record fs { mnodes = insert mnode_num node fs.mnodes }, h))

pub write : ℕ → List ℕ → ℕ → Comp Store ℕ
write mnode_num buffer offset (fs, h) = elim (lookup mnode_num fs.mnodes) [
  | some mnode ↦ at_node mnode_num (Mnode.write buffer offset (mnode, h)) fs
  | none ↦ (err invalid_file, (fs, h))
]

-- The count, and the user's slice.
pub read : MlnrFs → ℕ → List ℕ → ℕ → Outcome (ℕ × List ℕ)
read fs mnode_num buffer offset = elim (lookup mnode_num fs.mnodes) [
  | some mnode ↦ Mnode.read mnode buffer offset
  | none ↦ err invalid_file
]

-- The caller becomes an owner of the number, until it drops it.
pub share : (ℕ → ℕ) → Option ArcMnode → String → MlnrFs → MlnrFs
share change none pathname fs = fs
share change (some a) pathname fs = record fs {
  files = insert pathname (record a { strong = change a.strong }) fs.files;
}

pub lookup_name : String → MlnrFs → Option ℕ × MlnrFs
lookup_name pathname fs =
    let found = lookup pathname fs.files in
    (elim found [ some a ↦ some a.value | none ↦ none ], share (λ n. n + 1) found pathname fs)

-- The end of a handler that looked `pathname` up.
pub drop_name : String → MlnrFs → MlnrFs
drop_name pathname fs = share (λ n. n - 1) (lookup pathname fs.files) pathname fs

pub info_of : MemNode → FileType → Outcome FileInfo
info_of mnode directory = ok (record { ftype = file_type_code directory; fsize = 0 })
info_of mnode file =
    and_then (Mnode.get_file_size mnode)
      λ size. ok (record { ftype = file_type_code file; fsize = size })

-- `file_info` panics on a number that no node has.
pub file_info : MlnrFs → ℕ → Outcome FileInfo
file_info fs mnode_num = elim (lookup mnode_num fs.mnodes) [
  | some mnode ↦ info_of mnode mnode.node_type
  | none ↦ panic
]

pub delete : String → MlnrFs → Outcome (Unit {0}) × MlnrFs
delete pathname fs = elim (lookup pathname fs.files) [
  | some a ↦
      if a.strong == 1
      then (
        ok tt,
        record fs { mnodes = remove a.value fs.mnodes; files = remove pathname fs.files },
      )
      else (err permission_error, fs)
  | none ↦ (err invalid_file, fs)
]

pub truncate_node : MlnrFs → ℕ → Option MemNode → Outcome (Unit {0}) × MlnrFs
truncate_node fs mnode_num none = (err invalid_file, fs)
truncate_node fs mnode_num (some node) =
    let (r, node') = Mnode.file_truncate node in
    (r, record fs { mnodes = insert mnode_num node' fs.mnodes })

pub truncate : String → MlnrFs → Outcome (Unit {0}) × MlnrFs
truncate pathname fs = elim (lookup pathname fs.files) [
  | some a ↦ truncate_node fs a.value (lookup a.value fs.mnodes)
  | none ↦ (err invalid_file, fs)
]

-- `self.delete(newname).unwrap()`.
abbrev pub unwrap_delete : Outcome (Unit {0}) × MlnrFs → Outcome (Unit {0}) × MlnrFs
unwrap_delete (ok u, fs) = (ok u, fs)
unwrap_delete (err e, fs) = (panic, fs)
unwrap_delete (panic, fs) = (panic, fs)
unwrap_delete (stuck, fs) = (stuck, fs)

-- An existing `newname` goes first.
pub make_way : String → MlnrFs → Outcome (Unit {0}) × MlnrFs
make_way newname fs =
    if is_some (lookup newname fs.files) then unwrap_delete (delete newname fs) else (ok tt, fs)

-- `remove_entry(oldname)`, then `insert(newname, _)`, which must meet no entry.
pub move_entry : String → String → Comp MlnrFs (Unit {0})
move_entry oldname newname fs = elim (lookup oldname fs.files) [
  | some a ↦
      let rest = remove oldname fs.files in
      (
        if is_some (lookup newname rest) then err permission_error else ok tt,
        record fs { files = insert newname a rest },
      )
  | none ↦ (err invalid_file, fs)
]

abbrev pub on_fs : {A : Type 0} → Comp MlnrFs A → Comp Store A
on_fs m (fs, h) = let (r, fs') = m fs in (r, (fs', h))

pub rename : String → String → Comp Store (Unit {0})
rename oldname newname = do
  fs ← get
  if is_some (lookup oldname fs.files) then give tt else fail invalid_file
  alloc request
  on_fs (make_way newname)
  on_fs (move_entry oldname newname)
