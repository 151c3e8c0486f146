-- ===== src/Fs/Mnode.antt =====
-- `kernel/src/fs/mnode.rs`: the node of a file or a directory. A node and the allocator are the
-- state of the operations that change one; reading gives the user's slice back.
pub mod Access
use node_replicated_kernel.Prelude.{
  ℕ, ◌+◌, ◌-◌, min, String, Bool, true, false, ◌||◌, ltb, leb, ◌==◌, if◌then◌else◌, Option, none,
  some, List, length,
}
use node_replicated_kernel.Prelude.Outcome.{
  Outcome, ok, err, panic, stuck, permission_error, invalid_offset, Comp, ◌>>=◌, ◌>>◌, give, Heap,
  request, and_then, unwrap,
}
use node_replicated_kernel.Kpi.Io.{FileType, directory, file, is_readable, is_writable}
use node_replicated_kernel.Fs.File
use node_replicated_kernel.Fs.File.{File}

pub record MemNode : Type 0 where
  pub mnode_num : ℕ
  pub name : String
  pub node_type : FileType
  pub contents : Option File

-- `MemNode::new`: a directory has no file.
pub new : ℕ → String → ℕ → FileType → Comp Heap MemNode
new mnode_num pathname modes directory = do
  request
  give (record { mnode_num = mnode_num; name = pathname; node_type = directory; contents = none })
new mnode_num pathname modes file = do
  f ← File.new modes
  request
  give (record { mnode_num = mnode_num; name = pathname; node_type = file; contents = some f })

-- A node and the allocator.
abbrev pub Store : Type 0
Store = MemNode × Heap

-- What an operation on the file leaves is the node's file.
abbrev pub on_file : {A : Type 0} → MemNode → Outcome A × File.Store → Outcome A × Store
on_file node (r, (f, h)) = (r, (record node { contents = some f }, h))

-- The file of a node of type `File`, which `unwrap` takes, with the bit `allowed` of its modes.
abbrev pub with_file {ℓ} :
    {A : Type ℓ} → FileType → Option File → (ℕ → Bool) → A → A → (File → A) → A
with_file directory contents allowed denied missing k = denied
with_file file none allowed denied missing k = missing
with_file file (some f) allowed denied missing k = if allowed f.modes then k f else denied

pub write : List ℕ → ℕ → Comp Store ℕ
write buffer offset (node, h) =
    with_file node.node_type node.contents is_writable (err permission_error, (node, h))
      (panic, (node, h)) λ f. on_file node (File.write_file buffer (length buffer) offset (f, h))

pub get_file_size : MemNode → Outcome ℕ
get_file_size node = and_then (unwrap node.contents) λ f. ok (File.get_size f)

-- A read from the file, once its size is known.
read_from : File → List ℕ → ℕ → ℕ → Outcome (ℕ × List ℕ)
read_from f dst offset file_size =
    let bytes_to_read = min (file_size - offset) (length dst) in
    let new_offset = offset + bytes_to_read in
    let copied = File.read_file f dst offset new_offset in
    if ltb file_size offset
    then ok (0, dst)
    else (if bytes_to_read == 0
        then ok (0, dst)
        else (if leb new_offset offset || ltb (File.get_size f) new_offset
            then err invalid_offset
            else copied))

pub read : MemNode → List ℕ → ℕ → Outcome (ℕ × List ℕ)
read node dst offset =
    with_file node.node_type node.contents is_readable (err permission_error) panic
      λ f. and_then (get_file_size node) λ file_size. read_from f dst offset file_size

pub file_truncate : MemNode → Outcome (Unit {0}) × MemNode
file_truncate node =
    with_file node.node_type node.contents is_writable (err permission_error, node) (panic, node)
      λ f. (ok tt, record node { contents = some (File.file_truncate f) })
