-- ===== src/Fs/Tests.antt =====
-- The theorems on `kernel/src/fs/mnode.rs` and `kernel/src/fs/mod.rs` at a small file system.
use node_replicated_kernel.Prelude.{[], ◌∷◌, true, false}
use node_replicated_kernel.Kpi.Io.{file}
use node_replicated_kernel.Fs.Mlnr.{default, create_node, delete, rename}
use node_replicated_kernel.Fs.Mlnr.Rename.{Deleted, delete-Deleted, Renamed, rename-Renamed}
use node_replicated_kernel.Fs.Mlnr.Create.{Created, create_node-Created}

create_node-Created_example :
    Created default
      (true ∷ false ∷ [])
      "a"
      file
      (create_node "a" 7 file (default, true ∷ false ∷ []))
create_node-Created_example = create_node-Created "a" 7 file default (true ∷ false ∷ [])

delete-Deleted_example : Deleted "/" default (delete "/" default)
delete-Deleted_example = delete-Deleted "/" default

rename-Renamed_example : Renamed "/" "/" default [] (rename "/" "/" (default, []))
rename-Renamed_example = rename-Renamed "/" "/" default []
