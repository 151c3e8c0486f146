-- ===== src/Cnrfs/Reach.antt =====
-- The nodes that operations of the log reach from the one that `kernel/src/cnrfs.rs` starts with.
use node_replicated_kernel.Prelude.{◌+◌, ◌<◌, word}
use node_replicated_kernel.Prelude.Outcome.{Heap}
use node_replicated_kernel.Fs.Mlnr.Inv.{Inv, default-Inv}
use node_replicated_kernel.Cnrfs.{MlnrKernelNode, default, Modify, dispatch_mut}
use node_replicated_kernel.Cnrfs.Inv.{Fits, dispatch_mut-Inv}

-- Each step applies one operation, whatever the allocator answers: node numbers are left, and a
-- write ends within a word.
pub data Reached : MlnrKernelNode → Type 0 where
  start : Reached default
  step :
      {node : MlnrKernelNode}
      → Reached node
      → (op : Modify) (h : Heap) → node.fs.nextmemnode + 1 < word
      → Fits op node
      → Reached (dispatch_mut op (node, h)).1.0

-- Every reached node satisfies the invariant of the file system: every name has a node, two names
-- have two, and every node is well-formed and has its number, which is below the next.
pub Reached-Inv : (node : MlnrKernelNode) → Reached node → Inv node.fs
unfolding default
Reached-Inv _ start = default-Inv
Reached-Inv _ (step {node} r op h room fits) =
    dispatch_mut-Inv op node h (Reached-Inv node r) room fits
