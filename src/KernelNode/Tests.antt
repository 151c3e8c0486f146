-- ===== src/KernelNode/Tests.antt =====
-- The theorems on `kernel/src/nr.rs` at small nodes.
use node_replicated_kernel.Prelude.{◌≡◌, refl, [], ◌∷◌, true, none, some}
use node_replicated_kernel.Prelude.Dict.{lookup}
use node_replicated_kernel.Prelude.Outcome.{ok}
use node_replicated_kernel.KernelNode.{
  KernelNode, allocate_pid, free_pid, sched_allocate_core, core_allocated, core_info,
  current_process, default, dispatch, dispatch_mut, max_processes, run,
}
use node_replicated_kernel.KernelNode.Pids.{Allocated, dispatch_mut-Allocated}
use node_replicated_kernel.KernelNode.Cores.{run-current_process}

-- The numbers 0 and 2 are taken.
abbrev two_pids : KernelNode
two_pids = record { process_map = (0, tt) ∷ (2, tt) ∷ []; scheduler_map = [] }

dispatch_mut-Allocated_example :
    Allocated 0 max_processes two_pids (true ∷ []) (dispatch_mut allocate_pid (two_pids, true ∷ []))
dispatch_mut-Allocated_example = dispatch_mut-Allocated two_pids (true ∷ [])

run-current_process_example :
    dispatch
      (current_process 5)
      (run
        (free_pid 1 ∷ sched_allocate_core 2 none (some 5) 64 ∷ [])
        (dispatch_mut (sched_allocate_core 1 none (some 5) 32) (default, [])).1).0
    ≡ ok (core_info (record { pid = 1; entry_point = 32 }))
unfolding dispatch_mut lookup
run-current_process_example =
    run-current_process 1 5 32 none (free_pid 1 ∷ sched_allocate_core 2 none (some 5) 64 ∷ [])
      default [] (core_allocated 5) refl
