-- ===== src/KernelNode.antt =====
-- `kernel/src/nr.rs`: the replicated state of the scheduler, the process numbers that are taken and the
-- cores that are given to processes.
pub mod Pids
pub mod Cores
mod Tests
use node_replicated_kernel.Prelude.{
  ℕ, zero, suc, ◌+◌, List, [], ◌∷◌, Option, none, some, Bool, is_some, ltb, if◌then◌else◌, nat_eq,
}
use node_replicated_kernel.Prelude.Dict.{lookup, insert, remove}
use node_replicated_kernel.Prelude.Outcome.{
  Outcome, ok, err, panic, stuck, Comp, chain, Heap, request, out_of_pids, no_process_found_for_pid,
  no_executor_for_core, core_already_allocated, replica_not_set,
}

abbrev pub max_processes : ℕ
max_processes = 12

abbrev pub max_cores : ℕ
max_cores = 192

pub data ReadOps : Type 0 where
  current_process : (gtid : ℕ) → ReadOps

pub data Op : Type 0 where
  allocate_pid : Op
  free_pid : (pid : ℕ) → Op
  sched_allocate_core : (pid : ℕ) (affinity gtid : Option ℕ) (entry_point : ℕ) → Op

pub record CoreInfo : Type 0 where
  pub pid : ℕ
  pub entry_point : ℕ

pub data NodeResult : Type 0 where
  pid_allocated : ℕ → NodeResult
  pid_returned : NodeResult
  core_info : CoreInfo → NodeResult
  core_allocated : ℕ → NodeResult

pub record KernelNode : Type 0 where
  pub process_map : List (ℕ × Unit {0})
  pub scheduler_map : List (ℕ × CoreInfo)

abbrev pub default : KernelNode
default = record { process_map = []; scheduler_map = [] }

-- The node, and the answers of the allocator.
abbrev pub Store : Type 0
Store = KernelNode × Heap

-- `try_reserve`.
abbrev pub reserve : Comp Store (Unit {0})
reserve (node, h) = let (r, g) = request h in (r, (node, g))

-- The number is taken; `insert` gives back what was there, and none is asserted.
abbrev pub take_pid : ℕ → Comp Store NodeResult
take_pid pid (node, h) =
    if is_some (lookup pid node.process_map)
    then (panic, (node, h))
    else (ok (pid_allocated pid), (record node { process_map = insert pid tt node.process_map }, h))

-- The loop of `AllocatePid`, over the `n` numbers from `i` on.
unfoldable pub first_pid : ℕ → ℕ → Comp Store NodeResult
first_pid zero i s = (err out_of_pids, s)
first_pid (suc n) i s =
    let rest = first_pid n (i + 1) s in
    if is_some (lookup i s.0.process_map) then rest else chain (reserve s) (λ _. take_pid i)

abbrev pub return_pid : ℕ → Comp Store NodeResult
return_pid pid (node, h) =
    if is_some (lookup pid node.process_map)
    then (ok pid_returned, (record node { process_map = remove pid node.process_map }, h))
    else (err no_process_found_for_pid, (node, h))

abbrev pub take_core : ℕ → ℕ → ℕ → Comp Store NodeResult
take_core pid gtid entry_point (node, h) =
    let info : CoreInfo = record { pid = pid; entry_point = entry_point } in
    if is_some (lookup gtid node.scheduler_map) then (panic, (node, h)) else (
      ok (core_allocated gtid),
      (record node { scheduler_map = insert gtid info node.scheduler_map }, h),
    )

abbrev pub allocate_core : ℕ → ℕ → ℕ → Comp Store NodeResult
allocate_core pid gtid entry_point s =
    if is_some (lookup gtid s.0.scheduler_map)
    then (err core_already_allocated, s)
    else chain (reserve s) (λ _. take_core pid gtid entry_point)

abbrev pub info_or_none : Option CoreInfo → Outcome NodeResult
info_or_none none = err no_executor_for_core
info_or_none (some info) = ok (core_info info)

unfoldable pub dispatch : ReadOps → KernelNode → Outcome NodeResult
dispatch (current_process gtid) node = info_or_none (lookup gtid node.scheduler_map)

unfoldable pub dispatch_mut : Op → Comp Store NodeResult
dispatch_mut allocate_pid s = first_pid max_processes 0 s
dispatch_mut (free_pid pid) s = return_pid pid s
dispatch_mut (sched_allocate_core pid affinity (some gtid) entry_point) s =
    if ltb gtid max_cores then allocate_core pid gtid entry_point s else (panic, s)
dispatch_mut (sched_allocate_core pid affinity none entry_point) s = (panic, s)

-- Operations in their order, as the log gives them to a replica.
unfoldable pub run : List Op → Store → Store
run [] s = s
run (op ∷ ops) s = run ops (dispatch_mut op s).1

-- `allocate_core_to_process`, over a replica that the core has or not.
unfoldable pub allocate_core_to_process :
    {S : Type 0} → Bool → (Op → Comp S NodeResult) → ℕ → ℕ → Option ℕ → Option ℕ → Comp S ℕ
allocate_core_to_process is_set execute_mut pid entry_point affinity gtid s =
    if is_set
    then chain (execute_mut (sched_allocate_core pid affinity gtid entry_point) s)
        (λ r t. elim r [ core_allocated rgtid ↦ (ok rgtid, t) | _ ↦ (panic, t) ])
    else (err replica_not_set, s)
