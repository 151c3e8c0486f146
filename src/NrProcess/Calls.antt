-- ===== src/NrProcess/Calls.antt =====
-- The calls of `kernel/src/nrproc.rs` that submit an operation to the replica of a process. The
-- replicas are a parameter: `execute_mut` and `execute` run an operation of the process with a number
-- and give its response. A process number is below `MAX_PROCESSES`.
use node_replicated_kernel.Prelude.{ℕ, List, [], ◌∷◌, Option, none, some, add64}
use node_replicated_kernel.Prelude.Outcome.{Outcome, ok, panic, stuck, Comp, chain, unwrap}
use node_replicated_kernel.Memory.Frame.{Frame}
use node_replicated_kernel.Memory.Action.{MapAction}
use node_replicated_kernel.Memory.Cores.{TlbFlushHandle}
use node_replicated_kernel.NrProcess
use node_replicated_kernel.NrProcess.{
  ReadOps, Op, NodeResult, process_info, mem_resolve, loaded, info, executor, executors_created,
  mapped, mapped_frame_id, unmapped, resolved, frame_id, mem_map_device, mem_map_frame,
  mem_map_frame_id, mem_unmap, allocate_frame_to_process, dispatcher_allocation, assign_executor,
}

-- The responses that the calls report; any other is `unreachable!`.
module _ {E I : Type 0} where
  abbrev pub is_loaded : NodeResult E I → Option (Unit {0})
  is_loaded loaded = some tt
  is_loaded _ = none

  abbrev pub is_mapped : NodeResult E I → Option (Unit {0})
  is_mapped mapped = some tt
  is_mapped _ = none

  abbrev pub resolved_to : NodeResult E I → Option (ℕ × ℕ)
  resolved_to (resolved paddr rights) = some (paddr, 0)
  resolved_to _ = none

  abbrev pub handle_of : NodeResult E I → Option TlbFlushHandle
  handle_of (unmapped handle) = some handle
  handle_of _ = none

  abbrev pub frame_of : NodeResult E I → Option (ℕ × ℕ)
  frame_of (mapped_frame_id paddr size) = some (paddr, size)
  frame_of _ = none

  abbrev pub info_of : NodeResult E I → Option I
  info_of (info pinfo) = some pinfo
  info_of _ = none

  abbrev pub executor_of : NodeResult E I → Option E
  executor_of (executor e) = some e
  executor_of _ = none

  abbrev pub frame_id_of : NodeResult E I → Option ℕ
  frame_id_of (frame_id fid) = some fid
  frame_id_of _ = none

  abbrev pub how_many : NodeResult E I → Option ℕ
  how_many (executors_created n) = some n
  how_many _ = none

  abbrev pub respond :
      {S R : Type 0} → (NodeResult E I → Option R) → Outcome (NodeResult E I) × S → Outcome R × S
  respond f r = chain r λ x s. (unwrap (f x), s)

module _ {S E M I : Type 0} (execute_mut : ℕ → Op M → Comp S (NodeResult E I))
    (execute : ℕ → ReadOps → Comp S (NodeResult E I)) where
  abbrev pub load : ℕ → M → List Frame → Comp S (Unit {0})
  load pid module_ writeable_sections s =
      respond is_loaded (execute_mut pid (NrProcess.load pid module_ writeable_sections) s)

  abbrev pub resolve : ℕ → ℕ → Comp S (ℕ × ℕ)
  resolve pid base s = respond resolved_to (execute pid (mem_resolve base) s)

  abbrev pub map_device_frame : ℕ → Frame → MapAction → Comp S (ℕ × ℕ)
  map_device_frame pid frame action s =
      chain (respond is_mapped (execute_mut pid (mem_map_device frame action) s))
        λ _ s. (ok (frame.base, frame.size), s)

  abbrev pub unmap : ℕ → ℕ → Comp S TlbFlushHandle
  unmap pid base s = respond handle_of (execute_mut pid (mem_unmap base) s)

  abbrev pub map_frame_id : ℕ → ℕ → ℕ → MapAction → Comp S (ℕ × ℕ)
  map_frame_id pid fid base action s =
      respond frame_of (execute_mut pid (mem_map_frame_id base fid action) s)

  -- The response `Mapped`; any other, an error included, is `unreachable!`.
  abbrev pub must_map : Outcome (NodeResult E I) × S → Outcome (Unit {0}) × S
  must_map (ok mapped, s) = (ok tt, s)
  must_map (stuck, s) = (stuck, s)
  must_map (_, s) = (panic, s)

  -- `map_frames`, from an offset on.
  unfoldable pub map_from : ℕ → ℕ → ℕ → List Frame → MapAction → Comp S (ℕ × ℕ)
  map_from pid base virtual_offset [] action s = (ok (base, virtual_offset), s)
  map_from pid base virtual_offset (frame ∷ frames) action s =
      chain (must_map (execute_mut pid (mem_map_frame (add64 base virtual_offset) frame action) s))
        λ _. map_from pid base (add64 virtual_offset frame.size) frames action

  abbrev pub map_frames : ℕ → ℕ → List Frame → MapAction → Comp S (ℕ × ℕ)
  map_frames pid base = map_from pid base 0

  abbrev pub pinfo : ℕ → Comp S I
  pinfo pid s = respond info_of (execute pid process_info s)

  abbrev pub allocate_executor : ℕ → ℕ → ℕ → Comp S E
  allocate_executor hwthread_id node pid s =
      respond executor_of (execute_mut pid (assign_executor hwthread_id node) s)

  abbrev pub call_allocate_frame : ℕ → Frame → Comp S ℕ
  call_allocate_frame pid frame s =
      respond frame_id_of (execute_mut pid (allocate_frame_to_process frame) s)

  abbrev pub allocate_dispatchers : ℕ → Frame → Comp S ℕ
  allocate_dispatchers pid frame s =
      respond how_many (execute_mut pid (dispatcher_allocation frame) s)
