-- ===== src/NrProcess.antt =====
-- `kernel/src/nrproc.rs`: the operations on a replicated process. The process itself, of the trait
-- `Process`, and the allocator of the kernel are parameters.
pub mod Calls
pub mod Answers
pub mod Shootdown
mod Tests
use node_replicated_kernel.Prelude.{ℕ, ◌+◌, List, [], ◌∷◌, ◌++◌, Option, none, some, Bool, add64}
use node_replicated_kernel.Prelude.Outcome.{
  Outcome, ok, err, panic, stuck, Comp, chain, Heap, request, and_then,
}
use node_replicated_kernel.Memory.Frame.{Frame}
use node_replicated_kernel.Memory.Action.{MapAction}
use node_replicated_kernel.Memory.Cores.{BitField, TlbFlushHandle, add_core}

-- The trait `AddressSpace`, as far as a process uses it.
pub record AddressSpace (A : Type 0) : Type 0 where
  pub map_frame : ℕ → Frame → MapAction → Comp A (Unit {0})
  pub unmap : ℕ → Comp A TlbFlushHandle
  pub resolve : ℕ → A → Outcome (ℕ × MapAction)

-- The trait `Process`: with address spaces `A`, executors `E`, modules `M` and its description `I`.
pub record Process (P A E M I : Type 0) : Type 0 where
  pub load : ℕ → M → List Frame → Comp P (Unit {0})
  pub allocate_executors : Frame → Comp P ℕ
  pub get_executor : ℕ → Comp P E
  pub id : E → ℕ
  pub vspace : P → A
  pub set_vspace : A → P → P
  pub pinfo : P → I
  pub add_frame : Frame → Comp P ℕ
  pub get_frame : ℕ → Comp P Frame
  pub space : AddressSpace A

pub data ReadOps : Type 0 where
  process_info : ReadOps
  mem_resolve : ℕ → ReadOps

pub data Op (M : Type 0) : Type 0 where
  proc_raise_irq : Op M
  load : (pid : ℕ) → M → List Frame → Op M
  assign_executor : (gtid region : ℕ) → Op M
  destroy : Op M
  allocate_frame_to_process : Frame → Op M
  dispatcher_allocation : Frame → Op M
  mem_map_frame : (base : ℕ) → Frame → MapAction → Op M
  mem_map_device : Frame → MapAction → Op M
  mem_map_frame_id : (base frame_id : ℕ) → MapAction → Op M
  mem_adjust : Op M
  mem_unmap : (vaddr : ℕ) → Op M

pub data NodeResult (E I : Type 0) : Type 0 where
  loaded destroyed : NodeResult E I
  info : I → NodeResult E I
  executor : E → NodeResult E I
  vector_allocated executors_created : ℕ → NodeResult E I
  mapped : NodeResult E I
  mapped_frame_id : (paddr size : ℕ) → NodeResult E I
  adjusted : NodeResult E I
  unmapped : TlbFlushHandle → NodeResult E I
  resolved : (paddr : ℕ) → MapAction → NodeResult E I
  frame_id : ℕ → NodeResult E I

-- `active_cores` and `process`, with the allocator's answers.
pub record NrProcess (P : Type 0) : Type 0 where
  pub active_cores : List (ℕ × ℕ)
  pub process : P
  pub heap : Heap

abbrev pub new : {P : Type 0} → P → Heap → NrProcess P
new process h = record { active_cores = []; process = process; heap = h }

-- The handle goes to the cores of the list.
pub add_cores : BitField → List (ℕ × ℕ) → TlbFlushHandle → Outcome TlbFlushHandle
add_cores b [] h = ok h
add_cores b ((gtid, eid) ∷ cores) h = and_then (add_core b h gtid) (add_cores b cores)

module _ {P A E M I : Type 0} (b : BitField) (p : Process P A E M I)
    (try_refill_tcache : ℕ → ℕ → Outcome (Unit {0})) where
  abbrev pub on_process : {R : Type 0} → Comp P R → Comp (NrProcess P) R
  on_process f n = let (r, q) = f n.process in (r, record n { process = q })

  -- `vspace_mut()`.
  abbrev pub on_vspace : {R : Type 0} → Comp A R → Comp (NrProcess P) R
  on_vspace f = on_process λ q. let (r, a) = f (p.vspace q) in (r, p.set_vspace a q)

  unfoldable pub dispatch : ReadOps → NrProcess P → Outcome (NodeResult E I)
  dispatch process_info n = ok (info (p.pinfo n.process))
  dispatch (mem_resolve base) n =
      and_then (p.space.resolve base (p.vspace n.process)) λ r. ok (resolved r.0 r.1)

  abbrev pub refill : Comp (NrProcess P) (Unit {0})
  refill n = (try_refill_tcache 7 0, n)

  abbrev pub push_core : ℕ → ℕ → Comp (NrProcess P) (Unit {0})
  push_core gtid eid n =
      let (r, h) = request n.heap in
      chain (r, record n { heap = h })
        λ _ n. (ok tt, record n { active_cores = n.active_cores ++ ((gtid, eid) ∷ []) })

  unfoldable pub dispatch_mut : Op M → Comp (NrProcess P) (NodeResult E I)
  dispatch_mut destroy n = (panic, n)
  dispatch_mut proc_raise_irq n = (panic, n)
  dispatch_mut mem_adjust n = (panic, n)
  dispatch_mut (load pid module_ writeable_sections) n =
      chain (on_process (p.load pid module_ writeable_sections) n) λ _ n. (ok loaded, n)
  dispatch_mut (dispatcher_allocation frame) n =
      chain (on_process (p.allocate_executors frame) n)
        λ how_many n. (ok (executors_created how_many), n)
  dispatch_mut (mem_map_frame base frame action) n =
      chain (refill n)
        λ _ n. chain (on_vspace (p.space.map_frame base frame action) n) λ _ n. (ok mapped, n)
  dispatch_mut (mem_map_device frame action) n =
      chain (on_vspace (p.space.map_frame frame.base frame action) n) λ _ n. (ok mapped, n)
  dispatch_mut (mem_map_frame_id base fid action) n =
      chain (on_process (p.get_frame fid) n) λ frame n. chain (refill n) λ _ n.
        chain (on_vspace (p.space.map_frame base frame action) n)
          λ _ n. (ok (mapped_frame_id frame.base frame.size), n)
  dispatch_mut (mem_unmap vaddr) n =
      chain (on_vspace (p.space.unmap vaddr) n) λ handle n.
        chain (add_cores b n.active_cores handle, n) λ handle n. (ok (unmapped handle), n)
  dispatch_mut (assign_executor gtid region) n =
      chain (on_process (p.get_executor region) n)
        λ e n. chain (push_core gtid (p.id e) n) λ _ n. (ok (executor e), n)
  dispatch_mut (allocate_frame_to_process frame) n =
      chain (on_process (p.add_frame frame) n) λ fid n. (ok (frame_id fid), n)

  -- Operations in their order, as the log gives them to a replica.
  unfoldable pub run : List (Op M) → NrProcess P → NrProcess P
  run [] n = n
  run (op ∷ ops) n = run ops (dispatch_mut op n).1
