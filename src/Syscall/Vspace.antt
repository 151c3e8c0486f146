-- ===== src/Syscall/Vspace.antt =====
-- `handle_vspace` of `kernel/src/arch/x86_64/syscall.rs`: the calls of a process on its address space.
-- The page caches of the core, the replica of the process and the flushing of other cores are those
-- of the record `Spaces`. That a frame is filled with zeros is left out.
use node_replicated_kernel.Prelude.{
  ℕ, zero, suc, ◌+◌, Option, none, some, is_some, List, [], ◌∷◌, ◌++◌, if◌then◌else◌, add64,
}
use node_replicated_kernel.Prelude.Outcome.{
  Outcome, ok, err, panic, stuck, invalid_vspace_operation, Comp, chain, unwrap,
}
use node_replicated_kernel.Kpi.VSpaceOps.{
  VSpaceOperation, map_mem, unmap_mem, map_device, map_mem_frame, identify, map_pmem, unmap_pmem,
  unknown,
}
use node_replicated_kernel.Kpi.VSpaceOps
use node_replicated_kernel.Memory.Frame
use node_replicated_kernel.Memory.Frame.{Frame}
use node_replicated_kernel.Memory.Action.{read_write_user}
use node_replicated_kernel.Memory.Cores.{TlbFlushHandle}
use node_replicated_kernel.Memory.Refill.{MemType, mem, pmem, size_to_pages}
use node_replicated_kernel.NrProcess.{ReadOps, Op, NodeResult}
use node_replicated_kernel.NrProcess.Calls.{
  map_frames, map_device_frame, map_frame_id, unmap, resolve,
}

pub record Spaces (S E M I : Type 0) : Type 0 where
  pub current_pid : S → Outcome ℕ
  pub node : S → ℕ
  pub try_with_capacity : ℕ → Comp S (Unit {0})
  pub try_refill_tcache : ℕ → ℕ → MemType → Comp S (Unit {0})
  pub allocate_base_page : MemType → Comp S Frame
  pub allocate_large_page : MemType → Comp S Frame
  pub execute_mut : ℕ → Op M → Comp S (NodeResult E I)
  pub execute : ℕ → ReadOps → Comp S (NodeResult E I)
  pub shootdown : TlbFlushHandle → Comp S (Unit {0})

-- The frames of a mapping, what they hold and where the first is.
pub record Batch : Type 0 where
  pub frames : List Frame
  pub total_len : ℕ
  pub paddr : Option ℕ

abbrev pub no_frames : Batch
no_frames = record { frames = []; total_len = 0; paddr = none }

abbrev pub add_frame : Frame → Batch → Batch
add_frame f b = record {
  frames = b.frames ++ f ∷ [];
  total_len = add64 b.total_len f.size;
  paddr = if is_some b.paddr then b.paddr else some f.base;
}

-- `expect`.
abbrev pub expect : {A S : Type 0} → Outcome A × S → Outcome A × S
expect (ok a, s) = (ok a, s)
expect (err e, s) = (panic, s)
expect (panic, s) = (panic, s)
expect (stuck, s) = (stuck, s)

-- `n` frames of an allocator.
unfoldable pub take_frames : {S : Type 0} → Comp S Frame → ℕ → Batch → Comp S Batch
take_frames allocate zero b s = (ok b, s)
take_frames allocate (suc n) b s =
    chain (expect (allocate s)) λ f. take_frames allocate n (add_frame f b)

module _ {S E M I : Type 0} (k : Spaces S E M I) where
  -- The end of `MapMem`: what is mapped, from the first frame.
  abbrev pub map_batch : ℕ → ℕ → Batch → Comp S (ℕ × ℕ)
  map_batch pid base all s =
      chain (expect (map_frames k.execute_mut k.execute pid base all.frames read_write_user s))
        λ _ s. chain (unwrap all.paddr, s) λ paddr s. (ok (paddr, all.total_len), s)

  abbrev pub map_pages : MemType → ℕ → ℕ → ℕ → ℕ → Comp S (ℕ × ℕ)
  map_pages mem_type pid base bp lp s =
      chain (take_frames (k.allocate_large_page mem_type) lp no_frames s) λ large s.
        chain (take_frames (k.allocate_base_page mem_type) bp large s) (map_batch pid base)

  -- `MapMem` and `MapPMem`.
  unfoldable pub map_memory : MemType → ℕ → ℕ → ℕ → Comp S (ℕ × ℕ)
  map_memory mem_type pid base region_size s =
      let (bp, lp) = size_to_pages region_size in
      chain (k.try_with_capacity (bp + lp) s) λ _ s.
        chain (k.try_refill_tcache (20 + bp) lp mem_type s) λ _. map_pages mem_type pid base bp lp

  unfoldable pub unmap_memory : ℕ → ℕ → Comp S (ℕ × ℕ)
  unmap_memory pid base s =
      chain (unmap k.execute_mut k.execute pid base s)
        λ handle s. chain (k.shootdown handle s) λ _ s. (ok (handle.vaddr, handle.frame.size), s)

  -- The match of `handle_vspace`.
  unfoldable pub vspace_call : VSpaceOperation → ℕ → ℕ → ℕ → ℕ → Comp S (ℕ × ℕ)
  vspace_call map_mem pid arg1 base size s = map_memory mem pid base size s
  vspace_call map_pmem pid arg1 base size s = map_memory pmem pid base size s
  vspace_call map_device pid arg1 base size s =
      chain (Frame.new base size (k.node s), s)
        λ frame. map_device_frame k.execute_mut k.execute pid frame read_write_user
  vspace_call map_mem_frame pid arg1 base fid s =
      map_frame_id k.execute_mut k.execute pid fid base read_write_user s
  vspace_call unmap_mem pid arg1 base size s = unmap_memory pid base s
  vspace_call unmap_pmem pid arg1 base size s = unmap_memory pid base s
  vspace_call identify pid arg1 base size s = resolve k.execute_mut k.execute pid base s
  vspace_call unknown pid arg1 base size s = (err (invalid_vspace_operation arg1), s)

  unfoldable pub handle_vspace : ℕ → ℕ → ℕ → Comp S (ℕ × ℕ)
  handle_vspace arg1 arg2 arg3 s =
      let op = VSpaceOps.from arg1 in
      chain (k.current_pid s, s) λ pid. vspace_call op pid arg1 arg2 arg3
