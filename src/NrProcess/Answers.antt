-- ===== src/NrProcess/Answers.antt =====
-- The calls of `kernel/src/nrproc.rs` on a replica that runs the operations of the process.
use node_replicated_kernel.Prelude.{
  ℕ, ◌+◌, ◌<◌, ◌≡◌, ◌≢◌, ◌⊎◌, inl, inr, refl, sym, ap, subst, List, [], ◌∷◌, some, add64,
  add64-eq_add, word, arith,
}
use node_replicated_kernel.Prelude.Outcome.{Outcome, ok, err, panic, stuck, Comp, chain}
use node_replicated_kernel.Memory.Frame.{Frame}
use node_replicated_kernel.Memory.Action.{MapAction}
use node_replicated_kernel.Memory.Cores.{BitField, TlbFlushHandle}
use node_replicated_kernel.NrProcess.{
  ReadOps, Op, NodeResult, process_info, mem_resolve, loaded, executor, executors_created, mapped,
  mapped_frame_id, unmapped, frame_id, mem_map_device, mem_map_frame, mem_map_frame_id, mem_unmap,
  allocate_frame_to_process, dispatcher_allocation, assign_executor, load, proc_raise_irq, destroy,
  mem_adjust, dispatch_mut, dispatch, run, refill, on_process, on_vspace, NrProcess, Process,
  add_cores, push_core,
}
use node_replicated_kernel.NrProcess.Calls.{
  map_from, map_frames, must_map, is_loaded, is_mapped, resolved_to, handle_of, frame_of, info_of,
  executor_of, frame_id_of, how_many,
}

module _ {E I : Type 0} where
  -- The call that submits the operation reports the response.
  abbrev pub Fits : {M : Type 0} → Op M → NodeResult E I → Type 0
  Fits (load pid m fs) r = is_loaded r ≡ some tt
  Fits (mem_map_frame base f a) r = is_mapped r ≡ some tt
  Fits (mem_map_device f a) r = is_mapped r ≡ some tt
  Fits (mem_map_frame_id base fid a) r = (v : ℕ × ℕ) × (frame_of r ≡ some v)
  Fits (mem_unmap v) r = (h : TlbFlushHandle) × (handle_of r ≡ some h)
  Fits (assign_executor gtid region) r = (e : E) × (executor_of r ≡ some e)
  Fits (allocate_frame_to_process f) r = (fid : ℕ) × (frame_id_of r ≡ some fid)
  Fits (dispatcher_allocation f) r = (n : ℕ) × (how_many r ≡ some n)
  Fits _ r = ⊥

  abbrev pub ReadFits : ReadOps → NodeResult E I → Type 0
  ReadFits process_info r = (i : I) × (info_of r ≡ some i)
  ReadFits (mem_resolve base) r = (v : ℕ × ℕ) × (resolved_to r ≡ some v)

-- A value of `P` if it is a value.
abbrev pub Value : {X : Type 0} → (X → Type 0) → Outcome X → Type 0
Value P (ok x) = P x
Value P _ = Unit

chain-Value :
    {S X Y : Type 0} (P : Y → Type 0) (o : Outcome X × S) (f : X → Comp S Y)
    → ((x : X) (s : S) → Value P (f x s).0)
    → Value P (chain o f).0
chain-Value P (ok x, s) f h = h x s
chain-Value P (err x, s) f h = tt
chain-Value P (panic, s) f h = tt
chain-Value P (stuck, s) f h = tt

module _ {P A E M I : Type 0} (b : BitField) (p : Process P A E M I)
    (try_refill_tcache : ℕ → ℕ → Outcome (Unit {0})) where
  process-Value :
      {X : Type 0} (op : Op M) (g : Comp P X) (n : NrProcess P)
      (f : X → Comp (NrProcess P) (NodeResult E I))
      → ((x : X) (m : NrProcess P) → Value (Fits op) (f x m).0)
      → Value (Fits op) (chain (on_process b p try_refill_tcache g n) f).0
  process-Value op g n f h = chain-Value (Fits op) (on_process b p try_refill_tcache g n) f h

  map-Value :
      (op : Op M) (base : ℕ) (frame : Frame) (action : MapAction) (n : NrProcess P)
      (r : NodeResult E I)
      → Fits op r
      → Value
          (Fits op)
          (chain
            (on_vspace b p try_refill_tcache (p.space.map_frame base frame action) n)
            (λ _ m. (ok r, m))).0
  map-Value op base frame action n r h =
      chain-Value (Fits op)
        (on_vspace b p try_refill_tcache (p.space.map_frame base frame action) n) (λ _ m. (ok r, m))
        (λ x m. h)

  refill-Value :
      (op : Op M) (base : ℕ) (frame : Frame) (action : MapAction) (n : NrProcess P)
      (r : NodeResult E I)
      → Fits op r
      → Value
          (Fits op)
          (chain (refill b p try_refill_tcache n) λ _ m.
            chain
              (on_vspace b p try_refill_tcache (p.space.map_frame base frame action) m)
              λ _ m. (ok r, m)).0
  refill-Value op base frame action n r h =
      chain-Value (Fits op) (refill b p try_refill_tcache n)
        (λ _ m.
          chain (on_vspace b p try_refill_tcache (p.space.map_frame base frame action) m)
            λ _ m. (ok r, m))
        (λ x m. map-Value op base frame action m r h)

  -- Each operation on the process, if it gives a value, gives one that its call reports.
  pub dispatch_mut-Fits :
      (op : Op M) (n : NrProcess P) → Value (Fits op) (dispatch_mut b p try_refill_tcache op n).0
  unfolding dispatch_mut
  dispatch_mut-Fits proc_raise_irq n = tt
  dispatch_mut-Fits destroy n = tt
  dispatch_mut-Fits mem_adjust n = tt
  dispatch_mut-Fits (load pid m fs) n =
      process-Value (load pid m fs) (p.load pid m fs) n (λ _ n. (ok loaded, n)) (λ x m. refl)
  dispatch_mut-Fits (mem_map_frame base f a) n =
      refill-Value (mem_map_frame base f a) base f a n mapped refl
  dispatch_mut-Fits (mem_map_device f a) n = map-Value (mem_map_device f a) f.base f a n mapped refl
  dispatch_mut-Fits (mem_map_frame_id base fid a) n =
      process-Value (mem_map_frame_id base fid a) (p.get_frame fid) n
        (λ f n. chain (refill b p try_refill_tcache n) λ _ n.
          chain (on_vspace b p try_refill_tcache (p.space.map_frame base f a) n)
            λ _ n. (ok (mapped_frame_id f.base f.size), n))
        (λ f m.
          refill-Value (mem_map_frame_id base fid a) base f a m (mapped_frame_id f.base f.size)
            ((f.base, f.size), refl))
  dispatch_mut-Fits (mem_unmap v) n =
      chain-Value (Fits {M = M} (mem_unmap v)) (on_vspace b p try_refill_tcache (p.space.unmap v) n)
        (λ h n. chain (add_cores b n.active_cores h, n) λ k n. (ok (unmapped k), n))
        λ h m.
          chain-Value (Fits {M = M} (mem_unmap v)) (add_cores b m.active_cores h, m)
            (λ k s. (ok (unmapped k), s)) λ k s. (k, refl)
  dispatch_mut-Fits (assign_executor gtid region) n =
      process-Value (assign_executor gtid region) (p.get_executor region) n
        (λ e n. chain (push_core b p try_refill_tcache gtid (p.id e) n) λ _ n. (ok (executor e), n))
        λ e m.
          chain-Value (Fits {M = M} (assign_executor gtid region))
            (push_core b p try_refill_tcache gtid (p.id e) m) (λ x s. (ok (executor e), s))
            λ x s. (e, refl)
  dispatch_mut-Fits (allocate_frame_to_process f) n =
      process-Value (allocate_frame_to_process f) (p.add_frame f) n
        (λ fid s. (ok (frame_id fid), s)) λ fid s. (fid, refl)
  dispatch_mut-Fits (dispatcher_allocation f) n =
      process-Value (dispatcher_allocation f) (p.allocate_executors f) n
        (λ k s. (ok (executors_created k), s)) λ k s. (k, refl)

  -- A replica that runs the operations of the process.
  abbrev pub local : ℕ → Op M → Comp (NrProcess P) (NodeResult E I)
  local pid = dispatch_mut b p try_refill_tcache

  abbrev pub local_read : ℕ → ReadOps → Comp (NrProcess P) (NodeResult E I)
  local_read pid op n = (dispatch b p try_refill_tcache op n, n)

  abbrev pub total : List Frame → ℕ
  total [] = 0
  total (f ∷ frames) = f.size + total frames

  -- The frames one after another.
  abbrev pub maps_at : ℕ → List Frame → MapAction → List (Op M)
  maps_at base [] action = []
  maps_at base (f ∷ frames) action =
      mem_map_frame base f action ∷ maps_at (base + f.size) frames action

  -- Each of the operations, one after another, answers that it mapped a frame.
  abbrev pub AllAnswer : List (Op M) → NrProcess P → Type 0
  AllAnswer [] n = Unit
  AllAnswer (op ∷ ops) n =
      ((dispatch_mut b p try_refill_tcache op n).0 ≡ ok mapped)
      × AllAnswer ops (dispatch_mut b p try_refill_tcache op n).1

  -- The first of the operations that does not answer so gives something with `Q`.
  abbrev pub FirstOther : (Outcome (NodeResult E I) → Type 0) → List (Op M) → NrProcess P → Type 0
  FirstOther Q [] n = ⊥
  FirstOther Q (op ∷ ops) n =
      Q (dispatch_mut b p try_refill_tcache op n).0
      ⊎ (((dispatch_mut b p try_refill_tcache op n).0 ≡ ok mapped)
          × FirstOther Q ops (dispatch_mut b p try_refill_tcache op n).1)

  -- An answer other than that a frame was mapped.
  abbrev pub IsOther : Outcome (NodeResult E I) → Type 0
  IsOther o = (o ≢ ok mapped) × (o ≢ stuck)

  -- Every operation maps its frame, or the first that does not ends the call.
  abbrev pub AllMapped :
      ℕ → ℕ → ℕ → List Frame → MapAction → NrProcess P → Outcome (ℕ × ℕ) × NrProcess P → Type 0
  AllMapped base at end frames action n (r, m) =
      ((r ≡ ok (base, end))
        × AllAnswer (maps_at at frames action) n
        × (m ≡ run b p try_refill_tcache (maps_at at frames action) n))
      ⊎ (((r ≡ panic) × FirstOther IsOther (maps_at at frames action) n)
          ⊎ ((r ≡ stuck) × FirstOther (λ o. o ≡ stuck) (maps_at at frames action) n))

  -- The first operation has the answer `o`.
  step-AllMapped :
      (base at end : ℕ) (f : Frame) (frames : List Frame) (action : MapAction) (n : NrProcess P)
      (o : Outcome (NodeResult E I) × NrProcess P) (k : Unit {0} → Comp (NrProcess P) (ℕ × ℕ))
      → dispatch_mut b p try_refill_tcache (mem_map_frame at f action) n ≡ o
      → ((m : NrProcess P) → AllMapped base (at + f.size) end frames action m (k tt m))
      → AllMapped base at end (f ∷ frames) action n (chain (must_map local local_read o) k)
  unfolding run
  step-AllMapped base at end f frames action n (ok mapped, m) k q h = elim (h m) [
    | inl (e, all, ran) ↦ inl (e, rw q (refl, all), rw (run, q) ran)
    | inr (inl (e, other)) ↦ inr (inl (e, inr (rw q (refl, other))))
    | inr (inr (e, other)) ↦ inr (inr (e, inr (rw q (refl, other))))
  ]
  step-AllMapped base at end f frames action n (ok r, m) k q h =
      inr (inl (refl, inl (rw q ((λ e. cc), (λ e. cc)))))
  step-AllMapped base at end f frames action n (err e, m) k q h =
      inr (inl (refl, inl (rw q ((λ e. cc), (λ e. cc)))))
  step-AllMapped base at end f frames action n (panic, m) k q h =
      inr (inl (refl, inl (rw q ((λ e. cc), (λ e. cc)))))
  step-AllMapped base at end f frames action n (stuck, m) k q h = inr (inr (refl, inl (rw q refl)))

  map_from-AllMapped :
      (pid base offset : ℕ) (frames : List Frame) (action : MapAction) (n : NrProcess P)
      → base + offset + total frames < word
      → AllMapped base
          (base + offset)
          (offset + total frames)
          frames
          action
          n
          (map_from local local_read pid base offset frames action n)
  unfolding map_from run
  map_from-AllMapped pid base offset [] action n h =
      inl (ap (λ x. ok (base, x)) (omega arith), tt, refl)
  map_from-AllMapped pid base offset (f ∷ frames) action n h =
      let there : add64 base offset ≡ base + offset = add64-eq_add base offset (omega arith) in
      let next : add64 offset f.size ≡ offset + f.size = add64-eq_add offset f.size (omega arith) in
      let end : offset + total (f ∷ frames) ≡ offset + f.size + total frames = omega arith in
      let at : base + offset + f.size ≡ base + (offset + f.size) = omega arith in
      rw (there, next, end)
        (step-AllMapped base (base + offset) (offset + f.size + total frames) f frames action n
          (local pid (mem_map_frame (base + offset) f action) n)
          (λ _. map_from local local_read pid base (offset + f.size) frames action) refl
          (λ m.
            rw at (map_from-AllMapped pid base (offset + f.size) frames action m (omega arith))))

  -- Mapping frames at an address, if what they take does not wrap around, submits one operation after
  -- another from there, each where the frame before ends. If each answers that it mapped its frame, the
  -- call gives the address and what the frames take, and leaves what the operations leave. Otherwise
  -- the call panics if the first other answer is an error, a panic or another response, and is stuck
  -- if it is that.
  pub map_frames-AllMapped :
      (pid base : ℕ) (frames : List Frame) (action : MapAction) (n : NrProcess P)
      → base + total frames < word
      → AllMapped base base
          (total frames)
          frames
          action
          n
          (map_frames local local_read pid base frames action n)
  map_frames-AllMapped pid base frames action n h =
      let at : base ≡ base + 0 = omega arith in
      let end : total frames ≡ 0 + total frames = omega arith in
      subst
        (λ e.
          AllMapped base base e frames action n
            (map_frames local local_read pid base frames action n))
        (sym end)
        (subst
          (λ a.
            AllMapped base a (0 + total frames) frames action n
              (map_frames local local_read pid base frames action n))
          (sym at) (map_from-AllMapped pid base 0 frames action n (omega arith)))
