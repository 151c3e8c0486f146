-- ===== src/NrProcess/Shootdown.antt =====
-- The cores that are told of an unmapped range in `kernel/src/nrproc.rs` are those that the process
-- has got.
use native.Mathlib.Decide.{dec_lt}
use node_replicated_kernel.Prelude.{
  ℕ, ◌-◌, ◌<◌, ◌≤◌, ◌≡◌, ◌⊎◌, inl, inr, refl, sym, ap, ◌∙◌, Bool-cases, Bool, true, false, ◌||◌,
  ◌==◌, leb, List, [], ◌∷◌, ◌++◌, arith,
}
use node_replicated_kernel.Prelude.Outcome.{
  Outcome, ok, err, panic, stuck, request, Comp, Heap, out_of_memory, chain,
}
use node_replicated_kernel.Memory.Frame.{Frame}
use node_replicated_kernel.Memory.Action.{MapAction}
use node_replicated_kernel.Memory.Cores.{
  BitField, CoreBitMap, TlbFlushHandle, set_core, add_core, has_core, u128,
}
use node_replicated_kernel.NrProcess.{
  on_process, on_vspace, loaded, executors_created, mapped, frame_id, mapped_frame_id, refill,
  Process, Op, NodeResult, executor, unmapped, NrProcess, add_cores, dispatch_mut, run,
  assign_executor, mem_unmap, push_core, destroy, proc_raise_irq, mem_adjust, load,
  dispatcher_allocation, mem_map_frame, mem_map_device, mem_map_frame_id, allocate_frame_to_process,
}

-- Both halves of a set are words.
abbrev pub IsCoreBitMap : CoreBitMap → Type 0
IsCoreBitMap m = (m.low < u128) × (m.high < u128)

-- The core is one of the list.
abbrev pub is_active : List (ℕ × ℕ) → ℕ → Bool
is_active [] c = false
is_active ((gtid, eid) ∷ cores) c = (c == gtid) || is_active cores c

-- The list names cores that a set can hold.
abbrev pub Small : List (ℕ × ℕ) → Type 0
Small [] = Unit
Small ((gtid, eid) ∷ cores) = (gtid < 256) × Small cores

or_swap : (x y z : Bool) → (x || (y || z)) ≡ ((y || x) || z)
or_swap true true z = refl
or_swap true false z = refl
or_swap false true z = refl
or_swap false false z = refl

or_assoc : (x y z : Bool) → ((x || y) || z) ≡ (x || (y || z))
or_assoc true y z = refl
or_assoc false y z = refl

or_false : (x : Bool) → (x || false) ≡ x
or_false true = refl
or_false false = refl

is_active-append :
    (xs ys : List (ℕ × ℕ)) (c : ℕ) → is_active (xs ++ ys) c ≡ (is_active xs c || is_active ys c)
is_active-append [] ys c = refl
is_active-append ((gtid, eid) ∷ xs) ys c =
    ap (◌||◌ (c == gtid)) (is_active-append xs ys c)
    ∙ sym (or_assoc (c == gtid) (is_active xs c) (is_active ys c))

or_right : (x y : Bool) → (x || y) ≡ false → y ≡ false
or_right true y e = ground (arith, e)
or_right false y e = e

Small-active : (xs : List (ℕ × ℕ)) (c : ℕ) → Small xs → 256 ≤ c → is_active xs c ≡ false
Small-active [] c s h = refl
Small-active ((gtid, eid) ∷ xs) c s h =
    let unlike : (c == gtid) ≡ false = ground arith in rw unlike (Small-active xs c s.1 h)

active-Small : (xs : List (ℕ × ℕ)) → ((c : ℕ) → 256 ≤ c → is_active xs c ≡ false) → Small xs
active-Small [] h = tt
active-Small ((gtid, eid) ∷ xs) h = (
  elim (dec_lt gtid 256) [
    | yes less ↦ less
    | no big ↦ let e = h gtid (omega arith) in ground (arith, e)
  ],
  active-Small xs (λ c big. or_right (c == gtid) (is_active xs c) (h c big)),
)

Heap-cases :
    (h : Heap)
    → ((g : Heap) × (request h ≡ (ok tt, g))) ⊎ ((g : Heap) × (request h ≡ (err out_of_memory, g)))
Heap-cases [] = inl ([], refl)
Heap-cases (true ∷ h) = inl (h, refl)
Heap-cases (false ∷ h) = inr (h, refl)

module _ (b : BitField) where
  set_core-ok :
      (m : CoreBitMap) (i : ℕ)
      → IsCoreBitMap m
      → i < 256
      → (n : CoreBitMap) × (set_core b m i true ≡ ok n)
        × IsCoreBitMap n
        × ((c : ℕ) → c < 256 → has_core n c ≡ ((c == i) || has_core m c))
  unfolding set_core
  set_core-ok m i w h = elim (Bool-cases (leb i 127)) [
    | inl t ↦
        let (y, q, less, bits) = b.set_bit-ok m.low i true w.0 (ground arith) in
        (record m { low = y }, rw (t, q) refl, (less, w.1), λ c hc. ground (arith, bits c))
    | inr f ↦
        let (y, q, less, bits) = b.set_bit-ok m.high (i - 128) true w.1 (ground arith) in
        (record m { high = y }, rw (f, q) refl, (w.0, less), λ c hc. ground (arith, bits (c - 128)))
  ]

  pub add_cores-ok :
      (cores : List (ℕ × ℕ)) (h : TlbFlushHandle)
      → IsCoreBitMap h.core_map
      → Small cores
      → (k : TlbFlushHandle) × (add_cores b cores h ≡ ok k)
        × (k.vaddr ≡ h.vaddr)
        × (k.frame ≡ h.frame)
        × ((c : ℕ) → c < 256 → has_core k.core_map c ≡ (is_active cores c || has_core h.core_map c))
  unfolding add_cores add_core
  add_cores-ok [] h w s = (h, refl, refl, refl, λ c hc. refl)
  add_cores-ok ((gtid, eid) ∷ cores) h w s =
      let (m, q, v, bits) = set_core-ok h.core_map gtid w s.0 in
      let (k, r, a, f, all) = add_cores-ok cores (record h { core_map = m }) v s.1 in
      (
        k,
        rw q r,
        a,
        f,
        λ c hc.
            all c hc
            ∙ (rw (bits c hc) (or_swap (is_active cores c) (c == gtid) (has_core h.core_map c))),
      )

module _ {P A E M I : Type 0} (b : BitField) (p : Process P A E M I)
    (try_refill_tcache : ℕ → ℕ → Outcome (Unit {0})) where
  -- The core `c` goes to the process by the operation, as its response says.
  abbrev pub got : Op M → Outcome (NodeResult E I) → ℕ → Bool
  got (assign_executor gtid region) (ok (executor e)) c = c == gtid
  got _ _ c = false

  -- The core goes to the process by one of the operations.
  abbrev pub got_by : List (Op M) → NrProcess P → ℕ → Bool
  got_by [] n c = false
  got_by (op ∷ ops) n c =
      let (r, m) = dispatch_mut b p try_refill_tcache op n in got op r c || got_by ops m c

  -- The operations name cores that a set can hold.
  abbrev pub SmallOps : List (Op M) → Type 0
  SmallOps [] = Unit
  SmallOps (assign_executor gtid region ∷ ops) = (gtid < 256) × SmallOps ops
  SmallOps (_ ∷ ops) = SmallOps ops

  -- The cores are those of `n`.
  abbrev Keeps : {Y : Type 0} → NrProcess P → Outcome Y × NrProcess P → Type 0
  Keeps n r = r.1.active_cores ≡ n.active_cores

  -- A chain of which no part changes the cores.
  chain-Keeps :
      {X Y : Type 0} (o : Outcome X) (m n : NrProcess P)
      (f : X → NrProcess P → Outcome Y × NrProcess P)
      → m.active_cores ≡ n.active_cores
      → ((x : X) → Keeps n (f x m))
      → Keeps n (chain (o, m) f)
  chain-Keeps (ok x) m n f e h = h x
  chain-Keeps (err x) m n f e h = e
  chain-Keeps panic m n f e h = e
  chain-Keeps stuck m n f e h = e

  process-Keeps :
      {X Y : Type 0} (g : Comp P X) (n : NrProcess P)
      (f : X → NrProcess P → Outcome Y × NrProcess P)
      → ((x : X) → Keeps n (f x (record n { process = (g n.process).1 })))
      → Keeps n (chain (on_process b p try_refill_tcache g n) f)
  process-Keeps g n f h =
      chain-Keeps (g n.process).0 (record n { process = (g n.process).1 }) n f refl h

  map-Keeps :
      (base : ℕ) (frame : Frame) (action : MapAction) (n : NrProcess P) (r : NodeResult E I)
      → Keeps n (
          chain
            (on_vspace b p try_refill_tcache (p.space.map_frame base frame action) n)
            (λ _ m. (ok r, m)))
  map-Keeps base frame action n r =
      chain-Keeps (p.space.map_frame base frame action (p.vspace n.process)).0
        (record n {
          process =
              p.set_vspace (p.space.map_frame base frame action (p.vspace n.process)).1 n.process;
        })
        n (λ _ m. (ok r, m)) refl (λ x. refl)

  -- An operation that changes the process alone.
  others : (xs ys : List (ℕ × ℕ)) (c : ℕ) → xs ≡ ys → is_active xs c ≡ (is_active ys c || false)
  others xs ys c e = rw e (sym (or_false (is_active ys c)))

  assign-cores :
      (gtid : ℕ) (n : NrProcess P) (c : ℕ) (region : ℕ) (o : Outcome E) (q : P)
      → (let (r, m) =
            chain
              (o, record n { process = q })
              λ e n.
                chain
                  (push_core b p try_refill_tcache gtid (p.id e) n)
                  λ _ n. (ok (executor e), n) in
          is_active m.active_cores c
          ≡ (is_active n.active_cores c || got (assign_executor gtid region) r c))
  assign-cores gtid n c region (ok e) q = elim (Heap-cases n.heap) [
    | inl (h, given) ↦ rw given (
        is_active-append n.active_cores ((gtid, p.id e) ∷ []) c
        ∙ ap (◌||◌ (is_active n.active_cores c)) (or_false (c == gtid)))
    | inr (h, refused) ↦ rw refused (sym (or_false (is_active n.active_cores c)))
  ]
  assign-cores gtid n c region (err e) q = sym (or_false (is_active n.active_cores c))
  assign-cores gtid n c region panic q = sym (or_false (is_active n.active_cores c))
  assign-cores gtid n c region stuck q = sym (or_false (is_active n.active_cores c))

  -- The cores after an operation.
  dispatch_mut-cores :
      (op : Op M) (n : NrProcess P) (c : ℕ)
      → (let (r, m) = dispatch_mut b p try_refill_tcache op n in
          is_active m.active_cores c ≡ (is_active n.active_cores c || got op r c))
  unfolding dispatch_mut
  dispatch_mut-cores destroy n c = sym (or_false (is_active n.active_cores c))
  dispatch_mut-cores proc_raise_irq n c = sym (or_false (is_active n.active_cores c))
  dispatch_mut-cores mem_adjust n c = sym (or_false (is_active n.active_cores c))
  dispatch_mut-cores (load pid m fs) n c =
      others _ n.active_cores c
        (process-Keeps {Y = NodeResult E I} (p.load pid m fs) n (λ _ n. (ok loaded, n)) (λ x. refl))
  dispatch_mut-cores (dispatcher_allocation f) n c =
      others _ n.active_cores c (
        process-Keeps (p.allocate_executors f) n (λ k n. (ok (executors_created k), n)) (λ x. refl))
  dispatch_mut-cores (mem_map_frame base f a) n c = others _ n.active_cores c (
      chain-Keeps (try_refill_tcache 7 0) n n
        (λ _ m.
          chain (on_vspace b p try_refill_tcache (p.space.map_frame base f a) m)
            λ _ k. (ok mapped, k))
        refl (λ x. map-Keeps base f a n mapped))
  dispatch_mut-cores (mem_map_device f a) n c =
      others _ n.active_cores c (map-Keeps f.base f a n mapped)
  dispatch_mut-cores (mem_map_frame_id base fid a) n c = others _ n.active_cores c (
      process-Keeps (p.get_frame fid) n
        (λ frame n. chain (refill b p try_refill_tcache n) λ _ n.
          chain (on_vspace b p try_refill_tcache (p.space.map_frame base frame a) n)
            λ _ n. (ok (mapped_frame_id frame.base frame.size), n))
        (λ frame.
          let m = record n { process = (p.get_frame fid n.process).1 } in
          chain-Keeps (try_refill_tcache 7 0) m n
            (λ _ m.
              chain (on_vspace b p try_refill_tcache (p.space.map_frame base frame a) m)
                λ _ k. (ok (mapped_frame_id frame.base frame.size), k))
            refl (λ x. map-Keeps base frame a m (mapped_frame_id frame.base frame.size))))
  dispatch_mut-cores (mem_unmap v) n c = others _ n.active_cores c (
      chain-Keeps (p.space.unmap v (p.vspace n.process)).0
        (record n { process = p.set_vspace (p.space.unmap v (p.vspace n.process)).1 n.process }) n
        (λ h n. chain (add_cores b n.active_cores h, n) λ k n. (ok (unmapped k), n)) refl
        (λ h.
          chain-Keeps {Y = NodeResult E I} (add_cores b n.active_cores h) _ n
            (λ k n. (ok (unmapped k), n)) refl (λ k. refl)))
  dispatch_mut-cores (allocate_frame_to_process f) n c =
      others _ n.active_cores c
        (process-Keeps (p.add_frame f) n (λ k n. (ok (frame_id k), n)) (λ x. refl))
  dispatch_mut-cores (assign_executor gtid region) n c =
      assign-cores gtid n c region (p.get_executor region n.process).0 _

  -- The cores after a run.
  run-cores :
      (ops : List (Op M)) (n : NrProcess P) (c : ℕ)
      → is_active (run b p try_refill_tcache ops n).active_cores c
        ≡ (is_active n.active_cores c || got_by ops n c)
  unfolding run
  run-cores [] n c = sym (or_false (is_active n.active_cores c))
  run-cores (op ∷ ops) n c =
      let (r, m) = dispatch_mut b p try_refill_tcache op n in
      run-cores ops m c
      ∙ ap (λ x. x || got_by ops m c) (dispatch_mut-cores op n c)
      ∙ or_assoc (is_active n.active_cores c) (got op r c) (got_by ops m c)

  got-small :
      (op : Op M) (ops : List (Op M)) (r : Outcome (NodeResult E I)) (c : ℕ)
      → SmallOps (op ∷ ops)
      → 256 ≤ c
      → (got op r c ≡ false) × SmallOps ops
  got-small (assign_executor gtid region) ops (ok (executor e)) c s h = (ground arith, s.1)
  got-small (assign_executor gtid region) ops _ c s h = (refl, s.1)
  got-small _ ops r c s h = (refl, s)

  got_by-small :
      (ops : List (Op M)) (n : NrProcess P) (c : ℕ)
      → SmallOps ops
      → 256 ≤ c
      → got_by ops n c ≡ false
  got_by-small [] n c s h = refl
  got_by-small (op ∷ ops) n c s h =
      let (r, m) = dispatch_mut b p try_refill_tcache op n in
      let (unlike, t) = got-small op ops r c s h in rw unlike (got_by-small ops m c t h)

  -- After operations in any order, an address that is unmapped is flushed on the cores that the
  -- process had, those that it got by the operations, and those that its address space names.
  pub unmap-cores :
      (ops : List (Op M)) (n : NrProcess P) (v : ℕ)
      → SmallOps ops
      → Small n.active_cores
      → (let m = run b p try_refill_tcache ops n in
          (h : TlbFlushHandle)
          → (p.space.unmap v (p.vspace m.process)).0 ≡ ok h
          → IsCoreBitMap h.core_map
          → (k : TlbFlushHandle) × ((dispatch_mut b p try_refill_tcache (mem_unmap v) m).0
              ≡ ok (unmapped k))
            × (k.vaddr ≡ h.vaddr)
            × (k.frame ≡ h.frame)
            × ((c : ℕ)
                → c < 256
                → has_core k.core_map c
                  ≡ ((is_active n.active_cores c || got_by ops n c) || has_core h.core_map c)))
  unfolding dispatch_mut
  unmap-cores ops n v s t h e w =
      let m = run b p try_refill_tcache ops n in
      let (k, q, a, f, all) = add_cores-ok b m.active_cores h w (
        active-Small m.active_cores (λ c big.
          run-cores ops n c
          ∙ rw (Small-active n.active_cores c t big, got_by-small ops n c s big) refl)) in
      (
        k,
        rw (e, q) refl,
        a,
        f,
        λ c hc. all c hc ∙ ap (λ x. x || has_core h.core_map c) (run-cores ops n c),
      )
