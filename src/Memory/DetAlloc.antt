-- ===== src/Memory/DetAlloc.antt =====
-- `DeterministicAlloc` of `kernel/src/memory/detmem.rs`: the results of an allocation on all nodes, kept
-- in a queue for each node. The queues are bounded first-in first-out queues of `cap` places; the
-- allocator is a parameter, which answers the requests in their order, with 0 for null.
pub mod Pushed
pub mod Inv
mod Tests
use node_replicated_kernel.Prelude.{
  ℕ, zero, suc, ◌+◌, List, [], ◌∷◌, ◌++◌, length, Bool, true, false, ◌==◌, ◌&&◌, not, ltb,
  if◌then◌else◌, update,
}
use node_replicated_kernel.Prelude.Outcome.{Outcome, ok, panic, stuck, and_then, Comp, chain}

pub record Layout : Type 0 where
  pub size : ℕ
  pub align : ℕ

abbrev pub same_layout : Layout → Layout → Bool
same_layout a b = (a.size == b.size) && (a.align == b.align)

-- The queues, the number of requests so far, and what was given back.
pub record DeterministicAlloc : Type 0 where
  pub qs : ℕ → List (Layout × ℕ)
  pub requests : ℕ
  pub freed : List ℕ

abbrev pub empty : DeterministicAlloc
empty = record { qs = λ i. []; requests = 0; freed = [] }

module _ (nodes cap : ℕ) (answer : ℕ → ℕ) where
  -- Each of the first `n` answers is a pointer.
  pub all_given : ℕ → (ℕ → ℕ) → Bool
  all_given zero allocs = true
  all_given (suc n) allocs = let rest = all_given n allocs in if allocs n == 0 then false else rest

  -- `push`, of a result for the node `i`; a full queue is an `expect`.
  unfoldable pub push : ℕ → Layout × ℕ → (ℕ → List (Layout × ℕ)) → Outcome (ℕ → List (Layout × ℕ))
  push i e qs = if ltb (length (qs i)) cap then ok (update qs i (qs i ++ e ∷ [])) else panic

  -- The results for the `n` nodes from `i` on, but for the one that asked.
  unfoldable pub push_others :
      ℕ → Layout → (ℕ → ℕ) → ℕ → ℕ → (ℕ → List (Layout × ℕ)) → Outcome (ℕ → List (Layout × ℕ))
  push_others nid l allocs zero i qs = ok qs
  push_others nid l allocs (suc n) i qs =
      and_then (if i == nid then ok qs else push i (l, allocs i) qs)
        (push_others nid l allocs n (i + 1))

  -- Null for all nodes, and what the others got given back.
  unfoldable pub push_failures : Layout → (ℕ → ℕ) → ℕ → ℕ → Comp DeterministicAlloc (Unit {0})
  push_failures l allocs zero i d = (ok tt, d)
  push_failures l allocs (suc n) i d =
      let freed = if allocs i == 0 then d.freed else allocs i ∷ d.freed in
      let r = and_then (push i (l, 0) d.qs) λ qs. ok (record d { qs = qs; freed = freed }) in
      elim r [ ok e ↦ push_failures l allocs n (i + 1) e | _ ↦ (panic, record d { freed = freed }) ]

  abbrev pub set_queues :
      DeterministicAlloc → Outcome (ℕ → List (Layout × ℕ)) → Outcome (Unit {0}) × DeterministicAlloc
  set_queues d (ok qs) = (ok tt, record d { qs = qs })
  set_queues d _ = (panic, d)

  -- An allocation for all nodes, under the lock.
  unfoldable pub fill : ℕ → Layout → Comp DeterministicAlloc ℕ
  fill nid l d =
      let allocs : ℕ → ℕ = λ i. answer (d.requests + i) in
      let asked = record d { requests = d.requests + nodes } in
      chain
        (if all_given nodes allocs
          then set_queues asked (push_others nid l allocs nodes 0 d.qs)
          else push_failures l allocs nodes 0 asked)
        λ _ d. (ok (allocs nid), d)

  -- `alloc` on the node `nid`, by its queue.
  abbrev pub alloc_from :
      ℕ → Layout → DeterministicAlloc → List (Layout × ℕ) → Outcome ℕ × DeterministicAlloc
  alloc_from nid l d [] = fill nid l d
  alloc_from nid l d ((rl, ptr) ∷ rest) =
      let popped = record d { qs = update d.qs nid rest } in
      if same_layout rl l then (ok ptr, popped) else (panic, popped)

  -- That the queue is looked at again under the lock matters only to calls at the same time.
  unfoldable pub alloc : ℕ → Layout → Comp DeterministicAlloc ℕ
  alloc nid l d = alloc_from nid l d (d.qs nid)
