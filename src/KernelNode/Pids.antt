-- ===== src/KernelNode/Pids.antt =====
-- The process numbers that `kernel/src/nr.rs` gives out.
use node_replicated_kernel.Prelude.{
  ℕ, zero, suc, ◌+◌, ◌<◌, ◌≤◌, ◌≡◌, inl, inr, refl, Bool-cases, true, false, Option, none, some,
  is_some, arith, nat_eq, ℕ_discrete,
}
use node_replicated_kernel.Prelude.Dict.{lookup, insert}
use node_replicated_kernel.Prelude.Outcome.{
  Outcome, ok, err, Heap, request, request_cases, out_of_pids, out_of_memory,
}
use node_replicated_kernel.KernelNode.{
  KernelNode, Store, NodeResult, allocate_pid, pid_allocated, first_pid, dispatch_mut,
  max_processes,
}

-- The number is taken.
abbrev pub IsTaken : ℕ → KernelNode → Type 0
IsTaken pid node = is_some (lookup pid node.process_map) ≡ true

-- What allocating a number from `i` to `i + n` does to a node, with the allocator `h`.
pub data Allocated (i n : ℕ) (node : KernelNode) (h : Heap)
    : Outcome NodeResult × Store → Type 0 where
  allocated :
      (pid : ℕ) (g : Heap)
      → i ≤ pid
      → pid < i + n
      → lookup pid node.process_map ≡ none
      → ((j : ℕ) → i ≤ j → j < pid → IsTaken j node)
      → request h ≡ (ok tt, g)
      → Allocated i n node h (
        ok (pid_allocated pid),
        (record node { process_map = insert pid tt node.process_map }, g),
      )
  refused :
      (pid : ℕ) (g : Heap)
      → i ≤ pid
      → pid < i + n
      → lookup pid node.process_map ≡ none
      → request h ≡ (err out_of_memory, g)
      → Allocated i n node h (err out_of_memory, (node, g))
  all_taken :
      ((j : ℕ) → i ≤ j → j < i + n → IsTaken j node)
      → Allocated i n node h (err out_of_pids, (node, h))

more-Allocated :
    (i n : ℕ) (node : KernelNode) (h : Heap) (r : Outcome NodeResult × Store)
    → IsTaken i node
    → Allocated (i + 1) n node h r
    → Allocated i (suc n) node h r
more-Allocated i n node h _ t (allocated pid g lo hi free below q) =
    allocated pid g (omega arith) (omega arith) free
      (λ j a b. elim (ℕ_discrete j i) [ yes e ↦ rw e t | no ne ↦ below j (omega arith) b ]) q
more-Allocated i n node h _ t (refused pid g lo hi free q) =
    refused pid g (omega arith) (omega arith) free q
more-Allocated i n node h _ t (all_taken all) =
    all_taken
      λ j a b. elim (ℕ_discrete j i) [ yes e ↦ rw e t | no ne ↦ all j (omega arith) (omega arith) ]

pub is_some-none : {A : Type 0} (o : Option A) → is_some o ≡ false → o ≡ none
is_some-none none h = refl
is_some-none (some a) h = cc

first_pid-Allocated :
    (n i : ℕ) (node : KernelNode) (h : Heap) → Allocated i n node h (first_pid n i (node, h))
unfolding first_pid
first_pid-Allocated zero i node h = all_taken λ j a b. absurd (omega arith)
first_pid-Allocated (suc n) i node h = elim (Bool-cases (is_some (lookup i node.process_map))) [
  | inl t ↦ rw t (more-Allocated i n node h _ t (first_pid-Allocated n (i + 1) node h))
  | inr f ↦ elim (request_cases h) [
    | inl (g, e, _) ↦
        rw (f, e)
          (rw f (
            allocated i g (omega arith) (omega arith) (is_some-none _ f)
              (λ j a b. absurd (omega arith)) e))
    | inr (g, e, _) ↦ rw (f, e) (refused i g (omega arith) (omega arith) (is_some-none _ f) e)
  ]
]

-- Allocating a process number gives the least number below 12 that no process has, and takes it, if
-- there is one and the allocator grants the request; `OutOfMemory` is reported only if a number below
-- 12 is free and the allocator refuses, `OutOfPids` only if every number below 12 is taken, without
-- asking the allocator; and on an error no number changes hands. The cores keep their processes.
pub dispatch_mut-Allocated :
    (node : KernelNode) (h : Heap)
    → Allocated 0 max_processes node h (dispatch_mut allocate_pid (node, h))
unfolding dispatch_mut
dispatch_mut-Allocated node h = first_pid-Allocated max_processes 0 node h
