-- ===== src/Memory/DetAlloc/Tests.antt =====
-- The theorem on `kernel/src/memory/detmem.rs` at three nodes, and what a failure leaves.
use node_replicated_kernel.Prelude.{
  ℕ, ◌+◌, ◌≡◌, ◌≢◌, refl, List, [], ◌∷◌, All, if◌then◌else◌, ◌==◌, arith,
}
use node_replicated_kernel.Prelude.Outcome.{ok, panic}
use node_replicated_kernel.Memory.DetAlloc.{
  all_given, Layout, alloc, fill, push, push_failures, empty,
}
use node_replicated_kernel.Memory.DetAlloc.Inv.{run, run-given}

abbrev words : ℕ → Layout
words i = record { size = 8 + i; align = 8 }

abbrev pages : ℕ → ℕ
pages i = 4096 + i

run-given_example :
    (ps : List ℕ) × (run 3 32768 pages words (λ j. 0) (0 ∷ 0 ∷ 2 ∷ 1 ∷ 2 ∷ 2 ∷ []) empty ≡ ok ps)
    × All (λ p. p ≢ 0) ps
run-given_example =
    run-given 3 32768 pages words (0 ∷ 0 ∷ 2 ∷ 1 ∷ 2 ∷ 2 ∷ []) (λ i e. omega arith)
      (omega arith, (omega arith, (omega arith, (omega arith, (omega arith, omega arith)))))
      (omega arith)

-- The second of two nodes has no memory.
abbrev one_short : ℕ → ℕ
one_short i = if i == 1 then 0 else 4096 + i

-- The first node gets a pointer, though it was given back, and the second null.
failure_leader : (alloc 2 4 one_short 0 (words 0) empty).0 ≡ ok 4096
unfolding alloc fill push push_failures all_given
failure_leader = refl

failure_freed : (alloc 2 4 one_short 0 (words 0) empty).1.freed ≡ 4096 ∷ []
unfolding alloc fill push push_failures all_given
failure_freed = refl

failure_follower :
    (alloc 2 4 one_short 1 (words 0) (alloc 2 4 one_short 0 (words 0) empty).1).0 ≡ ok 0
unfolding alloc fill push push_failures all_given
failure_follower = refl

-- The next request of the first node finds the null that was left for it, of another layout.
failure_next : (alloc 2 4 one_short 0 (words 1) (alloc 2 4 one_short 0 (words 0) empty).1).0 ≡ panic
unfolding alloc fill push push_failures all_given
failure_next = refl
