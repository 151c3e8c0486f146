-- ===== src/Mpmc/Tests.antt =====
-- The theorems on `kernel/src/mpmc.rs` with two threads on a queue of two places: the first pushes,
-- the second pops what it pushed.
use node_replicated_kernel.Prelude.{ℕ, ◌≡◌, refl, Option, some, [], ◌∷◌, update, arith}
use node_replicated_kernel.Prelude.Outcome.{Gives}
use node_replicated_kernel.Mpmc.{
  returned, push_at, push_seen, push_won, push_stored, pop_at, pop_seen, pop_won, pop_taken, System,
  Step, push, push_load, push_exchange, push_store, push_publish, pushed, nothing_yet, pop,
  pop_load, pop_exchange, pop_take, Reached, start, step, start_of, at_pc, with_mem, empty, rounded,
  with_capacity, diff,
}
use node_replicated_kernel.Mpmc.Capacity.{IsCapacity, with_capacity-Gives}
use node_replicated_kernel.Mpmc.Inv.{claim}
use node_replicated_kernel.Mpmc.Fifo.{Effect, promised, Step-Effect, Reached-popped}

with_capacity-Gives_example :
    Gives [] (empty {T = ℕ} (rounded 5)) (with_capacity 5 []) × IsCapacity 5 (rounded 5)
with_capacity-Gives_example = with_capacity-Gives 5 [] (omega arith)

abbrev s0 : System ℕ
s0 = start_of 2

abbrev s1 : System ℕ
s1 = at_pc s0 0 (push_at 9 0)

abbrev s2 : System ℕ
s2 = at_pc s1 0 (push_seen 9 0 0)

abbrev s3 : System ℕ
s3 = record {
  mem = record s2.mem { enqueue_pos = 1 };
  pc = update s2.pc 0 (push_won 9 0);
  log = 9 ∷ [];
}

abbrev s4 : System ℕ
s4 = with_mem s3 (record s3.mem { value = update s3.mem.value 0 (some 9) }) 0 (push_stored 0)

abbrev s5 : System ℕ
s5 = with_mem s4 (record s4.mem { sequence = update s4.mem.sequence 0 1 }) 0 (returned pushed)

abbrev s6 : System ℕ
s6 = at_pc s5 1 (pop_at 0)

abbrev s7 : System ℕ
s7 = at_pc s6 1 (pop_seen 0 1)

abbrev s8 : System ℕ
s8 = with_mem s7 (record s7.mem { dequeue_pos = 1 }) 1 (pop_won 0)

abbrev s9 : System ℕ
s9 =
    with_mem s8 (record s8.mem { value = update s8.mem.value 0 Option.none }) 1
      (pop_taken 0 (some 9))

s2-Reached : Reached 2 10 s2
s2-Reached =
    step (step start (push 0 nothing_yet 9 refl) (omega arith)) (push_load 0 9 0 refl) (omega arith)

exchange : Step s2 s3
unfolding diff
exchange = push_exchange 0 9 0 0 refl refl refl

s9-Reached : Reached 2 10 s9
unfolding diff
s9-Reached =
    step
      (step
        (step
          (step
            (step
              (step (step s2-Reached exchange (omega arith)) (push_store 0 9 0 refl) (omega arith))
              (push_publish 0 0 refl) (omega arith))
            (pop 1 nothing_yet refl) (omega arith))
          (pop_load 1 0 refl) (omega arith))
        (pop_exchange 1 0 1 refl refl refl) (omega arith))
      (pop_take 1 0 refl) (omega arith)

Step-Effect_example : Effect 2 s2 s3
Step-Effect_example =
    Step-Effect 1 10 (omega arith) (omega arith) s2 s3 s2-Reached exchange (omega arith)

Reached-popped_example :
    (w : ℕ) × (some 9 ≡ some w)
    × (promised s9 (s9.pc 1) ≡ some w)
    × ((u : ℕ) → claim 2 10 (s9.pc u) ≡ some 0 → u ≡ 1)
Reached-popped_example =
    Reached-popped 1 10 (omega arith) (omega arith) s9 1 0 (some 9) s9-Reached refl
