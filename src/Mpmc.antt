-- ===== src/Mpmc.antt =====
-- `kernel/src/mpmc.rs`: the bounded queue of several producers and consumers. The calls are steps of
-- threads, one for each access to shared memory, in any order; memory is sequentially consistent.
pub mod Mask
pub mod Inv
pub mod Slots
pub mod Steps
pub mod Capacity
pub mod Fifo
mod Tests
use Prim.Native.Nat.{bit_and}
use node_replicated_kernel.Prelude.{
  ℕ, zero, suc, ◌+◌, ◌-◌, ◌*◌, ◌<◌, ◌≡◌, Option, none, some, List, [], ◌∷◌, ◌++◌, ltb, leb, ◌==◌,
  ◌||◌, not, true, false, if◌then◌else◌, add64, sub64, update,
}
use node_replicated_kernel.Prelude.Outcome.{Comp, Heap, request, give, ◌>>◌, ◌>>=◌}

-- The least power of two from `p` on that is not below `n`, in `fuel` doublings.
pub next_power : ℕ → ℕ → ℕ → ℕ
next_power zero p n = p
next_power (suc fuel) p n = elim (leb n p) [ true ↦ p | false ↦ next_power fuel (2 * p) n ]

-- `next_power_of_two` of a word.
abbrev pub next_power_of_two : ℕ → ℕ
next_power_of_two n = next_power 64 1 n

abbrev pub rounded : ℕ → ℕ
rounded capacity =
    if ltb capacity 2 || not (bit_and capacity (capacity - 1) == 0)
    then (if ltb capacity 2 then 2 else next_power_of_two capacity)
    else capacity

-- `buffer[i]` is the pair of `sequence i` and `value i`; an index is at most `mask`.
pub record State (T : Type 0) : Type 0 where
  pub sequence : ℕ → ℕ
  pub value : ℕ → Option T
  pub mask : ℕ
  pub enqueue_pos : ℕ
  pub dequeue_pos : ℕ

abbrev pub empty : {T : Type 0} → ℕ → State T
empty capacity = record {
  sequence = λ i. i;
  value = λ _. none;
  mask = capacity - 1;
  enqueue_pos = 0;
  dequeue_pos = 0;
}

-- `State::with_capacity`, and `Queue::with_capacity`, which shares it.
unfoldable pub state_with_capacity : {T : Type 0} → ℕ → Comp Heap (State T)
state_with_capacity capacity = request >> give (empty (rounded capacity))

unfoldable pub with_capacity : {T : Type 0} → ℕ → Comp Heap (State T)
with_capacity capacity = state_with_capacity capacity >>= λ m. request >> give m

abbrev pub index : {T : Type 0} → State T → ℕ → ℕ
index m pos = bit_and pos m.mask

-- The sign of the difference of two words, taken for signed numbers.
pub data Sign : Type 0 where
  zero_diff negative positive : Sign

pub diff : ℕ → ℕ → Sign
diff a b =
    let d = sub64 a b in
    if d == 0 then zero_diff else (if leb 0x8000000000000000 d then negative else positive)

-- What a call returned.
pub data Reply (T : Type 0) : Type 0 where
  nothing_yet : Reply T
  pushed : Reply T
  push_failed : T → Reply T
  popped : Option T → Reply T
  pop_failed : Reply T

-- Where a thread stands, with its local variables.
pub data Pc (T : Type 0) : Type 0 where
  returned : Reply T → Pc T
  push_at : (value : T) (pos : ℕ) → Pc T
  push_seen : (value : T) (pos seq : ℕ) → Pc T
  push_won : (value : T) (pos : ℕ) → Pc T
  push_stored : (pos : ℕ) → Pc T
  pop_at : (pos : ℕ) → Pc T
  pop_seen : (pos seq : ℕ) → Pc T
  pop_won : (pos : ℕ) → Pc T
  pop_taken : (pos : ℕ) (value : Option T) → Pc T

-- The queue and its threads. No code reads the log: the values of the pushes that have their
-- position, in the order of the positions.
pub record System (T : Type 0) : Type 0 where
  pub mem : State T
  pub pc : ℕ → Pc T
  pub log : List T

module _ {T : Type 0} where
  abbrev pub at_pc : System T → ℕ → Pc T → System T
  at_pc s t p = record s { pc = update s.pc t p }

  abbrev pub with_mem : System T → State T → ℕ → Pc T → System T
  with_mem s m t p = record s { mem = m; pc = update s.pc t p }

  pub data Step (s : System T) : System T → Type 0 where
    push :
        (t : ℕ) (r : Reply T) (v : T)
        → s.pc t ≡ returned r
        → Step s (at_pc s t (push_at v s.mem.enqueue_pos))
    push_load :
        (t : ℕ) (v : T) (pos : ℕ)
        → s.pc t ≡ push_at v pos
        → Step s (at_pc s t (push_seen v pos (s.mem.sequence (index s.mem pos))))
    push_exchange :
        (t : ℕ) (v : T) (pos seq : ℕ)
        → s.pc t ≡ push_seen v pos seq
        → diff seq pos ≡ zero_diff
        → s.mem.enqueue_pos ≡ pos
        → Step s (record {
          mem = record s.mem { enqueue_pos = add64 pos 1 };
          pc = update s.pc t (push_won v pos);
          log = s.log ++ (v ∷ []);
        })
    -- The exchange is weak: it may fail where the position is the same.
    push_lose :
        (t : ℕ) (v : T) (pos seq : ℕ)
        → s.pc t ≡ push_seen v pos seq
        → diff seq pos ≡ zero_diff
        → Step s (at_pc s t (push_at v s.mem.enqueue_pos))
    push_full :
        (t : ℕ) (v : T) (pos seq : ℕ)
        → s.pc t ≡ push_seen v pos seq
        → diff seq pos ≡ negative
        → Step s (at_pc s t (returned (push_failed v)))
    push_reload :
        (t : ℕ) (v : T) (pos seq : ℕ)
        → s.pc t ≡ push_seen v pos seq
        → diff seq pos ≡ positive
        → Step s (at_pc s t (push_at v s.mem.enqueue_pos))
    push_store :
        (t : ℕ) (v : T) (pos : ℕ)
        → s.pc t ≡ push_won v pos
        → Step s (
            with_mem s
              (record s.mem { value = update s.mem.value (index s.mem pos) (some v) })
              t
              (push_stored pos))
    push_publish :
        (t pos : ℕ)
        → s.pc t ≡ push_stored pos
        → Step s (
            with_mem s
              (record s.mem { sequence = update s.mem.sequence (index s.mem pos) (add64 pos 1) })
              t
              (returned pushed))
    pop :
        (t : ℕ) (r : Reply T) → s.pc t ≡ returned r → Step s (at_pc s t (pop_at s.mem.dequeue_pos))
    pop_load :
        (t pos : ℕ)
        → s.pc t ≡ pop_at pos
        → Step s (at_pc s t (pop_seen pos (s.mem.sequence (index s.mem pos))))
    pop_exchange :
        (t pos seq : ℕ)
        → s.pc t ≡ pop_seen pos seq
        → diff seq (add64 pos 1) ≡ zero_diff
        → s.mem.dequeue_pos ≡ pos
        → Step s (with_mem s (record s.mem { dequeue_pos = add64 pos 1 }) t (pop_won pos))
    pop_lose :
        (t pos seq : ℕ)
        → s.pc t ≡ pop_seen pos seq
        → diff seq (add64 pos 1) ≡ zero_diff
        → Step s (at_pc s t (pop_at s.mem.dequeue_pos))
    pop_empty :
        (t pos seq : ℕ)
        → s.pc t ≡ pop_seen pos seq
        → diff seq (add64 pos 1) ≡ negative
        → Step s (at_pc s t (returned pop_failed))
    pop_reload :
        (t pos seq : ℕ)
        → s.pc t ≡ pop_seen pos seq
        → diff seq (add64 pos 1) ≡ positive
        → Step s (at_pc s t (pop_at s.mem.dequeue_pos))
    pop_take :
        (t pos : ℕ)
        → s.pc t ≡ pop_won pos
        → Step s (
            with_mem s
              (record s.mem { value = update s.mem.value (index s.mem pos) none })
              t
              (pop_taken pos (s.mem.value (index s.mem pos))))
    pop_release :
        (t pos : ℕ) (v : Option T)
        → s.pc t ≡ pop_taken pos v
        → Step s (
            with_mem s
              (record s.mem {
                sequence = update s.mem.sequence (index s.mem pos) (add64 (add64 pos s.mem.mask) 1);
              })
              t
              (returned (popped v)))

  -- A new queue, and no thread in it.
  abbrev pub start_of : ℕ → System T
  start_of capacity = record { mem = empty capacity; pc = λ _. returned nothing_yet; log = [] }

  -- The states that `limit` claims of a position for a push may reach.
  pub data Reached (capacity limit : ℕ) : System T → Type 0 where
    start : Reached capacity limit (start_of capacity)
    step :
        {s u : System T}
        → Reached capacity limit s
        → Step s u
        → u.mem.enqueue_pos < limit
        → Reached capacity limit u
