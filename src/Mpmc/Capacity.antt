-- ===== src/Mpmc/Capacity.antt =====
-- The capacity of a queue of `kernel/src/mpmc.rs`.
use Prim.Native.Nat.{bit_and}
use node_replicated_kernel.Prelude.{
  ℕ, zero, suc, ◌+◌, ◌-◌, ◌*◌, ◌^◌, ◌≤◌, ◌<◌, ◌≡◌, inl, inr, refl, sym, ap, ◌∙◌, Bool-cases, leb,
  ltb, ◌==◌, ==_iff, arith,
}
use node_replicated_kernel.Prelude.Outcome.{
  Heap, Gives, Gives-bind, request-Gives, give-Gives, request, give, ◌>>◌,
}
use node_replicated_kernel.Mpmc.{empty, next_power, rounded, with_capacity, state_with_capacity}
use node_replicated_kernel.Mpmc.Mask.{bit_and-power, pow2-suc}

-- The capacity of a queue that is asked for `n` places.
pub record IsCapacity (n capacity : ℕ) : Type 0 where
  pub exponent : ℕ
  pub power : capacity ≡ 2 ^ exponent
  pub two : 2 ≤ capacity
  pub enough : n ≤ capacity
  pub close : 2 ≤ n → capacity < 2 * n

next_power-power :
    (fuel j n : ℕ)
    → 2 ^ j < 2 * n
    → n ≤ 2 ^ (j + fuel)
    → (k : ℕ) × (next_power fuel (2 ^ j) n ≡ 2 ^ k) × (n ≤ 2 ^ k) × (2 ^ k < 2 * n) × (j ≤ k)
unfolding next_power
next_power-power zero j n close h =
    let same : 2 ^ (j + 0) ≡ 2 ^ j = ap (λ (i : ℕ). 2 ^ i) (omega arith) in
    (j, refl, omega arith, close, omega arith)
next_power-power (suc fuel) j n close h = elim (Bool-cases (leb n (2 ^ j))) [
  | inl t ↦ (j, rw (next_power, t) refl, ground arith, close, omega arith)
  | inr f ↦
      let same : 2 ^ (j + suc fuel) ≡ 2 ^ (suc j + fuel) = ap (λ (i : ℕ). 2 ^ i) (omega arith) in
      let more : 2 ^ suc j < 2 * n = ground (arith, pow2-suc j) in
      let (k, e, le, lt, up) = next_power-power fuel (suc j) n more (omega arith) in
      (
        k,
        rw (next_power, f) (ap (λ p. next_power fuel p n) (sym (pow2-suc j)) ∙ e),
        le,
        lt,
        omega arith,
      )
]

pub rounded-IsCapacity : (n : ℕ) → n ≤ 2 ^ 63 → IsCapacity n (rounded n)
rounded-IsCapacity n h = elim (Bool-cases (ltb n 2)) [
  | inl t ↦ rw t (record {
    exponent = 1;
    power = refl;
    two = omega arith;
    enough = ground arith;
    close = λ two. ground arith;
  })
  | inr f ↦ elim (Bool-cases (bit_and n (n - 1) == 0)) [
    | inl z ↦
        rw (f, z)
          (let least : 2 ≤ n = ground arith in
            let (k, e) = bit_and-power n (omega arith) ((==_iff _ 0).0 z) in
            record {
              exponent = k;
              power = e;
              two = least;
              enough = omega arith;
              close = λ two. omega arith;
            })
    | inr z ↦
        rw (f, z)
          (let least : 2 ≤ n = ground arith in
            let (k, e, le, lt, up) = next_power-power 64 0 n (omega arith) (omega arith) in
            record {
              exponent = k;
              power = e;
              two = omega arith;
              enough = omega arith;
              close = λ two. omega arith;
            })
  ]
]

-- A queue for `n` places is made, of a capacity that is a power of two, at least `n` and less than
-- twice that, or the allocator refuses.
pub with_capacity-Gives :
    {T : Type 0} (n : ℕ) (h : Heap)
    → n ≤ 2 ^ 63
    → Gives h (empty {T = T} (rounded n)) (with_capacity n h) × IsCapacity n (rounded n)
unfolding with_capacity state_with_capacity
with_capacity-Gives n h le = (
  Gives-bind (state_with_capacity n) (λ m. request >> give m) h
      (request-Gives (give (empty (rounded n))) h (give-Gives (empty (rounded n))))
      (λ g. request-Gives (give (empty (rounded n))) g (give-Gives (empty (rounded n)))),
  rounded-IsCapacity n le,
)
