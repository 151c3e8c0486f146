-- ===== src/Memory/Cores.antt =====
-- The set of cores and the flush handle of `kernel/src/memory/vspace.rs`. `set_bit` of the bit_field
-- crate is a parameter, with what the crate documents of it.
use Prim.Native.Nat.{bit_and, bit_xor}
use node_replicated_kernel.Prelude.{
  ℕ, zero, suc, ◌+◌, ◌-◌, ◌/◌, ◌%◌, ◌^◌, ◌≤◌, ◌<◌, ◌≡◌, Bool, true, ◌&&◌, leb, ltb, ◌==◌,
  if◌then◌else◌, Option, none, some, List, [], ◌∷◌,
}
use node_replicated_kernel.Prelude.Outcome.{Outcome, ok, panic, stuck, and_then}
use node_replicated_kernel.Memory.Frame.{Frame}

abbrev pub u128 : ℕ
u128 = 2 ^ 128

-- A bit of a number, counted from the lowest.
abbrev pub bit_of : ℕ → ℕ → Bool
bit_of x zero = x % 2 == 1
bit_of x (suc i) = bit_of (x / 2) i

-- `BitField` of `u128`: `set_bit` panics if the bit is not one of the number's.
pub record BitField : Type 0 where
  pub set_bit : ℕ → ℕ → Bool → Outcome ℕ
  pub set_bit-ok :
      (x i : ℕ) (v : Bool)
      → x < u128
      → i < 128
      → (y : ℕ) × (set_bit x i v ≡ ok y)
        × (y < u128)
        × ((j : ℕ) → bit_of y j ≡ (if j == i then v else bit_of x j))
  pub set_bit-panic : (x i : ℕ) (v : Bool) → 128 ≤ i → set_bit x i v ≡ panic

pub record CoreBitMap : Type 0 where
  pub low : ℕ
  pub high : ℕ

abbrev pub no_cores : CoreBitMap
no_cores = record { low = 0; high = 0 }

pub record TlbFlushHandle : Type 0 where
  pub vaddr : ℕ
  pub frame : Frame
  pub core_map : CoreBitMap

-- `TlbFlushHandle::new`.
abbrev pub flush_handle : ℕ → Frame → TlbFlushHandle
flush_handle vaddr frame = record { vaddr = vaddr; frame = frame; core_map = no_cores }

module _ (b : BitField) where
  unfoldable pub set_core : CoreBitMap → ℕ → Bool → Outcome CoreBitMap
  set_core m bit value =
      if leb bit 127
      then and_then (b.set_bit m.low bit value) (λ low. ok (record m { low = low }))
      else and_then (b.set_bit m.high (bit - 128) value) (λ high. ok (record m { high = high }))

  unfoldable pub add_core : TlbFlushHandle → ℕ → Outcome TlbFlushHandle
  add_core h gtid = and_then (set_core h.core_map gtid true) λ m. ok (record h { core_map = m })

-- `trailing_zeros` of a word, in `fuel` digits.
pub trailing_zeros : ℕ → ℕ → ℕ
trailing_zeros zero x = 0
trailing_zeros (suc fuel) x =
    let rest = trailing_zeros fuel (x / 2) in if x % 2 == 1 then 0 else rest + 1

-- `x & x.wrapping_neg()`.
abbrev pub least_significant_bit : ℕ → ℕ
least_significant_bit x = bit_and x ((u128 - x) % u128)

-- `CoreBitMapIter::next`: the core, if there is one, and the set that is left.
pub next_core : CoreBitMap → Option ℕ × CoreBitMap
next_core m =
    if (m.low == 0) && (m.high == 0)
    then (none, m)
    else (if ltb 0 m.low
        then (
          some (trailing_zeros 128 m.low),
          record m { low = bit_xor m.low (least_significant_bit m.low) },
        )
        else (
          some (128 + trailing_zeros 128 m.high),
          record m { high = bit_xor m.high (least_significant_bit m.high) },
        ))

-- `cores()`, all of them, in `fuel` calls of `next`.
pub cores : ℕ → CoreBitMap → Outcome (List ℕ)
cores zero m = stuck
cores (suc fuel) m =
    let s = next_core m in
    elim s.0 [ none ↦ ok [] | some core ↦ and_then (cores fuel s.1) λ rest. ok (core ∷ rest) ]

-- The core is in the set.
abbrev pub has_core : CoreBitMap → ℕ → Bool
has_core m c = if leb c 127 then bit_of m.low c else bit_of m.high (c - 128)
