-- ===== src/Memory/Emergency.antt =====
-- `EmergencyAllocator` of `kernel/src/memory/emem.rs`: frames are cut off the front of a region and not
-- given back. Its `index` is always 0.
pub mod Taken
mod Tests
use node_replicated_kernel.Prelude.{
  ℕ, List, [], ◌∷◌, ◌%◌, ◌==◌, ◌&&◌, leb, ltb, if◌then◌else◌, base_page_size, large_page_size,
}
use node_replicated_kernel.Prelude.Outcome.{
  Outcome, ok, err, panic, stuck, cache_exhausted, out_of_memory, Comp, chain,
}
use node_replicated_kernel.Memory.Frame
use node_replicated_kernel.Memory.Frame.{Frame, split_at, round_up}

pub record EmergencyAllocator : Type 0 where
  pub region : Frame

abbrev pub empty : EmergencyAllocator
empty = record { region = Frame.empty }

unfoldable pub new : Frame → Outcome EmergencyAllocator
new region =
    if ltb 0 region.base && (region.size % base_page_size == 0)
    then ok (record { region = region })
    else panic

abbrev pub cut : EmergencyAllocator → Outcome (Frame × Frame) → Outcome Frame × EmergencyAllocator
cut a (ok (low, high)) = (ok low, record { region = high })
cut a (err e) = (err e, a)
cut a panic = (panic, a)
cut a stuck = (stuck, a)

-- `allocate_layout`, by the size and the alignment of the layout.
unfoldable pub allocate_layout : ℕ → ℕ → Comp EmergencyAllocator Frame
allocate_layout layout_size align a =
    let size = round_up layout_size base_page_size in
    if leb align base_page_size
    then (if leb size a.region.size
        then cut a (split_at a.region size)
        else (err cache_exhausted, a))
    else (panic, a)

-- The frames that requests of the given sizes get, one after another; a request that fails gets none.
abbrev pub with_frame : Outcome Frame → List Frame → List Frame
with_frame (ok f) frames = f ∷ frames
with_frame _ frames = frames

unfoldable pub allocate_all : List (ℕ × ℕ) → EmergencyAllocator → List Frame
allocate_all [] a = []
allocate_all ((layout_size, align) ∷ layouts) a =
    let (r, b) = allocate_layout layout_size align a in with_frame r (allocate_all layouts b)

-- `refill` and `refill_large`: a page at an address is the new region.
unfoldable pub refill_with : ℕ → ℕ → Comp EmergencyAllocator (Unit {0})
refill_with size new_page a =
    chain (Frame.new new_page size 0, a) λ region a. (ok tt, record { region = region })

abbrev pub refill : ℕ → Comp EmergencyAllocator (Unit {0})
refill = refill_with base_page_size

abbrev pub refill_large : ℕ → Comp EmergencyAllocator (Unit {0})
refill_large = refill_with large_page_size
