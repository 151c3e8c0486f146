-- ===== src/Memory/Refill.antt =====
-- The sizes and the refilling of the core's page cache of `KernelAllocator` in
-- `kernel/src/memory/mod.rs`. The largest sizes of the slabmalloc crate are parameters.
pub mod Sizes
pub mod Moved
use node_replicated_kernel.Prelude.{
  ℕ, zero, suc, ◌+◌, ◌-◌, ◌/◌, ◌%◌, min, Option, none, some, List, [], ◌∷◌, Bool, ltb, leb, ◌||◌,
  if◌then◌else◌, base_page_size, large_page_size,
}
use node_replicated_kernel.Prelude.Outcome.{
  Outcome, ok, err, panic, stuck, Comp, chain, kcb_unavailable, manager_already_borrowed,
}
use node_replicated_kernel.Memory.Frame.{Frame}
use node_replicated_kernel.Memory.ArrayVec.{ArrayVec}
use node_replicated_kernel.Memory.MCache.{
  MCache, allocate_page, grow_pages, spare_base_page_capacity, spare_large_page_capacity,
  free_base_pages, free_large_pages,
}

-- Base pages and large pages.
unfoldable pub size_to_pages : ℕ → ℕ × ℕ
size_to_pages size =
    let bytes_not_in_large = size % large_page_size in
    let div = bytes_not_in_large / base_page_size in
    let rem = bytes_not_in_large % base_page_size in
    let remaining_size = size - bytes_not_in_large in
    let div_large = remaining_size / large_page_size in
    let rem_large = remaining_size % large_page_size in
    ((if ltb 0 rem then div + 1 else div), (if ltb 0 rem_large then div_large + 1 else div_large))

pub data AllocatorType : Type 0 where
  zone mem_manager map_big : AllocatorType

-- `MAX_ALLOC_SIZE` is `max_alloc`, and `MAX_BASE_ALLOC_SIZE` is `max_base`.
unfoldable pub allocator_for : (max_alloc : ℕ) → ℕ → AllocatorType
allocator_for max_alloc size =
    if leb size max_alloc then zone else (if leb size large_page_size then mem_manager else map_big)

abbrev pub amount_for : (max_base : ℕ) → ℕ → AllocatorType → ℕ × ℕ
amount_for max_base size zone = if leb size max_base then (1, 0) else (0, 1)
amount_for max_base size mem_manager = if leb size base_page_size then (1, 0) else (0, 1)
amount_for max_base size map_big = size_to_pages size

unfoldable pub refill_amount : (max_alloc max_base : ℕ) → ℕ → ℕ × ℕ
refill_amount max_alloc max_base size = amount_for max_base size (allocator_for max_alloc size)

-- `expect` of a cache that grows.
abbrev pub expect : {A : Type 0} → Outcome (Unit {0}) × A → Outcome (Unit {0}) × A
expect (ok u, a) = (ok u, a)
expect (err e, a) = (panic, a)
expect (panic, a) = (panic, a)
expect (stuck, a) = (stuck, a)

-- The loops of `try_refill_tcache`: pages go from one vector to the other. The nodes of the caches
-- are arguments.
module _ {from to : ℕ} (source : ArrayVec from) (target : ArrayVec to)
    (size affinity node : ℕ) where
  abbrev pub give_page : Frame → Comp (source.Vec × target.Vec) (Unit {0})
  give_page f (s, t) = let (r, u) = expect (grow_pages target size node (f ∷ []) t) in (r, (s, u))

  unfoldable pub move_pages : ℕ → Comp (source.Vec × target.Vec) (Unit {0})
  move_pages zero st = (ok tt, st)
  move_pages (suc n) (s, t) =
      let (r, s') = allocate_page source size affinity s in
      chain (r, (s', t)) λ f st. chain (give_page f st) λ _. move_pages n

pub data MemType : Type 0 where
  mem pmem invalid : MemType

-- `kernel/src/kcb.rs`: the cache of the core, which may be in use. `pmem_manager` borrows the
-- emergency manager too, so `borrowed` is for either of the two there.
abbrev pub try_mem_manager : (borrowed : Bool) → Outcome (Unit {0})
try_mem_manager borrowed = if borrowed then err manager_already_borrowed else ok tt

abbrev pub pmem_manager : (borrowed : Bool) → Outcome (Unit {0})
pmem_manager borrowed = if borrowed then panic else ok tt

module _ {nb nl tb tl : ℕ} (base : ArrayVec nb) (large : ArrayVec nl) (tbase : ArrayVec tb)
    (tlarge : ArrayVec tl) where
  -- The cache of the node, if there is a global manager, and the one of the core.
  abbrev pub Caches : Type 0
  Caches = Option (MCache base large) × MCache tbase tlarge

  abbrev pub move_base : ℕ → Comp (MCache base large × MCache tbase tlarge) (Unit {0})
  move_base n (ncache, c) =
      let (r, st) =
        move_pages base tbase base_page_size ncache.node c.node n
          (ncache.base_page_addresses, c.base_page_addresses) in
      (r, (record ncache { base_page_addresses = st.0 }, record c { base_page_addresses = st.1 }))

  abbrev pub move_large : ℕ → Comp (MCache base large × MCache tbase tlarge) (Unit {0})
  move_large n (ncache, c) =
      let (r, st) =
        move_pages large tlarge large_page_size ncache.node c.node n
          (ncache.large_page_addresses, c.large_page_addresses) in
      (r, (record ncache { large_page_addresses = st.0 }, record c { large_page_addresses = st.1 }))

  -- The loops, once the cache of the core is borrowed.
  abbrev pub refill_from :
      ℕ → ℕ → MCache base large × MCache tbase tlarge → Outcome (Unit {0}) × Caches
  refill_from needed_base_pages needed_large_pages (ncache, c) =
      let (r, (n, t)) =
        chain
          (move_base (min (spare_base_page_capacity tbase tlarge c) needed_base_pages) (ncache, c))
          λ _. move_large (min (spare_large_page_capacity tbase tlarge c) needed_large_pages) in
      (r, (some n, t))

  abbrev pub refill_with : Outcome (Unit {0}) → ℕ → ℕ → Comp Caches (Unit {0})
  refill_with manager needed_base_pages needed_large_pages (none, c) = (ok tt, (none, c))
  refill_with manager needed_base_pages needed_large_pages (some ncache, c) =
      chain (manager, (some ncache, c))
        λ _ _. refill_from needed_base_pages needed_large_pages (ncache, c)

  abbrev pub refill_type : MemType → (borrowed : Bool) → ℕ → ℕ → Comp Caches (Unit {0})
  refill_type mem borrowed needed_base_pages needed_large_pages s =
      refill_with (try_mem_manager borrowed) needed_base_pages needed_large_pages s
  refill_type pmem borrowed needed_base_pages needed_large_pages s =
      refill_with (pmem_manager borrowed) needed_base_pages needed_large_pages s
  refill_type invalid borrowed needed_base_pages needed_large_pages s = (panic, s)

  -- `kcb` says whether the core has its control block, and `borrowed` whether the cache of the core,
  -- that of the type of memory, is in use. The core is not in its panic mode.
  unfoldable pub try_refill_tcache :
      (kcb borrowed : Bool) → MemType → ℕ → ℕ → Comp Caches (Unit {0})
  try_refill_tcache kcb borrowed mem_type needed_base_pages needed_large_pages s =
      if kcb
      then refill_type mem_type borrowed needed_base_pages needed_large_pages s
      else (err kcb_unavailable, s)

  -- Both looks at the cache find it in use or not: nothing else of the core runs in between.
  unfoldable pub maybe_refill_tcache : (kcb borrowed : Bool) → ℕ → ℕ → Comp Caches (Unit {0})
  maybe_refill_tcache kcb borrowed needed_base_pages needed_large_pages (n, c) =
      let free_bp = free_base_pages tbase tlarge c in
      let free_lp = free_large_pages tbase tlarge c in
      if kcb
      then (chain (try_mem_manager borrowed, (n, c))
          λ _ s.
            if ltb free_bp needed_base_pages || ltb free_lp needed_large_pages
            then try_refill_tcache kcb borrowed mem needed_base_pages needed_large_pages s
            else (ok tt, s))
      else (err kcb_unavailable, (n, c))
