-- ===== src/Memory/MCache.antt =====
-- `kernel/src/memory/mcache.rs`: the cache of base pages and large pages of a NUMA node. The two
-- halves of the source differ in the size of the page and the vector, which are arguments here.
-- The counts of lost pages go to the log only.
pub mod Stack
pub mod Fill
pub mod Pages
pub mod Spec
pub mod Alignment
pub mod Refine
pub mod Held
pub mod Room
mod Tests
use node_replicated_kernel.Prelude.{
  ℕ, zero, suc, ◌+◌, ◌-◌, ◌*◌, ◌/◌, ◌%◌, Option, none, some, List, [], ◌∷◌, Bool, ltb, leb, ◌==◌,
  ◌&&◌, if◌then◌else◌, sub64, base_page_size, large_page_size,
}
use node_replicated_kernel.Prelude.Outcome.{
  Outcome, ok, err, panic, stuck, and_then, Comp, chain, cache_exhausted, cache_full,
}
use node_replicated_kernel.Memory.Frame
use node_replicated_kernel.Memory.Frame.{
  Frame, split_at, split_at_nearest_large_page_boundary, next, base_pages,
}
use node_replicated_kernel.Memory.ArrayVec.{ArrayVec}

-- What both vectors of a cache do, for pages of `size` bytes of the node.
module _ {cap : ℕ} (vec : ArrayVec cap) (size node : ℕ) where
  open vec use {Vec, len, try_push, pop}

  -- `pop`, and `paddr_to_base_page` or `paddr_to_large_page`.
  unfoldable pub allocate_page : Comp Vec Frame
  allocate_page v = elim (pop v) [
    | none ↦ (err cache_exhausted, v)
    | some (paddr, w) ↦ (Frame.new paddr size node, w)
  ]

  unfoldable pub try_push_page : ℕ → Comp Vec (Unit {0})
  try_push_page base v = elim (try_push v base) [ none ↦ (err cache_full, v) | some w ↦ (ok tt, w) ]

  -- The assertions on a page that is given back.
  abbrev pub is_page : Frame → Bool
  is_page f = (f.size == size) && (f.base % size == 0) && (f.affinity == node)

  unfoldable pub release_page : Frame → Comp Vec (Unit {0})
  release_page f v = if is_page f then try_push_page f.base v else (panic, v)

  unfoldable pub spare_capacity : Vec → ℕ
  spare_capacity v = sub64 cap (len v)

  unfoldable pub grow_pages : List Frame → Comp Vec (Unit {0})
  grow_pages [] v = (ok tt, v)
  grow_pages (f ∷ fs) v = chain (release_page f v) λ _. grow_pages fs

  -- The slots of the list after it, filled from the front.
  unfoldable pub reap_pages : List (Option Frame) → Comp Vec (List (Option Frame))
  reap_pages [] v = (ok [], v)
  reap_pages (slot ∷ slots) v = elim (pop v) [
    | none ↦ (ok (slot ∷ slots), v)
    | some (paddr, w) ↦
        chain (Frame.new paddr size node, w)
          λ f v'. chain (reap_pages slots v') λ rest u. (ok (some f ∷ rest), u)
  ]

-- The loops of `populate` over base pages: they end at the first that does not fit.
unfoldable pub push_base_pages :
    {cap : ℕ} (vec : ArrayVec cap) → ℕ → Frame → vec.Vec → Outcome vec.Vec
push_base_pages vec zero f v = if ltb f.size base_page_size then ok v else stuck
push_base_pages vec (suc fuel) f v = and_then (next f) λ s. elim s.0 [
  | none ↦ ok v
  | some page ↦ elim (vec.try_push v page.base) [
    | none ↦ ok v
    | some w ↦ push_base_pages vec fuel s.1 w
  ]
]

-- The loop over large pages, and the frame that it leaves.
unfoldable pub push_large_pages :
    {cap : ℕ} (vec : ArrayVec cap) → ℕ → Frame → vec.Vec → Outcome (vec.Vec × Frame)
push_large_pages vec zero f v = ok (v, f)
push_large_pages vec (suc how_many) f v =
    let round = and_then (split_at f large_page_size) λ s. elim (vec.try_push v s.0.base) [
      | none ↦ push_large_pages vec how_many s.1 v
      | some w ↦ push_large_pages vec how_many s.1 w
    ] in
    if leb large_page_size f.size then round else ok (v, f)

pub record MCache {bp lp : ℕ} (base : ArrayVec bp) (large : ArrayVec lp) : Type 0 where
  pub node : ℕ
  pub base_page_addresses : base.Vec
  pub large_page_addresses : large.Vec

module _ {bp lp : ℕ} (base : ArrayVec bp) (large : ArrayVec lp) where
  -- `MCache::new`, and `MCache::init` of the storage of a cache.
  unfoldable pub new : ℕ → MCache base large
  new node = record {
    node = node;
    base_page_addresses = base.new_const;
    large_page_addresses = large.new_const;
  }

  -- The count of large pages of `populate_4k_first`.
  abbrev pub how_many_4k_first : Frame → ℕ
  how_many_4k_first f =
      if ltb bp (base_pages f) then (base_pages f - bp) * base_page_size / large_page_size else 1

  -- The count of large pages of `populate_2m_first`.
  abbrev pub how_many_2m_first : Frame → ℕ
  how_many_2m_first f = f.size / large_page_size * 87 / 100

  unfoldable pub populate : Frame → ℕ → MCache base large → Outcome (MCache base large)
  populate f how_many c =
      let at_least_one = if how_many == 0 then 1 else how_many in
      and_then (split_at_nearest_large_page_boundary f) λ s.
        and_then (push_base_pages base (base_pages s.0) s.0 c.base_page_addresses) λ low.
          and_then (push_large_pages large at_least_one s.1 c.large_page_addresses) λ mid.
            and_then (push_base_pages base (base_pages mid.1) mid.1 low)
              λ high. ok (record c { base_page_addresses = high; large_page_addresses = mid.0 })

  unfoldable pub populate_4k_first : Frame → MCache base large → Outcome (MCache base large)
  populate_4k_first f = populate f (how_many_4k_first f)

  unfoldable pub populate_2m_first : Frame → MCache base large → Outcome (MCache base large)
  populate_2m_first f = populate f (how_many_2m_first f)

  unfoldable pub new_with_frame : ℕ → Frame → Outcome (MCache base large)
  new_with_frame node f = populate_4k_first f (new node)

  abbrev on_base :
      {A : Type 0} → MCache base large → Outcome A × base.Vec → Outcome A × MCache base large
  on_base c r = (r.0, record c { base_page_addresses = r.1 })

  abbrev on_large :
      {A : Type 0} → MCache base large → Outcome A × large.Vec → Outcome A × MCache base large
  on_large c r = (r.0, record c { large_page_addresses = r.1 })

  unfoldable pub allocate_base_page : Comp (MCache base large) Frame
  allocate_base_page c = on_base c (allocate_page base base_page_size c.node c.base_page_addresses)

  unfoldable pub release_base_page : Frame → Comp (MCache base large) (Unit {0})
  release_base_page f c =
      on_base c (release_page base base_page_size c.node f c.base_page_addresses)

  unfoldable pub allocate_large_page : Comp (MCache base large) Frame
  allocate_large_page c =
      on_large c (allocate_page large large_page_size c.node c.large_page_addresses)

  unfoldable pub release_large_page : Frame → Comp (MCache base large) (Unit {0})
  release_large_page f c =
      on_large c (release_page large large_page_size c.node f c.large_page_addresses)

  unfoldable pub spare_base_page_capacity : MCache base large → ℕ
  spare_base_page_capacity c = spare_capacity base base_page_size c.node c.base_page_addresses

  unfoldable pub grow_base_pages : List Frame → Comp (MCache base large) (Unit {0})
  grow_base_pages fs c = on_base c (grow_pages base base_page_size c.node fs c.base_page_addresses)

  unfoldable pub spare_large_page_capacity : MCache base large → ℕ
  spare_large_page_capacity c = spare_capacity large large_page_size c.node c.large_page_addresses

  unfoldable pub grow_large_pages : List Frame → Comp (MCache base large) (Unit {0})
  grow_large_pages fs c =
      on_large c (grow_pages large large_page_size c.node fs c.large_page_addresses)

  unfoldable pub reap_base_pages :
      List (Option Frame) → Comp (MCache base large) (List (Option Frame))
  reap_base_pages slots c =
      on_base c (reap_pages base base_page_size c.node slots c.base_page_addresses)

  unfoldable pub reap_large_pages :
      List (Option Frame) → Comp (MCache base large) (List (Option Frame))
  reap_large_pages slots c =
      on_large c (reap_pages large large_page_size c.node slots c.large_page_addresses)

  -- Of `AllocatorStatistics`.
  unfoldable pub free : MCache base large → ℕ
  free c =
      base.len c.base_page_addresses * base_page_size
      + large.len c.large_page_addresses * large_page_size

  unfoldable pub capacity : MCache base large → ℕ
  capacity c = bp * base_page_size + lp * large_page_size

  unfoldable pub free_base_pages : MCache base large → ℕ
  free_base_pages c = base.len c.base_page_addresses

  unfoldable pub free_large_pages : MCache base large → ℕ
  free_large_pages c = large.len c.large_page_addresses
