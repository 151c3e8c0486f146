-- ===== src/Memory/MCache/Alignment.antt =====
-- Every address in a cache of `kernel/src/memory/mcache.rs` stays that of a page.
use node_replicated_kernel.Prelude.{
  ℕ, zero, suc, ◌+◌, ◌-◌, ◌*◌, ◌<◌, ◌≡◌, refl, subst, List, [], ◌∷◌, map, length, take, All,
  All-take, All-drop, base_page_size, large_page_size, arith,
}
use node_replicated_kernel.Memory.Frame.{Frame}
use node_replicated_kernel.Memory.Frame.Split.{IsFrame}
use node_replicated_kernel.Memory.MCache.Stack.{
  pushed, filled, addresses, allocate, divide, Division,
}
use node_replicated_kernel.Memory.MCache.Pages.{Aligned, IsPage}
use node_replicated_kernel.Memory.MCache.Spec.{
  Op, allocate_base, allocate_large, release_base, release_large, grow_base, grow_large, reap_base,
  reap_large, populate_4k, populate_2m, Cache, spec_step, divided, IsOp, IsAligned,
}

module _ (P : ℕ → Type 0) where
  All-pushed : (xs s : List ℕ) → All P xs → All P s → All P (pushed xs s)
  All-pushed [] s h k = k
  All-pushed (x ∷ xs) s h k = All-pushed xs (x ∷ s) h.1 (h.0, k)

  All-filled : (cap : ℕ) (xs s : List ℕ) → All P xs → All P s → All P (filled cap xs s)
  All-filled cap xs s h k =
      All-pushed (take (cap - length s) xs) s (All-take P (cap - length s) xs h) k

  All-addresses : (n b step : ℕ) → ((i : ℕ) → i < n → P (b + i * step)) → All P (addresses n b step)
  All-addresses zero b step h = tt
  All-addresses (suc n) b step h =
      let first : b + 0 * step ≡ b = grind arith in
      let later = λ (i : ℕ) (p : i < n).
        let e : b + suc i * step ≡ b + step + i * step = grind arith in
        subst P e (h (suc i) (omega arith)) in
      (subst P first (h 0 (omega arith)), All-addresses n (b + step) step later)

All-bases :
    (size node : ℕ) (fs : List Frame)
    → All (IsPage size node) fs
    → All (Aligned size) (map (λ f. f.base) fs)
All-bases size node [] h = tt
All-bases size node (f ∷ fs) h = (h.0.1, All-bases size node fs h.1)

All-allocate :
    (size node : ℕ) (s : List ℕ)
    → All (Aligned size) s
    → All (Aligned size) (allocate size node s).1
All-allocate size node [] h = tt
All-allocate size node (x ∷ s) h = h.1

divided-IsAligned :
    (bp lp : ℕ) (f : Frame) (how_many : ℕ) (c : Cache)
    → IsFrame f
    → IsAligned c
    → IsAligned (divided bp lp (divide f how_many) c)
divided-IsAligned bp lp f how_many c i a =
    let d : Division = divide f how_many in
    let low : All (Aligned base_page_size) d.low =
      All-addresses (Aligned base_page_size) _ _ base_page_size (λ j p. omega (arith, i.based)) in
    let high : All (Aligned base_page_size) d.high =
      All-addresses (Aligned base_page_size) _ _ base_page_size
        (λ j p. omega (arith, i.based, i.sized)) in
    let large : All (Aligned large_page_size) d.large =
      All-addresses (Aligned large_page_size) _ _ large_page_size
        (λ j p. omega (arith, i.based, i.sized)) in
    (
      All-filled (Aligned base_page_size) bp d.high _ high
          (All-filled (Aligned base_page_size) bp d.low _ low a.0),
      All-filled (Aligned large_page_size) lp d.large _ large a.1,
    )

pub spec_step-IsAligned :
    (bp lp : ℕ) (op : Op) (c : Cache)
    → IsAligned c
    → IsOp c.node op
    → IsAligned (spec_step bp lp op c).1 × ((spec_step bp lp op c).1.node ≡ c.node)
spec_step-IsAligned bp lp allocate_base c a i =
    ((All-allocate base_page_size c.node c.bases a.0, a.1), refl)
spec_step-IsAligned bp lp allocate_large c a i =
    ((a.0, All-allocate large_page_size c.node c.larges a.1), refl)
spec_step-IsAligned bp lp (release_base f) c a i =
    ((All-filled (Aligned base_page_size) bp (f.base ∷ []) _ (i.1, tt) a.0, a.1), refl)
spec_step-IsAligned bp lp (release_large f) c a i =
    ((a.0, All-filled (Aligned large_page_size) lp (f.base ∷ []) _ (i.1, tt) a.1), refl)
spec_step-IsAligned bp lp (grow_base fs) c a i = (
  (All-filled (Aligned base_page_size) bp _ _ (All-bases base_page_size c.node fs i) a.0, a.1),
  refl,
)
spec_step-IsAligned bp lp (grow_large fs) c a i = (
  (a.0, All-filled (Aligned large_page_size) lp _ _ (All-bases large_page_size c.node fs i) a.1),
  refl,
)
spec_step-IsAligned bp lp (reap_base ss) c a i =
    ((All-drop (Aligned base_page_size) (length ss) c.bases a.0, a.1), refl)
spec_step-IsAligned bp lp (reap_large ss) c a i =
    ((a.0, All-drop (Aligned large_page_size) (length ss) c.larges a.1), refl)
spec_step-IsAligned bp lp (populate_4k f) c a i = (divided-IsAligned bp lp f _ c i.0 a, refl)
spec_step-IsAligned bp lp (populate_2m f) c a i = (divided-IsAligned bp lp f _ c i.0 a, refl)
