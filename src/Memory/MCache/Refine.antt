-- ===== src/Memory/MCache/Refine.antt =====
-- A page cache of `kernel/src/memory/mcache.rs` behaves as the two stacks of addresses in it.
use node_replicated_kernel.Prelude.{
  ℕ, ◌+◌, ◌*◌, ◌/◌, ◌<◌, ◌≡◌, subst, inl, inr, refl, sym, ap, ◌∙◌, List, [], ◌∷◌, All, min, max,
  ◌==◌, base_page_size, large_page_size, word, arith, if◌then◌else◌,
}
use mathlib.Core.Path.{ap₂}
use node_replicated_kernel.Prelude.Outcome.{ok}
use node_replicated_kernel.Memory.Frame.{Frame, base_pages}
use node_replicated_kernel.Memory.Frame.Split.{IsFrame, nearest-parts}
use node_replicated_kernel.Memory.ArrayVec.{ArrayVec}
use node_replicated_kernel.Memory.MCache.{
  MCache, populate, push_base_pages, populate_4k_first, populate_2m_first, allocate_base_page,
  release_base_page, allocate_large_page, release_large_page, grow_base_pages, grow_large_pages,
  reap_base_pages, reap_large_pages,
}
use node_replicated_kernel.Memory.MCache.Stack.{filled, addresses, addresses-cong, Division, divide}
use node_replicated_kernel.Memory.MCache.Alignment.{spec_step-IsAligned}
use node_replicated_kernel.Memory.MCache.Fill.{push_base_pages-filled, push_large_pages-filled}
use node_replicated_kernel.Memory.MCache.Pages.{
  view-allocate_page, view-grow_pages, view-release_page, view-reap_pages,
}
use node_replicated_kernel.Memory.MCache.Spec.{
  Op, allocate_base, allocate_large, release_base, release_large, grow_base, grow_large, reap_base,
  reap_large, populate_4k, populate_2m, step, run, Cache, divided, spec_step, spec_run, IsOp,
  IsAligned, replied, frame, done, slots, on_bases, on_larges, beyond,
}

module _ {bp lp : ℕ} (base : ArrayVec bp) (large : ArrayVec lp) where
  abbrev pub contents : MCache base large → Cache
  contents c = record {
    node = c.node;
    bases = base.items c.base_page_addresses;
    larges = large.items c.large_page_addresses;
  }

  contents_eq :
      (node : ℕ) {b b' l l' : List ℕ}
      → b ≡ b'
      → l ≡ l'
      → ◌≡◌ {A = Cache}
          (record { node = node; bases = b; larges = l })
          (record { node = node; bases = b'; larges = l' })
  contents_eq node p q = rw (p, q)

  -- The base pages of a whole frame.
  push_all-filled :
      (f : Frame) (v : base.Vec)
      → IsFrame f
      → (w : base.Vec) × (push_base_pages base (base_pages f) f v ≡ ok w)
        × (base.items w
            ≡ filled bp (addresses (f.size / base_page_size) f.base base_page_size) (base.items v))
  push_all-filled f v i =
      push_base_pages-filled base (f.size / base_page_size) f v i (omega (arith, i.sized))

  pub populate-divided :
      (f : Frame) (how_many : ℕ) (c : MCache base large)
      → IsFrame f
      → f.base + large_page_size < word
      → (d : MCache base large) × (populate base large f how_many c ≡ ok d)
        × (contents d ≡ divided bp lp (divide f how_many) (contents c))
  unfolding populate
  populate-divided f how_many c i room =
      let n = if how_many == 0 then 1 else how_many in
      let (low, high, q, s, len) = nearest-parts f i room in
      let (v, vq, vi) = push_all-filled low c.base_page_addresses s.low_frame in
      let (w, rest, wq, wi, l) =
        push_large_pages-filled large n (min n (high.size / large_page_size)) high
          c.large_page_addresses s.high_frame refl in
      let (u, uq, ui) = push_all-filled rest v l.frame in
      let d : Division = divide f how_many in
      let n_eq : n ≡ max 1 how_many = ground arith in
      let lows : addresses (low.size / base_page_size) low.base base_page_size ≡ d.low =
        addresses-cong _ _ _ _ base_page_size (ap (λ k. k / base_page_size) len)
          (λ p. s.low_base (omega arith)) in
      let larges : addresses (min n (high.size / large_page_size)) high.base large_page_size
          ≡ d.large =
        addresses-cong _ _ _ _ large_page_size (omega (arith, len, s.all, n_eq))
          (λ p. omega (arith, s.high_base (omega arith), len)) in
      let highs : addresses (rest.size / base_page_size) rest.base base_page_size ≡ d.high =
        addresses-cong _ _ _ _ base_page_size (omega (arith, len, s.all, l.sized, n_eq)) (λ p.
          omega (
            arith,
            l.based (omega arith),
            s.high_base (omega (arith, l.sized)),
            len,
            s.all,
            n_eq,
          )) in
      (
        record c { base_page_addresses = u; large_page_addresses = w },
        rw (q, vq, wq, uq) refl,
        contents_eq c.node (ui ∙ rw (highs, vi, lows)) (wi ∙ rw larges),
      )

  -- One operation, of the call and of the stacks.
  pub step-spec_step :
      (op : Op) (c : MCache base large)
      → IsAligned (contents c)
      → IsOp c.node op
      → (let (r, d) = step base large op c in (r, contents d)) ≡ spec_step bp lp op (contents c)
  unfolding step allocate_base_page allocate_large_page release_base_page release_large_page
      grow_base_pages grow_large_pages reap_base_pages reap_large_pages populate_4k_first
      populate_2m_first
  step-spec_step allocate_base c a i =
      ap (λ r. replied frame (on_bases (contents c) r))
        (view-allocate_page base base_page_size c.node (inl refl) _ _ refl a.0)
  step-spec_step allocate_large c a i =
      ap (λ r. replied frame (on_larges (contents c) r))
        (view-allocate_page large large_page_size c.node (inr refl) _ _ refl a.1)
  step-spec_step (release_base f) c a i =
      ap (λ r. replied done (on_bases (contents c) r))
        (view-release_page base base_page_size c.node (inl refl) f _ i)
  step-spec_step (release_large f) c a i =
      ap (λ r. replied done (on_larges (contents c) r))
        (view-release_page large large_page_size c.node (inr refl) f _ i)
  step-spec_step (grow_base fs) c a i =
      ap (λ r. replied done (on_bases (contents c) r))
        (view-grow_pages base base_page_size c.node (inl refl) fs _ i)
  step-spec_step (grow_large fs) c a i =
      ap (λ r. replied done (on_larges (contents c) r))
        (view-grow_pages large large_page_size c.node (inr refl) fs _ i)
  step-spec_step (reap_base ss) c a i =
      ap (λ r. replied slots (on_bases (contents c) r))
        (view-reap_pages base base_page_size c.node (inl refl) ss _ _ refl a.0)
  step-spec_step (reap_large ss) c a i =
      ap (λ r. replied slots (on_larges (contents c) r))
        (view-reap_pages large large_page_size c.node (inr refl) ss _ _ refl a.1)
  step-spec_step (populate_4k f) c a i =
      let (d, q, e) = populate-divided f (beyond bp f) c i.0 i.1 in
      rw q (ap (λ x. (done (ok tt), x)) e)
  step-spec_step (populate_2m f) c a i =
      let (d, q, e) = populate-divided f (f.size / large_page_size * 87 / 100) c i.0 i.1 in
      rw q (ap (λ x. (done (ok tt), x)) e)

  -- Whatever the calls, the replies of a cache are those of the stacks of its addresses.
  pub run-spec_run :
      (ops : List Op) (c : MCache base large)
      → IsAligned (contents c)
      → All (IsOp c.node) ops
      → run base large ops c ≡ spec_run bp lp ops (contents c)
  unfolding run spec_run
  run-spec_run [] c a i = refl
  run-spec_run (op ∷ ops) c a i =
      let e = step-spec_step op c a i.0 in
      let (a', n) = spec_step-IsAligned bp lp op (contents c) a i.0 in
      let d : MCache base large = (step base large op c).1 in
      let same : contents d ≡ (spec_step bp lp op (contents c)).1 = ap (λ x. x.1) e in
      let ih =
        run-spec_run ops d (subst IsAligned (sym same) a')
          (subst (λ k. All (IsOp k) ops) (sym (ap (λ (x : Cache). x.node) same ∙ n)) i.1) in
      ap₂ ◌∷◌ (ap (λ x. x.0) e) (ih ∙ ap (spec_run bp lp ops) same)
