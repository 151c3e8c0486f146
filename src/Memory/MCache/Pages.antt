-- ===== src/Memory/MCache/Pages.antt =====
-- The operations of `kernel/src/memory/mcache.rs` on one vector do what the stack of its addresses
-- does.
use node_replicated_kernel.Prelude.{
  ℕ, ◌%◌, ◌≡◌, ◌⊎◌, inl, inr, refl, sym, ap, ◌∙◌, Option, some, true, List, [], ◌∷◌, map, All,
  base_page_size, large_page_size, arith,
}
use node_replicated_kernel.Prelude.Outcome.{Outcome, ok, err, panic, stuck, and_then, chain}
use node_replicated_kernel.Memory.Frame
use node_replicated_kernel.Memory.Frame.{Frame}
use node_replicated_kernel.Memory.Frame.Split.{new-ok}
use node_replicated_kernel.Memory.ArrayVec.{ArrayVec}
use node_replicated_kernel.Memory.MCache.{
  allocate_page, try_push_page, is_page, release_page, grow_pages, reap_pages,
}
use node_replicated_kernel.Memory.MCache.Stack.{
  page, allocate, release, reap, release-nil, release-room, release-full,
}
use node_replicated_kernel.Memory.MCache.Fill.{fits, full, try_push-Pushed}

abbrev pub Aligned : ℕ → ℕ → Type 0
Aligned size base = base % size ≡ 0

-- A page that may be given back to a cache of the node.
abbrev pub IsPage : ℕ → ℕ → Frame → Type 0
IsPage size node f = (f.size ≡ size) × Aligned size f.base × (f.affinity ≡ node)

abbrev pub IsSize : ℕ → Type 0
IsSize size = (size ≡ base_page_size) ⊎ (size ≡ large_page_size)

new-page :
    (size node paddr : ℕ)
    → IsSize size
    → Aligned size paddr
    → Frame.new paddr size node ≡ ok (page size node paddr)
new-page size node paddr (inl e) a = new-ok paddr size node (rw e at a) (rw e)
new-page size node paddr (inr e) a =
    let b : paddr % large_page_size ≡ 0 = rw e at a in new-ok paddr size node (omega arith) (rw e)

-- The outcome, with the addresses in place of the vector.
abbrev pub view :
    {cap : ℕ} (vec : ArrayVec cap) {A : Type 0} → Outcome A × vec.Vec → Outcome A × List ℕ
view vec r = (r.0, vec.items r.1)

abbrev with_first : {A : Type 0} → A → Outcome (List A) × List ℕ → Outcome (List A) × List ℕ
with_first a r = (and_then r.0 (λ rest. ok (a ∷ rest)), r.1)

view-chain :
    {cap : ℕ} (vec : ArrayVec cap) {A : Type 0} (a : A) (o : Outcome (List A)) (v : vec.Vec)
    → view vec (chain (o, v) (λ rest u. (ok (a ∷ rest), u))) ≡ with_first a (view vec (o, v))
view-chain vec a (ok rest) v = refl
view-chain vec a (err e) v = refl
view-chain vec a panic v = refl
view-chain vec a stuck v = refl

module _ {cap : ℕ} (vec : ArrayVec cap) (size node : ℕ) (sz : IsSize size) where
  open vec use {Vec, items, pop-nil, pop-cons}

  pub view-allocate_page :
      (v : Vec) (s : List ℕ)
      → items v ≡ s
      → All (Aligned size) s
      → view vec (allocate_page vec size node v) ≡ allocate size node s
  unfolding allocate_page
  view-allocate_page v [] e a = rw (allocate_page, pop-nil v e, e)
  view-allocate_page v (x ∷ s) e a =
      let (w, q, i) = pop-cons v x s e in rw (allocate_page, q, new-page size node x sz a.0, i)

  is_page-true : (f : Frame) → IsPage size node f → is_page vec size node f ≡ true
  is_page-true f h = ground (arith, h.0, h.1, h.2)

  pub view-grow_pages :
      (fs : List Frame) (v : Vec)
      → All (IsPage size node) fs
      → view vec (grow_pages vec size node fs v) ≡ release cap (map (λ f. f.base) fs) (items v)
  unfolding grow_pages release_page try_push_page
  view-grow_pages [] v a = sym (release-nil cap (items v))
  view-grow_pages (f ∷ fs) v a = elim (try_push-Pushed vec v f.base) [
    | fits w q i room ↦
        rw (is_page-true f a.0, try_push_page, q)
          (view-grow_pages fs w a.1 ∙ rw i (sym (release-room cap f.base _ (items v) room)))
    | full q h ↦
        rw (is_page-true f a.0, try_push_page, q) (sym (release-full cap f.base _ (items v) h))
  ]

  pub view-release_page :
      (f : Frame) (v : Vec)
      → IsPage size node f
      → view vec (release_page vec size node f v) ≡ release cap (f.base ∷ []) (items v)
  unfolding release_page try_push_page
  view-release_page f v a = elim (try_push-Pushed vec v f.base) [
    | fits w q i room ↦
        rw (is_page-true f a, try_push_page, q)
          (sym (release-room cap f.base [] (items v) room ∙ rw i (release-nil cap _)))
    | full q h ↦
        rw (is_page-true f a, try_push_page, q) (sym (release-full cap f.base [] (items v) h))
  ]

  pub view-reap_pages :
      (slots : List (Option Frame)) (v : Vec) (s : List ℕ)
      → items v ≡ s
      → All (Aligned size) s
      → view vec (reap_pages vec size node slots v) ≡ reap size node slots s
  unfolding reap_pages
  view-reap_pages [] v [] e a = rw (reap_pages, e) refl
  view-reap_pages [] v (x ∷ s) e a = rw (reap_pages, e) refl
  view-reap_pages (slot ∷ slots) v [] e a = rw (reap_pages, pop-nil v e, e) refl
  view-reap_pages (slot ∷ slots) v (x ∷ s) e a =
      let (w, q, i) = pop-cons v x s e in
      let ih = view-reap_pages slots w s i a.1 in
      rw (reap_pages, q, new-page size node x sz a.0)
        (view-chain vec _ (reap_pages vec size node slots w).0 _
          ∙ ap (with_first (some (page size node x))) ih)
