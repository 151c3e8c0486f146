-- ===== src/Memory/Refill/Moved.antt =====
-- The pages that `try_refill_tcache` of `kernel/src/memory/mod.rs` moves.
use node_replicated_kernel.Prelude.{
  ℕ, zero, suc, ◌+◌, ◌≤◌, ◌<◌, ◌≡◌, refl, ap, ◌∙◌, List, [], ◌∷◌, length, All, arith,
}
use node_replicated_kernel.Prelude.Outcome.{Outcome, ok, err, cache_exhausted}
use node_replicated_kernel.Memory.ArrayVec.{ArrayVec}
use node_replicated_kernel.Memory.MCache.{allocate_page}
use node_replicated_kernel.Memory.MCache.Stack.{page, release-room, release-nil}
use node_replicated_kernel.Memory.MCache.Pages.{
  Aligned, IsSize, view-allocate_page, view-grow_pages,
}
use node_replicated_kernel.Memory.Refill.{move_pages, give_page}

module _ {from to : ℕ} (source : ArrayVec from) (target : ArrayVec to) (size node : ℕ)
    (sz : IsSize size) where
  -- The outcome, with the addresses in place of the vectors.
  abbrev pub seen :
      Outcome (Unit {0}) × (source.Vec × target.Vec) → Outcome (Unit {0}) × (List ℕ × List ℕ)
  seen (r, (s, t)) = (r, (source.items s, target.items t))

  -- The first `n` addresses of `xs` go on top of `ys`, or all if there are fewer.
  abbrev pub moved : ℕ → List ℕ → List ℕ → Outcome (Unit {0}) × (List ℕ × List ℕ)
  moved zero xs ys = (ok tt, (xs, ys))
  moved (suc n) [] ys = (err cache_exhausted, ([], ys))
  moved (suc n) (x ∷ xs) ys = moved n xs (x ∷ ys)

  give_page-seen :
      (x : ℕ) (s : source.Vec) (t : target.Vec)
      → Aligned size x
      → length (target.items t) < to
      → seen (give_page source target size node node (page size node x) (s, t))
        ≡ (ok tt, (source.items s, x ∷ target.items t))
  give_page-seen x s t a room =
      let p =
        view-grow_pages target size node sz (page size node x ∷ []) t ((refl, a, refl), tt)
        ∙ release-room to x [] (target.items t) room
        ∙ release-nil to (x ∷ target.items t) in
      rw (ap (λ z. z.0) p, ap (λ z. z.1) p) refl

  -- Moving pages from a vector of aligned addresses to one with room for them takes the first from the
  -- one and puts them on the other, one after another; it fails, with `CacheExhausted`, exactly if
  -- there are fewer, and then all of them are moved.
  pub move_pages-moved :
      (n : ℕ) (s : source.Vec) (t : target.Vec) (xs : List ℕ)
      → source.items s ≡ xs
      → All (Aligned size) xs
      → n + length (target.items t) ≤ to
      → seen (move_pages source target size node node n (s, t)) ≡ moved n xs (target.items t)
  unfolding move_pages
  move_pages-moved zero s t xs e a room = ap (λ xs. (ok tt, (xs, target.items t))) e
  move_pages-moved (suc n) s t [] e a room =
      let q = view-allocate_page source size node sz s [] e a in
      rw (ap (λ z. z.0) q)
        (ap (λ xs. (err cache_exhausted, (xs, target.items t))) (ap (λ z. z.1) q))
  move_pages-moved (suc n) s t (x ∷ xs) e a room =
      let q = view-allocate_page source size node sz s (x ∷ xs) e a in
      let rest = (allocate_page source size node s).1 in
      let g = give_page-seen x rest t a.0 (omega arith) in
      let st = (give_page source target size node node (page size node x) (rest, t)).1 in
      let less : n + length (target.items st.1) ≤ to = rw (ap (λ z. z.1.1) g) (omega arith) in
      rw (ap (λ z. z.0) q, ap (λ z. z.0) g)
        (move_pages-moved n st.0 st.1 xs (ap (λ z. z.1.0) g ∙ ap (λ z. z.1) q) a.1 less
          ∙ ap (moved n xs) (ap (λ z. z.1.1) g))
