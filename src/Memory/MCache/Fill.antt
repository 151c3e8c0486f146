-- ===== src/Memory/MCache/Fill.antt =====
-- The loops of `populate` of `kernel/src/memory/mcache.rs` push as many pages as fit.
use node_replicated_kernel.Prelude.{
  ℕ, zero, suc, ◌+◌, ◌-◌, ◌*◌, ◌/◌, ◌≤◌, ◌<◌, ◌≡◌, inl, inr, refl, sym, ◌∙◌, Bool-cases, true,
  false, none, some, ◌∷◌, length, min, ltb, leb, ltb→lt, base_page_size, large_page_size, arith,
}
use node_replicated_kernel.Prelude.Outcome.{ok}
use node_replicated_kernel.Memory.Frame.{Frame}
use node_replicated_kernel.Memory.Frame.Split.{IsFrame, split_at-SplitOf, next-page}
use node_replicated_kernel.Memory.ArrayVec.{ArrayVec}
use node_replicated_kernel.Memory.MCache.{push_base_pages, push_large_pages}
use node_replicated_kernel.Memory.MCache.Stack.{
  filled, addresses, addresses-eq, filled-room, filled-full, filled-nil,
}

module _ {cap : ℕ} (vec : ArrayVec cap) where
  open vec use {Vec, items, try_push, try_push-room, try_push-full}

  -- One push: it fits, or it changes nothing.
  pub data Pushed (v : Vec) (x : ℕ) : Type 0 where
    fits :
        (w : Vec)
        → try_push v x ≡ some w
        → items w ≡ x ∷ items v
        → length (items v) < cap
        → Pushed v x
    full : try_push v x ≡ none → cap ≤ length (items v) → Pushed v x

  pub try_push-Pushed : (v : Vec) (x : ℕ) → Pushed v x
  try_push-Pushed v x = elim (Bool-cases (ltb (length (items v)) cap)) [
    | inl t ↦
        let room : length (items v) < cap = ltb→lt (length (items v)) cap t in
        let (w, q, e) = try_push-room v x room in fits w q e room
    | inr n ↦ let h : cap ≤ length (items v) = ground arith in full (try_push-full v x h) h
  ]

  pub push_base_pages-filled :
      (n : ℕ) (f : Frame) (v : Vec)
      → IsFrame f
      → f.size ≡ n * base_page_size
      → (w : Vec) × (push_base_pages vec n f v ≡ ok w)
        × (items w ≡ filled cap (addresses n f.base base_page_size) (items v))
  unfolding push_base_pages
  push_base_pages-filled zero f v i e = (v, ground arith, sym (filled-nil cap (items v)))
  push_base_pages-filled (suc n) f v i e =
      let (rest, q, j, len, at) = next-page f i (omega arith) in
      let next_page : addresses n rest.base base_page_size
          ≡ addresses n (f.base + base_page_size) base_page_size =
        addresses-eq n rest.base (f.base + base_page_size) base_page_size
          (λ p. (at (omega (arith, len))).0) in
      elim (try_push-Pushed v f.base) [
        | fits w pq iq room ↦
            let (u, uq, ui) = push_base_pages-filled n rest w j (omega (arith, len)) in
            (
              u,
              rw (q, pq) uq,
              ui ∙ rw (next_page, iq) (sym (filled-room cap f.base _ (items v) room)),
            )
        | full pq h ↦ (v, rw (q, pq) refl, sym (filled-full cap _ (items v) h))
      ]

  -- The frame that the loop over large pages leaves: its end.
  pub record Left (f rest : Frame) (k : ℕ) : Type 0 where
    pub frame : IsFrame rest
    pub sized : rest.size ≡ f.size - k * large_page_size
    pub based : 0 < rest.size → rest.base ≡ f.base + k * large_page_size

  pub push_large_pages-filled :
      (n k : ℕ) (f : Frame) (v : Vec)
      → IsFrame f
      → k ≡ min n (f.size / large_page_size)
      → (w : Vec) × (rest : Frame) × (push_large_pages vec n f v ≡ ok (w, rest))
        × (items w ≡ filled cap (addresses k f.base large_page_size) (items v))
        × Left f rest k
  unfolding push_large_pages
  push_large_pages-filled zero k f v i e =
      let none_left : k ≡ 0 = omega arith in
      (
        v,
        f,
        refl,
        rw none_left (sym (filled-nil cap (items v))),
        record { frame = i; sized = omega arith; based = λ p. omega arith },
      )
  push_large_pages-filled (suc n) zero f v i e =
      let small : leb large_page_size f.size ≡ false = ground arith in
      (
        v,
        f,
        rw small,
        sym (filled-nil cap (items v)),
        record { frame = i; sized = omega arith; based = λ p. omega arith },
      )
  push_large_pages-filled (suc n) (suc k) f v i e =
      let big : leb large_page_size f.size ≡ true = ground arith in
      let (low, high, q, s, len) = split_at-SplitOf f large_page_size i refl in
      let at : low.base ≡ f.base = s.low_base (omega (arith, len)) in
      let rest_of : (u : Frame) → Left high u k → Left f u (suc k) = λ u l. record {
        frame = l.frame;
        sized = omega (arith, l.sized, s.all, len);
        based = λ p.
            omega (arith, l.based p, l.sized, s.high_base (omega (arith, l.sized)), len, s.all);
      } in
      let same : addresses k high.base large_page_size
          ≡ addresses k (f.base + large_page_size) large_page_size =
        addresses-eq k high.base (f.base + large_page_size) large_page_size
          (λ p. omega (arith, s.high_base (omega (arith, s.all, len)), len, s.all)) in
      let fewer : k ≡ min n (high.size / large_page_size) = omega (arith, s.all, len) in
      elim (try_push-Pushed v low.base) [
        | fits w pq iq room ↦
            let (u, rest, uq, ui, l) = push_large_pages-filled n k high w s.high_frame fewer in
            (
              u,
              rest,
              rw (big, q, pq) uq,
              ui ∙ rw (same, iq, at) (sym (filled-room cap f.base _ (items v) room)),
              rest_of rest l,
            )
        | full pq h ↦
            let (u, rest, uq, ui, l) = push_large_pages-filled n k high v s.high_frame fewer in
            (
              u,
              rest,
              rw (big, q, pq) uq,
              ui ∙ filled-full cap _ (items v) h ∙ sym (filled-full cap _ (items v) h),
              rest_of rest l,
            )
      ]
