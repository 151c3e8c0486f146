-- ===== src/Memory/Model/Map.antt =====
-- `map_frame` of `kernel/src/memory/vspace_model.rs` on every branch.
use node_replicated_kernel.Prelude.{
  ℕ, ◌+◌, ◌%◌, ◌<◌, ◌≡◌, ◌≢◌, ◌⊎◌, inl, inr, refl, sym, ◌∙◌, Bool-cases, ◌==◌, ==_iff,
  if◌then◌else◌, some, [], ◌∷◌, ◌++◌, word, arith,
}
use mathlib.Core.Bool.{false≢true}
use node_replicated_kernel.Prelude.Outcome.{
  Outcome, ok, err, invalid_frame, invalid_base, already_mapped,
}
use node_replicated_kernel.Memory.Frame.{Frame}
use node_replicated_kernel.Memory.Action.{MapAction}
use node_replicated_kernel.Memory.Model.{
  Mapping, ModelAddressSpace, new_range, contains, conflicts, least, new_mapping, insert_mapping,
  map_frame, find_last, resolve, translate,
}
use node_replicated_kernel.Memory.Model.Conflict.{Lowest, conflicts-cases}
use node_replicated_kernel.Memory.Model.Inv.{
  Sound, Apart, Inv, covers, find_last-append, Inv-append,
}
use node_replicated_kernel.Memory.Model.Promote.{Grown, promote-cases}

-- The frame has bytes, and it and the base are aligned to its size.
abbrev pub IsFit : ℕ → Frame → Type 0
IsFit base frame = (0 < frame.size) × (frame.base % frame.size ≡ 0) × (base % frame.size ≡ 0)

-- A frame that is empty or not aligned to its size, a base that is not, and mappings that overlap the
-- new one without being `Grown` by it are refused, the last with the lowest address where one of them
-- and the new one meet, and nothing changes. Otherwise either no mapping overlaps the new one, or one
-- is `Grown`; then the frame is mapped, and every other address is mapped as before.
pub data MapFrame (m : ModelAddressSpace) (base : ℕ) (frame : Frame) (action : MapAction)
    (r : Outcome (Unit {0}) × ModelAddressSpace) : Type 0 where
  bad_frame :
      (frame.size ≡ 0) ⊎ (frame.base % frame.size ≢ 0)
      → r ≡ (err invalid_frame, m)
      → MapFrame m base frame action r
  bad_base :
      0 < frame.size
      → frame.base % frame.size ≡ 0
      → base % frame.size ≢ 0
      → r ≡ (err invalid_base, m)
      → MapFrame m base frame action r
  in_the_way :
      (a : ℕ)
      → IsFit base frame
      → Lowest base frame action m a
      → r ≡ (err (already_mapped a), m)
      → MapFrame m base frame action r
  mapped :
      IsFit base frame
      → Apart (new_mapping base frame action) m
      → r.0 ≡ ok tt
      → Inv r.1
      → ((v : ℕ)
          → resolve r.1 v ≡ (
              if contains (new_range base frame) v
              then translate (some (new_mapping base frame action)) v
              else resolve m v))
      → MapFrame m base frame action r
  extended :
      (e : Mapping)
      → Grown base frame action m e
      → IsFit base frame
      → r.0 ≡ ok tt
      → Inv r.1
      → ((v : ℕ)
          → resolve r.1 v ≡ (
              if contains (new_range base frame) v
              then translate (some (new_mapping base frame action)) v
              else resolve m v))
      → MapFrame m base frame action r

resolve-if :
    (m m' : ModelAddressSpace) (e : Mapping) (v : ℕ)
    → find_last m' v ≡ (if covers e v then some e else find_last m v)
    → resolve m' v ≡ (if covers e v then translate (some e) v else resolve m v)
unfolding resolve
resolve-if m m' e v h = elim (Bool-cases (covers e v)) [
  | inl c ↦ rw (h, c) refl
  | inr c ↦ rw (h, c) refl
]

module _ (m : ModelAddressSpace) (base : ℕ) (frame : Frame) (action : MapAction) (i : Inv m) where
  -- The frame and the base are good.
  insert-MapFrame :
      0 < frame.size
      → base + frame.size < word
      → frame.base % frame.size ≡ 0
      → base % frame.size ≡ 0
      → MapFrame m base frame action
          (insert_mapping m base frame action (conflicts m base frame action))
  insert-MapFrame pos fits p q =
      let n = new_mapping base frame action in
      let s : Sound n = (pos, fits) in
      elim (conflicts-cases base frame action s m i) [
        | inr (a, l, c, low) ↦ rw c (in_the_way (least a l) (pos, p, q) low refl)
        | inl (c, cs) ↦ elim (promote-cases base frame action s m i cs) [
          | inl (none_is, free) ↦
              rw (c, none_is)
                (mapped (pos, p, q) free refl (Inv-append m n i s free)
                  (λ v. resolve-if m (m ++ n ∷ []) n v (find_last-append m n v)))
          | inr (m', is, t) ↦
              rw (c, is)
                (extended t.old t.grown (pos, p, q) refl t.sound
                  (λ v. resolve-if m m' n v (t.mapped v)))
        ]
      ]

  -- On an address space without overlaps and for a frame that ends below the last word, `map_frame`
  -- never panics, and keeps the mappings from overlapping. It refuses an empty or unaligned frame and
  -- an unaligned base; it refuses with the lowest address that is taken if a mapping overlaps the new
  -- one, except one that has the new one's start, memory and rights and is not longer, which is made
  -- longer instead; and then nothing changes. Otherwise the new range is mapped to the frame, and no
  -- other address is touched.
  pub map_frame-MapFrame :
      base + frame.size < word → MapFrame m base frame action (map_frame m base frame action)
  unfolding map_frame
  map_frame-MapFrame fits = elim (Bool-cases (frame.size == 0)) [
    | inl z ↦ rw z (bad_frame (inl ((==_iff frame.size 0).0 z)) refl)
    | inr z ↦ elim (Bool-cases (frame.base % frame.size == 0)) [
      | inr x ↦
          rw (z, x)
            (bad_frame (inr (λ h. false≢true (sym x ∙ (==_iff (frame.base % frame.size) 0).1 h)))
              refl)
      | inl x ↦ elim (Bool-cases (base % frame.size == 0)) [
        | inr y ↦
            rw (z, x, y)
              (bad_base (ground arith) ((==_iff (frame.base % frame.size) 0).0 x)
                (λ h. false≢true (sym y ∙ (==_iff (base % frame.size) 0).1 h)) refl)
        | inl y ↦
            let pos : 0 < frame.size = ground arith in
            rw (z, x, y)
              (insert-MapFrame pos fits ((==_iff (frame.base % frame.size) 0).0 x)
                ((==_iff (base % frame.size) 0).0 y))
      ]
    ]
  ]
