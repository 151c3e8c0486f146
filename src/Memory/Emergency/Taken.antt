-- ===== src/Memory/Emergency/Taken.antt =====
-- The frames of `kernel/src/memory/emem.rs` do not overlap.
use node_replicated_kernel.Prelude.{
  ℕ, ◌+◌, ◌<◌, ◌≤◌, ◌≡◌, ◌∙◌, refl, sym, true, ◌==◌, if◌then◌else◌, inl, inr, subst, List, [], ◌∷◌,
  All, Bool-cases, leb, word, base_page_size, arith,
}
use native.Mathlib.Decide.{dec_lt}
use node_replicated_kernel.Prelude.Outcome.{Outcome, ok, err, panic, cache_exhausted}
use node_replicated_kernel.Memory.Frame.{Frame, round_up}
use node_replicated_kernel.Memory.Frame.Split.{IsFrame, SplitOf, split_at-SplitOf}
use node_replicated_kernel.Memory.Emergency.{
  EmergencyAllocator, allocate_layout, with_frame, allocate_all,
}

-- What a request does to the region: the first pages that hold the size are cut off it, with less than
-- a page to spare; the region is shorter than the size; or the alignment is above a page.
pub data Taken (layout_size align : ℕ) (f : Frame)
    : Outcome Frame × EmergencyAllocator → Type 0 where
  taken :
      (low high : Frame)
      → SplitOf f low high
      → layout_size ≤ low.size
      → low.size < layout_size + base_page_size
      → align ≤ base_page_size
      → Taken layout_size align f (ok low, record { region = high })
  exhausted :
      f.size < layout_size
      → align ≤ base_page_size
      → Taken layout_size align f (err cache_exhausted, record { region = f })
  misaligned : base_page_size < align → Taken layout_size align f (panic, record { region = f })

allocate_layout-Taken :
    (layout_size align : ℕ) (f : Frame)
    → IsFrame f
    → layout_size + base_page_size < word
    → Taken layout_size align f (allocate_layout layout_size align (record { region = f }))
unfolding allocate_layout
allocate_layout-Taken layout_size align f v small =
    let size = round_up layout_size base_page_size in
    let (low, high, q, parts, len) = split_at-SplitOf f size v (omega arith) in
    elim (Bool-cases (leb align base_page_size)) [
      | inr no_fit ↦ rw no_fit (misaligned (ground arith))
      | inl fit ↦ elim (Bool-cases (leb size f.size)) [
        | inr large ↦ rw (fit, large) (exhausted (ground (arith, v.sized)) (ground arith))
        | inl enough ↦
            let le : size ≤ f.size = ground arith in
            rw (fit, enough, q) (taken low high parts (omega arith) (omega arith) (ground arith))
      ]
    ]

-- What requests one after another do to the region.
abbrev pub AllTaken : List (ℕ × ℕ) → EmergencyAllocator → Type 0
AllTaken [] a = Unit
AllTaken ((layout_size, align) ∷ layouts) a =
    Taken layout_size align a.region (allocate_layout layout_size align a)
    × AllTaken layouts (allocate_layout layout_size align a).1

Taken-IsFrame :
    (layout_size align : ℕ) (f : Frame) (r : Outcome Frame × EmergencyAllocator)
    → IsFrame f
    → Taken layout_size align f r
    → IsFrame r.1.region
Taken-IsFrame layout_size align f _ v (taken low high p lo hi al) = p.high_frame
Taken-IsFrame layout_size align f _ v (exhausted h al) = v
Taken-IsFrame layout_size align f _ v (misaligned h) = v

requests-AllTaken :
    (layouts : List (ℕ × ℕ)) (f : Frame)
    → IsFrame f
    → All (λ l. l.0 + base_page_size < word) layouts
    → AllTaken layouts (record { region = f })
requests-AllTaken [] f v small = tt
requests-AllTaken ((layout_size, align) ∷ layouts) f v (s, small) =
    let t = allocate_layout-Taken layout_size align f v s in
    let a = allocate_layout layout_size align (record { region = f }) in
    (t, requests-AllTaken layouts a.1.region (Taken-IsFrame layout_size align f a v t) small)

-- Where the region goes on after a frame: an empty frame takes nothing.
abbrev pub after : ℕ → Frame → ℕ
after a f = if f.size == 0 then a else f.base + f.size

-- The frames that are not empty lie in the region from `a` to `e`, each where the one before ends or
-- behind.
abbrev pub InOrder : ℕ → ℕ → List Frame → Type 0
InOrder a e [] = Unit
InOrder a e (f ∷ frames) =
    (0 < f.size → (a ≤ f.base) × (f.base + f.size ≤ e)) × InOrder (after a f) e frames

-- No byte is in two of the frames.
abbrev pub IsApart : Frame → List Frame → Type 0
IsApart f [] = Unit
IsApart f (g ∷ frames) = (0 < f.size → 0 < g.size → f.base + f.size ≤ g.base) × IsApart f frames

abbrev pub AllApart : List Frame → Type 0
AllApart [] = Unit
AllApart (f ∷ frames) = IsApart f frames × AllApart frames

InOrder-IsApart :
    (f : Frame) (a e : ℕ) (frames : List Frame)
    → (0 < f.size → f.base + f.size ≤ a)
    → InOrder a e frames
    → IsApart f frames
InOrder-IsApart f a e [] h o = tt
InOrder-IsApart f a e (g ∷ frames) h (there, rest) = (
  (λ p q. omega (arith, h p, (there q).0)),
  InOrder-IsApart f (after a g) e frames
      (λ p. elim (Bool-cases (g.size == 0)) [
        | inl z ↦ rw z (h p)
        | inr z ↦
            let some_bytes : 0 < g.size = ground arith in
            rw z (omega (arith, h p, (there some_bytes).0))
      ])
      rest,
)

InOrder-AllApart : (a e : ℕ) (frames : List Frame) → InOrder a e frames → AllApart frames
InOrder-AllApart a e [] o = tt
InOrder-AllApart a e (f ∷ frames) (there, rest) = (
  InOrder-IsApart f (after a f) e frames
      (λ p. elim (Bool-cases (f.size == 0)) [
        | inl z ↦ absurd (ground arith)
        | inr z ↦ rw z (omega arith)
      ])
      rest,
  InOrder-AllApart (after a f) e frames rest,
)

InOrder-nothing :
    (frames : List Frame) (a e b d : ℕ) → e ≤ a → InOrder a e frames → InOrder b d frames
InOrder-nothing [] a e b d h o = tt
InOrder-nothing (f ∷ frames) a e b d h (there, rest) = (
  (λ p. let (lo, hi) = there p in absurd (omega arith)),
  elim (Bool-cases (f.size == 0)) [
    | inl z ↦
        InOrder-nothing frames a e (after b f) d h
          (subst (λ x. InOrder x e frames) (empty a z) rest)
    | inr z ↦
        let some_bytes : 0 < f.size = ground arith in
        let (lo, hi) = there some_bytes in absurd (omega arith)
  ],
)
  where
    empty : (c : ℕ) → (f.size == 0) ≡ true → after c f ≡ c
    empty c z = rw z refl

-- After the low part, the frames of the high one.
InOrder-high :
    (f low high : Frame) (frames : List Frame)
    → SplitOf f low high
    → InOrder high.base (high.base + high.size) frames
    → InOrder (after f.base low) (f.base + f.size) frames
InOrder-high f low high frames p o =
    let next : after f.base low ≡ f.base + low.size = elim (Bool-cases (low.size == 0)) [
      | inl z ↦ rw z (ground arith)
      | inr z ↦ rw z (ground (arith, p.low_base))
    ] in
    elim (dec_lt 0 high.size) [
      | yes some_left ↦
          let at : high.base ≡ f.base + low.size = p.high_base some_left in
          let end : high.base + high.size ≡ f.base + f.size = omega (arith, p.all, at) in
          subst (λ e. InOrder (after f.base low) e frames) end
            (subst (λ a. InOrder a (high.base + high.size) frames) (at ∙ sym next) o)
      | no none_left ↦
          InOrder-nothing frames high.base (high.base + high.size) (after f.base low)
            (f.base + f.size) (omega arith) o
    ]

rest-InOrder :
    (layout_size align : ℕ) (f : Frame) (r : Outcome Frame × EmergencyAllocator)
    (rest : EmergencyAllocator → List Frame)
    → IsFrame f
    → ((g : Frame) → IsFrame g → InOrder g.base (g.base + g.size) (rest (record { region = g })))
    → Taken layout_size align f r
    → InOrder f.base (f.base + f.size) (with_frame r.0 (rest r.1))
rest-InOrder layout_size align f _ rest v ih (taken low high p lo hi al) = (
  (λ some_bytes. let at = p.low_base some_bytes in (omega (arith, at), omega (arith, at, p.all))),
  InOrder-high f low high (rest (record { region = high })) p (ih high p.high_frame),
)
rest-InOrder layout_size align f _ rest v ih (exhausted h al) = ih f v
rest-InOrder layout_size align f _ rest v ih (misaligned h) = ih f v

from_region-InOrder :
    (layouts : List (ℕ × ℕ)) (f : Frame)
    → IsFrame f
    → All (λ l. l.0 + base_page_size < word) layouts
    → InOrder f.base (f.base + f.size) (allocate_all layouts (record { region = f }))
unfolding allocate_all
from_region-InOrder [] f v small = tt
from_region-InOrder ((layout_size, align) ∷ layouts) f v (s, small) =
    rest-InOrder layout_size align f (allocate_layout layout_size align (record { region = f }))
      (allocate_all layouts) v (λ g w. from_region-InOrder layouts g w small)
      (allocate_layout-Taken layout_size align f v s)

-- On a region of whole pages, for layouts at least a page below a word, each request gets the first
-- pages of what is left that hold its size, with less than a page to spare, unless what is left is
-- shorter than the size (an error) or the alignment is above a page (a panic), which take nothing; the
-- frames handed out lie in the region, each where the one before ends or behind; and no byte is in two
-- of them.
pub allocate_all-InOrder :
    (layouts : List (ℕ × ℕ)) (f : Frame)
    → IsFrame f
    → All (λ l. l.0 + base_page_size < word) layouts
    → AllTaken layouts (record { region = f })
      × InOrder f.base (f.base + f.size) (allocate_all layouts (record { region = f }))
      × AllApart (allocate_all layouts (record { region = f }))
allocate_all-InOrder layouts f v small =
    let o = from_region-InOrder layouts f v small in
    (
      requests-AllTaken layouts f v small,
      o,
      InOrder-AllApart f.base (f.base + f.size) (allocate_all layouts (record { region = f })) o,
    )
