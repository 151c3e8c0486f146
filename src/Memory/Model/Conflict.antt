-- ===== src/Memory/Model/Conflict.antt =====
-- The address that `map_frame` of `kernel/src/memory/vspace_model.rs` reports on a conflict.
use node_replicated_kernel.Prelude.{
  ℕ, zero, suc, ◌+◌, ◌-◌, ◌≤◌, ◌<◌, min, max, ◌≡◌, ◌⊎◌, inl, inr, refl, sym, subst, ◌∙◌, Bool-cases,
  true, false, ltb, leb, if◌then◌else◌, some, List, [], ◌∷◌, add64, word, arith,
}
use mathlib.Core.Bool.{false≢true}
use node_replicated_kernel.Prelude.Outcome.{ok}
use node_replicated_kernel.Memory.Frame.{Frame}
use node_replicated_kernel.Memory.Action.{MapAction}
use node_replicated_kernel.Memory.Model.{
  Mapping, ModelAddressSpace, Range, cur_range, new_range, overlaps, contains, scan, intersection,
  extends, conflict, conflicts, least, new_mapping,
}
use node_replicated_kernel.Memory.Model.Inv.{
  Sound, Disjoint, Inv, overlaps-Disjoint, Disjoint-overlaps,
}

-- The loop finds the first element that is in both ranges.
scan-low :
    (n element : ℕ) (b : Range) (low high : ℕ)
    → (scan n element b low high).0
      ≡ (if ltb (max element b.0) (min (element + n) b.1) then min low (max element b.0) else low)
unfolding scan
scan-low zero element b low high = ground arith
scan-low (suc n) element b low high =
    let inside = contains b element in
    scan-low n (element + 1) b (if inside then min element low else low)
      (if inside then max element high else high)
    ∙ elim (Bool-cases inside) [ inl c ↦ rw c (ground arith) | inr c ↦ rw c (ground arith) ]

-- Two overlapping ranges meet first where the later of them starts.
pub intersection-start :
    (a b : Range)
    → overlaps a b ≡ true
    → a.0 < a.1
    → b.0 < b.1
    → a.1 < word
    → (stop : ℕ) × (intersection a b ≡ some (max a.0 b.0, stop))
unfolding intersection
intersection-start a b o p q w =
    let first : (scan (a.1 - a.0) a.0 b (word - 1) 0).0 ≡ max a.0 b.0 =
      scan-low (a.1 - a.0) a.0 b (word - 1) 0 ∙ ground arith in
    (add64 (scan (a.1 - a.0) a.0 b (word - 1) 0).1 1, rw (o, first) refl)

least-min : (a b : ℕ) (l : List ℕ) → least (min a b) l ≡ min a (least b l)
least-min a b [] = refl
least-min a b (c ∷ l) =
    let assoc : min (min a b) c ≡ min a (min b c) = omega arith in
    rw assoc (least-min a (min b c) l)

-- A mapping of the list.
abbrev pub IsIn : Mapping → ModelAddressSpace → Type 0
IsIn f [] = ⊥
IsIn f (e ∷ m) = (f ≡ e) ⊎ IsIn f m

module _ (base : ℕ) (frame : Frame) (action : MapAction) where
  abbrev new : Mapping
  new = new_mapping base frame action

  -- `e` is only extended.
  pub record Extended (e : Mapping) : Type 0 where
    pub over : overlaps (cur_range e) (new_range base frame) ≡ true
    pub grows : extends e base frame action ≡ true

  -- `e` overlaps the new range, and not only to be extended.
  pub record InWay (e : Mapping) : Type 0 where
    pub over : overlaps (cur_range e) (new_range base frame) ≡ true
    pub stays : extends e base frame action ≡ false

  -- `e` is no obstacle.
  abbrev pub Clear : Mapping → Type 0
  Clear e = Disjoint e new ⊎ Extended e

  abbrev pub AllClear : ModelAddressSpace → Type 0
  AllClear [] = Unit
  AllClear (e ∷ m) = Clear e × AllClear m

  -- `a` is the first address of the new range that a mapping in the way has, for one of them, and
  -- for none of them there is a lower one.
  pub record Lowest (m : ModelAddressSpace) (a : ℕ) : Type 0 where
    pub mapping : Mapping
    pub there : IsIn mapping m
    pub blocks : InWay mapping
    pub meets : a ≡ max mapping.vaddr base
    pub lower : (f : Mapping) → IsIn f m → InWay f → a ≤ max f.vaddr base

  module _ (s : Sound new) where
    Clear-InWay : (e : Mapping) → Sound e → Clear e → InWay e → ⊥
    Clear-InWay e t (inl d) w = false≢true (sym (Disjoint-overlaps e new t s d) ∙ w.over)
    Clear-InWay e t (inr x) w = false≢true (sym w.stays ∙ x.grows)

    AllClear-InWay :
        (m : ModelAddressSpace) → Inv m → AllClear m → (f : Mapping) → IsIn f m → InWay f → ⊥
    AllClear-InWay [] i c f h w = h
    AllClear-InWay (e ∷ m) i c f (inl q) w =
        Clear-InWay e i.0 c.0 (subst (λ (g : Mapping). InWay g) q w)
    AllClear-InWay (e ∷ m) i c f (inr h) w = AllClear-InWay m i.2 c.1 f h w

    conflict-cases :
        (e : Mapping)
        → Sound e
        → ((conflict e base frame action ≡ ok []) × Clear e)
          ⊎ (InWay e × (conflict e base frame action ≡ ok (max e.vaddr base ∷ [])))
    conflict-cases e t = elim (Bool-cases (overlaps (cur_range e) (new_range base frame))) [
      | inr f ↦ inl (rw f refl, inl (overlaps-Disjoint e new t s f))
      | inl o ↦ elim (Bool-cases (extends e base frame action)) [
        | inl x ↦ inl (rw (o, x) refl, inr (record { over = o; grows = x }))
        | inr x ↦
            let (stop, q) =
              intersection-start (cur_range e) (new_range base frame) o (omega (arith, t.0, t.1))
                (omega (arith, s.0, s.1)) (omega arith) in
            inr (record { over = o; stays = x }, rw (o, x, q) refl)
      ]
    ]

    -- A mapping in the way comes before others.
    before-Lowest :
        (e : Mapping) (m : ModelAddressSpace) (a : ℕ)
        → InWay e
        → Lowest m a
        → Lowest (e ∷ m) (min (max e.vaddr base) a)
    before-Lowest e m a w l = elim (Bool-cases (leb (max e.vaddr base) a)) [
      | inl t ↦ record {
        mapping = e;
        there = inl refl;
        blocks = w;
        meets = ground arith;
        lower =
            λ f h v. elim h [ inl q ↦ rw q (omega arith) | inr k ↦ omega (arith, l.lower f k v) ];
      }
      | inr t ↦ record {
        mapping = l.mapping;
        there = inr l.there;
        blocks = l.blocks;
        meets = ground (arith, l.meets);
        lower =
            λ f h v. elim h [ inl q ↦ rw q (omega arith) | inr k ↦ omega (arith, l.lower f k v) ];
      }
    ]

    only-Lowest :
        (e : Mapping) (m : ModelAddressSpace)
        → InWay e
        → Inv m
        → AllClear m
        → Lowest (e ∷ m) (max e.vaddr base)
    only-Lowest e m w i c = record {
      mapping = e;
      there = inl refl;
      blocks = w;
      meets = refl;
      lower = λ f h v. elim h [
        | inl q ↦ rw q (omega arith)
        | inr k ↦ absurd (AllClear-InWay m i c f k v)
      ];
    }

    skip-Lowest :
        (e : Mapping) (m : ModelAddressSpace) (a : ℕ)
        → Sound e
        → Clear e
        → Lowest m a
        → Lowest (e ∷ m) a
    skip-Lowest e m a t c l = record {
      mapping = l.mapping;
      there = inr l.there;
      blocks = l.blocks;
      meets = l.meets;
      lower = λ f h v. elim h [
        | inl q ↦ absurd (Clear-InWay e t c (subst (λ (g : Mapping). InWay g) q v))
        | inr k ↦ l.lower f k v
      ];
    }

    pub conflicts-cases :
        (m : ModelAddressSpace)
        → Inv m
        → ((conflicts m base frame action ≡ ok []) × AllClear m)
          ⊎ ((a : ℕ) × (l : List ℕ) × (conflicts m base frame action ≡ ok (a ∷ l))
              × Lowest m (least a l))
    unfolding conflicts
    conflicts-cases [] i = inl (refl, tt)
    conflicts-cases (e ∷ m) i = elim (conflict-cases e i.0) [
      | inl (q, c) ↦ elim (conflicts-cases m i.2) [
        | inl (p, cs) ↦ inl (rw (q, p) refl, (c, cs))
        | inr (a, l, p, low) ↦ inr (a, l, rw (q, p) refl, skip-Lowest e m _ i.0 c low)
      ]
      | inr (w, q) ↦ elim (conflicts-cases m i.2) [
        | inl (p, cs) ↦ inr (max e.vaddr base, [], rw (q, p) refl, only-Lowest e m w i.2 cs)
        | inr (b, l, p, low) ↦ inr (
          max e.vaddr base,
          b ∷ l,
          rw (q, p) refl,
          rw (least-min (max e.vaddr base) b l) (before-Lowest e m _ w low),
        )
      ]
    ]
