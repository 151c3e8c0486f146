-- ===== src/Memory/Model/Promote.antt =====
-- The mapping that `map_frame` of `kernel/src/memory/vspace_model.rs` makes longer, instead of adding one.
use node_replicated_kernel.Prelude.{
  ℕ, ◌+◌, ◌≤◌, ◌≡◌, ◌⊎◌, inl, inr, refl, sym, ◌∙◌, Option-cases, Bool-cases, true, if◌then◌else◌,
  none, some, [], ◌∷◌, add64, arith,
}
use mathlib.Core.Bool.{false≢true}
use node_replicated_kernel.Memory.Frame.{Frame}
use node_replicated_kernel.Memory.Action.{MapAction, code-injective}
use node_replicated_kernel.Memory.Model.{
  Mapping, ModelAddressSpace, promote, new_mapping, find_last,
}
use node_replicated_kernel.Memory.Model.Conflict.{Extended, AllClear, IsIn}
use node_replicated_kernel.Memory.Model.Inv.{
  Sound, Disjoint, Apart, Inv, covers, Disjoint-sym, covers-lt, Disjoint-overlaps, find_last-Apart,
}

module _ (base : ℕ) (frame : Frame) (action : MapAction) where
  -- A mapping that the new one makes longer: the same start, the same memory, the same rights.
  pub record Grown (m : ModelAddressSpace) (e : Mapping) : Type 0 where
    pub there : IsIn e m
    pub starts : e.vaddr ≡ base
    pub shows : e.paddr ≡ frame.base
    pub same : e.rights ≡ action
    pub longer : e.length ≤ frame.size

  abbrev new : Mapping
  new = new_mapping base frame action

  module _ (s : Sound new) where
    -- What is extended starts where the new mapping starts, and becomes it.
    Extended-new :
        (e : Mapping)
        → Extended base frame action e
        → (e.vaddr ≡ base) × (record e { length = frame.size } ≡ new)
    Extended-new e x =
        let start : e.vaddr ≡ base = ground (arith, x.grows) in
        let place : e.paddr ≡ frame.base = ground (arith, x.grows) in
        let same : e.rights ≡ action = code-injective e.rights action (ground (arith, x.grows)) in
        (start, cc)

    Extended-covers :
        (e : Mapping) (v : ℕ)
        → Sound e
        → Extended base frame action e
        → covers e v ≡ true
        → covers new v ≡ true
    Extended-covers e v t x c =
        let inside = covers-lt e v t c in
        let start = (Extended-new e x).0 in
        let stop : add64 base frame.size ≡ base + frame.size = omega (arith, s.1) in
        let stop' : add64 e.vaddr e.length ≡ e.vaddr + e.length = omega (arith, t.1) in
        ground (arith, x.grows, inside)

    Extended-Grown :
        (e : Mapping) (m : ModelAddressSpace)
        → Sound e
        → Extended base frame action e
        → Grown (e ∷ m) e
    Extended-Grown e m t x = record {
      there = inl refl;
      starts = (Extended-new e x).0;
      shows = ground (arith, x.grows);
      same = code-injective e.rights action (ground (arith, x.grows));
      longer =
          let start = (Extended-new e x).0 in
          let stop : add64 base frame.size ≡ base + frame.size = omega (arith, s.1) in
          let stop' : add64 e.vaddr e.length ≡ e.vaddr + e.length = omega (arith, t.1) in
          ground (arith, x.grows);
    }

    Grown-behind : (e f : Mapping) (m : ModelAddressSpace) → Grown m f → Grown (e ∷ m) f
    Grown-behind e f m g = record {
      there = inr g.there;
      starts = g.starts;
      shows = g.shows;
      same = g.same;
      longer = g.longer;
    }

    -- Behind an extended mapping, all is apart from the new one.
    Extended-Apart :
        (e : Mapping) (m : ModelAddressSpace)
        → Sound e
        → Extended base frame action e
        → Inv m
        → Apart e m
        → AllClear base frame action m
        → Apart new m
    Extended-Apart e [] t x i a c = tt
    Extended-Apart e (f ∷ m) t x i a (inl d, cs) =
        (Disjoint-sym f new d, Extended-Apart e m t x i.2 a.1 cs)
    Extended-Apart e (f ∷ m) t x i a (inr y, cs) = absurd (both a.0)
      where
        both : Disjoint e f → ⊥
        both (inl d) = omega (arith, t.0, (Extended-new e x).0, (Extended-new f y).0)
        both (inr d) = omega (arith, i.0.0, (Extended-new e x).0, (Extended-new f y).0)

    -- The addresses of the new mapping are in it, and every other is where it was.
    abbrev pub Mapped : ModelAddressSpace → ModelAddressSpace → Type 0
    Mapped m m' = (v : ℕ) → find_last m' v ≡ (if covers new v then some new else find_last m v)

    -- `m'` is `m` with one mapping extended.
    pub record Promoted (m m' : ModelAddressSpace) : Type 0 where
      pub old : Mapping
      pub grown : Grown m old
      pub sound : Inv m'
      pub mapped : Mapped m m'
      pub apart : (g : Mapping) → Disjoint g new → Apart g m → Apart g m'

    Extended-Promoted :
        (e : Mapping) (m : ModelAddressSpace)
        → Extended base frame action e
        → Inv (e ∷ m)
        → AllClear base frame action m
        → Promoted (e ∷ m) (record e { length = frame.size } ∷ m)
    unfolding find_last
    Extended-Promoted e m x i cs =
        let same = (Extended-new e x).1 in
        let free = Extended-Apart e m i.0 x i.2 i.1 cs in
        rw same (record {
          old = e;
          grown = Extended-Grown e m i.0 x;
          sound = (s, free, i.2);
          mapped = λ v. elim (Bool-cases (covers new v)) [
            | inl c ↦ rw (find_last-Apart new m v s i.2 free c, c) refl
            | inr c ↦ elim (Bool-cases (covers e v)) [
              | inl d ↦ absurd (false≢true (sym c ∙ Extended-covers e v i.0 x d))
              | inr d ↦ elim (Option-cases (find_last m v)) [
                | inl n ↦ rw (n, c, d) refl
                | inr (f, n) ↦ rw (n, c) refl
              ]
            ]
          ];
          apart = λ g d a. (d, a.1);
        })

    behind-Promoted :
        (e : Mapping) (m m' : ModelAddressSpace)
        → Inv (e ∷ m)
        → Disjoint e new
        → Promoted m m'
        → Promoted (e ∷ m) (e ∷ m')
    unfolding find_last
    behind-Promoted e m m' i d p = record {
      old = p.old;
      grown = Grown-behind e p.old m p.grown;
      sound = (i.0, p.apart e d i.1, p.sound);
      mapped = λ v. elim (Bool-cases (covers new v)) [
        | inl c ↦ rw (p.mapped v, c) refl
        | inr c ↦ rw (p.mapped v, c) refl
      ];
      apart = λ g f a. (a.0, p.apart g f a.1);
    }

    pub promote-cases :
        (m : ModelAddressSpace)
        → Inv m
        → AllClear base frame action m
        → ((promote m base frame action ≡ none) × Apart new m)
          ⊎ ((m' : ModelAddressSpace) × (promote m base frame action ≡ some m') × Promoted m m')
    unfolding promote
    promote-cases [] i c = inl (refl, tt)
    promote-cases (e ∷ m) i (inr x, cs) = inr (
      record e { length = frame.size } ∷ m,
      rw (x.over, x.grows) refl,
      Extended-Promoted e m x i cs,
    )
    promote-cases (e ∷ m) i (inl d, cs) =
        let off = Disjoint-overlaps e new i.0 s d in
        elim (promote-cases m i.2 cs) [
          | inl (q, a) ↦ inl (rw (off, q) refl, (Disjoint-sym e new d, a))
          | inr (m', q, p) ↦ inr (e ∷ m', rw (off, q) refl, behind-Promoted e m m' i d p)
        ]
