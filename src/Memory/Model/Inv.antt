-- ===== src/Memory/Model/Inv.antt =====
-- The mappings of a model address space of `kernel/src/memory/vspace_model.rs` do not overlap, and
-- what `map_frame` does to them.
use node_replicated_kernel.Prelude.{
  ℕ, ◌+◌, ◌≤◌, ◌<◌, ◌≡◌, ◌⊎◌, inl, inr, refl, Bool-cases, Bool, true, false, if◌then◌else◌, none,
  some, [], ◌∷◌, ◌++◌, add64, word, arith,
}
use node_replicated_kernel.Memory.Model.{
  Mapping, ModelAddressSpace, cur_range, overlaps, contains, find_last,
}

-- A mapping is not empty, and ends below the last word.
abbrev pub Sound : Mapping → Type 0
Sound e = (0 < e.length) × (e.vaddr + e.length < word)

abbrev pub Disjoint : Mapping → Mapping → Type 0
Disjoint e f = (e.vaddr + e.length ≤ f.vaddr) ⊎ (f.vaddr + f.length ≤ e.vaddr)

abbrev pub Apart : Mapping → ModelAddressSpace → Type 0
Apart e [] = Unit
Apart e (f ∷ m) = Disjoint e f × Apart e m

-- Every mapping is sound, and no two overlap.
abbrev pub Inv : ModelAddressSpace → Type 0
Inv [] = Unit
Inv (e ∷ m) = Sound e × Apart e m × Inv m

abbrev pub covers : Mapping → ℕ → Bool
covers e v = contains (cur_range e) v

pub Disjoint-sym : (e f : Mapping) → Disjoint e f → Disjoint f e
Disjoint-sym e f (inl h) = inr h
Disjoint-sym e f (inr h) = inl h

pub covers-lt :
    (e : Mapping) (v : ℕ) → Sound e → covers e v ≡ true → (e.vaddr ≤ v) × (v < e.vaddr + e.length)
covers-lt e v s h =
    let stop : add64 e.vaddr e.length ≡ e.vaddr + e.length = omega (arith, s.1) in ground arith

pub covers-not :
    (e f : Mapping) (v : ℕ)
    → Sound e
    → Sound f
    → Disjoint e f
    → covers e v ≡ true
    → covers f v ≡ false
covers-not e f v s t d h = elim (Bool-cases (covers f v)) [
  | inr n ↦ n
  | inl c ↦ absurd (apart d (covers-lt e v s h) (covers-lt f v t c))
]
  where
    apart :
        Disjoint e f
        → (e.vaddr ≤ v) × (v < e.vaddr + e.length)
        → (f.vaddr ≤ v) × (v < f.vaddr + f.length)
        → ⊥
    apart (inl d) (a, b) (c, g) = omega arith
    apart (inr d) (a, b) (c, g) = omega arith

-- Sound mappings overlap if their ranges do.
pub overlaps-Disjoint :
    (e f : Mapping)
    → Sound e
    → Sound f
    → overlaps (cur_range e) (cur_range f) ≡ false
    → Disjoint e f
overlaps-Disjoint e f s t h =
    let stop : add64 e.vaddr e.length ≡ e.vaddr + e.length = omega (arith, s.1) in
    let stop' : add64 f.vaddr f.length ≡ f.vaddr + f.length = omega (arith, t.1) in ground arith

pub Disjoint-overlaps :
    (e f : Mapping)
    → Sound e
    → Sound f
    → Disjoint e f
    → overlaps (cur_range e) (cur_range f) ≡ false
Disjoint-overlaps e f s t d =
    let stop : add64 e.vaddr e.length ≡ e.vaddr + e.length = omega (arith, s.1) in
    let stop' : add64 f.vaddr f.length ≡ f.vaddr + f.length = omega (arith, t.1) in ground arith

-- An address of a mapping apart from `m` is in no mapping of `m`.
pub find_last-Apart :
    (e : Mapping) (m : ModelAddressSpace) (v : ℕ)
    → Sound e
    → Inv m
    → Apart e m
    → covers e v ≡ true
    → find_last m v ≡ none
unfolding find_last
find_last-Apart e [] v s i a c = refl
find_last-Apart e (f ∷ m) v s i a c =
    rw (find_last-Apart e m v s i.2 a.1 c, covers-not e f v s i.0 a.0 c) refl

-- A mapping behind the others.
pub find_last-append :
    (m : ModelAddressSpace) (e : Mapping) (v : ℕ)
    → find_last (m ++ e ∷ []) v ≡ (if covers e v then some e else find_last m v)
unfolding find_last
find_last-append [] e v = refl
find_last-append (f ∷ m) e v = elim (Bool-cases (covers e v)) [
  | inl c ↦ rw (find_last-append m e v, c) refl
  | inr c ↦ rw (find_last-append m e v, c) refl
]

pub Apart-append :
    (e : Mapping) (m : ModelAddressSpace) (f : Mapping)
    → Apart e m
    → Disjoint e f
    → Apart e (m ++ f ∷ [])
Apart-append e [] f a d = (d, tt)
Apart-append e (g ∷ m) f a d = (a.0, Apart-append e m f a.1 d)

pub Inv-append :
    (m : ModelAddressSpace) (e : Mapping) → Inv m → Sound e → Apart e m → Inv (m ++ e ∷ [])
Inv-append [] e i s a = (s, tt, tt)
Inv-append (f ∷ m) e i s a =
    (i.0, Apart-append f m e i.1 (Disjoint-sym e f a.0), Inv-append m e i.2 s a.1)
