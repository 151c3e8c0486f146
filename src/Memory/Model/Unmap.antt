-- ===== src/Memory/Model/Unmap.antt =====
-- `unmap` of `kernel/src/memory/vspace_model.rs` on every branch.
use node_replicated_kernel.Prelude.{
  ℕ, ◌%◌, ◌≡◌, ◌≢◌, ◌⊎◌, inl, inr, refl, sym, ◌∙◌, Option-cases, Bool-cases, true, false, ◌==◌,
  ==_iff, if◌then◌else◌, none, some, [], ◌∷◌, base_page_size,
}
use mathlib.Core.Bool.{false≢true}
use node_replicated_kernel.Prelude.Dict.{none≢some}
use node_replicated_kernel.Prelude.Outcome.{Outcome, ok, err, invalid_base, not_mapped}
use node_replicated_kernel.Memory.Frame.{Frame}
use node_replicated_kernel.Memory.Frame.Split.{new-ok}
use node_replicated_kernel.Memory.Model.{
  Mapping, ModelAddressSpace, find_last, found, left, unmap, resolve,
}
use node_replicated_kernel.Memory.Model.Inv.{
  Sound, Disjoint, Apart, Inv, covers, covers-not, find_last-Apart,
}

-- A mapping of whole pages.
abbrev pub IsPaged : Mapping → Type 0
IsPaged e = (e.paddr % base_page_size ≡ 0) × (e.length % base_page_size ≡ 0)

abbrev pub AllPaged : ModelAddressSpace → Type 0
AllPaged [] = Unit
AllPaged (e ∷ m) = IsPaged e × AllPaged m

-- `e` is the one mapping that is found, and `left` are the others.
record Taken (m : ModelAddressSpace) (base : ℕ) (e : Mapping) : Type 0 where
  pub one : found m base ≡ e ∷ []
  pub here : find_last m base ≡ some e
  pub sound : Sound e
  pub paged : AllPaged m → IsPaged e
  pub rest : Inv (left m base)
  pub rest_paged : AllPaged m → AllPaged (left m base)
  pub apart : (g : Mapping) → Apart g m → Disjoint g e × Apart g (left m base)
  pub gone : (v : ℕ) → find_last (left m base) v ≡ (if covers e v then none else find_last m v)

-- The mapping is the first of the list.
first-Taken :
    (e : Mapping) (m : ModelAddressSpace) (base : ℕ)
    → Inv (e ∷ m)
    → covers e base ≡ true
    → found m base ≡ []
    → left m base ≡ m
    → Taken (e ∷ m) base e
unfolding found left find_last
first-Taken e m base i c q p = record {
  one = rw (c, q) refl;
  here = rw (find_last-Apart e m base i.0 i.2 i.1 c, c) refl;
  sound = i.0;
  paged = λ g. g.0;
  rest = rw (c, p) i.2;
  rest_paged = λ g. rw (c, p) g.1;
  apart = λ g a. rw (c, p) a;
  gone = λ v.
      rw (c, p)
        (elim (Bool-cases (covers e v)) [
          | inl d ↦ rw (find_last-Apart e m v i.0 i.2 i.1 d, d) refl
          | inr d ↦ elim (Option-cases (find_last m v)) [
            | inl n ↦ rw (n, d) refl
            | inr (f, n) ↦ rw (n, d) refl
          ]
        ]);
}

-- The mapping is behind the first.
later-Taken :
    (e f : Mapping) (m : ModelAddressSpace) (base : ℕ)
    → Inv (e ∷ m)
    → covers e base ≡ false
    → Taken m base f
    → Taken (e ∷ m) base f
unfolding found left find_last
later-Taken e f m base i c t = record {
  one = rw (c, t.one) refl;
  here = rw (t.here) refl;
  sound = t.sound;
  paged = λ g. t.paged g.1;
  rest = rw c (i.0, (t.apart e i.1).1, t.rest);
  rest_paged = λ g. rw c (g.0, t.rest_paged g.1);
  apart = λ g a. rw c ((t.apart g a.1).0, (a.0, (t.apart g a.1).1));
  gone = λ v. rw c (elim (Bool-cases (covers f v)) [
    | inr d ↦ rw (t.gone v, d) refl
    | inl d ↦
        let off : covers e v ≡ false = elim (Bool-cases (covers e v)) [
          | inr o ↦ o
          | inl o ↦ absurd (false≢true (sym (covers-not e f v i.0 t.sound (t.apart e i.1).0 o) ∙ d))
        ] in
        rw (t.gone v, d, off) refl
  ]);
}

found-cases :
    (m : ModelAddressSpace) (base : ℕ)
    → Inv m
    → ((found m base ≡ []) × (left m base ≡ m) × (find_last m base ≡ none))
      ⊎ ((e : Mapping) × Taken m base e)
unfolding found left find_last
found-cases [] base i = inl (refl, refl, refl)
found-cases (e ∷ m) base i = elim (Bool-cases (covers e base)) [
  | inl c ↦ elim (found-cases m base i.2) [
    | inl (q, p, n) ↦ inr (e, first-Taken e m base i c q p)
    | inr (f, t) ↦ absurd (none≢some (sym (find_last-Apart e m base i.0 i.2 i.1 c) ∙ t.here))
  ]
  | inr c ↦ elim (found-cases m base i.2) [
    | inl (q, p, n) ↦ inl (rw (c, q) refl, rw (c, p) refl, rw (n, c) refl)
    | inr (f, t) ↦ inr (f, later-Taken e f m base i c t)
  ]
]

-- An unaligned base and an address without a mapping are refused, and nothing changes; at an aligned base with a
-- mapping, the mapping goes, its start and its frame are reported, and no other address is touched.
pub data Unmapped (m : ModelAddressSpace) (base : ℕ) (r : Outcome (ℕ × Frame) × ModelAddressSpace)
    : Type 0 where
  bad_base : base % base_page_size ≢ 0 → r ≡ (err invalid_base, m) → Unmapped m base r
  missing :
      base % base_page_size ≡ 0
      → find_last m base ≡ none
      → r ≡ (err not_mapped, m)
      → Unmapped m base r
  unmapped :
      (e : Mapping)
      → base % base_page_size ≡ 0
      → find_last m base ≡ some e
      → r.0 ≡ ok (e.vaddr, record { base = e.paddr; size = e.length; affinity = 0 })
      → Inv r.1
      → AllPaged r.1
      → ((v : ℕ) → resolve r.1 v ≡ (if covers e v then err not_mapped else resolve m v))
      → Unmapped m base r

-- On an address space of whole pages without overlaps, `unmap` never panics: it refuses an unaligned
-- base, and an aligned one without a mapping, and changes nothing; or the base is aligned and has one
-- mapping, which goes and is reported, no other address is touched, and no overlap appears.
pub unmap-Unmapped :
    (m : ModelAddressSpace) (base : ℕ) → Inv m → AllPaged m → Unmapped m base (unmap m base)
unfolding unmap resolve
unmap-Unmapped m base i g = elim (Bool-cases (base % base_page_size == 0)) [
  | inr x ↦ rw x (bad_base (λ h. false≢true (sym x ∙ (==_iff (base % base_page_size) 0).1 h)) refl)
  | inl x ↦ elim (found-cases m base i) [
    | inl (q, p, n) ↦ rw (x, q) (missing ((==_iff (base % base_page_size) 0).0 x) n refl)
    | inr (e, t) ↦
        rw (x, t.one, new-ok e.paddr e.length 0 (t.paged g).0 (t.paged g).1)
          (unmapped e ((==_iff (base % base_page_size) 0).0 x) t.here refl t.rest (t.rest_paged g)
            (λ v. elim (Bool-cases (covers e v)) [
              | inl c ↦ rw (t.gone v, c) refl
              | inr c ↦ rw (t.gone v, c) refl
            ]))
  ]
]
