-- ===== src/Memory/Model/Adjust.antt =====
-- `adjust` of `kernel/src/memory/vspace_model.rs` on every branch.
use node_replicated_kernel.Prelude.{
  ℕ, ◌%◌, ◌≡◌, ◌≢◌, ◌⊎◌, inl, inr, refl, sym, ◌∙◌, Option-cases, Bool-cases, ◌==◌, ==_iff,
  if◌then◌else◌, none, some, [], ◌∷◌, base_page_size,
}
use mathlib.Core.Bool.{false≢true}
use node_replicated_kernel.Prelude.Outcome.{Outcome, ok, err, invalid_base, not_mapped}
use node_replicated_kernel.Memory.Action.{MapAction}
use node_replicated_kernel.Memory.Model.{
  Mapping, ModelAddressSpace, find_last, adjust_last, adjust, resolve, translate,
}
use node_replicated_kernel.Memory.Model.Inv.{Sound, Disjoint, Apart, Inv, covers, find_last-Apart}

-- `e` gets other rights.
abbrev pub with_rights : Mapping → MapAction → Mapping
with_rights e rights = record e { rights = rights }

-- `m'` is `m` with other rights for its mapping `e`.
record Changed (m m' : ModelAddressSpace) (base : ℕ) (rights : MapAction) (e : Mapping)
    : Type 0 where
  pub done : adjust_last m base rights ≡ some ((e.vaddr, e.length), m')
  pub here : find_last m base ≡ some e
  pub sound : Sound e
  pub rest : Inv m'
  pub apart : (g : Mapping) → Apart g m → Disjoint g e × Apart g m'
  pub now :
      (v : ℕ) → find_last m' v ≡ (if covers e v then some (with_rights e rights) else find_last m v)

-- What `adjust_last` does.
abbrev Change : ModelAddressSpace → ℕ → MapAction → Type 0
Change m base rights =
    ((adjust_last m base rights ≡ none) × (find_last m base ≡ none))
    ⊎ ((e : Mapping) × (m' : ModelAddressSpace) × Changed m m' base rights e)

module _ (base : ℕ) (rights : MapAction) (e : Mapping) (m : ModelAddressSpace)
    (i : Inv (e ∷ m)) where
  -- No mapping behind the first has the address.
  first-Change :
      adjust_last m base rights ≡ none → find_last m base ≡ none → Change (e ∷ m) base rights
  unfolding adjust_last find_last
  first-Change q n = elim (Bool-cases (covers e base)) [
    | inr c ↦ inl (rw (q, c) refl, rw (n, c) refl)
    | inl c ↦ inr (
      e,
      with_rights e rights ∷ m,
      record {
        done = rw (q, c) refl;
        here = rw (n, c) refl;
        sound = i.0;
        rest = (i.0, i.1, i.2);
        apart = λ g a. (a.0, a);
        now = λ v. elim (Bool-cases (covers e v)) [
          | inl d ↦ rw (find_last-Apart e m v i.0 i.2 i.1 d, d) refl
          | inr d ↦ elim (Option-cases (find_last m v)) [
            | inl k ↦ rw (k, d) refl
            | inr (f, k) ↦ rw (k, d) refl
          ]
        ];
      },
    )
  ]

  -- A mapping behind the first has it.
  later-Changed :
      (f : Mapping) (m' : ModelAddressSpace)
      → Changed m m' base rights f
      → Changed (e ∷ m) (e ∷ m') base rights f
  unfolding adjust_last find_last
  later-Changed f m' t = record {
    done = rw (t.done) refl;
    here = rw (t.here) refl;
    sound = t.sound;
    rest = (i.0, (t.apart e i.1).1, t.rest);
    apart = λ g a. ((t.apart g a.1).0, (a.0, (t.apart g a.1).1));
    now = λ v. elim (Bool-cases (covers f v)) [
      | inr d ↦ rw (t.now v, d) refl
      | inl d ↦ rw (t.now v, d) refl
    ];
  }

adjust_last-Change :
    (m : ModelAddressSpace) (base : ℕ) (rights : MapAction) → Inv m → Change m base rights
unfolding adjust_last find_last
adjust_last-Change [] base rights i = inl (refl, refl)
adjust_last-Change (e ∷ m) base rights i = elim (adjust_last-Change m base rights i.2) [
  | inl (q, n) ↦ first-Change base rights e m i q n
  | inr (f, m', t) ↦ inr (f, e ∷ m', later-Changed base rights e m i f m' t)
]

-- An unaligned base and an address without a mapping are refused, and nothing changes; at an aligned base with a
-- mapping, the mapping gets the rights, its range is reported, and no other address is touched.
pub data Adjusted (m : ModelAddressSpace) (base : ℕ) (rights : MapAction)
    (r : Outcome (ℕ × ℕ) × ModelAddressSpace) : Type 0 where
  bad_base : base % base_page_size ≢ 0 → r ≡ (err invalid_base, m) → Adjusted m base rights r
  missing :
      base % base_page_size ≡ 0
      → find_last m base ≡ none
      → r ≡ (err not_mapped, m)
      → Adjusted m base rights r
  adjusted :
      (e : Mapping)
      → base % base_page_size ≡ 0
      → find_last m base ≡ some e
      → r.0 ≡ ok (e.vaddr, e.length)
      → Inv r.1
      → ((v : ℕ)
          → resolve r.1 v
            ≡ (if covers e v then translate (some (with_rights e rights)) v else resolve m v))
      → Adjusted m base rights r

-- On an address space without overlaps, `adjust` refuses an unaligned base, and an aligned one without
-- a mapping, and changes nothing; or the base is aligned and has a mapping, which gets the rights, its
-- range is reported, no other address is touched, and no overlap appears.
pub adjust-Adjusted :
    (m : ModelAddressSpace) (base : ℕ) (rights : MapAction)
    → Inv m
    → Adjusted m base rights (adjust m base rights)
unfolding adjust resolve
adjust-Adjusted m base rights i = elim (Bool-cases (base % base_page_size == 0)) [
  | inr x ↦ rw x (bad_base (λ h. false≢true (sym x ∙ (==_iff (base % base_page_size) 0).1 h)) refl)
  | inl x ↦ elim (adjust_last-Change m base rights i) [
    | inl (q, n) ↦ rw (x, q) (missing ((==_iff (base % base_page_size) 0).0 x) n refl)
    | inr (e, m', t) ↦
        rw (x, t.done)
          (adjusted e ((==_iff (base % base_page_size) 0).0 x) t.here refl t.rest (λ v.
            elim (Bool-cases (covers e v)) [
              | inl c ↦ rw (t.now v, c) refl
              | inr c ↦ rw (t.now v, c) refl
            ]))
  ]
]
