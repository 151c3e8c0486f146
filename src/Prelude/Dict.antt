-- ===== src/Prelude/Dict.antt =====
-- A hash map as an association list: `insert` replaces, `remove` takes every entry of the key.
use mathlib.Core.Path.{◌≡◌, refl, sym, ◌∙◌}
use mathlib.Core.Logic.{◌≢◌, ◌⊎◌, inl, inr}
use mathlib.Core.Bool.{true, false≢true}
use mathlib.Core.Option.{Option, none, some, some-injective}
use mathlib.Core.List.{List, [], ◌∷◌}
use native.Mathlib.Omega.{arith}
use node_replicated_kernel.Prelude.Tests.{Eq, if◌then◌else◌, Bool-cases}

pub none≢some {ℓ} : {A : Type ℓ} {a : A} → none ≡ some a → ⊥
none≢some h = cc

pub beq_refl {ℓ} : {K : Type ℓ} ⦃e : Eq K⦄ (k : K) → e.beq k k ≡ true
beq_refl ⦃e⦄ k = (e.beq_iff k k).1 refl

module _ {ℓ κ} {K : Type ℓ} {V : Type κ} ⦃e : Eq K⦄ where
  unfoldable pub lookup : K → List (K × V) → Option V
  lookup k [] = none
  lookup k ((j, v) ∷ m) = if e.beq j k then some v else lookup k m

  unfoldable pub insert : K → V → List (K × V) → List (K × V)
  insert k v [] = (k, v) ∷ []
  insert k v ((j, w) ∷ m) = if e.beq j k then (k, v) ∷ m else (j, w) ∷ insert k v m

  unfoldable pub remove : K → List (K × V) → List (K × V)
  remove k [] = []
  remove k ((j, w) ∷ m) = let rest = remove k m in if e.beq j k then rest else (j, w) ∷ rest

  pub lookup-insert :
      (k j : K) (v : V) (m : List (K × V))
      → lookup j (insert k v m) ≡ (if e.beq k j then some v else lookup j m)
  unfolding lookup insert
  lookup-insert k j v [] = refl
  lookup-insert k j v ((i, w) ∷ m) =
      ground (arith, e.beq_iff k j, e.beq_iff i k, e.beq_iff i j, lookup-insert k j v m)

  pub lookup-remove :
      (k j : K) (m : List (K × V))
      → lookup j (remove k m) ≡ (if e.beq k j then none else lookup j m)
  unfolding lookup remove
  lookup-remove k j [] = ground arith
  lookup-remove k j ((i, w) ∷ m) =
      ground (arith, e.beq_iff k j, e.beq_iff i k, e.beq_iff i j, lookup-remove k j m)

  pub lookup-insert_self : (k : K) (v : V) (m : List (K × V)) → lookup k (insert k v m) ≡ some v
  lookup-insert_self k v m = rw (lookup-insert k k v m, beq_refl k)

  pub lookup-insert_ne :
      (k j : K) (v : V) (m : List (K × V)) → k ≢ j → lookup j (insert k v m) ≡ lookup j m
  lookup-insert_ne k j v m ne = elim (Bool-cases (e.beq k j)) [
    | inl t ↦ absurd (ne ((e.beq_iff k j).0 t))
    | inr f ↦ rw (lookup-insert k j v m, f)
  ]

  pub lookup-remove_self : (k : K) (m : List (K × V)) → lookup k (remove k m) ≡ none
  lookup-remove_self k m = rw (lookup-remove k k m, beq_refl k)

  pub lookup-remove_ne : (k j : K) (m : List (K × V)) → k ≢ j → lookup j (remove k m) ≡ lookup j m
  lookup-remove_ne k j m ne = elim (Bool-cases (e.beq k j)) [
    | inl t ↦ absurd (ne ((e.beq_iff k j).0 t))
    | inr f ↦ rw (lookup-remove k j m, f)
  ]

  -- Where an entry of a changed map comes from.
  pub insert-cases :
      (k j : K) (v w : V) (m : List (K × V))
      → lookup j (insert k v m) ≡ some w
      → ((k ≡ j) × (v ≡ w)) ⊎ ((k ≢ j) × (lookup j m ≡ some w))
  insert-cases k j v w m h = elim (Bool-cases (e.beq k j)) [
    | inl t ↦
        let same : k ≡ j = (e.beq_iff k j).0 t in
        let e : some v ≡ some w = rw (lookup-insert k j v m, t) at h in
        inl (same, some-injective v w e)
    | inr f ↦
        let other : k ≢ j = λ p. false≢true (sym f ∙ (e.beq_iff k j).1 p) in
        inr (other, sym (lookup-insert_ne k j v m other) ∙ h)
  ]

  pub remove-cases :
      (k j : K) (w : V) (m : List (K × V))
      → lookup j (remove k m) ≡ some w
      → (k ≢ j) × (lookup j m ≡ some w)
  remove-cases k j w m h = elim (Bool-cases (e.beq k j)) [
    | inl t ↦ absurd (none≢some (rw (lookup-remove k j m, t) at h))
    | inr f ↦
        let other : k ≢ j = λ p. false≢true (sym f ∙ (e.beq_iff k j).1 p) in
        (other, sym (lookup-remove_ne k j m other) ∙ h)
  ]

  pub lookup-single : (k j : K) (v w : V) → lookup j ((k, v) ∷ []) ≡ some w → (k ≡ j) × (v ≡ w)
  unfolding lookup insert
  lookup-single k j v w h = elim (insert-cases k j v w [] h) [
    | inl e ↦ e
    | inr (_, old) ↦ absurd (none≢some old)
  ]
