-- ===== src/Prelude/Family.antt =====
-- Families indexed by a number, such as the threads, and their update at one index.
use Prim.Native.Nat.{ℕ}
use mathlib.Core.Path.{◌≡◌}
use mathlib.Core.Logic.{◌≢◌}
use native.Mathlib.Omega.{arith}
use native.Mathlib.Decide.{ℕ_discrete}
use node_replicated_kernel.Prelude.Tests.{◌==◌, if◌then◌else◌}

abbrev pub update {ℓ} : {A : Type ℓ} → (ℕ → A) → ℕ → A → ℕ → A
update f t a u = if u == t then a else f u

pub update_self {ℓ} : {A : Type ℓ} (f : ℕ → A) (t : ℕ) (a : A) → update f t a t ≡ a
update_self f t a = ground arith

pub update_ne {ℓ} : {A : Type ℓ} (f : ℕ → A) (t u : ℕ) (a : A) → u ≢ t → update f t a u ≡ f u
update_ne f t u a ne = ground arith

-- What holds of the new value at the index, and of the old ones elsewhere.
pub update-cases {ℓ κ} :
    {A : Type ℓ} (P : A → Type κ) (f : ℕ → A) (t u : ℕ) (a : A)
    → P a
    → (u ≢ t → P (f u))
    → P (update f t a u)
update-cases P f t u a here there = elim (ℕ_discrete u t) [
  | yes e ↦ rw (e, update_self f t a) here
  | no ne ↦ rw (update_ne f t u a ne) (there ne)
]
