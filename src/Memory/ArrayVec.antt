-- ===== src/Memory/ArrayVec.antt =====
-- The interface of `ArrayVec<PAddr, CAP>` of the arrayvec crate, as far as `kernel/src/memory` uses
-- it: a stack of at most `cap` addresses, with what the crate documents of its operations.
use node_replicated_kernel.Prelude.{ℕ, ◌≤◌, ◌<◌, ◌≡◌, Option, none, some, List, [], ◌∷◌, length}

pub record ArrayVec (cap : ℕ) : Type 1 where
  pub Vec : Type 0
  pub new_const : Vec
  pub len : Vec → ℕ
  -- `none` for the error of a full vector
  pub try_push : Vec → ℕ → Option Vec
  pub pop : Vec → Option (ℕ × Vec)
  -- the elements, the last first
  pub items : Vec → List ℕ
  pub items-new_const : items new_const ≡ []
  pub len-items : (v : Vec) → len v ≡ length (items v)
  pub len-le : (v : Vec) → length (items v) ≤ cap
  pub try_push-room :
      (v : Vec) (x : ℕ)
      → length (items v) < cap
      → (w : Vec) × (try_push v x ≡ some w) × (items w ≡ x ∷ items v)
  pub try_push-full : (v : Vec) (x : ℕ) → cap ≤ length (items v) → try_push v x ≡ none
  pub pop-nil : (v : Vec) → items v ≡ [] → pop v ≡ none
  pub pop-cons :
      (v : Vec) (x : ℕ) (xs : List ℕ)
      → items v ≡ x ∷ xs
      → (w : Vec) × (pop v ≡ some (x, w)) × (items w ≡ xs)
