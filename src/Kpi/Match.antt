-- ===== src/Kpi/Match.antt =====
-- A `match` of `lib/kpi/src/lib.rs` on numbers or on names, and what a decoding is.
use node_replicated_kernel.Prelude.{ℕ, ◌≡◌, ◌⊎◌, Eq, List, [], ◌∷◌, if◌then◌else◌}

-- The first arm that fits, or the last one.
unfoldable pub match {ℓ κ} : {K : Type ℓ} {A : Type κ} ⦃e : Eq K⦄ → List (K × A) → A → K → A
match [] other k = other
match ⦃e⦄ ((j, a) ∷ arms) other k = let rest = match arms other k in if e.beq k j then a else rest

-- A number is decoded to what it encodes, and a number that encodes nothing to `unknown`.
pub record Codec {A : Type 0} (from : ℕ → A) (code : A → ℕ) (unknown : A) : Type 0 where
  pub back : (a : A) → from (code a) ≡ a
  pub known : (n : ℕ) → (code (from n) ≡ n) ⊎ (from n ≡ unknown)
