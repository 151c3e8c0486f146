-- ===== src/Prelude/Spans.antt =====
-- Ranges of lists: reading a range, and writing a list over a range.
use Prim.Native.Nat.{ℕ, zero, suc, ◌+◌, ◌-◌, ◌≤◌, ◌<◌}
use mathlib.Core.Path.{◌≡◌, refl, ap}
use mathlib.Core.Bool.{true, ◌&&◌}
use mathlib.Core.List.{List, [], ◌∷◌, ◌++◌}
use mathlib.Core.Option.{Option, none, some}
use native.Mathlib.Omega.{arith}
use native.Mathlib.Nat.{zero-add, suc-add}
use node_replicated_kernel.Prelude.Tests.{leb, ◌==◌, if◌then◌else◌}
use node_replicated_kernel.Prelude.Lists.{length, take, drop, length-take, length-drop}

module _ {ℓ} {A : Type ℓ} where
  -- `xs` with `ds` written over it from index `o` on, as far as `xs` reaches.
  unfoldable pub overwrite : List A → ℕ → List A → List A
  overwrite [] o ds = []
  overwrite (x ∷ xs) zero [] = x ∷ xs
  overwrite (x ∷ xs) zero (d ∷ ds) = d ∷ overwrite xs zero ds
  overwrite (x ∷ xs) (suc o) ds = x ∷ overwrite xs o ds

  -- `xs[a..b]`, `none` if the range is out of bounds.
  abbrev pub slice : List A → ℕ → ℕ → Option (List A)
  slice xs a b = if leb a b && leb b (length xs) then some (take (b - a) (drop a xs)) else none

  -- `dst[a..b].copy_from_slice(src)`, `none` where it panics.
  abbrev pub copy_range : List A → ℕ → ℕ → List A → Option (List A)
  copy_range dst a b src =
      if leb a b && leb b (length dst) && b - a == length src
      then some (overwrite dst a src)
      else none

  pub length-overwrite :
      (xs : List A) (o : ℕ) (ds : List A) → length (overwrite xs o ds) ≡ length xs
  unfolding overwrite
  length-overwrite [] o ds = refl
  length-overwrite (x ∷ xs) zero [] = refl
  length-overwrite (x ∷ xs) zero (d ∷ ds) = ap suc (length-overwrite xs zero ds)
  length-overwrite (x ∷ xs) (suc o) ds = ap suc (length-overwrite xs o ds)

  pub overwrite-nil : (xs : List A) (o : ℕ) → overwrite xs o [] ≡ xs
  unfolding overwrite
  overwrite-nil [] o = refl
  overwrite-nil (x ∷ xs) zero = refl
  overwrite-nil (x ∷ xs) (suc o) = ap (◌∷◌ x) (overwrite-nil xs o)

  -- Two adjacent writes are one.
  pub overwrite-overwrite :
      (xs : List A) (o : ℕ) (c d : List A)
      → overwrite (overwrite xs o c) (o + length c) d ≡ overwrite xs o (c ++ d)
  unfolding overwrite
  overwrite-overwrite [] o c d = refl
  overwrite-overwrite (x ∷ xs) zero [] d = refl
  overwrite-overwrite (x ∷ xs) zero (a ∷ c) d =
      rw (zero-add (suc (length c)))
        (ap (◌∷◌ a) (rw (zero-add (length c)) at (overwrite-overwrite xs zero c d)))
  overwrite-overwrite (x ∷ xs) (suc o) c d =
      rw (suc-add o (length c)) (ap (◌∷◌ x) (overwrite-overwrite xs o c d))

  pub overwrite-append_left :
      (xs ys : List A) (o : ℕ) (c : List A)
      → o + length c ≤ length xs
      → overwrite (xs ++ ys) o c ≡ overwrite xs o c ++ ys
  unfolding overwrite
  overwrite-append_left [] ys zero [] h = overwrite-nil ys 0
  overwrite-append_left [] ys zero (a ∷ c) h = absurd (omega arith)
  overwrite-append_left [] ys (suc o) c h = absurd (omega arith)
  overwrite-append_left (x ∷ xs) ys zero [] h = refl
  overwrite-append_left (x ∷ xs) ys zero (a ∷ c) h =
      ap (◌∷◌ a) (overwrite-append_left xs ys zero c (omega arith))
  overwrite-append_left (x ∷ xs) ys (suc o) c h =
      ap (◌∷◌ x) (overwrite-append_left xs ys o c (omega arith))

  pub overwrite-append_right :
      (xs ys : List A) (o : ℕ) (c : List A)
      → overwrite (xs ++ ys) (length xs + o) c ≡ xs ++ overwrite ys o c
  unfolding overwrite
  overwrite-append_right [] ys o c = rw zero-add
  overwrite-append_right (x ∷ xs) ys o c =
      rw (suc-add (length xs) o) (ap (◌∷◌ x) (overwrite-append_right xs ys o c))

  pub take-add : (m n : ℕ) (xs : List A) → take (m + n) xs ≡ take m xs ++ take n (drop m xs)
  take-add zero n xs = rw zero-add
  take-add (suc m) n [] = rw (suc-add m n) (take-nil n)
    where
      take-nil : (k : ℕ) → [] ≡ take {A = A} k []
      take-nil zero = refl
      take-nil (suc k) = refl
  take-add (suc m) n (x ∷ xs) = rw (suc-add m n) (ap (◌∷◌ x) (take-add m n xs))

  pub drop-drop : (m n : ℕ) (xs : List A) → drop n (drop m xs) ≡ drop (m + n) xs
  drop-drop zero n xs = rw zero-add
  drop-drop (suc m) n [] = rw (suc-add m n) (drop-nil n)
    where
      drop-nil : (k : ℕ) → drop {A = A} k [] ≡ []
      drop-nil zero = refl
      drop-nil (suc k) = refl
  drop-drop (suc m) n (x ∷ xs) = rw (suc-add m n) (drop-drop m n xs)

  pub drop-append_right : (xs ys : List A) (o : ℕ) → drop (length xs + o) (xs ++ ys) ≡ drop o ys
  drop-append_right [] ys o = rw zero-add
  drop-append_right (x ∷ xs) ys o = rw (suc-add (length xs) o) (drop-append_right xs ys o)

  pub take-append_left :
      (k o : ℕ) (xs ys : List A)
      → o + k ≤ length xs
      → take k (drop o (xs ++ ys)) ≡ take k (drop o xs)
  take-append_left zero o xs ys h = refl
  take-append_left (suc k) zero [] ys h = absurd (omega arith)
  take-append_left (suc k) zero (x ∷ xs) ys h =
      ap (◌∷◌ x) (take-append_left k zero xs ys (omega arith))
  take-append_left (suc k) (suc o) [] ys h = absurd (omega arith)
  take-append_left (suc k) (suc o) (x ∷ xs) ys h = take-append_left (suc k) o xs ys (omega arith)

  pub take-all : (n : ℕ) (xs : List A) → length xs ≤ n → take n xs ≡ xs
  take-all zero [] h = refl
  take-all zero (x ∷ xs) h = absurd (omega arith)
  take-all (suc n) [] h = refl
  take-all (suc n) (x ∷ xs) h = ap (◌∷◌ x) (take-all n xs (omega arith))

  pub length-span : (k o : ℕ) (xs : List A) → o + k ≤ length xs → length (take k (drop o xs)) ≡ k
  length-span k o xs h = omega (arith, length-take k (drop o xs), length-drop o xs)

  pub slice-span :
      (xs : List A) (a n : ℕ) → a + n ≤ length xs → slice xs a (a + n) ≡ some (take n (drop a xs))
  slice-span xs a n h =
      let low : leb a (a + n) ≡ true = ground arith in
      let high : leb (a + n) (length xs) ≡ true = ground arith in
      let e : a + n - a ≡ n = omega arith in rw (low, high, e)

  pub copy_range-span :
      (dst : List A) (a n : ℕ) (src : List A)
      → length src ≡ n
      → a + n ≤ length dst
      → copy_range dst a (a + n) src ≡ some (overwrite dst a src)
  copy_range-span dst a n src e h =
      let low : leb a (a + n) ≡ true = ground arith in
      let high : leb (a + n) (length dst) ≡ true = ground arith in
      let fit : (a + n - a == length src) ≡ true = ground arith in rw (low, high, fit)

  -- Ranges that differ in their start only where they are empty.
  pub span-start :
      (r p q : ℕ) (xs : List A) → (0 < r → p ≡ q) → take r (drop p xs) ≡ take r (drop q xs)
  span-start zero p q xs h = refl
  span-start (suc r) p q xs h = rw (h (omega arith))

  -- A write of a range in two parts.
  pub overwrite-parts :
      (dst : List A) (a p n r : ℕ) (xs src : List A)
      → src ≡ take n (drop p xs)
      → length src ≡ n
      → overwrite (overwrite dst a src) (a + n) (take r (drop (p + n) xs))
        ≡ overwrite dst a (take (n + r) (drop p xs))
  overwrite-parts dst a p n r xs src e l =
      let o = overwrite-overwrite dst a src (take r (drop (p + n) xs)) in
      rw (take-add n r (drop p xs), drop-drop p n xs, ← e) (rw l at o)

  pub overwrite-start :
      (r p q : ℕ) (xs ys : List A)
      → (0 < r → p ≡ q)
      → overwrite xs p (take r ys) ≡ overwrite xs q (take r ys)
  overwrite-start zero p q xs ys h = rw (overwrite-nil xs p, overwrite-nil xs q)
  overwrite-start (suc r) p q xs ys h = rw (h (omega arith))

  -- What was written is read back.
  pub take-overwrite :
      (xs : List A) (o : ℕ) (ds : List A)
      → o + length ds ≤ length xs
      → take (length ds) (drop o (overwrite xs o ds)) ≡ ds
  unfolding overwrite
  take-overwrite [] zero [] h = refl
  take-overwrite [] zero (d ∷ ds) h = absurd (omega arith)
  take-overwrite [] (suc o) ds h = absurd (omega arith)
  take-overwrite (x ∷ xs) zero [] h = refl
  take-overwrite (x ∷ xs) zero (d ∷ ds) h = ap (◌∷◌ d) (take-overwrite xs zero ds (omega arith))
  take-overwrite (x ∷ xs) (suc o) ds h = take-overwrite xs o ds (omega arith)
