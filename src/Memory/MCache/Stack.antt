-- ===== src/Memory/MCache/Stack.antt =====
-- What the vectors of a page cache of `kernel/src/memory/mcache.rs` promise, on the lists of the
-- addresses that they hold, the last first: a bounded stack that takes what fits.
use node_replicated_kernel.Prelude.{
  ℕ, zero, suc, ◌+◌, ◌-◌, ◌*◌, ◌/◌, ◌≤◌, ◌<◌, ◌≡◌, refl, ap, ◌∙◌, Option, some, true, false, List,
  [], ◌∷◌, ◌++◌, map, length, take, drop, min, max, leb, if◌then◌else◌, base_page_size,
  large_page_size, arith,
}
use node_replicated_kernel.Prelude.Outcome.{Outcome, ok, err, cache_exhausted, cache_full}
use node_replicated_kernel.Memory.Frame.{Frame}
use node_replicated_kernel.Memory.Frame.Split.{to_boundary}

-- The addresses pushed in their order.
abbrev pub pushed : List ℕ → List ℕ → List ℕ
pushed [] s = s
pushed (x ∷ xs) s = pushed xs (x ∷ s)

-- As many of them as fit.
abbrev pub filled : ℕ → List ℕ → List ℕ → List ℕ
filled cap xs s = pushed (take (cap - length s) xs) s

-- `n` addresses from `base` on, `step` bytes apart.
abbrev pub addresses : ℕ → ℕ → ℕ → List ℕ
addresses zero base step = []
addresses (suc n) base step = base ∷ addresses n (base + step) step

abbrev pub page : ℕ → ℕ → ℕ → Frame
page size node paddr = record { base = paddr; size = size; affinity = node }

abbrev pub allocate : ℕ → ℕ → List ℕ → Outcome Frame × List ℕ
allocate size node [] = (err cache_exhausted, [])
allocate size node (x ∷ s) = (ok (page size node x), s)

-- Giving pages back: all of them if they fit, and otherwise the first that do.
abbrev pub release : ℕ → List ℕ → List ℕ → Outcome (Unit {0}) × List ℕ
release cap xs s =
    (if leb (length xs) (cap - length s) then ok tt else err cache_full, filled cap xs s)

-- Taking pages: the slots at the front hold the pages from the top.
abbrev pub reap : ℕ → ℕ → List (Option Frame) → List ℕ → Outcome (List (Option Frame)) × List ℕ
reap size node slots s =
    let n = length slots in
    (ok (map (λ x. some (page size node x)) (take n s) ++ drop (length s) slots), drop n s)

-- How a frame is divided: the pages below the first boundary of a large page, at most `how_many`
-- large pages, and the pages of the rest.
pub record Division : Type 0 where
  pub low : List ℕ
  pub large : List ℕ
  pub high : List ℕ

abbrev pub divide : Frame → ℕ → Division
divide f how_many =
    let cut = min (to_boundary f.base) f.size in
    let k = min (max 1 how_many) ((f.size - cut) / large_page_size) in
    let rest = f.size - cut - k * large_page_size in
    record {
      low = addresses (cut / base_page_size) f.base base_page_size;
      large = addresses k (f.base + cut) large_page_size;
      high = addresses (rest / base_page_size) (f.base + cut + k * large_page_size) base_page_size;
    }

pub addresses-eq : (n b c step : ℕ) → (0 < n → b ≡ c) → addresses n b step ≡ addresses n c step
addresses-eq zero b c step h = refl
addresses-eq (suc n) b c step h = rw (h (omega arith))

pub addresses-cong :
    (m n b c step : ℕ) → m ≡ n → (0 < m → b ≡ c) → addresses m b step ≡ addresses n c step
addresses-cong m n b c step e h = addresses-eq m b c step h ∙ ap (λ k. addresses k c step) e

pub filled-room :
    (cap x : ℕ) (xs s : List ℕ) → length s < cap → filled cap (x ∷ xs) s ≡ filled cap xs (x ∷ s)
filled-room cap x xs s h =
    let e : cap - length s ≡ suc (cap - length (x ∷ s)) = omega arith in
    ap (λ n. pushed (take n (x ∷ xs)) s) e

pub filled-full : (cap : ℕ) (xs s : List ℕ) → cap ≤ length s → filled cap xs s ≡ s
filled-full cap xs s h =
    let e : cap - length s ≡ 0 = omega arith in ap (λ n. pushed (take n xs) s) e

pub filled-nil : (cap : ℕ) (s : List ℕ) → filled cap [] s ≡ s
filled-nil cap s = ap (λ xs. pushed xs s) (take-none (cap - length s))
  where
    take-none : (n : ℕ) → take {A = ℕ} n [] ≡ []
    take-none zero = refl
    take-none (suc n) = refl

pub release-nil : (cap : ℕ) (s : List ℕ) → release cap [] s ≡ (ok tt, s)
release-nil cap s = let e : leb 0 (cap - length s) ≡ true = ground arith in rw (e, filled-nil cap s)

pub release-room :
    (cap x : ℕ) (xs s : List ℕ) → length s < cap → release cap (x ∷ xs) s ≡ release cap xs (x ∷ s)
release-room cap x xs s h =
    let e : leb (length (x ∷ xs)) (cap - length s) ≡ leb (length xs) (cap - length (x ∷ s)) =
      ground arith in
    rw (filled-room cap x xs s h, e)

pub release-full :
    (cap x : ℕ) (xs s : List ℕ) → cap ≤ length s → release cap (x ∷ xs) s ≡ (err cache_full, s)
release-full cap x xs s h =
    let e : leb (length (x ∷ xs)) (cap - length s) ≡ false = ground arith in
    rw (filled-full cap (x ∷ xs) s h, e)
