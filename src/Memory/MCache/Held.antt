-- ===== src/Memory/MCache/Held.antt =====
-- The memory in a page cache of `kernel/src/memory/mcache.rs`: how many of its pages hold an address.
use node_replicated_kernel.Prelude.{
  ℕ, zero, suc, ◌+◌, ◌-◌, ◌*◌, ◌/◌, ◌≤◌, ◌≡◌, refl, ap, sym, subst, Option, none, some, List, [],
  ◌∷◌, ◌++◌, map, length, take, drop, min, max, All, leb, ltb, ◌&&◌, if◌then◌else◌, base_page_size,
  large_page_size, arith,
}
use node_replicated_kernel.Prelude.Outcome.{ok}
use node_replicated_kernel.Memory.Frame.{Frame}
use node_replicated_kernel.Memory.Frame.Split.{IsFrame, to_boundary}
use node_replicated_kernel.Memory.ArrayVec.{ArrayVec}
use node_replicated_kernel.Memory.MCache.{MCache}
use node_replicated_kernel.Memory.MCache.Stack.{
  pushed, filled, addresses, page, allocate, divide, Division,
}
use node_replicated_kernel.Memory.MCache.Pages.{IsPage}
use node_replicated_kernel.Memory.MCache.Spec.{
  Op, allocate_base, allocate_large, release_base, release_large, grow_base, grow_large, reap_base,
  reap_large, populate_4k, populate_2m, Reply, frame, slots, Cache, spec_step, spec_run, beyond,
  divided, IsOp, IsAligned, run,
}
use node_replicated_kernel.Memory.MCache.Alignment.{spec_step-IsAligned}
use node_replicated_kernel.Memory.MCache.Refine.{contents, run-spec_run}

-- 1 if the address `a` is in the block of `size` bytes from `base` on, and 0 if not.
abbrev pub inside : ℕ → ℕ → ℕ → ℕ
inside size base a = if leb base a && ltb a (base + size) then 1 else 0

module _ (a : ℕ) where
  -- How many of the pages hold `a`.
  abbrev pub held : ℕ → List ℕ → ℕ
  held size [] = 0
  held size (x ∷ xs) = inside size x a + held size xs

  abbrev pub owned : Cache → ℕ
  owned c = held base_page_size c.bases + held large_page_size c.larges

  abbrev pub in_frames : List Frame → ℕ
  in_frames [] = 0
  in_frames (f ∷ fs) = inside f.size f.base a + in_frames fs

  abbrev pub in_slots : List (Option Frame) → ℕ
  in_slots [] = 0
  in_slots (none ∷ ss) = in_slots ss
  in_slots (some f ∷ ss) = inside f.size f.base a + in_slots ss

  -- How many of the blocks that a call is given hold `a`, and of those that it returns.
  abbrev pub given : Op → ℕ
  given allocate_base = 0
  given allocate_large = 0
  given (release_base f) = inside f.size f.base a
  given (release_large f) = inside f.size f.base a
  given (grow_base fs) = in_frames fs
  given (grow_large fs) = in_frames fs
  given (reap_base ss) = in_slots ss
  given (reap_large ss) = in_slots ss
  given (populate_4k f) = inside f.size f.base a
  given (populate_2m f) = inside f.size f.base a

  abbrev pub handed : Reply → ℕ
  handed (frame (ok f)) = inside f.size f.base a
  handed (slots (ok ss)) = in_slots ss
  handed _ = 0

  abbrev pub given_all : List Op → ℕ
  given_all [] = 0
  given_all (op ∷ ops) = given op + given_all ops

  abbrev pub handed_all : List Reply → ℕ
  handed_all [] = 0
  handed_all (r ∷ rs) = handed r + handed_all rs

  inside-add : (s m b : ℕ) → inside s b a + inside m (b + s) a ≡ inside (s + m) b a
  inside-add s m b = ground arith

  pub held-pushed :
      (size : ℕ) (xs s : List ℕ) → held size (pushed xs s) ≡ held size xs + held size s
  held-pushed size [] s = omega arith
  held-pushed size (x ∷ xs) s = omega (arith, held-pushed size xs (x ∷ s))

  held-take :
      (size n : ℕ) (xs : List ℕ) → held size (take n xs) + held size (drop n xs) ≡ held size xs
  held-take size zero xs = omega arith
  held-take size (suc n) [] = refl
  held-take size (suc n) (x ∷ xs) = omega (arith, held-take size n xs)

  held-allocate :
      (size node : ℕ) (s : List ℕ)
      → handed (frame (allocate size node s).0) + held size (allocate size node s).1 ≡ held size s
  held-allocate size node [] = refl
  held-allocate size node (x ∷ s) = refl

  held-filled-le :
      (size cap : ℕ) (xs s : List ℕ) → held size (filled cap xs s) ≤ held size xs + held size s
  held-filled-le size cap xs s =
      omega
        (arith, held-pushed size (take (cap - length s) xs) s, held-take size (cap - length s) xs)

  held-addresses : (size n b : ℕ) → held size (addresses n b size) ≡ inside (n * size) b a
  held-addresses size zero b = let e : 0 * size ≡ 0 = grind arith in ground arith
  held-addresses size (suc n) b =
      let e : suc n * size ≡ size + n * size = grind arith in
      omega (
        arith,
        held-addresses size n (b + size),
        inside-add size (n * size) b,
        ap (λ k. inside k b a) e,
      )

  held-bases :
      (size node : ℕ) (fs : List Frame)
      → All (IsPage size node) fs
      → held size (map (λ f. f.base) fs) ≡ in_frames fs
  held-bases size node [] h = refl
  held-bases size node (f ∷ fs) h =
      rw h.0.0 (ap (λ k. inside size f.base a + k) (held-bases size node fs h.1))

  in_slots-reap :
      (size node : ℕ) (ss : List (Option Frame)) (s : List ℕ)
      → in_slots (map (λ x. some (page size node x)) (take (length ss) s) ++ drop (length s) ss)
        ≤ held size (take (length ss) s) + in_slots ss
  in_slots-reap size node [] [] = omega arith
  in_slots-reap size node [] (x ∷ s) = omega arith
  in_slots-reap size node (slot ∷ ss) [] = omega arith
  in_slots-reap size node (none ∷ ss) (x ∷ s) = omega (arith, in_slots-reap size node ss s)
  in_slots-reap size node (some f ∷ ss) (x ∷ s) = omega (arith, in_slots-reap size node ss s)

  -- A division of a frame holds what the frame holds.
  pub held-divide :
      (f : Frame) (how_many : ℕ)
      → IsFrame f
      → (let d = divide f how_many in
          held base_page_size d.low + held large_page_size d.large + held base_page_size d.high)
        ≡ inside f.size f.base a
  held-divide f how_many i =
      let cut = min (to_boundary f.base) f.size in
      let k = min (max 1 how_many) ((f.size - cut) / large_page_size) in
      let rest = f.size - cut - k * large_page_size in
      let low : inside (cut / base_page_size * base_page_size) f.base a ≡ inside cut f.base a =
        ap (λ n. inside n f.base a) (omega (arith, i.based, i.sized)) in
      let high : inside (rest / base_page_size * base_page_size)
            (f.base + cut + k * large_page_size) a
          ≡ inside rest (f.base + cut + k * large_page_size) a =
        ap (λ n. inside n (f.base + cut + k * large_page_size) a)
          (omega (arith, i.based, i.sized)) in
      let all : cut + (k * large_page_size + rest) ≡ f.size = omega arith in
      omega (
        arith,
        low,
        high,
        held-addresses base_page_size (cut / base_page_size) f.base,
        held-addresses large_page_size k (f.base + cut),
        held-addresses base_page_size (rest / base_page_size) (f.base + cut + k * large_page_size),
        inside-add (k * large_page_size) rest (f.base + cut),
        inside-add cut (k * large_page_size + rest) f.base,
        ap (λ n. inside n f.base a) all,
      )

  divided-le :
      (bp lp : ℕ) (f : Frame) (how_many : ℕ) (c : Cache)
      → IsFrame f
      → owned (divided bp lp (divide f how_many) c) ≤ owned c + inside f.size f.base a
  divided-le bp lp f how_many c i =
      let d : Division = divide f how_many in
      omega (
        arith,
        held-divide f how_many i,
        held-filled-le base_page_size bp d.high (filled bp d.low c.bases),
        held-filled-le base_page_size bp d.low c.bases,
        held-filled-le large_page_size lp d.large c.larges,
      )

  -- A step of the stacks duplicates nothing.
  spec_step-le :
      (bp lp : ℕ) (op : Op) (c : Cache)
      → IsOp c.node op
      → (let (r, d) = spec_step bp lp op c in handed r + owned d) ≤ owned c + given op
  spec_step-le bp lp allocate_base c i = omega (arith, held-allocate base_page_size c.node c.bases)
  spec_step-le bp lp allocate_large c i =
      omega (arith, held-allocate large_page_size c.node c.larges)
  spec_step-le bp lp (release_base f) c i = omega (
    arith,
    held-filled-le base_page_size bp (f.base ∷ []) c.bases,
    ap (λ n. inside n f.base a) i.0,
  )
  spec_step-le bp lp (release_large f) c i = omega (
    arith,
    held-filled-le large_page_size lp (f.base ∷ []) c.larges,
    ap (λ n. inside n f.base a) i.0,
  )
  spec_step-le bp lp (grow_base fs) c i = omega (
    arith,
    held-filled-le base_page_size bp (map (λ f. f.base) fs) c.bases,
    held-bases base_page_size c.node fs i,
  )
  spec_step-le bp lp (grow_large fs) c i = omega (
    arith,
    held-filled-le large_page_size lp (map (λ f. f.base) fs) c.larges,
    held-bases large_page_size c.node fs i,
  )
  spec_step-le bp lp (reap_base ss) c i = omega (
    arith,
    in_slots-reap base_page_size c.node ss c.bases,
    held-take base_page_size (length ss) c.bases,
  )
  spec_step-le bp lp (reap_large ss) c i = omega (
    arith,
    in_slots-reap large_page_size c.node ss c.larges,
    held-take large_page_size (length ss) c.larges,
  )
  spec_step-le bp lp (populate_4k f) c i = omega (arith, divided-le bp lp f (beyond bp f) c i.0)
  spec_step-le bp lp (populate_2m f) c i =
      omega (arith, divided-le bp lp f (f.size / large_page_size * 87 / 100) c i.0)

  spec_run-le :
      (bp lp : ℕ) (ops : List Op) (c : Cache)
      → All (IsOp c.node) ops
      → IsAligned c
      → handed_all (spec_run bp lp ops c) ≤ owned c + given_all ops
  unfolding spec_run
  spec_run-le bp lp [] c i a' = omega arith
  spec_run-le bp lp (op ∷ ops) c i a' =
      let (b, n) = spec_step-IsAligned bp lp op c a' i.0 in
      let is_op = subst (λ k. All (IsOp k) ops) (sym n) i.1 in
      omega (arith, spec_step-le bp lp op c i.0, spec_run-le bp lp ops _ is_op b)

-- Whatever its operations, a cache hands out an address at most as often as it held it at first and
-- was given it since.
pub handed-le-given :
    {bp lp : ℕ} (base : ArrayVec bp) (large : ArrayVec lp) (ops : List Op) (c : MCache base large)
    → IsAligned (contents base large c)
    → All (IsOp c.node) ops
    → (a : ℕ)
    → handed_all a (run base large ops c) ≤ owned a (contents base large c) + given_all a ops
handed-le-given {bp} {lp} base large ops c al i a =
    rw (run-spec_run base large ops c al i) (spec_run-le a bp lp ops (contents base large c) i al)
