-- ===== src/Syscall/Mapped.antt =====
-- What mapping memory in `kernel/src/arch/x86_64/syscall.rs` gives.
use node_replicated_kernel.Prelude.{
  ℕ, zero, suc, ◌+◌, ◌*◌, ◌<◌, ◌≤◌, ◌≡◌, refl, subst, Option, none, some, add64-eq_add, word,
  base_page_size, large_page_size, arith,
}
use node_replicated_kernel.Prelude.Outcome.{Outcome, ok, err, panic, stuck, Comp, chain, unwrap}
use node_replicated_kernel.Memory.Frame.{Frame}
use node_replicated_kernel.Memory.Refill.{MemType, size_to_pages}
use node_replicated_kernel.Memory.Refill.Sizes.{size_to_pages-bounds}
use node_replicated_kernel.Memory.Action.{read_write_user}
use node_replicated_kernel.NrProcess.Calls.{map_frames}
use node_replicated_kernel.NrProcess.Answers.{Value}
use node_replicated_kernel.Syscall.Vspace.{
  Spaces, Batch, no_frames, add_frame, expect, take_frames, map_batch, map_pages, map_memory,
}

expect-Value :
    {A S : Type 0} (P : A → Type 0) (r : Outcome A × S) → Value P r.0 → Value P (expect r).0
expect-Value P (ok a, s) h = h
expect-Value P (err e, s) h = tt
expect-Value P (panic, s) h = tt
expect-Value P (stuck, s) h = tt

bind-Value :
    {S X Y : Type 0} (P : X → Type 0) (Q : Y → Type 0) (o : Outcome X × S) (f : X → Comp S Y)
    → Value P o.0
    → ((x : X) (s : S) → P x → Value Q (f x s).0)
    → Value Q (chain o f).0
bind-Value P Q (ok x, s) f h k = k x s h
bind-Value P Q (err x, s) f h k = tt
bind-Value P Q (panic, s) f h k = tt
bind-Value P Q (stuck, s) f h k = tt

any-Value : {A : Type 0} (o : Outcome A) → Value (λ a. Unit {0}) o
any-Value (ok a) = tt
any-Value (err e) = tt
any-Value panic = tt
any-Value stuck = tt

unwrap-Value : (o : Option ℕ) → Value (λ p. o ≡ some p) (unwrap o)
unwrap-Value none = tt
unwrap-Value (some p) = refl

-- Frames for `n` bytes, and one exactly if there are any.
abbrev pub Holds : ℕ → Batch → Type 0
Holds n b = (b.total_len ≡ n) × ((p : ℕ) → b.paddr ≡ some p → 0 < n)

add_frame-Holds :
    (f : Frame) (size m : ℕ) (b : Batch)
    → f.size ≡ size
    → 0 < size
    → m + size < word
    → Holds m b
    → Holds (m + size) (add_frame f b)
add_frame-Holds f size m b e some_bytes fits (total, first) =
    (rw (total, e) (add64-eq_add m size fits), λ p q. omega arith)

take_frames-Holds :
    {S : Type 0} (allocate : Comp S Frame) (size n m : ℕ) (b : Batch) (s : S)
    → ((s : S) → Value (λ f. f.size ≡ size) (allocate s).0)
    → 0 < size
    → m + n * size < word
    → Holds m b
    → Value (Holds (m + n * size)) (take_frames allocate n b s).0
unfolding take_frames
take_frames-Holds allocate size zero m b s a h fits held =
    let e : m ≡ m + 0 * size = omega arith in subst (λ k. Holds k b) e held
take_frames-Holds allocate size (suc n) m b s a h fits held =
    let e : m + size + n * size ≡ m + suc n * size = ground arith in
    let g : m + size + n * size < word = rw e fits in
    subst (λ k. Value (Holds k) (take_frames allocate (suc n) b s).0) e
      (bind-Value (λ f. f.size ≡ size) (Holds (m + size + n * size)) (expect (allocate s))
        (λ f. take_frames allocate n (add_frame f b))
        (expect-Value (λ f. f.size ≡ size) (allocate s) (a s))
        (λ f s q.
          take_frames-Holds allocate size n (m + size) (add_frame f b) s a h g
            (add_frame-Holds f size m b q h (omega (arith, g)) held)))

-- What mapping `size` bytes reports.
abbrev pub Rounded : ℕ → ℕ × ℕ → Type 0
Rounded size v = (0 < size) × (size ≤ v.1) × (v.1 < size + base_page_size)

module _ {S E M I : Type 0} (k : Spaces S E M I) where
  map_batch-Rounded :
      (size n pid base : ℕ) (b : Batch) (s : S)
      → Holds n b
      → size ≤ n
      → n < size + base_page_size
      → (0 < n → 0 < size)
      → Value (Rounded size) (map_batch k pid base b s).0
  map_batch-Rounded size n pid base b s (total, first) lo hi some_bytes =
      bind-Value (λ _. Unit {0}) (Rounded size)
        (expect (map_frames k.execute_mut k.execute pid base b.frames read_write_user s))
        (λ _ s. chain (unwrap b.paddr, s) λ paddr s. (ok (paddr, b.total_len), s)) (any-Value _)
        (λ _ s _.
          bind-Value (λ p. b.paddr ≡ some p) (Rounded size) (unwrap b.paddr, s)
            (λ paddr s. (ok (paddr, b.total_len), s)) (unwrap-Value b.paddr)
            (λ p s q. (some_bytes (first p q), rw total lo, rw total hi)))

  map_pages-Rounded :
      (mem_type : MemType) (pid base size bp lp : ℕ) (s : S)
      → size ≤ bp * base_page_size + lp * large_page_size
      → bp * base_page_size + lp * large_page_size < size + base_page_size
      → (0 < bp * base_page_size + lp * large_page_size → 0 < size)
      → size + base_page_size < word
      → ((s : S) → Value (λ f. f.size ≡ base_page_size) (k.allocate_base_page mem_type s).0)
      → ((s : S) → Value (λ f. f.size ≡ large_page_size) (k.allocate_large_page mem_type s).0)
      → Value (Rounded size) (map_pages k mem_type pid base bp lp s).0
  map_pages-Rounded mem_type pid base size bp lp s lo hi some_bytes fits pages large_pages =
      let large_bytes = 0 + lp * large_page_size in
      bind-Value (Holds large_bytes) (Rounded size)
        (take_frames (k.allocate_large_page mem_type) lp no_frames s)
        (λ large s.
          chain (take_frames (k.allocate_base_page mem_type) bp large s) (map_batch k pid base))
        (take_frames-Holds (k.allocate_large_page mem_type) large_page_size lp 0 no_frames s
          large_pages (omega arith) (omega arith) (refl, λ p q. cc))
        (λ large s held.
          bind-Value (Holds (large_bytes + bp * base_page_size)) (Rounded size)
            (take_frames (k.allocate_base_page mem_type) bp large s) (map_batch k pid base)
            (take_frames-Holds (k.allocate_base_page mem_type) base_page_size bp large_bytes large s
              pages (omega arith) (omega arith) held)
            (λ all s both.
              map_batch-Rounded size (large_bytes + bp * base_page_size) pid base all s both
                (omega arith) (omega arith) (λ h. some_bytes (omega arith))))

  -- Mapping memory, from frames of the sizes of pages, reports a value only if some bytes are asked
  -- for, and then a size that holds them, with less than a page to spare.
  pub map_memory-Rounded :
      (mem_type : MemType) (pid base size : ℕ) (s : S)
      → size + base_page_size < word
      → ((s : S) → Value (λ f. f.size ≡ base_page_size) (k.allocate_base_page mem_type s).0)
      → ((s : S) → Value (λ f. f.size ≡ large_page_size) (k.allocate_large_page mem_type s).0)
      → Value (Rounded size) (map_memory k mem_type pid base size s).0
  unfolding map_memory
  map_memory-Rounded mem_type pid base size s fits pages large_pages =
      let (bp, lp) = size_to_pages size in
      let (lo, hi, few, any) = size_to_pages-bounds size in
      bind-Value (λ _. Unit {0}) (Rounded size) (k.try_with_capacity (bp + lp) s)
        (λ _ s.
          chain (k.try_refill_tcache (20 + bp) lp mem_type s)
            λ _. map_pages k mem_type pid base bp lp)
        (any-Value _)
        (λ _ s _.
          bind-Value (λ _. Unit {0}) (Rounded size) (k.try_refill_tcache (20 + bp) lp mem_type s)
            (λ _. map_pages k mem_type pid base bp lp) (any-Value _)
            (λ _ s _.
              map_pages-Rounded mem_type pid base size bp lp s lo hi any fits pages large_pages))
