-- ===== src/Fs/File/Access.antt =====
-- A range of one buffer of `kernel/src/fs/file.rs` is a range of the file.
use native.Mathlib.Nat.{zero-add}
use node_replicated_kernel.Prelude.{
  ℕ, zero, suc, ◌+◌, ◌-◌, ◌*◌, ◌≤◌, ◌<◌, ◌≡◌, sym, ap, ◌∙◌, List, [], ◌∷◌, ◌++◌, some, length,
  get_elem?, set, take, drop, base_page_size, overwrite, overwrite-append_left,
  overwrite-append_right, take-append_left, drop-append_right, sub64, word, ◌⊎◌, min, arith,
}
use node_replicated_kernel.Fs.File.{Buffer, chunk_len}
use node_replicated_kernel.Fs.File.Chunks.{bytes, Chunks}

-- A position in a later buffer, counted from the second.
shift :
    (b : Buffer) (i o : ℕ)
    → length b ≡ base_page_size
    → suc i * base_page_size + o ≡ length b + (i * base_page_size + o)
shift b i o h = omega arith

pub bytes-set :
    (m : List Buffer) (i o : ℕ) (b : Buffer) (c : List ℕ)
    → get_elem? m i ≡ some b
    → Chunks m
    → o + length c ≤ length b
    → bytes (set m i (overwrite b o c)) ≡ overwrite (bytes m) (i * base_page_size + o) c
bytes-set [] i o b c e v h = cc
bytes-set (x ∷ m) zero o b c e v h =
    let same : x ≡ b = cc in rw (same, zero-add o) (sym (overwrite-append_left b (bytes m) o c h))
bytes-set (x ∷ []) (suc i) o b c e v h = cc
bytes-set (x ∷ y ∷ m) (suc i) o b c e v h = rw (shift x i o v.0) (
    ap (◌++◌ x) (bytes-set (y ∷ m) i o b c e v.1 h)
    ∙ sym (overwrite-append_right x (bytes (y ∷ m)) (i * base_page_size + o) c))

pub take-bytes :
    (m : List Buffer) (i o k : ℕ) (b : Buffer)
    → get_elem? m i ≡ some b
    → Chunks m
    → o + k ≤ length b
    → take k (drop (i * base_page_size + o) (bytes m)) ≡ take k (drop o b)
take-bytes [] i o k b e v h = cc
take-bytes (x ∷ m) zero o k b e v h =
    let same : x ≡ b = cc in rw (same, zero-add o) (take-append_left k o b (bytes m) h)
take-bytes (x ∷ []) (suc i) o k b e v h = cc
take-bytes (x ∷ y ∷ m) (suc i) o k b e v h =
    rw (shift x i o v.0, drop-append_right x (bytes (y ∷ m)) (i * base_page_size + o))
      (take-bytes (y ∷ m) i o k b e v.1 h)

-- The length of one round of a loop over the buffers: it ends within the buffer, and if bytes
-- remain then the next round starts where the next buffer does.
pub record Round (size num start r n : ℕ) : Type 0 where
  pub some_bytes : 0 < n
  pub within : start + n ≤ size
  pub at_most : n ≤ r
  pub next : 0 < r - n → (num + 1) * base_page_size + 0 ≡ num * base_page_size + start + n

pub round :
    (size num start r total : ℕ)
    → (size ≡ base_page_size) ⊎ (num * base_page_size + size ≡ total)
    → start < base_page_size
    → 0 < r
    → num * base_page_size + start + r ≤ total
    → total < word
    → (chunk_len (sub64 size start) r ≡ min (size - start) r)
      × Round size num start r (min (size - start) r)
round size num start r total full s pos h fits = (
  ground arith,
  record {
    some_bytes = ground arith;
    within = ground arith;
    at_most = omega arith;
    next = λ more. ground arith;
  },
)
