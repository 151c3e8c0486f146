-- ===== src/Fs/File/Grow.antt =====
-- `File::increase_file_size`: a file grows by zeros to the new length, or by some of them if the
-- allocator refuses a request on the way.
use node_replicated_kernel.Prelude.{
  ℕ, ◌+◌, ◌-◌, ◌≤◌, ◌<◌, ◌≡◌, refl, sym, ap, ◌∙◌, ◌⊎◌, inl, inr, false, List, [], ◌∷◌, ◌++◌,
  append_assoc, append-nil, length, replicate, leb, ◌==◌, Bool-cases, length-replicate,
  replicate-append, length-append, base_page_size, sub64, word, arith,
}
use node_replicated_kernel.Prelude.Outcome.{Outcome, ok, err, out_of_memory, Heap, Refusal}
use node_replicated_kernel.Fs.File.{
  Buffer, File, Store, last_len, set_last, grow_last, append_buffers, add_buffers, free_in_last,
  increase_file_size,
}
use node_replicated_kernel.Fs.File.Chunks.{
  bytes, Chunks, Full, bytes-append, length-bytes-Full, Chunks-append, last_len_bounds,
  bytes-set_last, Chunks-set_last, Full-set_last,
}
use node_replicated_kernel.Fs.File.Size.{size_of-bytes}
use node_replicated_kernel.Fs.File.Fill.{new_buffers_for-Gives, resize_last-Gives, ceil_lem}

-- A step on a file and the allocator: the file grew by `n` bytes, or by at most `n` and the
-- allocator refused.
pub data Grown (f : File) (h : Heap) (n : ℕ) (r : Outcome (Unit {0}) × Store) : Type 0 where
  grown :
      (m : List Buffer) (g : Heap)
      → r ≡ (ok tt, (record f { mcache = m }, g))
      → Chunks m
      → bytes m ≡ bytes f.mcache ++ replicate n 0
      → Grown f h n r
  refused :
      (m : List Buffer) (g : Heap) (k : ℕ)
      → r ≡ (err out_of_memory, (record f { mcache = m }, g))
      → Refusal h
      → Chunks m
      → k ≤ n
      → bytes m ≡ bytes f.mcache ++ replicate k 0
      → Grown f h n r

-- The last buffer resized, or the file as it was.
grow_last-cases :
    (n : ℕ) (b : Buffer) (m : List Buffer) (modes : ℕ) (h : Heap)
    → ((g : Heap) × (grow_last n (record { mcache = b ∷ m; modes = modes }, h)
          ≡ (ok tt, (record { mcache = set_last n (b ∷ m); modes = modes }, g)))
        × (Refusal g → Refusal h))
      ⊎ ((g : Heap) × (grow_last n (record { mcache = b ∷ m; modes = modes }, h)
            ≡ (err out_of_memory, (record { mcache = b ∷ m; modes = modes }, g)))
          × Refusal h)
unfolding grow_last
grow_last-cases n b m modes h = elim (resize_last-Gives n b m h) [
  | inl (g, p, s) ↦ inl (g, rw p refl, s)
  | inr (g, p, s) ↦ inr (g, rw p refl, s)
]

Full-Chunks : (m : List Buffer) → Full m → Chunks m
Full-Chunks [] v = tt
Full-Chunks (b ∷ []) v = omega (arith, v.0)
Full-Chunks (b ∷ c ∷ m) v = (v.0, Full-Chunks (c ∷ m) v.1)

pub append-zeros : (l : List ℕ) → l ++ replicate 0 0 ≡ l
unfolding replicate
append-zeros l = append-nil l

more_zeros :
    (f : File) (m : List Buffer) (a n : ℕ)
    → bytes m ≡ bytes f.mcache ++ replicate a 0
    → bytes m ++ replicate n 0 ≡ bytes f.mcache ++ replicate (a + n) 0
more_zeros f m a n e =
    ap (λ l. l ++ replicate n 0) e
    ∙ append_assoc (bytes f.mcache) (replicate a 0) (replicate n 0)
    ∙ ap (◌++◌ (bytes f.mcache)) (replicate-append a n 0)

append_buffers-Grown :
    (f : File) (h : Heap) (new_len r : ℕ)
    → Full f.mcache
    → length (bytes f.mcache) + r ≡ new_len
    → 0 < r
    → new_len < word
    → Grown f h r (append_buffers new_len r (f, h))
unfolding append_buffers
append_buffers-Grown f h new_len r v total pos fits =
    let m = f.mcache in
    let size = length (bytes m) in
    let (q, e, low, high) = ceil_lem r pos in
    let sized = length-bytes-Full m v in
    let (vec, gives, held) =
      new_buffers_for-Gives new_len size (length m) r q sized total low high fits in
    rw (e, size_of-bytes m (Full-Chunks m v))
      (elim (gives h) [
        | inl (g, p, s) ↦
            grown (m ++ vec) g (rw p refl) (Chunks-append m vec v held.0)
              (bytes-append m vec ∙ ap (◌++◌ (bytes m)) held.1)
        | inr (g, p, s) ↦
            refused m g 0 (rw p refl) s (Full-Chunks m v) (omega arith)
              (sym (append-zeros (bytes m)))
      ])

-- A file that grew by `a` zeros and then by `n`.
Grown-after :
    (f : File) (m : List Buffer) (h g : Heap) (a n : ℕ) (r : Outcome (Unit {0}) × Store)
    → (Refusal g → Refusal h)
    → bytes m ≡ bytes f.mcache ++ replicate a 0
    → Grown (record f { mcache = m }) g n r
    → Grown f h (a + n) r
Grown-after f m h g a n r s e (grown m' k p c q) = grown m' k p c (q ∙ more_zeros f m a n e)
Grown-after f m h g a n r s e (refused m' k j p t c l q) =
    refused m' k (a + j) p (s t) c (omega arith) (q ∙ more_zeros f m a j e)

add_buffers-Grown :
    (m : List Buffer) (modes : ℕ) (h : Heap) (new_len n r : ℕ)
    → Chunks m
    → length (bytes m) + n ≡ new_len
    → free_in_last m + r ≡ n
    → 0 < r
    → new_len < word
    → Grown
        (record { mcache = m; modes = modes })
        h
        n
        (add_buffers new_len r (record { mcache = m; modes = modes }, h))
unfolding add_buffers
add_buffers-Grown [] modes h new_len n r v total split pos fits =
    let e : r ≡ n = omega arith in
    rw e (
      append_buffers-Grown (record { mcache = []; modes = modes }) h new_len n tt total
        (omega arith) fits)
add_buffers-Grown (b ∷ m) modes h new_len n r v total split pos fits =
    let free : ℕ = base_page_size - last_len (b ∷ m) in
    let bounds = last_len_bounds b m v in
    let top : last_len (b ∷ m) + free ≡ base_page_size = omega arith in
    let filled = set_last base_page_size (b ∷ m) in
    let zeros : bytes filled ≡ bytes (b ∷ m) ++ replicate free 0 =
      rw top at (bytes-set_last b m free) in
    let occupied : (length (b ∷ m) == 0) ≡ false = ground arith in
    elim (grow_last-cases base_page_size b m modes h) [
      | inl (g, p, s) ↦
          rw (occupied, p, ← split)
            (Grown-after _ filled h g free r _ s zeros (
              append_buffers-Grown (record { mcache = filled; modes = modes }) g new_len r
                (Full-set_last (b ∷ m) v)
                (omega (
                  arith,
                  total,
                  split,
                  ap length zeros,
                  length-append (bytes (b ∷ m)) (replicate free 0),
                  length-replicate {A = ℕ} free 0,
                ))
                pos fits))
      | inr (g, p, s) ↦
          rw (occupied, p)
            (refused (b ∷ m) g 0 refl s v (omega arith) (sym (append-zeros (bytes (b ∷ m)))))
    ]

-- `increase_file_size` on a well-formed file of less than `new_len` bytes.
pub increase-Grown :
    (m : List Buffer) (modes : ℕ) (h : Heap) (n : ℕ)
    → Chunks m
    → 0 < n
    → length (bytes m) + n < word
    → Grown
        (record { mcache = m; modes = modes })
        h
        n
        (increase_file_size
          (length (bytes m))
          (length (bytes m) + n)
          (record { mcache = m; modes = modes }, h))
unfolding increase_file_size
increase-Grown [] modes h n v pos fits =
    let e : sub64 (length (bytes []) + n) (length (bytes [])) ≡ n = omega arith in
    let some_len : (length (bytes []) + n == 0) ≡ false = ground arith in
    let more : leb n (free_in_last []) ≡ false = ground arith in
    rw (e, some_len, more)
      (add_buffers-Grown [] modes h _ n (n - free_in_last []) v refl (omega arith) (omega arith)
        fits)
increase-Grown (b ∷ m) modes h n v pos fits =
    let size : ℕ = length (bytes (b ∷ m)) in
    let e : sub64 (size + n) size ≡ n = omega arith in
    let some_len : (size + n == 0) ≡ false = ground arith in
    let bounds = last_len_bounds b m v in
    rw (e, some_len)
      (elim (Bool-cases (leb n (base_page_size - last_len (b ∷ m)))) [
        | inl fit ↦ rw fit (elim (grow_last-cases (last_len (b ∷ m) + n) b m modes h) [
          | inl (g, p, s) ↦ rw p (
              grown (set_last (last_len (b ∷ m) + n) (b ∷ m)) g refl
                (Chunks-set_last (last_len (b ∷ m) + n) (b ∷ m) v (omega arith) (ground arith))
                (bytes-set_last b m n))
          | inr (g, p, s) ↦
              rw p (refused (b ∷ m) g 0 refl s v (omega arith) (sym (append-zeros (bytes (b ∷ m)))))
        ])
        | inr more ↦ rw more (
            add_buffers-Grown (b ∷ m) modes h _ n (n - (base_page_size - last_len (b ∷ m))) v refl
              (ground arith) (ground arith) fits)
      ])
