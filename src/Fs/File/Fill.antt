-- ===== src/Fs/File/Fill.antt =====
-- The new buffers of `File::increase_file_size` of `kernel/src/fs/file.rs`: pages of zeros, the
-- last one cut to the bytes that it holds.
use native.Mathlib.Nat.{zero-add}
use node_replicated_kernel.Prelude.{
  ℕ, zero, suc, ◌+◌, ◌-◌, ◌*◌, ◌/◌, ◌%◌, ◌≤◌, ◌<◌, ◌≡◌, refl, ap, ◌∙◌, subst, inl, inr, List, [],
  ◌∷◌, ◌++◌, append_assoc, append-nil, length, replicate, ◌==◌, Bool-cases, length-replicate,
  replicate-append, base_page_size, sub64, word, arith,
}
use node_replicated_kernel.Prelude.Outcome.{
  ok, give, Heap, Gives, Gives-bind, request-Gives, give-Gives,
}
use node_replicated_kernel.Fs.File.{
  Buffer, resize, set_last, resize_last, fill, trim, ceil, new_buffers_for, try_alloc_buffer,
}
use node_replicated_kernel.Fs.File.Chunks.{bytes, Chunks, Full, take-replicate, Chunks-set_last}

-- A page of zeros.
abbrev page : Buffer
page = replicate base_page_size 0

abbrev pages : ℕ → List Buffer
pages n = replicate n page

Full-pages : (n : ℕ) → Full (pages n)
unfolding replicate
Full-pages zero = tt
Full-pages (suc n) = (length-replicate {A = ℕ} base_page_size 0, Full-pages n)

Chunks-pages : (n : ℕ) → Chunks (pages n)
unfolding replicate
Chunks-pages zero = tt
Chunks-pages (suc zero) = omega (arith, length-replicate {A = ℕ} base_page_size 0)
Chunks-pages (suc (suc n)) = (length-replicate {A = ℕ} base_page_size 0, Chunks-pages (suc n))

bytes-pages : (n : ℕ) → bytes (pages n) ≡ replicate (n * base_page_size) 0
unfolding replicate
bytes-pages zero = refl
bytes-pages (suc n) =
    let e : base_page_size + n * base_page_size ≡ suc n * base_page_size = omega arith in
    ap (◌++◌ page) (bytes-pages n)
    ∙ replicate-append base_page_size (n * base_page_size) 0
    ∙ ap (λ k. replicate k 0) e

resize-page : (k : ℕ) → k ≤ base_page_size → resize page k ≡ replicate k 0
unfolding resize replicate
resize-page k h =
    let e : k - length page ≡ 0 = omega (arith, length-replicate {A = ℕ} base_page_size 0) in
    rw (e, take-replicate k base_page_size 0 h) (append-nil (replicate k 0))

-- The new pages with the last one cut to `k` bytes.
bytes-set_last-pages :
    (n k : ℕ)
    → k ≤ base_page_size
    → bytes (set_last k (pages (suc n))) ≡ replicate (n * base_page_size + k) 0
unfolding replicate set_last
bytes-set_last-pages zero k h = rw (resize-page k h, zero-add k) (append-nil (replicate k 0))
bytes-set_last-pages (suc n) k h =
    let e : base_page_size + (n * base_page_size + k) ≡ suc n * base_page_size + k = omega arith in
    ap (◌++◌ page) (bytes-set_last-pages n k h)
    ∙ replicate-append base_page_size (n * base_page_size + k) 0
    ∙ ap (λ j. replicate j 0) e

resize-nil : resize [] base_page_size ≡ page
unfolding resize
resize-nil = refl

pages-suc : (n : ℕ) → page ∷ pages n ≡ pages (suc n)
unfolding replicate
pages-suc n = refl

pages-zero : pages zero ≡ []
unfolding replicate
pages-zero = refl

try_alloc_buffer-Gives : (h : Heap) → Gives h [] (try_alloc_buffer h)
unfolding try_alloc_buffer
try_alloc_buffer-Gives h = request-Gives (λ g. (ok [], g)) h (give-Gives _)

fill-Gives : (n : ℕ) (vec : List Buffer) (h : Heap) → Gives h (vec ++ pages n) (fill n vec h)
unfolding fill
fill-Gives zero vec h =
    let e : vec ++ pages zero ≡ vec = rw pages-zero (append-nil vec) in rw e (give-Gives vec h)
fill-Gives (suc n) vec h = Gives-bind try_alloc_buffer _ h (try_alloc_buffer-Gives h) λ g.
    request-Gives (fill n (vec ++ resize [] base_page_size ∷ [])) g λ g'.
      let e : (vec ++ page ∷ []) ++ pages n ≡ vec ++ pages (suc n) =
        append_assoc vec (page ∷ []) (pages n) ∙ ap (◌++◌ vec) (pages-suc n) in
      subst (λ l. Gives g' l (fill n (vec ++ resize [] base_page_size ∷ []) g')) e
        (rw resize-nil (fill-Gives n (vec ++ page ∷ []) g'))

pub ceil_lem :
    (r : ℕ)
    → 0 < r
    → (q : ℕ) × (ceil r base_page_size ≡ suc q)
      × (q * base_page_size < r)
      × (r ≤ suc q * base_page_size)
unfolding ceil
ceil_lem r h = ((r - 1) / base_page_size, ground arith, omega arith, omega arith)

pub resize_last-Gives :
    (n : ℕ) (b : Buffer) (m : List Buffer) (h : Heap)
    → Gives h (set_last n (b ∷ m)) (resize_last n (b ∷ m) h)
unfolding resize_last
resize_last-Gives n b m h = request-Gives (λ g. (ok (set_last n (b ∷ m)), g)) h (give-Gives _)

resize_last-pages :
    (k q : ℕ) (h : Heap) → Gives h (set_last k (pages (suc q))) (resize_last k (pages (suc q)) h)
resize_last-pages k q h = rw (← pages-suc q) (resize_last-Gives k page (pages q) h)

-- The new buffers hold the bytes that remain.
abbrev pub Holds : ℕ → List Buffer → Type 0
Holds r v = Chunks v × (bytes v ≡ replicate r 0)

module _ (new_len size s r q : ℕ) (sized : size ≡ s * base_page_size) (sum : size + r ≡ new_len)
    (low : q * base_page_size < r) (high : r ≤ suc q * base_page_size) (fits : new_len < word) where
  trim-Gives :
      (v : List Buffer) × ((h : Heap) → Gives h v (trim new_len (suc q) size (pages (suc q)) h))
      × Holds r v
  unfolding trim
  trim-Gives = elim (Bool-cases (new_len % base_page_size == 0)) [
    | inl whole ↦
        let e : suc q * base_page_size ≡ r = ground arith in
        (
          pages (suc q),
          λ h. rw whole (give-Gives _ h),
          (Chunks-pages (suc q), bytes-pages (suc q) ∙ ap (λ k. replicate k 0) e),
        )
    | inr cut ↦
        let k : ℕ = r - q * base_page_size in
        let e : sub64 new_len (size + (suc q - 1) * base_page_size) ≡ k = omega arith in
        let t : q * base_page_size + k ≡ r = omega arith in
        (
          set_last k (pages (suc q)),
          λ h. rw (cut, e) (resize_last-pages k q h),
          (
            Chunks-set_last k (pages (suc q)) (Chunks-pages (suc q)) (omega arith) (omega arith),
            bytes-set_last-pages q k (omega arith) ∙ ap (λ j. replicate j 0) t,
          ),
        )
  ]

  pub new_buffers_for-Gives :
      (v : List Buffer) × ((h : Heap) → Gives h v (new_buffers_for new_len (suc q) size h))
      × Holds r v
  unfolding new_buffers_for
  new_buffers_for-Gives =
      let (v, trimmed, held) = trim-Gives in
      (
        v,
        λ h. request-Gives _ h λ g. Gives-bind (fill (suc q) []) _ g (fill-Gives (suc q) [] g) λ g'.
            Gives-bind (trim new_len (suc q) size (pages (suc q))) _ g' (trimmed g')
              λ k. request-Gives (give v) k λ k'. give-Gives v k',
        held,
      )
