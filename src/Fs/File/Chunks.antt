-- ===== src/Fs/File/Chunks.antt =====
-- The shape of the buffers of a file of `kernel/src/fs/file.rs`: all but the last are full, and
-- none is empty. The bytes of the file are those of its buffers in a row.
use node_replicated_kernel.Prelude.{
  ℕ, zero, suc, ◌+◌, ◌-◌, ◌*◌, ◌≤◌, ◌<◌, ◌≡◌, refl, sym, ap, ◌∙◌, ◌⊎◌, inl, inr, List, [], ◌∷◌,
  ◌++◌, append_assoc, append-nil, some, length, get_elem?, set, take, replicate, length-replicate,
  length-append, length-take, base_page_size, take-all, arith,
}
use node_replicated_kernel.Fs.File.{Buffer, File, resize, last_len, set_last}

abbrev pub bytes : List Buffer → List ℕ
bytes [] = []
bytes (b ∷ m) = b ++ bytes m

abbrev pub Chunks : List Buffer → Type 0
Chunks [] = Unit
Chunks (b ∷ []) = (0 < length b) × (length b ≤ base_page_size)
Chunks (b ∷ c ∷ m) = (length b ≡ base_page_size) × Chunks (c ∷ m)

abbrev pub Full : List Buffer → Type 0
Full [] = Unit
Full (b ∷ m) = (length b ≡ base_page_size) × Full m

-- A well-formed file.
abbrev pub IsValid : File → Type 0
IsValid f = Chunks f.mcache

pub bytes-append : (a b : List Buffer) → bytes (a ++ b) ≡ bytes a ++ bytes b
bytes-append [] b = refl
bytes-append (x ∷ a) b = ap (◌++◌ x) (bytes-append a b) ∙ sym (append_assoc x (bytes a) (bytes b))

pub length-bytes-Full : (m : List Buffer) → Full m → length (bytes m) ≡ length m * base_page_size
length-bytes-Full [] v = omega arith
length-bytes-Full (b ∷ m) v = omega (arith, length-append b (bytes m), length-bytes-Full m v.1)

pub Chunks-append : (a b : List Buffer) → Full a → Chunks b → Chunks (a ++ b)
Chunks-append [] b v w = w
Chunks-append (x ∷ []) [] v w = omega (arith, v.0)
Chunks-append (x ∷ []) (y ∷ b) v w = (v.0, w)
Chunks-append (x ∷ y ∷ a) b v w = (v.0, Chunks-append (y ∷ a) b v.1 w)

-- The bytes are counted by the length of the list and the last buffer.
pub length-bytes :
    (b : Buffer) (m : List Buffer)
    → Chunks (b ∷ m)
    → length (bytes (b ∷ m)) ≡ length m * base_page_size + last_len (b ∷ m)
length-bytes b [] v = omega (arith, length-append b [])
length-bytes b (c ∷ m) v = omega (arith, length-append b (bytes (c ∷ m)), length-bytes c m v.1, v.0)

pub last_len_bounds :
    (b : Buffer) (m : List Buffer)
    → Chunks (b ∷ m)
    → (0 < last_len (b ∷ m)) × (last_len (b ∷ m) ≤ base_page_size)
last_len_bounds b [] v = v
last_len_bounds b (c ∷ m) v = last_len_bounds c m v.1

pub take-replicate : (k n a : ℕ) → k ≤ n → take k (replicate n a) ≡ replicate k a
unfolding replicate
take-replicate zero n a h = refl
take-replicate (suc k) zero a h = absurd (omega arith)
take-replicate (suc k) (suc n) a h = ap (◌∷◌ a) (take-replicate k n a (omega arith))

pub resize-grow : (b : Buffer) (n : ℕ) → resize b (length b + n) ≡ b ++ replicate n 0
unfolding resize
resize-grow b n =
    let e : length b + n - length b ≡ n = omega arith in
    rw (e, take-all (length b + n) b (omega arith))

pub length-resize : (b : Buffer) (n : ℕ) → length (resize b n) ≡ n
unfolding resize
length-resize b n = omega (
  arith,
  length-append (take n b) (replicate (n - length b) 0),
  length-take n b,
  length-replicate {A = ℕ} (n - length b) 0,
)

-- The last buffer grows by `n` zeros.
pub bytes-set_last :
    (b : Buffer) (m : List Buffer) (n : ℕ)
    → bytes (set_last (last_len (b ∷ m) + n) (b ∷ m)) ≡ bytes (b ∷ m) ++ replicate n 0
unfolding set_last
bytes-set_last b [] n = rw (resize-grow b n, append-nil b) (append-nil (b ++ replicate n 0))
bytes-set_last b (c ∷ m) n =
    ap (◌++◌ b) (bytes-set_last c m n) ∙ sym (append_assoc b (bytes (c ∷ m)) (replicate n 0))

pub Chunks-set_last :
    (n : ℕ) (m : List Buffer) → Chunks m → 0 < n → n ≤ base_page_size → Chunks (set_last n m)
unfolding set_last
Chunks-set_last n [] v p q = tt
Chunks-set_last n (b ∷ []) v p q = omega (arith, length-resize b n)
Chunks-set_last n (b ∷ c ∷ []) v p q = (v.0, Chunks-set_last n (c ∷ []) v.1 p q)
Chunks-set_last n (b ∷ c ∷ d ∷ m) v p q = (v.0, Chunks-set_last n (c ∷ d ∷ m) v.1 p q)

pub Full-set_last : (m : List Buffer) → Chunks m → Full (set_last base_page_size m)
unfolding set_last
Full-set_last [] v = tt
Full-set_last (b ∷ []) v = (length-resize b base_page_size, tt)
Full-set_last (b ∷ c ∷ m) v = (v.0, Full-set_last (c ∷ m) v.1)

-- A position of the file lies in a buffer, which is full or the last.
pub get_elem?-Chunks :
    (m : List Buffer) (i o : ℕ)
    → Chunks m
    → o < base_page_size
    → i * base_page_size + o < length (bytes m)
    → (b : Buffer) × (get_elem? m i ≡ some b)
      × ((length b ≡ base_page_size) ⊎ (i * base_page_size + length b ≡ length (bytes m)))
get_elem?-Chunks [] i o v h k = absurd (omega arith)
get_elem?-Chunks (b ∷ []) zero o v h k = (b, refl, inr (omega (arith, length-append b [])))
get_elem?-Chunks (b ∷ []) (suc i) o v h k = absurd (omega (arith, length-append b []))
get_elem?-Chunks (b ∷ c ∷ m) zero o v h k = (b, refl, inl v.0)
get_elem?-Chunks (b ∷ c ∷ m) (suc i) o v h k =
    let total = length-append b (bytes (c ∷ m)) in
    let (d, e, full) = get_elem?-Chunks (c ∷ m) i o v.1 h (omega (arith, total, v.0)) in
    (d, e, elim full [ inl p ↦ inl p | inr p ↦ inr (omega (arith, total, v.0)) ])

pub Chunks-set :
    (m : List Buffer) (i : ℕ) (b d : Buffer)
    → get_elem? m i ≡ some b
    → length d ≡ length b
    → Chunks m
    → Chunks (set m i d)
Chunks-set [] i b d e l v = tt
Chunks-set (x ∷ []) zero b d e l v = ground arith
Chunks-set (x ∷ []) (suc i) b d e l v = v
Chunks-set (x ∷ y ∷ m) zero b d e l v = (ground arith, v.1)
Chunks-set (x ∷ y ∷ m) (suc zero) b d e l v = (v.0, Chunks-set (y ∷ m) zero b d e l v.1)
Chunks-set (x ∷ y ∷ m) (suc (suc i)) b d e l v = (v.0, Chunks-set (y ∷ m) (suc i) b d e l v.1)
