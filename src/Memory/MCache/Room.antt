-- ===== src/Memory/MCache/Room.antt =====
-- What fits in a page cache of `kernel/src/memory/mcache.rs`, and what happens to the rest.
use node_replicated_kernel.Prelude.{
  ℕ, zero, suc, ◌+◌, ◌-◌, ◌*◌, ◌/◌, ◌<◌, ◌≤◌, ◌≡◌, refl, ap, ◌∙◌, List, [], ◌∷◌, map, length, take,
  min, max, All, leb, if◌then◌else◌, sub64, length-take, take-all, base_page_size, large_page_size,
  word, arith,
}
use node_replicated_kernel.Prelude.Outcome.{ok, err, cache_full}
use node_replicated_kernel.Memory.Frame.{Frame}
use node_replicated_kernel.Memory.Frame.Split.{IsFrame, to_boundary}
use node_replicated_kernel.Memory.ArrayVec.{ArrayVec}
use node_replicated_kernel.Memory.MCache.{MCache, grow_pages, spare_capacity, populate}
use node_replicated_kernel.Memory.MCache.Stack.{pushed, filled, addresses, divide, Division}
use node_replicated_kernel.Memory.MCache.Pages.{IsPage, IsSize, view-grow_pages}
use node_replicated_kernel.Memory.MCache.Spec.{Cache, divided}
use node_replicated_kernel.Memory.MCache.Refine.{contents, populate-divided}
use node_replicated_kernel.Memory.MCache.Held.{held, owned, inside, held-divide, held-pushed}

length-pushed : (xs s : List ℕ) → length (pushed xs s) ≡ length xs + length s
length-pushed [] s = omega arith
length-pushed (x ∷ xs) s = omega (arith, length-pushed xs (x ∷ s))

length-bases : (fs : List Frame) → length (map (λ f. f.base) fs) ≡ length fs
length-bases [] = refl
length-bases (f ∷ fs) = ap suc (length-bases fs)

length-addresses : (n b step : ℕ) → length (addresses n b step) ≡ n
length-addresses zero b step = refl
length-addresses (suc n) b step = ap suc (length-addresses n (b + step) step)

-- Pages given back are taken as long as there is room, and the call fails if there is more.
pub grow_pages-len :
    {cap : ℕ} (vec : ArrayVec cap) (size node : ℕ) (fs : List Frame) (v : vec.Vec)
    → IsSize size
    → All (IsPage size node) fs
    → cap < word
    → (let (r, w) = grow_pages vec size node fs v in
        let spare = spare_capacity vec size node v in
        (r ≡ (if leb (length fs) spare then ok tt else err cache_full))
        × (vec.len w ≡ vec.len v + min (length fs) spare))
unfolding spare_capacity
grow_pages-len {cap} vec size node fs v sz a small =
    let e = view-grow_pages vec size node sz fs v a in
    let bases : List ℕ = map (λ f. f.base) fs in
    let s : List ℕ = vec.items v in
    let spare : sub64 cap (vec.len v) ≡ cap - length s =
      omega (arith, vec.len-items v, vec.len-le v) in
    let w : vec.Vec = (grow_pages vec size node fs v).1 in
    let len_w : vec.len w ≡ length (filled cap bases s) =
      vec.len-items w ∙ ap (λ r. length r.1) e in
    (
      ap (λ r. r.0) e ∙ rw (length-bases fs, spare) refl,
      omega (
        arith,
        len_w,
        spare,
        vec.len-items v,
        length-pushed (take (cap - length s) bases) s,
        length-take (cap - length s) bases,
        length-bases fs,
      ),
    )

held-filled_room :
    (a size cap : ℕ) (xs s : List ℕ)
    → length xs + length s ≤ cap
    → (held a size (filled cap xs s) ≡ held a size xs + held a size s)
      × (length (filled cap xs s) ≡ length xs + length s)
held-filled_room a size cap xs s h =
    rw (take-all (cap - length s) xs (omega arith)) (held-pushed a size xs s, length-pushed xs s)

divided-owned :
    (a bp lp : ℕ) (f : Frame) (how_many : ℕ) (c : Cache)
    → IsFrame f
    → f.size / base_page_size + length c.bases ≤ bp
    → f.size / large_page_size + length c.larges ≤ lp
    → owned a (divided bp lp (divide f how_many) c) ≡ owned a c + inside f.size f.base a
divided-owned a bp lp f how_many c i small few =
    let d : Division = divide f how_many in
    let cut = min (to_boundary f.base) f.size in
    let k = min (max 1 how_many) ((f.size - cut) / large_page_size) in
    let rest = f.size - cut - k * large_page_size in
    let low_len : length d.low ≡ cut / base_page_size = length-addresses _ _ _ in
    let large_len : length d.large ≡ k = length-addresses _ _ _ in
    let high_len : length d.high ≡ rest / base_page_size = length-addresses _ _ _ in
    let (low, low_room) =
      held-filled_room a base_page_size bp d.low c.bases (omega (arith, low_len)) in
    let (high, high_room) =
      held-filled_room a base_page_size bp d.high (filled bp d.low c.bases)
        (omega (arith, low_len, low_room, high_len)) in
    let (large, large_room) =
      held-filled_room a large_page_size lp d.large c.larges (omega (arith, large_len)) in
    omega (arith, held-divide a f how_many i, low, high, large)

-- A frame that fits is in the cache after `populate`, all of it and nothing else.
pub populate-owned :
    {bp lp : ℕ} (base : ArrayVec bp) (large : ArrayVec lp) (f : Frame) (how_many : ℕ)
    (c : MCache base large)
    → IsFrame f
    → f.base + large_page_size < word
    → f.size / base_page_size + base.len c.base_page_addresses ≤ bp
    → f.size / large_page_size + large.len c.large_page_addresses ≤ lp
    → (d : MCache base large) × (populate base large f how_many c ≡ ok d)
      × ((a : ℕ)
          → owned a (contents base large d)
            ≡ owned a (contents base large c) + inside f.size f.base a)
populate-owned {bp} {lp} base large f how_many c i room small few =
    let (d, q, e) = populate-divided base large f how_many c i room in
    (
      d,
      q,
      λ a.
          ap (owned a) e
          ∙ divided-owned a bp lp f how_many (contents base large c) i
              (omega (arith, base.len-items c.base_page_addresses))
              (omega (arith, large.len-items c.large_page_addresses)),
    )
