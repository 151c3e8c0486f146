-- ===== src/Memory/MCache/Tests.antt =====
-- The theorems on `kernel/src/memory/mcache.rs` at a small cache, whose vectors are lists.
use node_replicated_kernel.Prelude.{
  ℕ, ◌+◌, ◌≤◌, ◌<◌, ◌≡◌, refl, Option, none, some, List, [], ◌∷◌, length, min, leb, if◌then◌else◌,
  inl, arith, All,
}
use mathlib.Core.Logic.{dite}
use native.Mathlib.Decide.{dec_lt}
use node_replicated_kernel.Prelude.Outcome.{ok, err, cache_full}
use node_replicated_kernel.Memory.Frame.{Frame}
use node_replicated_kernel.Memory.ArrayVec.{ArrayVec}
use node_replicated_kernel.Memory.MCache.{MCache, grow_pages, spare_capacity, populate}
use node_replicated_kernel.Memory.MCache.Spec.{
  Op, allocate_base, grow_base, reap_base, run, spec_run, IsOp,
}
use node_replicated_kernel.Memory.MCache.Refine.{contents, run-spec_run}
use node_replicated_kernel.Memory.MCache.Held.{
  handed_all, given_all, owned, inside, handed-le-given,
}
use node_replicated_kernel.Memory.Refill.{move_pages}
use node_replicated_kernel.Memory.Refill.Moved.{seen, moved, move_pages-moved}
use node_replicated_kernel.Memory.MCache.Room.{grow_pages-len, populate-owned}

module _ (cap : ℕ) where
  abbrev ListVec : Type 0
  ListVec = (s : List ℕ) × (length s ≤ cap)

  abbrev list_push : ListVec → ℕ → Option ListVec
  list_push (s, h) x = dite (dec_lt (length s) cap) (λ p. some (x ∷ s, p)) (λ _. none)

  abbrev list_pop : ListVec → Option (ℕ × ListVec)
  list_pop ([], h) = none
  list_pop (x ∷ s, h) = some (x, (s, omega arith))

  list_push-room :
      (v : ListVec) (x : ℕ)
      → length v.0 < cap
      → (w : ListVec) × (list_push v x ≡ some w) × (w.0 ≡ x ∷ v.0)
  list_push-room v x h = by_room (dec_lt (length v.0) cap)
    where
      by_room :
          (d : Dec (length v.0 < cap))
          → (w : ListVec) × (dite {C = Option ListVec} d (λ p. some (x ∷ v.0, p)) (λ _. none)
              ≡ some w)
            × (w.0 ≡ x ∷ v.0)
      by_room (yes p) = ((x ∷ v.0, p), refl, refl)
      by_room (no n) = absurd (n h)

  list_push-full : (v : ListVec) (x : ℕ) → cap ≤ length v.0 → list_push v x ≡ none
  list_push-full v x h = ground arith

  list_pop-nil : (v : ListVec) → v.0 ≡ [] → list_pop v ≡ none
  list_pop-nil ([], h) e = refl
  list_pop-nil (x ∷ s, h) e = cc

  list_pop-cons :
      (v : ListVec) (x : ℕ) (xs : List ℕ)
      → v.0 ≡ x ∷ xs
      → (w : ListVec) × (list_pop v ≡ some (x, w)) × (w.0 ≡ xs)
  list_pop-cons ([], h) x xs e = cc
  list_pop-cons (y ∷ s, h) x xs e =
      let a : y ≡ x = cc in let b : s ≡ xs = cc in ((s, omega arith), rw a refl, b)

abbrev list_vec : (cap : ℕ) → ArrayVec cap
list_vec cap = record {
  Vec = ListVec cap;
  new_const = ([], omega arith);
  len = λ v. length v.0;
  try_push = list_push cap;
  pop = list_pop cap;
  items = λ v. v.0;
  items-new_const = refl;
  len-items = λ v. refl;
  len-le = λ v. v.1;
  try_push-room = list_push-room cap;
  try_push-full = list_push-full cap;
  pop-nil = list_pop-nil cap;
  pop-cons = list_pop-cons cap;
}

-- Two base pages and one large page at most.
abbrev empty_cache : MCache (list_vec 2) (list_vec 1)
empty_cache = record {
  node = 7;
  base_page_addresses = ([], omega arith);
  large_page_addresses = ([], omega arith);
}

abbrev base_frame : ℕ → Frame
base_frame base = record { base = base; size = 4096; affinity = 7 }

abbrev some_ops : List Op
some_ops =
    grow_base (base_frame 8192 ∷ base_frame 4096 ∷ base_frame 12288 ∷ [])
    ∷ allocate_base
    ∷ reap_base (none ∷ none ∷ [])
    ∷ allocate_base
    ∷ []

some_ops-IsOp : All (IsOp 7) some_ops
some_ops-IsOp =
    (((refl, refl, refl), ((refl, refl, refl), ((refl, refl, refl), tt))), (tt, (tt, (tt, tt))))

run-spec_run_example :
    run (list_vec 2) (list_vec 1) some_ops empty_cache
    ≡ spec_run 2 1 some_ops (contents (list_vec 2) (list_vec 1) empty_cache)
run-spec_run_example =
    run-spec_run (list_vec 2) (list_vec 1) some_ops empty_cache (tt, tt) some_ops-IsOp

handed-le-given_example :
    handed_all 4097 (run (list_vec 2) (list_vec 1) some_ops empty_cache)
    ≤ owned 4097 (contents (list_vec 2) (list_vec 1) empty_cache) + given_all 4097 some_ops
handed-le-given_example =
    handed-le-given (list_vec 2) (list_vec 1) some_ops empty_cache (tt, tt) some_ops-IsOp 4097

grow_pages-len_example :
    (let (r, w) =
        grow_pages (list_vec 1) 4096 7 (base_frame 4096 ∷ base_frame 8192 ∷ []) ([], omega arith) in
      let spare = spare_capacity (list_vec 1) 4096 7 ([], omega arith) in
      (r ≡ (if leb 2 spare then ok tt else err cache_full))
      × ((list_vec 1).len w ≡ 0 + min 2 spare))
grow_pages-len_example =
    grow_pages-len (list_vec 1) 4096 7 (base_frame 4096 ∷ base_frame 8192 ∷ []) ([], omega arith)
      (inl refl) ((refl, refl, refl), ((refl, refl, refl), tt)) (omega arith)

abbrev frame_2m : Frame
frame_2m = record { base = 2093056; size = 2101248; affinity = 7 }

abbrev wide_cache : MCache (list_vec 600) (list_vec 1)
wide_cache = record {
  node = 7;
  base_page_addresses = ([], omega arith);
  large_page_addresses = ([], omega arith);
}

populate-owned_example :
    (d : MCache (list_vec 600) (list_vec 1)) × (populate
        (list_vec 600)
        (list_vec 1)
        frame_2m
        1
        wide_cache
      ≡ ok d)
    × ((a : ℕ)
        → owned a (contents (list_vec 600) (list_vec 1) d)
          ≡ owned a (contents (list_vec 600) (list_vec 1) wide_cache) + inside 2101248 2093056 a)
populate-owned_example =
    populate-owned (list_vec 600) (list_vec 1) frame_2m 1 wide_cache
      (record { based = refl; sized = refl; ends = omega arith }) (omega arith) (omega arith)
      (omega arith)

-- Three pages of the node, and a core that has one.
abbrev three_pages : (list_vec 4).Vec
three_pages = (4096 ∷ 8192 ∷ 12288 ∷ [], omega arith)

abbrev one_page : (list_vec 3).Vec
one_page = (16384 ∷ [], omega arith)

move_pages-moved_example :
    seen
      (list_vec 4)
      (list_vec 3)
      4096
      7
      (inl refl)
      (move_pages (list_vec 4) (list_vec 3) 4096 7 7 2 (three_pages, one_page))
    ≡ moved (list_vec 4) (list_vec 3) 4096 7 (inl refl) 2 (4096 ∷ 8192 ∷ 12288 ∷ []) (16384 ∷ [])
move_pages-moved_example =
    move_pages-moved (list_vec 4) (list_vec 3) 4096 7 (inl refl) 2 three_pages one_page
      (4096 ∷ 8192 ∷ 12288 ∷ []) refl (refl, (refl, (refl, tt))) (omega arith)
