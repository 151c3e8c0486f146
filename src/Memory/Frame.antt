-- ===== src/Memory/Frame.antt =====
-- `Frame` of `kernel/src/memory/mod.rs`: a block of physical memory, and its splits.
pub mod Split
use node_replicated_kernel.Prelude.{
  ℕ, zero, suc, ◌+◌, ◌-◌, ◌*◌, ◌/◌, ◌%◌, List, [], ◌∷◌, ltb, leb, ◌==◌, ◌&&◌, if◌then◌else◌, add64,
  sub64, base_page_size, large_page_size, Option, none, some,
}
use node_replicated_kernel.Prelude.Outcome.{Outcome, ok, err, panic, stuck, and_then}

pub record Frame : Type 0 where
  pub base : ℕ
  pub size : ℕ
  pub affinity : ℕ

abbrev pub empty : Frame
empty = record { base = 0; size = 0; affinity = 0 }

-- `Frame::new`: both numbers are multiples of the page size, or it panics.
unfoldable pub new : ℕ → ℕ → ℕ → Outcome Frame
new base size node =
    if (base % base_page_size == 0) && (size % base_page_size == 0)
    then ok (record { base = base; size = size; affinity = node })
    else panic

-- `Frame::split_at`: `low` and `high`.
pub split_at : Frame → ℕ → Outcome (Frame × Frame)
split_at f size =
    let halves = and_then (new f.base size f.affinity) λ low.
      and_then (new (add64 f.base size) (sub64 f.size size) f.affinity) λ high. ok (low, high) in
    if size % base_page_size == 0
    then (if leb f.size size then ok (f, empty) else halves)
    else panic

-- `round_up!`.
abbrev pub round_up : ℕ → ℕ → ℕ
round_up num multiple = (sub64 (add64 num multiple) 1 / multiple) * multiple

pub split_at_nearest_large_page_boundary : Frame → Outcome (Frame × Frame)
split_at_nearest_large_page_boundary f =
    let cut = split_at f (sub64 (round_up f.base large_page_size) f.base) in
    if f.base % large_page_size == 0 then ok (empty, f) else cut

abbrev pub base_pages : Frame → ℕ
base_pages f = f.size / base_page_size

abbrev pub end : Frame → ℕ
end f = add64 f.base f.size

-- `IntoBasePageIter::next`: the page, if there is one, and the frame that the iterator keeps.
unfoldable pub next : Frame → Outcome (Option Frame × Frame)
next f =
    let cut = and_then (split_at f base_page_size) λ s. ok (some s.0, s.1) in
    if ltb base_page_size f.size
    then cut
    else (if f.size == base_page_size then ok (some f, empty) else ok (none, f))

-- The pages one by one, in `fuel` calls of `next`.
pub pages : ℕ → Frame → Outcome (List Frame)
pages zero f = if ltb f.size base_page_size then ok [] else stuck
pages (suc fuel) f =
    and_then (next f) λ s. elim s.0 [
      | none ↦ ok []
      | some page ↦ and_then (pages fuel s.1) λ rest. ok (page ∷ rest)
    ]

-- `into_iter`, all of it.
pub into_iter : Frame → Outcome (List Frame)
into_iter f = pages (base_pages f) f
