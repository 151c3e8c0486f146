-- ===== src/Memory/MCache/Spec.antt =====
-- A page cache of `kernel/src/memory/mcache.rs` as its clients see it: its operations in any order,
-- and what each returns, over the vectors and over the lists of the addresses in them.
use node_replicated_kernel.Prelude.{
  ℕ, ◌+◌, ◌-◌, ◌*◌, ◌/◌, ◌<◌, ltb, if◌then◌else◌, Option, List, [], ◌∷◌, map, All, base_page_size,
  large_page_size, word,
}
use node_replicated_kernel.Prelude.Outcome.{Outcome, ok, err, panic, stuck}
use node_replicated_kernel.Memory.Frame.{Frame}
use node_replicated_kernel.Memory.Frame.Split.{IsFrame}
use node_replicated_kernel.Memory.ArrayVec.{ArrayVec}
use node_replicated_kernel.Memory.MCache.{
  MCache, populate_4k_first, populate_2m_first, allocate_base_page, release_base_page,
  allocate_large_page, release_large_page, grow_base_pages, grow_large_pages, reap_base_pages,
  reap_large_pages,
}
use node_replicated_kernel.Memory.MCache.Stack
use node_replicated_kernel.Memory.MCache.Stack.{filled, divide}
use node_replicated_kernel.Memory.MCache.Pages.{Aligned, IsPage}

pub data Op : Type 0 where
  allocate_base allocate_large : Op
  release_base release_large : Frame → Op
  grow_base grow_large : List Frame → Op
  reap_base reap_large : List (Option Frame) → Op
  populate_4k populate_2m : Frame → Op

pub data Reply : Type 0 where
  frame : Outcome Frame → Reply
  done : Outcome (Unit {0}) → Reply
  slots : Outcome (List (Option Frame)) → Reply

abbrev pub replied : {S A : Type 0} → (Outcome A → Reply) → Outcome A × S → Reply × S
replied f r = (f r.0, r.1)

-- A function that changes the cache and returns nothing; after a panic nobody looks at it.
abbrev pub settled : {S : Type 0} → S → Outcome S → Reply × S
settled c (ok d) = (done (ok tt), d)
settled c (err e) = (done (err e), c)
settled c panic = (done panic, c)
settled c stuck = (done stuck, c)

module _ {bp lp : ℕ} (base : ArrayVec bp) (large : ArrayVec lp) where
  unfoldable pub step : Op → MCache base large → Reply × MCache base large
  step allocate_base c = replied frame (allocate_base_page base large c)
  step allocate_large c = replied frame (allocate_large_page base large c)
  step (release_base f) c = replied done (release_base_page base large f c)
  step (release_large f) c = replied done (release_large_page base large f c)
  step (grow_base fs) c = replied done (grow_base_pages base large fs c)
  step (grow_large fs) c = replied done (grow_large_pages base large fs c)
  step (reap_base ss) c = replied slots (reap_base_pages base large ss c)
  step (reap_large ss) c = replied slots (reap_large_pages base large ss c)
  step (populate_4k f) c = settled c (populate_4k_first base large f c)
  step (populate_2m f) c = settled c (populate_2m_first base large f c)

  unfoldable pub run : List Op → MCache base large → List Reply
  run [] c = []
  run (op ∷ ops) c = let (r, d) = step op c in r ∷ run ops d

-- The addresses that a cache holds.
pub record Cache : Type 0 where
  pub node : ℕ
  pub bases : List ℕ
  pub larges : List ℕ

abbrev pub on_bases : {A : Type 0} → Cache → Outcome A × List ℕ → Outcome A × Cache
on_bases c r = (r.0, record c { bases = r.1 })

abbrev pub on_larges : {A : Type 0} → Cache → Outcome A × List ℕ → Outcome A × Cache
on_larges c r = (r.0, record c { larges = r.1 })

abbrev pub divided : ℕ → ℕ → Stack.Division → Cache → Cache
divided bp lp d c = record c {
  bases = filled bp d.high (filled bp d.low c.bases);
  larges = filled lp d.large c.larges;
}

-- The large pages in what is left of a frame once the base pages are full.
abbrev pub beyond : ℕ → Frame → ℕ
beyond bp f =
    let pages = f.size / base_page_size in
    if ltb bp pages then (pages - bp) * base_page_size / large_page_size else 1

-- What each operation promises, of caches of `bp` base and `lp` large pages.
module _ (bp lp : ℕ) where
  abbrev pub spec_step : Op → Cache → Reply × Cache
  spec_step allocate_base c =
      replied frame (on_bases c (Stack.allocate base_page_size c.node c.bases))
  spec_step allocate_large c =
      replied frame (on_larges c (Stack.allocate large_page_size c.node c.larges))
  spec_step (release_base f) c = replied done (on_bases c (Stack.release bp (f.base ∷ []) c.bases))
  spec_step (release_large f) c =
      replied done (on_larges c (Stack.release lp (f.base ∷ []) c.larges))
  spec_step (grow_base fs) c =
      replied done (on_bases c (Stack.release bp (map (λ f. f.base) fs) c.bases))
  spec_step (grow_large fs) c =
      replied done (on_larges c (Stack.release lp (map (λ f. f.base) fs) c.larges))
  spec_step (reap_base ss) c =
      replied slots (on_bases c (Stack.reap base_page_size c.node ss c.bases))
  spec_step (reap_large ss) c =
      replied slots (on_larges c (Stack.reap large_page_size c.node ss c.larges))
  spec_step (populate_4k f) c = (done (ok tt), divided bp lp (divide f (beyond bp f)) c)
  spec_step (populate_2m f) c =
      (done (ok tt), divided bp lp (divide f (f.size / large_page_size * 87 / 100)) c)

  unfoldable pub spec_run : List Op → Cache → List Reply
  spec_run [] c = []
  spec_run (op ∷ ops) c = let (r, d) = spec_step op c in r ∷ spec_run ops d

-- The calls that the assertions of the source admit, and frames that end below the last word.
abbrev pub IsOp : ℕ → Op → Type 0
IsOp node (release_base f) = IsPage base_page_size node f
IsOp node (release_large f) = IsPage large_page_size node f
IsOp node (grow_base fs) = All (IsPage base_page_size node) fs
IsOp node (grow_large fs) = All (IsPage large_page_size node) fs
IsOp node (populate_4k f) = IsFrame f × (f.base + large_page_size < word)
IsOp node (populate_2m f) = IsFrame f × (f.base + large_page_size < word)
IsOp node _ = Unit

-- Every address is that of a page.
abbrev pub IsAligned : Cache → Type 0
IsAligned c = All (Aligned base_page_size) c.bases × All (Aligned large_page_size) c.larges
