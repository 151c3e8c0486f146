-- ===== src/Memory/Refill/Sizes.antt =====
-- The pages that `size_to_pages` of `kernel/src/memory/mod.rs` counts.
use node_replicated_kernel.Prelude.{ℕ, ◌+◌, ◌*◌, ◌<◌, ◌≤◌, base_page_size, large_page_size, arith}
use node_replicated_kernel.Memory.Refill.{size_to_pages}

-- The pages that are counted for a size hold it, with less than a base page to spare, the base pages
-- do not hold more than a large page, and no page is counted for no bytes.
pub size_to_pages-bounds :
    (size : ℕ)
    → (let (bp, lp) = size_to_pages size in
        (size ≤ bp * base_page_size + lp * large_page_size)
        × (bp * base_page_size + lp * large_page_size < size + base_page_size)
        × (bp * base_page_size ≤ large_page_size)
        × (0 < bp * base_page_size + lp * large_page_size → 0 < size))
unfolding size_to_pages
size_to_pages-bounds size = (ground arith, ground arith, ground arith, λ h. ground (arith, h))
