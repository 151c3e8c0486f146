-- ===== src/Memory/Emergency/Tests.antt =====
-- The theorem on `kernel/src/memory/emem.rs` at a region of three pages.
use node_replicated_kernel.Prelude.{refl, [], ◌∷◌, arith}
use node_replicated_kernel.Memory.Frame.{Frame}
use node_replicated_kernel.Memory.Emergency.{allocate_all}
use node_replicated_kernel.Memory.Emergency.Taken.{
  AllTaken, InOrder, AllApart, allocate_all-InOrder,
}

abbrev three_pages : Frame
three_pages = record { base = 16384; size = 12288; affinity = 0 }

allocate_all-InOrder_example :
    AllTaken ((100, 8) ∷ (5000, 8) ∷ (1, 1) ∷ []) (record { region = three_pages })
    × InOrder 16384 28672
        (allocate_all ((100, 8) ∷ (5000, 8) ∷ (1, 1) ∷ []) (record { region = three_pages }))
    × AllApart (allocate_all ((100, 8) ∷ (5000, 8) ∷ (1, 1) ∷ []) (record { region = three_pages }))
allocate_all-InOrder_example =
    allocate_all-InOrder ((100, 8) ∷ (5000, 8) ∷ (1, 1) ∷ []) three_pages
      (record { based = refl; sized = refl; ends = omega arith })
      (omega arith, (omega arith, omega arith))
