-- ===== src/Memory/Tests.antt =====
-- The theorems on `kernel/src/memory` at small frames and address spaces.
use node_replicated_kernel.Prelude.{true, false, ◌≡◌, refl, [], ◌∷◌, arith}
use node_replicated_kernel.Prelude.Outcome.{ok}
use node_replicated_kernel.Memory.Frame.{Frame, into_iter}
use node_replicated_kernel.Memory.Frame.Split.{IsFrame, into_iter-page_list}
use node_replicated_kernel.Memory.Action.{read_user, read_write_user}
use node_replicated_kernel.Memory.Model.{ModelAddressSpace, map_frame, unmap, adjust}
use node_replicated_kernel.Memory.Action.Flags.{
  from_flags, to_pt_rights, told, from_flags-to_pt_rights,
}
use node_replicated_kernel.Memory.Model.Inv.{Inv}
use node_replicated_kernel.Memory.Model.Unmap.{Unmapped, unmap-Unmapped}
use node_replicated_kernel.Memory.Model.Adjust.{Adjusted, adjust-Adjusted}
use node_replicated_kernel.Memory.Model.Map.{MapFrame, map_frame-MapFrame}

abbrev two_pages : Frame
two_pages = record { base = 4096; size = 8192; affinity = 3 }

two_pages-IsFrame : IsFrame two_pages
two_pages-IsFrame = record { based = refl; sized = refl; ends = omega arith }

into_iter-page_list_example :
    into_iter two_pages
    ≡ ok (
        record { base = 4096; size = 4096; affinity = 3 }
        ∷ record { base = 8192; size = 4096; affinity = 3 }
        ∷ [])
into_iter-page_list_example = into_iter-page_list two_pages two_pages-IsFrame

abbrev one_mapping : ModelAddressSpace
one_mapping = record { vaddr = 4096; paddr = 4096; length = 4096; rights = read_user } ∷ []

one_mapping-Inv : Inv one_mapping
one_mapping-Inv = ((omega arith, omega arith), tt, tt)

map_frame-MapFrame_example :
    MapFrame one_mapping 8192 two_pages read_write_user
      (map_frame one_mapping 8192 two_pages read_write_user)
map_frame-MapFrame_example =
    map_frame-MapFrame one_mapping 8192 two_pages read_write_user one_mapping-Inv (omega arith)

unmap-Unmapped_example : Unmapped one_mapping 4096 (unmap one_mapping 4096)
unmap-Unmapped_example = unmap-Unmapped one_mapping 4096 one_mapping-Inv ((refl, refl), tt)

adjust-Adjusted_example :
    Adjusted one_mapping 4096 read_write_user (adjust one_mapping 4096 read_write_user)
adjust-Adjusted_example = adjust-Adjusted one_mapping 4096 read_write_user one_mapping-Inv

from_flags-to_pt_rights_example :
    from_flags
      (record (to_pt_rights read_user) { p = true; pwt = false; a = true; d = false; g = false })
    ≡ read_user
unfolding told
from_flags-to_pt_rights_example = from_flags-to_pt_rights read_user false true false false
