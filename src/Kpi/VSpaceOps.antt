-- ===== src/Kpi/VSpaceOps.antt =====
-- `VSpaceOperation` of `lib/kpi/src/lib.rs`: the operations on an address space, their numbers and their names.
use node_replicated_kernel.Prelude.{nat_eq, ℕ, ◌≡◌, refl, String, string_eq, [], ◌∷◌, arith}
use node_replicated_kernel.Kpi.Match.{match, Codec}

pub data VSpaceOperation : Type 0 where
  map_mem unmap_mem map_device map_mem_frame identify map_pmem unmap_pmem unknown : VSpaceOperation

-- The discriminants; that of `Unknown` is the next one.
unfoldable pub code : VSpaceOperation → ℕ
code map_mem = 1
code unmap_mem = 2
code map_device = 3
code map_mem_frame = 4
code identify = 5
code map_pmem = 6
code unmap_pmem = 7
code unknown = 8

-- The decoding of a number.
unfoldable pub from : ℕ → VSpaceOperation
from =
    match
      ((1, map_mem)
        ∷ (2, unmap_mem)
        ∷ (3, map_device)
        ∷ (4, map_mem_frame)
        ∷ (5, identify)
        ∷ (6, map_pmem)
        ∷ (7, unmap_pmem)
        ∷ [])
      unknown

-- The decoding of a name.
unfoldable pub from_name : String → VSpaceOperation
from_name =
    match
      (("MapMem", map_mem)
        ∷ ("UnmapMem", unmap_mem)
        ∷ ("MapDevice", map_device)
        ∷ ("MapMemFrame", map_mem_frame)
        ∷ ("Identify", identify)
        ∷ ("MapPMem", map_pmem)
        ∷ ("UnmapPMem", unmap_pmem)
        ∷ [])
      unknown

-- The name of an operation.
abbrev pub name : VSpaceOperation → String
name map_mem = "MapMem"
name unmap_mem = "UnmapMem"
name map_device = "MapDevice"
name map_mem_frame = "MapMemFrame"
name identify = "Identify"
name map_pmem = "MapPMem"
name unmap_pmem = "UnmapPMem"
name unknown = "Unknown"

-- Numbers and names are decoded to what they stand for.
pub from-Codec : Codec from code unknown
unfolding from code match
from-Codec = record { back = back; known = λ n. ground arith }
  where
    back : (op : VSpaceOperation) → from (code op) ≡ op
    back map_mem = refl
    back unmap_mem = refl
    back map_device = refl
    back map_mem_frame = refl
    back identify = refl
    back map_pmem = refl
    back unmap_pmem = refl
    back unknown = refl

pub from_name-name : (op : VSpaceOperation) → from_name (name op) ≡ op
unfolding from_name match
from_name-name map_mem = refl
from_name-name unmap_mem = refl
from_name-name map_device = refl
from_name-name map_mem_frame = refl
from_name-name identify = refl
from_name-name map_pmem = refl
from_name-name unmap_pmem = refl
from_name-name unknown = refl
