-- ===== src/Kpi/SystemOps.antt =====
-- `SystemOperation` of `lib/kpi/src/lib.rs`: the operations on the system, their numbers and their names.
use node_replicated_kernel.Prelude.{nat_eq, ℕ, ◌≡◌, refl, String, string_eq, [], ◌∷◌, arith}
use node_replicated_kernel.Kpi.Match.{match, Codec}

pub data SystemOperation : Type 0 where
  get_hardware_threads stats get_core_id unknown : SystemOperation

-- The discriminants; that of `Unknown` is the next one.
unfoldable pub code : SystemOperation → ℕ
code get_hardware_threads = 1
code stats = 2
code get_core_id = 3
code unknown = 4

-- The decoding of a number.
unfoldable pub from : ℕ → SystemOperation
from = match ((1, get_hardware_threads) ∷ (2, stats) ∷ (3, get_core_id) ∷ []) unknown

-- The decoding of a name.
unfoldable pub from_name : String → SystemOperation
from_name =
    match
      (("GetHardwareThreads", get_hardware_threads)
        ∷ ("Stats", stats)
        ∷ ("GetCoreID", get_core_id)
        ∷ [])
      unknown

-- The name of an operation.
abbrev pub name : SystemOperation → String
name get_hardware_threads = "GetHardwareThreads"
name stats = "Stats"
name get_core_id = "GetCoreID"
name unknown = "Unknown"

-- Numbers and names are decoded to what they stand for.
pub from-Codec : Codec from code unknown
unfolding from code match
from-Codec = record { back = back; known = λ n. ground arith }
  where
    back : (op : SystemOperation) → from (code op) ≡ op
    back get_hardware_threads = refl
    back stats = refl
    back get_core_id = refl
    back unknown = refl

pub from_name-name : (op : SystemOperation) → from_name (name op) ≡ op
unfolding from_name match
from_name-name get_hardware_threads = refl
from_name-name stats = refl
from_name-name get_core_id = refl
from_name-name unknown = refl
