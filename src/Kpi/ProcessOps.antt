-- ===== src/Kpi/ProcessOps.antt =====
-- `ProcessOperation` of `lib/kpi/src/lib.rs`: the operations on a process, their numbers and their names.
use node_replicated_kernel.Prelude.{nat_eq, ℕ, ◌≡◌, refl, String, string_eq, [], ◌∷◌, arith}
use node_replicated_kernel.Kpi.Match.{match, Codec}

pub data ProcessOperation : Type 0 where
  exit log get_vcpu_area allocate_vector subscribe_event get_process_info request_core
        allocate_physical unknown :
      ProcessOperation

-- The discriminants; that of `Unknown` is the next one.
unfoldable pub code : ProcessOperation → ℕ
code exit = 1
code log = 2
code get_vcpu_area = 3
code allocate_vector = 4
code subscribe_event = 5
code get_process_info = 6
code request_core = 7
code allocate_physical = 8
code unknown = 9

-- The decoding of a number.
unfoldable pub from : ℕ → ProcessOperation
from =
    match
      ((1, exit)
        ∷ (2, log)
        ∷ (3, get_vcpu_area)
        ∷ (4, allocate_vector)
        ∷ (5, subscribe_event)
        ∷ (6, get_process_info)
        ∷ (7, request_core)
        ∷ (8, allocate_physical)
        ∷ [])
      unknown

-- The decoding of a name.
unfoldable pub from_name : String → ProcessOperation
from_name =
    match
      (("Exit", exit)
        ∷ ("Log", log)
        ∷ ("GetVCpuArea", get_vcpu_area)
        ∷ ("AllocateVector", allocate_vector)
        ∷ ("SubscribeEvent", subscribe_event)
        ∷ ("GetProcessInfo", get_process_info)
        ∷ ("RequestCore", request_core)
        ∷ ("AllocatePhysical", allocate_physical)
        ∷ [])
      unknown

-- The name of an operation.
abbrev pub name : ProcessOperation → String
name exit = "Exit"
name log = "Log"
name get_vcpu_area = "GetVCpuArea"
name allocate_vector = "AllocateVector"
name subscribe_event = "SubscribeEvent"
name get_process_info = "GetProcessInfo"
name request_core = "RequestCore"
name allocate_physical = "AllocatePhysical"
name unknown = "Unknown"

-- Numbers and names are decoded to what they stand for.
pub from-Codec : Codec from code unknown
unfolding from code match
from-Codec = record { back = back; known = λ n. ground arith }
  where
    back : (op : ProcessOperation) → from (code op) ≡ op
    back exit = refl
    back log = refl
    back get_vcpu_area = refl
    back allocate_vector = refl
    back subscribe_event = refl
    back get_process_info = refl
    back request_core = refl
    back allocate_physical = refl
    back unknown = refl

pub from_name-name : (op : ProcessOperation) → from_name (name op) ≡ op
unfolding from_name match
from_name-name exit = refl
from_name-name log = refl
from_name-name get_vcpu_area = refl
from_name-name allocate_vector = refl
from_name-name subscribe_event = refl
from_name-name get_process_info = refl
from_name-name request_core = refl
from_name-name allocate_physical = refl
from_name-name unknown = refl
