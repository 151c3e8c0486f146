-- ===== src/Kpi/SystemCalls.antt =====
-- `SystemCall` of `lib/kpi/src/lib.rs`: the kinds of system calls, their numbers and their names.
use node_replicated_kernel.Prelude.{nat_eq, ℕ, ◌≡◌, refl, String, string_eq, [], ◌∷◌, arith}
use node_replicated_kernel.Kpi.Match.{match, Codec}

pub data SystemCall : Type 0 where
  system process vspace file_io unknown : SystemCall

-- The discriminants; that of `Unknown` is the next one.
unfoldable pub code : SystemCall → ℕ
code system = 1
code process = 2
code vspace = 3
code file_io = 4
code unknown = 5

-- The decoding of a number.
unfoldable pub from : ℕ → SystemCall
from = match ((1, system) ∷ (2, process) ∷ (3, vspace) ∷ (4, file_io) ∷ []) unknown

-- The decoding of a name.
unfoldable pub from_name : String → SystemCall
from_name =
    match
      (("System", system) ∷ ("Process", process) ∷ ("VSpace", vspace) ∷ ("FileIO", file_io) ∷ [])
      unknown

-- The name of an operation.
abbrev pub name : SystemCall → String
name system = "System"
name process = "Process"
name vspace = "VSpace"
name file_io = "FileIO"
name unknown = "Unknown"

-- Numbers and names are decoded to what they stand for.
pub from-Codec : Codec from code unknown
unfolding from code match
from-Codec = record { back = back; known = λ n. ground arith }
  where
    back : (op : SystemCall) → from (code op) ≡ op
    back system = refl
    back process = refl
    back vspace = refl
    back file_io = refl
    back unknown = refl

pub from_name-name : (op : SystemCall) → from_name (name op) ≡ op
unfolding from_name match
from_name-name system = refl
from_name-name process = refl
from_name-name vspace = refl
from_name-name file_io = refl
from_name-name unknown = refl
