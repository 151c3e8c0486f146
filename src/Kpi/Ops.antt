-- ===== src/Kpi/Ops.antt =====
-- `FileOperation` of `lib/kpi/src/lib.rs`: the operations on files, their numbers and their names.
use node_replicated_kernel.Prelude.{nat_eq, ℕ, ◌≡◌, refl, String, string_eq, [], ◌∷◌, arith}
use node_replicated_kernel.Kpi.Match.{match, Codec}

pub data FileOperation : Type 0 where
  create open_file read read_at write write_at close get_info delete write_direct file_rename mk_dir
        unknown :
      FileOperation

-- The discriminants; that of `Unknown` is the next one.
unfoldable pub code : FileOperation → ℕ
code create = 1
code open_file = 2
code read = 3
code read_at = 4
code write = 5
code write_at = 6
code close = 7
code get_info = 8
code delete = 9
code write_direct = 10
code file_rename = 11
code mk_dir = 12
code unknown = 13

-- The decoding of a number.
unfoldable pub from : ℕ → FileOperation
from =
    match
      ((1, create)
        ∷ (2, open_file)
        ∷ (3, read)
        ∷ (4, read_at)
        ∷ (5, write)
        ∷ (6, write_at)
        ∷ (7, close)
        ∷ (8, get_info)
        ∷ (9, delete)
        ∷ (10, write_direct)
        ∷ (11, file_rename)
        ∷ (12, mk_dir)
        ∷ [])
      unknown

-- The decoding of a name.
unfoldable pub from_name : String → FileOperation
from_name =
    match
      (("Create", create)
        ∷ ("Open", open_file)
        ∷ ("Read", read)
        ∷ ("ReadAt", read_at)
        ∷ ("Write", write)
        ∷ ("WriteAt", write_at)
        ∷ ("Close", close)
        ∷ ("GetInfo", get_info)
        ∷ ("Delete", delete)
        ∷ ("WriteDirect", write_direct)
        ∷ ("Rename", file_rename)
        ∷ ("MkDir", mk_dir)
        ∷ [])
      unknown

-- The name of an operation.
abbrev pub name : FileOperation → String
name create = "Create"
name open_file = "Open"
name read = "Read"
name read_at = "ReadAt"
name write = "Write"
name write_at = "WriteAt"
name close = "Close"
name get_info = "GetInfo"
name delete = "Delete"
name write_direct = "WriteDirect"
name file_rename = "Rename"
name mk_dir = "MkDir"
name unknown = "Unknown"

-- Numbers and names are decoded to what they stand for.
pub from-Codec : Codec from code unknown
unfolding from code match
from-Codec = record { back = back; known = λ n. ground arith }
  where
    back : (op : FileOperation) → from (code op) ≡ op
    back create = refl
    back open_file = refl
    back read = refl
    back read_at = refl
    back write = refl
    back write_at = refl
    back close = refl
    back get_info = refl
    back delete = refl
    back write_direct = refl
    back file_rename = refl
    back mk_dir = refl
    back unknown = refl

pub from_name-name : (op : FileOperation) → from_name (name op) ≡ op
unfolding from_name match
from_name-name create = refl
from_name-name open_file = refl
from_name-name read = refl
from_name-name read_at = refl
from_name-name write = refl
from_name-name write_at = refl
from_name-name close = refl
from_name-name get_info = refl
from_name-name delete = refl
from_name-name write_direct = refl
from_name-name file_rename = refl
from_name-name mk_dir = refl
from_name-name unknown = refl
